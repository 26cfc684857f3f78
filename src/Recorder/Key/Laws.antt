-- ===== src/Recorder/Key/Laws.antt =====
-- The borrowed view of a key stands for the key itself: matching, hashing and conversion.
use php_analyze.Prelude.{◌≡◌, refl, ◌↔◌, true, arith}
use php_analyze.Prelude.Text.{text_eq_iff}
use php_analyze.Recorder.Key.{
  FunctionKey, FunctionKeyRef, hash_key, hash_ref, matches_ref, as_ref, to_owned,
}

pub to_owned-as_ref : (k : FunctionKey) → to_owned (as_ref k) ≡ k
unfolding to_owned as_ref
to_owned-as_ref (FunctionKey.function f n l) = refl
to_owned-as_ref (FunctionKey.method c m) = refl
to_owned-as_ref (FunctionKey.closure f l) = refl
to_owned-as_ref (FunctionKey.internal n) = refl

pub as_ref-to_owned : (r : FunctionKeyRef) → as_ref (to_owned r) ≡ r
unfolding to_owned as_ref
as_ref-to_owned (FunctionKeyRef.function f n l) = refl
as_ref-to_owned (FunctionKeyRef.method c m) = refl
as_ref-to_owned (FunctionKeyRef.closure f l) = refl
as_ref-to_owned (FunctionKeyRef.internal n) = refl

pub matches_ref_sound :
    (k : FunctionKey) (r : FunctionKeyRef) → matches_ref k r ≡ true → k ≡ to_owned r
unfolding matches_ref to_owned
matches_ref_sound (FunctionKey.function f n l) (FunctionKeyRef.function f' n' l') h =
    ground (arith, text_eq_iff f f', text_eq_iff n n')
matches_ref_sound (FunctionKey.method f n) (FunctionKeyRef.method f' n') h =
    ground (arith, text_eq_iff f f', text_eq_iff n n')
matches_ref_sound (FunctionKey.closure f l) (FunctionKeyRef.closure f' l') h =
    ground (arith, text_eq_iff f f')
matches_ref_sound (FunctionKey.internal f) (FunctionKeyRef.internal f') h =
    ground (arith, text_eq_iff f f')
matches_ref_sound _ _ h = cc

pub matches_ref_self : (r : FunctionKeyRef) → matches_ref (to_owned r) r ≡ true
unfolding matches_ref to_owned
matches_ref_self (FunctionKeyRef.function f n l) = ground (arith, text_eq_iff f f, text_eq_iff n n)
matches_ref_self (FunctionKeyRef.method f n) = ground (arith, text_eq_iff f f, text_eq_iff n n)
matches_ref_self (FunctionKeyRef.closure f l) = ground (arith, text_eq_iff f f)
matches_ref_self (FunctionKeyRef.internal f) = ground (arith, text_eq_iff f f)

-- The predicate of the borrow-keyed probe accepts exactly the key that the view stands for.
pub matches_ref_iff :
    (k : FunctionKey) (r : FunctionKeyRef) → (matches_ref k r ≡ true) ↔ (k ≡ to_owned r)
matches_ref_iff k r = (matches_ref_sound k r, λ e. rw e (matches_ref_self r))

-- An owning key made from a borrowed view writes the same bytes to the hasher as the view.
pub hash_key-to_owned : (r : FunctionKeyRef) → hash_key (to_owned r) ≡ hash_ref r
unfolding hash_key hash_ref to_owned
hash_key-to_owned (FunctionKeyRef.function f n l) = refl
hash_key-to_owned (FunctionKeyRef.method f n) = refl
hash_key-to_owned (FunctionKeyRef.closure f l) = refl
hash_key-to_owned (FunctionKeyRef.internal f) = refl

-- What two keys write to the hasher tells them apart: the stream determines the key.
pub hash_key-injective : (k j : FunctionKey) → hash_key k ≡ hash_key j → k ≡ j
unfolding hash_key
hash_key-injective (FunctionKey.function f n l) (FunctionKey.function f' n' l') h = ground arith
hash_key-injective (FunctionKey.method f n) (FunctionKey.method f' n') h = ground arith
hash_key-injective (FunctionKey.closure f l) (FunctionKey.closure f' l') h = ground arith
hash_key-injective (FunctionKey.internal f) (FunctionKey.internal f') h = ground arith
hash_key-injective _ _ h = ground arith
