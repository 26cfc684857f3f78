-- ===== src/Recorder/Dictionary/Numbers.antt =====
-- The numbers of a valid dictionary stand for functions, one each.
use php_analyze.Prelude.{
  ℕ, ◌≡◌, sym, ◌∙◌, Option, none, some, List, [], ◌∷◌, Bool, In, map, arith, if◌then◌else◌, ◌==◌,
}
use php_analyze.Recorder.Key.{FunctionKey, FunctionKeyRef, HashWrite, to_owned}
use php_analyze.Recorder.Key.Laws.{matches_ref_iff}
use php_analyze.Recorder.Dictionary.{Slot, Dictionary, from_hash, probe_ref}
use php_analyze.Recorder.Dictionary.Laws.{
  assigned, IsTable, IsValid, assigned_bounds, probe_ref-assigned,
}

assigned-injective :
    (hash : List HashWrite → ℕ) (n : ℕ) (r q : FunctionKeyRef) (slots : List Slot) {id : ℕ}
    → IsTable hash n slots
    → assigned r slots ≡ some id
    → assigned q slots ≡ some id
    → to_owned r ≡ to_owned q
unfolding assigned
assigned-injective hash n r q [] t e f = cc
assigned-injective hash n r q (slot ∷ rest) {id} t e f = ground (
  arith,
  matches_ref_iff slot.key r,
  matches_ref_iff slot.key q,
  assigned_bounds hash slot.fn_id r rest {id = id} t.3,
  assigned_bounds hash slot.fn_id q rest {id = id} t.3,
  assigned-injective hash slot.fn_id r q rest {id = id} t.3,
)

-- In a valid dictionary two views with the same number stand for the same function.
pub probe_ref-injective :
    (d : Dictionary) (r q : FunctionKeyRef) {id : ℕ}
    → IsValid d
    → probe_ref d r ≡ some id
    → probe_ref d q ≡ some id
    → to_owned r ≡ to_owned q
probe_ref-injective d r q v e f =
    assigned-injective d.hash_one d.next_fn_id r q d.intern v (sym (probe_ref-assigned d r v) ∙ e)
      (sym (probe_ref-assigned d q v) ∙ f)

-- The function that a number stands for.
unfoldable pub key_at : ℕ → List Slot → Option FunctionKey
key_at id [] = none
key_at id (slot ∷ rest) = if slot.fn_id == id then some slot.key else key_at id rest

abbrev pub key_of : Dictionary → ℕ → Option FunctionKey
key_of d id = key_at id d.intern

key_at-assigned :
    (hash : List HashWrite → ℕ) (n : ℕ) (r : FunctionKeyRef) (slots : List Slot) {id : ℕ}
    → IsTable hash n slots
    → assigned r slots ≡ some id
    → key_at id slots ≡ some (to_owned r)
unfolding key_at assigned
key_at-assigned hash n r [] t e = cc
key_at-assigned hash n r (slot ∷ rest) {id} t e = ground (
  arith,
  matches_ref_iff slot.key r,
  assigned_bounds hash slot.fn_id r rest {id = id} t.3,
  key_at-assigned hash slot.fn_id r rest {id = id} t.3,
)

-- In a valid dictionary the number that a probe finds stands for the function that was probed.
pub key_of-probe_ref :
    (d : Dictionary) (r : FunctionKeyRef) {id : ℕ}
    → IsValid d
    → probe_ref d r ≡ some id
    → key_of d id ≡ some (to_owned r)
key_of-probe_ref d r v e =
    key_at-assigned d.hash_one d.next_fn_id r d.intern v (sym (probe_ref-assigned d r v) ∙ e)

from_hash-In :
    (h : ℕ) (is_match : FunctionKey → Bool) (slots : List Slot) {id : ℕ}
    → from_hash h is_match slots ≡ some id
    → In id (map (λ slot. slot.fn_id) slots)
unfolding from_hash
from_hash-In h is_match [] e = cc
from_hash-In h is_match (slot ∷ rest) {id} e =
    ground (arith, from_hash-In h is_match rest {id = id})

-- A number that a probe finds is the number of a slot.
pub probe_ref-In :
    (d : Dictionary) (r : FunctionKeyRef) {id : ℕ}
    → probe_ref d r ≡ some id
    → In id (map (λ slot. slot.fn_id) d.intern)
unfolding probe_ref
probe_ref-In d r e = from_hash-In _ _ d.intern e
