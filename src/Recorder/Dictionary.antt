-- ===== src/Recorder/Dictionary.antt =====
-- `Dictionary` of recorder/dictionary.rs. `hashbrown::HashMap` is a list of its slots, each with
-- the hash that it was stored under; the hasher, `FxBuildHasher`, is a field of the map.
pub mod Laws
pub mod Numbers
use php_analyze.Prelude.{
  ℕ, Bool, true, false, ◌&&◌, Option, none, some, List, [], ◌∷◌, ◌++◌, ◌==◌, if◌then◌else◌, ◌>>=◌,
}
use php_analyze.Prelude.Words.{u32_mod, checked_add}
use php_analyze.Recorder.Key.{
  FunctionKey, FunctionKeyRef, HashWrite, hash_key, hash_ref, matches_ref, as_ref,
}
use php_analyze.Recorder.Types.{DictEntry}

pub record Slot : Type 0 where
  pub hash : ℕ
  pub key : FunctionKey
  pub fn_id : ℕ

pub record Dictionary : Type 0 where
  pub hash_one : List HashWrite → ℕ
  pub intern : List Slot
  pub new_entries : List DictEntry
  pub next_fn_id : ℕ

pub data ProbeOutcome : Type 0 where
  hit miss : ProbeOutcome

-- `Dictionary::new`
unfoldable pub new : (List HashWrite → ℕ) → Dictionary
new hash_one = record { hash_one = hash_one; intern = []; new_entries = []; next_fn_id = 1 }

-- `raw_entry().from_hash(hash, is_match)`: the slot of that hash whose key passes the test.
pub from_hash : ℕ → (FunctionKey → Bool) → List Slot → Option ℕ
from_hash h is_match [] = none
from_hash h is_match (slot ∷ rest) =
    if slot.hash == h && is_match slot.key then some slot.fn_id else from_hash h is_match rest

-- The borrow-keyed probe that `intern_ref` and `contains_key_ref` begin with.
unfoldable pub probe_ref : Dictionary → FunctionKeyRef → Option ℕ
unfolding from_hash
probe_ref d key_ref =
    from_hash (d.hash_one (hash_ref key_ref)) (λ k. matches_ref k key_ref) d.intern

-- `HashMap::get`, by the derived equality of keys.
unfoldable pub probe : Dictionary → FunctionKey → Option ℕ
unfolding from_hash
probe d key = from_hash (d.hash_one (hash_key key)) (λ k. matches_ref k (as_ref key)) d.intern

abbrev pub is_some : Option ℕ → Bool
is_some none = false
is_some (some a) = true

unfoldable pub contains_key_ref : Dictionary → FunctionKeyRef → Bool
contains_key_ref d key_ref = is_some (probe_ref d key_ref)

unfoldable pub contains_key : Dictionary → FunctionKey → Bool
contains_key d key = is_some (probe d key)

-- `none` is the panic of `expect` when the counter overflows.
unfoldable pub allocate_fn_id : Dictionary → Option (ℕ × Dictionary)
allocate_fn_id d = do
  next ← checked_add u32_mod d.next_fn_id 1
  some (d.next_fn_id, record d { next_fn_id = next })

-- A miss stores the key under the given hash and stages its entry.
unfoldable pub stage : Dictionary → ℕ → FunctionKey → ℕ → DictEntry → Dictionary
stage d h key fn_id entry = record d {
  intern = record { hash = h; key = key; fn_id = fn_id } ∷ d.intern;
  new_entries = d.new_entries ++ (entry ∷ []);
}

unfoldable pub intern : Dictionary → FunctionKey → (ℕ → DictEntry) → Option (ℕ × Dictionary)
unfolding allocate_fn_id stage
intern d key build = elim (probe d key) [
  | some existing ↦ some (existing, d)
  | none ↦ do
    (fn_id, d') ← allocate_fn_id d
    some (fn_id, stage d' (d.hash_one (hash_key key)) key fn_id (build fn_id))
]

unfoldable pub intern_ref :
    Dictionary
    → FunctionKeyRef
    → (ℕ → FunctionKey × DictEntry)
    → Option (ℕ × ProbeOutcome × Dictionary)
unfolding stage
intern_ref d key_ref build = elim (probe_ref d key_ref) [
  | some existing ↦ some (existing, hit, d)
  | none ↦ do
    let fn_id = d.next_fn_id
    next ← checked_add u32_mod fn_id 1
    let built = build fn_id
    some (
      fn_id,
      miss,
      stage (record d { next_fn_id = next }) (d.hash_one (hash_ref key_ref)) built.0 fn_id built.1,
    )
]

-- The entries staged since the last call, and the dictionary without them.
unfoldable pub take_new_entries : Dictionary → List DictEntry × Dictionary
take_new_entries d = (d.new_entries, record d { new_entries = [] })
