-- ===== src/Recorder/Dictionary/Laws.antt =====
-- The interner gives each key one number, and different keys different numbers.
use php_analyze.Prelude.{
  ℕ, suc, ◌+◌, ◌≤◌, ◌<◌, ◌≡◌, refl, sym, ap, ◌∙◌, ◌⊎◌, inl, inr, true, Option, none, some, List, [],
  ◌∷◌, arith, if◌then◌else◌, Option-cases,
}
use php_analyze.Prelude.Words.{u32_mod}
use php_analyze.Recorder.Key.{
  FunctionKey, FunctionKeyRef, HashWrite, hash_key, hash_ref, matches_ref, as_ref, to_owned,
}
use php_analyze.Recorder.Key.Laws.{
  matches_ref_iff, hash_key-to_owned, to_owned-as_ref, as_ref-to_owned,
}
use php_analyze.Recorder.Types.{DictEntry}
use php_analyze.Recorder.Dictionary.{
  Slot, Dictionary, ProbeOutcome, hit, miss, new, from_hash, probe_ref, probe, intern_ref, stage,
}

-- The number that a list of slots gives to the key of a view, whatever the hashes say.
unfoldable pub assigned : FunctionKeyRef → List Slot → Option ℕ
assigned r [] = none
assigned r (slot ∷ rest) = if matches_ref slot.key r then some slot.fn_id else assigned r rest

-- The slots of a map: each under the hash of its own key, with the numbers falling by one along
-- the list from just below the bound down to 1, and no key twice.
abbrev pub IsTable : (List HashWrite → ℕ) → ℕ → List Slot → Type 0
IsTable hash n [] = n ≡ 1
IsTable hash n (slot ∷ rest) =
    (suc slot.fn_id ≡ n)
    × (slot.hash ≡ hash (hash_key slot.key))
    × (assigned (as_ref slot.key) rest ≡ none)
    × IsTable hash slot.fn_id rest

abbrev pub IsValid : Dictionary → Type 0
IsValid d = IsTable d.hash_one d.next_fn_id d.intern

pub new-IsValid : (hash : List HashWrite → ℕ) → IsValid (new hash)
unfolding new
new-IsValid hash = refl

same_hash :
    (hash : List HashWrite → ℕ) (slot : Slot) (r : FunctionKeyRef)
    → slot.hash ≡ hash (hash_key slot.key)
    → matches_ref slot.key r ≡ true
    → slot.hash ≡ hash (hash_ref r)
same_hash hash slot r e m =
    e ∙ ap hash (ap hash_key ((matches_ref_iff slot.key r).0 m) ∙ hash_key-to_owned r)

from_hash-assigned :
    (hash : List HashWrite → ℕ) (n : ℕ) (r : FunctionKeyRef) (slots : List Slot)
    → IsTable hash n slots
    → from_hash (hash (hash_ref r)) (λ k. matches_ref k r) slots ≡ assigned r slots
unfolding from_hash assigned
from_hash-assigned hash n r [] t = refl
from_hash-assigned hash n r (slot ∷ rest) t =
    ground (arith, same_hash hash slot r, from_hash-assigned hash slot.fn_id r rest)

-- The probe by a borrowed view finds what a search by the key alone would find: the hash that it
-- narrows the search by never hides the slot, in a valid dictionary.
pub probe_ref-assigned :
    (d : Dictionary) (r : FunctionKeyRef) → IsValid d → probe_ref d r ≡ assigned r d.intern
unfolding probe_ref
probe_ref-assigned d r v = from_hash-assigned d.hash_one d.next_fn_id r d.intern v

hash_key-hash_ref : (k : FunctionKey) → hash_key k ≡ hash_ref (as_ref k)
hash_key-hash_ref k = ap hash_key (sym (to_owned-as_ref k)) ∙ hash_key-to_owned (as_ref k)

-- The owning and the borrow-keyed probe agree.
probe-probe_ref : (d : Dictionary) (k : FunctionKey) → probe d k ≡ probe_ref d (as_ref k)
unfolding probe probe_ref
probe-probe_ref d k = rw (hash_key-hash_ref k)

bound_pos : (hash : List HashWrite → ℕ) (n : ℕ) (slots : List Slot) → IsTable hash n slots → 1 ≤ n
bound_pos hash n [] t = omega arith
bound_pos hash n (slot ∷ rest) t = omega arith

-- The numbers in a table lie between 1 and the bound.
pub assigned_bounds :
    (hash : List HashWrite → ℕ) (n : ℕ) (r : FunctionKeyRef) (slots : List Slot) {id : ℕ}
    → IsTable hash n slots
    → assigned r slots ≡ some id
    → (1 ≤ id) × (id < n)
unfolding assigned
assigned_bounds hash n r [] t e = cc
assigned_bounds hash n r (slot ∷ rest) {id} t e = ground (
  arith,
  bound_pos hash slot.fn_id rest t.3,
  assigned_bounds hash slot.fn_id r rest {id = id} t.3,
)

-- What a build closure owes: it returns the owning form of the view that was probed, and an entry
-- that carries the number.
abbrev pub Builds : FunctionKeyRef → (ℕ → FunctionKey × DictEntry) → Type 0
Builds r build = (id : ℕ) → ((build id).0 ≡ to_owned r) × ((build id).1.fn_id ≡ id)

-- The two ways in which `intern_ref` returns.
abbrev pub Hit : Dictionary → FunctionKeyRef → ℕ → ProbeOutcome → Dictionary → Type 0
Hit d r id o d' = (probe_ref d r ≡ some id) × (o ≡ hit) × (d' ≡ d)

abbrev pub Miss :
    Dictionary
    → FunctionKeyRef
    → (ℕ → FunctionKey × DictEntry)
    → ℕ
    → ProbeOutcome
    → Dictionary
    → Type 0
Miss d r build id o d' =
    (probe_ref d r ≡ none)
    × (o ≡ miss)
    × (id ≡ d.next_fn_id)
    × (d.next_fn_id + 1 < u32_mod)
    × (d'
        ≡ stage (record d { next_fn_id = d.next_fn_id + 1 }) (d.hash_one (hash_ref r)) (build id).0
            id (build id).1)

pub intern_ref_cases :
    (d : Dictionary) (r : FunctionKeyRef) (build : ℕ → FunctionKey × DictEntry) {id : ℕ}
    {o : ProbeOutcome} {d' : Dictionary}
    → intern_ref d r build ≡ some (id, o, d')
    → Hit d r id o d' ⊎ Miss d r build id o d'
unfolding intern_ref
intern_ref_cases d r build e = ground arith

-- While the counter is below its last value `intern_ref` returns.
pub intern_ref_total :
    (d : Dictionary) (r : FunctionKeyRef) (build : ℕ → FunctionKey × DictEntry)
    → d.next_fn_id + 1 < u32_mod
    → (id : ℕ) × (o : ProbeOutcome) × (d' : Dictionary) × (intern_ref d r build ≡ some (id, o, d'))
unfolding intern_ref
intern_ref_total d r build h = elim (Option-cases (probe_ref d r)) [
  | inl e ↦ (
    d.next_fn_id,
    miss,
    stage (record d { next_fn_id = d.next_fn_id + 1 }) (d.hash_one (hash_ref r))
        (build d.next_fn_id).0 d.next_fn_id (build d.next_fn_id).1,
    ground arith,
  )
  | inr (id, e) ↦ (id, hit, d, ground arith)
]

pub stage-IsValid :
    (d : Dictionary) (r : FunctionKeyRef) (key : FunctionKey) (entry : DictEntry)
    → key ≡ to_owned r
    → probe_ref d r ≡ none
    → IsValid d
    → IsValid (
        stage
          (record d { next_fn_id = d.next_fn_id + 1 })
          (d.hash_one (hash_ref r))
          key
          d.next_fn_id
          entry)
unfolding stage
stage-IsValid d r key entry k e v = (
  omega arith,
  ap d.hash_one (sym (ap hash_key k ∙ hash_key-to_owned r)),
  ap (λ q. assigned q d.intern) (ap as_ref k ∙ as_ref-to_owned r)
      ∙ sym (probe_ref-assigned d r v)
      ∙ e,
  v,
)

-- Interning keeps the dictionary valid, with a build closure that returns the owning form of the
-- probed view and an entry with the number that it was given.
pub intern_ref-IsValid :
    (d : Dictionary) (r : FunctionKeyRef) (build : ℕ → FunctionKey × DictEntry) {id : ℕ}
    {o : ProbeOutcome} {d' : Dictionary}
    → Builds r build
    → IsValid d
    → intern_ref d r build ≡ some (id, o, d')
    → IsValid d'
intern_ref-IsValid d r build b v e = elim (intern_ref_cases d r build e) [
  | inl (_, _, same) ↦ rw same v
  | inr (absent, _, n, _, staged) ↦
      rw (staged, n)
        (stage-IsValid d r (build d.next_fn_id).0 (build d.next_fn_id).1 (b d.next_fn_id).0 absent
          v)
]

pub view_same : (r q : FunctionKeyRef) → matches_ref (to_owned r) q ≡ true → r ≡ q
view_same r q m =
    sym (as_ref-to_owned r) ∙ ap as_ref ((matches_ref_iff (to_owned r) q).0 m) ∙ as_ref-to_owned q

hash_same :
    (hash : List HashWrite → ℕ) (r q : FunctionKeyRef)
    → matches_ref (to_owned r) q ≡ true
    → hash (hash_ref r) ≡ hash (hash_ref q)
hash_same hash r q m = ap hash (ap hash_ref (view_same r q m))

pub probe_ref-stage :
    (d : Dictionary) (r q : FunctionKeyRef) (key : FunctionKey) (id n : ℕ) (entry : DictEntry)
    → key ≡ to_owned r
    → probe_ref (stage (record d { next_fn_id = n }) (d.hash_one (hash_ref r)) key id entry) q
      ≡ (if matches_ref (to_owned r) q then some id else probe_ref d q)
unfolding probe_ref stage
probe_ref-stage d r q key id n entry k =
    ground (arith, ap (λ j. matches_ref j q) k, hash_same d.hash_one r q)

-- After a call of `intern_ref` the probed function has the number that was returned, and every
-- other function has the number, or none, that it had before; with a build closure that returns the
-- owning form of the probed view.
pub probe_ref-intern_ref :
    (d : Dictionary) (r q : FunctionKeyRef) (build : ℕ → FunctionKey × DictEntry) {id : ℕ}
    {o : ProbeOutcome} {d' : Dictionary}
    → Builds r build
    → intern_ref d r build ≡ some (id, o, d')
    → probe_ref d' q ≡ (if matches_ref (to_owned r) q then some id else probe_ref d q)
probe_ref-intern_ref d r q build {id} b e = elim (intern_ref_cases d r build e) [
  | inl (found, _, same) ↦ rw same (ground (arith, found, view_same r q))
  | inr (absent, _, _, _, staged) ↦
      rw staged (probe_ref-stage d r q (build id).0 id (d.next_fn_id + 1) (build id).1 (b id).0)
]
