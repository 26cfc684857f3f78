-- ===== src/System/Tree.antt =====
-- Call records and open frames as a tree: references from a record to its parent.
use php_analyze.Prelude.{
  ℕ, ◌<◌, ◌≤◌, ◌≡◌, refl, sym, ap, ◌∙◌, ◌⊎◌, inl, inr, List, [], ◌∷◌, ◌++◌, map, arith,
  append_assoc, In,
}
use mathlib.Core.Path.{subst}
use php_analyze.Recorder.Types.{CallFrame, CallRecord, PendingBatch}
use php_analyze.Recorder.Begin.{parent_of}

unfoldable pub records : List PendingBatch → List CallRecord
records [] = []
records (b ∷ rest) = b.calls ++ records rest

pub records-append : (xs ys : List PendingBatch) → records (xs ++ ys) ≡ records xs ++ records ys
unfolding records
records-append [] ys = refl
records-append (b ∷ xs) ys =
    ap (λ r. b.calls ++ r) (records-append xs ys)
    ∙ sym (append_assoc b.calls (records xs) (records ys))

abbrev pub call_ids : List CallRecord → List ℕ
call_ids = map (λ r. r.call_id)

abbrev pub open_ids : List CallFrame → List ℕ
open_ids = map (λ f. f.call_id)

-- A parent is no call, or one of the calls of a list.
abbrev pub Refers : ℕ → List ℕ → Type 0
Refers parent ids = (parent ≡ 0) ⊎ In parent ids

-- Every record refers to a record that comes later, or to an open frame.
abbrev pub IsClosed : List CallRecord → List ℕ → Type 0
IsClosed [] live = Unit
IsClosed (r ∷ rest) live = Refers r.parent (call_ids rest ++ live) × IsClosed rest live

-- Every open frame has the number of the frame below it as its parent, and a greater number.
abbrev pub IsChain : ℕ → List CallFrame → Type 0
IsChain top [] = Unit
IsChain top (frame ∷ rest) =
    (frame.call_id ≤ top)
    × (frame.parent ≡ parent_of rest)
    × (frame.parent < frame.call_id)
    × IsChain frame.call_id rest

pub IsChain-weaken :
    (low high : ℕ) (stack : List CallFrame) → low ≤ high → IsChain low stack → IsChain high stack
IsChain-weaken low high [] h c = tt
IsChain-weaken low high (frame ∷ rest) h c = (omega arith, c.1, c.2, c.3)

-- The number of the innermost frame is at most the bound.
pub IsChain-parent_of :
    (top : ℕ) (stack : List CallFrame) → IsChain top stack → parent_of stack ≤ top
IsChain-parent_of top [] c = omega arith
IsChain-parent_of top (frame ∷ rest) c = c.0

In-insert : (p id : ℕ) (xs live : List ℕ) → In p (xs ++ live) → In p (xs ++ (id ∷ live))
In-insert p id [] live h = inr h
In-insert p id (x ∷ xs) live (inl e) = inl e
In-insert p id (x ∷ xs) live (inr h) = inr (In-insert p id xs live h)

-- A call that begins disturbs no reference.
pub IsClosed-begin :
    (id : ℕ) (xs : List CallRecord) (live : List ℕ) → IsClosed xs live → IsClosed xs (id ∷ live)
IsClosed-begin id [] live h = tt
IsClosed-begin id (r ∷ rest) live (inl none, h) = (inl none, IsClosed-begin id rest live h)
IsClosed-begin id (r ∷ rest) live (inr here, h) =
    (inr (In-insert r.parent id (call_ids rest) live here), IsClosed-begin id rest live h)

map_append : (xs ys : List CallRecord) → call_ids (xs ++ ys) ≡ call_ids xs ++ call_ids ys
map_append [] ys = refl
map_append (x ∷ xs) ys = ap (λ r. x.call_id ∷ r) (map_append xs ys)

-- The record of the innermost frame goes to the end.
pub IsClosed-emit :
    (r : CallRecord) (xs : List CallRecord) (live : List ℕ)
    → Refers r.parent live
    → IsClosed xs (r.call_id ∷ live)
    → IsClosed (xs ++ (r ∷ [])) live
IsClosed-emit r [] live there h = (there, tt)
IsClosed-emit r (x ∷ xs) live there h = (
  subst (Refers x.parent)
      (sym (
        ap (λ ids. ids ++ live) (map_append xs (r ∷ []))
        ∙ append_assoc (call_ids xs) (r.call_id ∷ []) live))
      h.0,
  IsClosed-emit r xs live there h.1,
)

pub parent_there : (stack : List CallFrame) → Refers (parent_of stack) (open_ids stack)
parent_there [] = inl refl
parent_there (frame ∷ rest) = inr (inl refl)
