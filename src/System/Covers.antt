-- ===== src/System/Covers.antt =====
-- Function numbers that are used, and the dictionary entries that define them.
use php_analyze.Prelude.{
  ℕ, ◌≡◌, refl, sym, ap, ◌∙◌, inl, inr, List, [], ◌∷◌, ◌++◌, map, append_assoc, In, In-append_left,
}
use mathlib.Core.Path.{subst}
use php_analyze.Recorder.Types.{CallFrame, CallRecord, DictEntry, PendingBatch}
use php_analyze.Recorder.Dictionary.{Slot}

-- Every number of the first list is in the second.
abbrev pub Covered : List ℕ → List ℕ → Type 0
Covered [] ids = Unit
Covered (n ∷ ns) ids = In n ids × Covered ns ids

pub Covered-more : (ns ids more : List ℕ) → Covered ns ids → Covered ns (ids ++ more)
Covered-more [] ids more h = tt
Covered-more (n ∷ ns) ids more h = (In-append_left n ids more h.0, Covered-more ns ids more h.1)

pub Covered-In : (n : ℕ) (ns ids : List ℕ) → Covered ns ids → In n ns → In n ids
Covered-In n [] ids h k = absurd k
Covered-In n (m ∷ ns) ids h (inl e) = subst (λ j. In j ids) (sym e) h.0
Covered-In n (m ∷ ns) ids h (inr k) = Covered-In n ns ids h.1 k

pub Covered-append : (ns ms ids : List ℕ) → Covered ns ids → Covered ms ids → Covered (ns ++ ms) ids
Covered-append [] ms ids h k = k
Covered-append (n ∷ ns) ms ids h k = (h.0, Covered-append ns ms ids h.1 k)

abbrev pub record_ids : List CallRecord → List ℕ
record_ids = map (λ r. r.fn_id)

abbrev pub frame_ids : List CallFrame → List ℕ
frame_ids = map (λ f. f.fn_id)

abbrev pub slot_ids : List Slot → List ℕ
slot_ids = map (λ s. s.fn_id)

abbrev pub entry_ids : List DictEntry → List ℕ
entry_ids = map (λ e. e.fn_id)

pub entry_ids-append :
    (xs ys : List DictEntry) → entry_ids (xs ++ ys) ≡ entry_ids xs ++ entry_ids ys
entry_ids-append [] ys = refl
entry_ids-append (x ∷ xs) ys = ap (λ r. x.fn_id ∷ r) (entry_ids-append xs ys)

pub record_ids-append :
    (xs ys : List CallRecord) → record_ids (xs ++ ys) ≡ record_ids xs ++ record_ids ys
record_ids-append [] ys = refl
record_ids-append (x ∷ xs) ys = ap (λ r. x.fn_id ∷ r) (record_ids-append xs ys)

-- The numbers that the dictionaries of batches define.
abbrev pub defined_ids : List PendingBatch → List ℕ
defined_ids [] = []
defined_ids (b ∷ rest) = entry_ids b.dict ++ defined_ids rest

pub defined_ids-append :
    (xs ys : List PendingBatch) → defined_ids (xs ++ ys) ≡ defined_ids xs ++ defined_ids ys
defined_ids-append [] ys = refl
defined_ids-append (b ∷ xs) ys =
    ap (λ r. entry_ids b.dict ++ r) (defined_ids-append xs ys)
    ∙ sym (append_assoc (entry_ids b.dict) (defined_ids xs) (defined_ids ys))

-- The function number of every record is defined in the batch of the record, in one before it, or
-- among those that were seen at the start.
abbrev pub AreDefined : List ℕ → List PendingBatch → Type 0
AreDefined seen [] = Unit
AreDefined seen (b ∷ rest) =
    Covered (record_ids b.calls) (seen ++ entry_ids b.dict)
    × AreDefined (seen ++ entry_ids b.dict) rest

pub AreDefined-append :
    (seen : List ℕ) (xs : List PendingBatch) (b : PendingBatch)
    → AreDefined seen xs
    → Covered (record_ids b.calls) (seen ++ (defined_ids xs ++ entry_ids b.dict))
    → AreDefined seen (xs ++ (b ∷ []))
AreDefined-append seen [] b h k = (k, tt)
AreDefined-append seen (x ∷ xs) b h k = (
  h.0,
  AreDefined-append (seen ++ entry_ids x.dict) xs b h.1 (
      subst (Covered (record_ids b.calls))
        (ap (λ r. seen ++ r) (append_assoc (entry_ids x.dict) (defined_ids xs) (entry_ids b.dict))
          ∙ sym (append_assoc seen (entry_ids x.dict) (defined_ids xs ++ entry_ids b.dict)))
        k),
)
