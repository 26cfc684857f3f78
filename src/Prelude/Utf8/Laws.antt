-- ===== src/Prelude/Utf8/Laws.antt =====
-- The decoders of a byte string.
use php_analyze.Prelude.{
  ℕ, zero, suc, Option-cases, true, Option, none, some, List, [], ◌∷◌, ◌++◌, ◌≡◌, refl, sym, ap,
  ◌∙◌, ◌↔◌, arith, append_assoc, append-nil, inl, inr,
}
use php_analyze.Prelude.Text.{Text}
use php_analyze.Prelude.Utf8.{
  is_ascii, Position, boundary, inside, lead, follow, accept, is_utf8, replacement, complete,
  held_of, restart, react, lossy, from_utf8_lossy,
}

pub is_ascii-is_utf8 : (bytes : List ℕ) → is_ascii bytes ≡ true → is_utf8 boundary bytes ≡ true
unfolding is_ascii is_utf8 accept lead
is_ascii-is_utf8 [] h = refl
is_ascii-is_utf8 (b ∷ bs) h = ground (arith, is_ascii-is_utf8 bs)

-- A position holds the bytes of the character that is being read.
lead-held : (b : ℕ) (q : Position) → lead b ≡ some q → complete q (b ∷ []) ++ held_of q ≡ b ∷ []
unfolding lead
lead-held b q h = ground arith

follow-held :
    (more : ℕ) (read : Text) → complete (follow more read) read ++ held_of (follow more read) ≡ read
follow-held zero read = append-nil read
follow-held (suc more) read = refl

accept-held :
    (p : Position) (b : ℕ) (q : Position)
    → accept p b ≡ some q
    → complete q (held_of p ++ (b ∷ [])) ++ held_of q ≡ held_of p ++ (b ∷ [])
unfolding accept
accept-held boundary b q h = lead-held b q h
accept-held (inside lo hi more held) b q h = ground (arith, follow-held more (held ++ (b ∷ [])))

react-accept :
    (p : Position) (b : ℕ) (q : Position)
    → accept p b ≡ some q
    → react p b ≡ (complete q (held_of p ++ (b ∷ [])), q)
unfolding accept react restart
react-accept boundary b q h = let e : lead b ≡ some q = h in ground arith
react-accept (inside lo hi more held) b q h = ground arith

pub is_utf8-accept :
    (p : Position) (b : ℕ) (q : Position) (x : List ℕ)
    → accept p b ≡ some q
    → is_utf8 p (b ∷ x) ≡ is_utf8 q x
unfolding is_utf8
is_utf8-accept p b q x h = ground arith

-- What is well-formed from a position decodes to the bytes held there and itself.
pub lossy-is_utf8 :
    (p : Position) (bytes : List ℕ) → is_utf8 p bytes ≡ true → lossy p bytes ≡ held_of p ++ bytes
unfolding lossy is_utf8
lossy-is_utf8 boundary [] h = refl
lossy-is_utf8 (inside lo hi more held) [] h = cc
lossy-is_utf8 p (b ∷ bs) h = elim (Option-cases (accept p b)) [
  | inl e ↦ ground arith
  | inr (q, e) ↦ rw (react-accept p b q e) (
      ap (λ later. complete q (held_of p ++ (b ∷ [])) ++ later)
        (lossy-is_utf8 q bs (sym (is_utf8-accept p b q bs e) ∙ h))
      ∙ sym (append_assoc _ (held_of q) bs)
      ∙ ap (λ read. read ++ bs) (accept-held p b q e)
      ∙ append_assoc (held_of p) (b ∷ []) bs)
]

-- The bytes that a position holds lead to it.
abbrev IsReached : Position → Type 0
IsReached p = (x : List ℕ) → is_utf8 boundary (held_of p ++ x) ≡ is_utf8 p x

read-accept :
    (p : Position) (b : ℕ) (q : Position)
    → IsReached p
    → accept p b ≡ some q
    → (x : List ℕ) → is_utf8 boundary ((held_of p ++ (b ∷ [])) ++ x) ≡ is_utf8 q x
read-accept p b q reached e x =
    ap (is_utf8 boundary) (append_assoc (held_of p) (b ∷ []) x)
    ∙ reached (b ∷ x)
    ∙ is_utf8-accept p b q x e

IsReached-held :
    (q : Position) (read : Text)
    → ((x : List ℕ) → is_utf8 boundary (read ++ x) ≡ is_utf8 q x)
    → complete q read ++ held_of q ≡ read
    → IsReached q × ((x : List ℕ) → is_utf8 boundary (complete q read ++ x) ≡ is_utf8 boundary x)
IsReached-held boundary read reads e = ((λ x. refl), reads)
IsReached-held (inside lo hi more held) read reads e =
    ((λ x. ap (λ r. is_utf8 boundary (r ++ x)) e ∙ reads x), (λ x. refl))

-- What a byte adds to the output is whole characters.
abbrev IsWhole : Text × Position → Type 0
IsWhole (out, q) = IsReached q × ((x : List ℕ) → is_utf8 boundary (out ++ x) ≡ is_utf8 boundary x)

boundary-IsReached : IsReached boundary
boundary-IsReached x = refl

replacement-IsWhole : (x : List ℕ) → is_utf8 boundary (replacement ++ x) ≡ is_utf8 boundary x
unfolding is_utf8 accept lead
replacement-IsWhole x = refl

accept-IsWhole :
    (p : Position) (b : ℕ) (q : Position)
    → IsReached p
    → accept p b ≡ some q
    → IsWhole (complete q (held_of p ++ (b ∷ [])), q)
accept-IsWhole p b q reached e =
    IsReached-held q _ (read-accept p b q reached e) (accept-held p b q e)

restart-IsWhole_as : (b : ℕ) (o : Option Position) → lead b ≡ o → IsWhole (restart b)
unfolding restart accept
restart-IsWhole_as b none e = rw (restart, e) (boundary-IsReached, replacement-IsWhole)
restart-IsWhole_as b (some q) e = rw (restart, e) (accept-IsWhole boundary b q boundary-IsReached e)

restart-IsWhole : (b : ℕ) → IsWhole (restart b)
restart-IsWhole b = restart-IsWhole_as b (lead b) refl

restart-IsWhole_after : (b : ℕ) → IsWhole (replacement ++ (restart b).0, (restart b).1)
restart-IsWhole_after b = (
  (restart-IsWhole b).0,
  λ x.
      ap (is_utf8 boundary) (append_assoc replacement (restart b).0 x)
      ∙ replacement-IsWhole ((restart b).0 ++ x)
      ∙ (restart-IsWhole b).1 x,
)

react-reject :
    (lo hi more : ℕ) (held : Text) (b : ℕ)
    → accept (inside lo hi more held) b ≡ none
    → react (inside lo hi more held) b ≡ (replacement ++ (restart b).0, (restart b).1)
unfolding accept react
react-reject lo hi more held b e = ground arith

react-IsWhole_as :
    (p : Position) (b : ℕ) (o : Option Position)
    → IsReached p
    → accept p b ≡ o
    → IsWhole (react p b)
unfolding react
react-IsWhole_as p b (some q) reached e = rw (react-accept p b q e) (accept-IsWhole p b q reached e)
react-IsWhole_as boundary b none reached e = restart-IsWhole b
react-IsWhole_as (inside lo hi more held) b none reached e =
    rw (react-reject lo hi more held b e) (restart-IsWhole_after b)

react-IsWhole : (p : Position) (b : ℕ) → IsReached p → IsWhole (react p b)
react-IsWhole p b reached = react-IsWhole_as p b (accept p b) reached refl

lossy-IsReached :
    (p : Position) (bytes : List ℕ) → IsReached p → is_utf8 boundary (lossy p bytes) ≡ true
unfolding lossy is_utf8 accept lead
lossy-IsReached boundary [] reached = refl
lossy-IsReached (inside lo hi more held) [] reached = refl
lossy-IsReached p (b ∷ bs) reached =
    let (next, whole) = react-IsWhole p b reached in
    whole (lossy (react p b).1 bs) ∙ lossy-IsReached (react p b).1 bs next

pub from_utf8_lossy-is_utf8 : (bytes : List ℕ) → is_utf8 boundary (from_utf8_lossy bytes) ≡ true
unfolding from_utf8_lossy
from_utf8_lossy-is_utf8 bytes = lossy-IsReached boundary bytes boundary-IsReached

-- The lossy decoding changes exactly the texts that are not well-formed.
pub from_utf8_lossy_fixed :
    (bytes : List ℕ) → (from_utf8_lossy bytes ≡ bytes) ↔ (is_utf8 boundary bytes ≡ true)
unfolding from_utf8_lossy
from_utf8_lossy_fixed bytes =
    (λ e. rw (← e) (from_utf8_lossy-is_utf8 bytes), lossy-is_utf8 boundary bytes)
