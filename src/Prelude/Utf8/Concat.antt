-- ===== src/Prelude/Utf8/Concat.antt =====
-- Well-formed texts put together, and the numbers printed in them.
use php_analyze.Prelude.{
  ℕ, zero, suc, true, [], ◌∷◌, ◌++◌, ◌≡◌, refl, sym, ◌∙◌, ◌<◌, ◌≤◌, ◌/◌, ◌%◌, arith, inl, inr,
  Option-cases,
}
use php_analyze.Prelude.Text.{Text}
use php_analyze.Prelude.Digits.{digit, emit, decimal, lower_hex}
use php_analyze.Prelude.Utf8.{is_ascii, Position, boundary, inside, accept, is_utf8}
use php_analyze.Prelude.Utf8.Laws.{is_ascii-is_utf8, is_utf8-accept}

-- Well-formed texts are closed under concatenation.
pub is_utf8-append :
    (p : Position) (s t : Text)
    → is_utf8 p s ≡ true
    → is_utf8 boundary t ≡ true
    → is_utf8 p (s ++ t) ≡ true
unfolding is_utf8
is_utf8-append boundary [] t h k = k
is_utf8-append (inside lo hi more held) [] t h k = cc
is_utf8-append p (b ∷ bs) t h k = elim (Option-cases (accept p b)) [
  | inl e ↦ ground arith
  | inr (q, e) ↦
      is_utf8-accept p b q (bs ++ t) e
      ∙ is_utf8-append q bs t (sym (is_utf8-accept p b q bs e) ∙ h) k
]

-- A number's digits are ASCII.
emit-is_ascii :
    (base f n : ℕ) (out : Text)
    → 0 < base
    → base ≤ 16
    → is_ascii out ≡ true
    → is_ascii (emit base f n out) ≡ true
unfolding emit is_ascii
emit-is_ascii base zero n out positive small h = h
emit-is_ascii base (suc f) n out positive small h =
    ground (arith, emit-is_ascii base f (n / base) (digit (n % base) ∷ out))

pub decimal-is_utf8 : (n : ℕ) → is_utf8 boundary (decimal n) ≡ true
unfolding decimal is_ascii
decimal-is_utf8 n =
    is_ascii-is_utf8 _ (emit-is_ascii 10 (suc n) n [] (omega arith) (omega arith) refl)

pub lower_hex-is_utf8 : (n : ℕ) → is_utf8 boundary (lower_hex n) ≡ true
unfolding lower_hex is_ascii
lower_hex-is_utf8 n =
    is_ascii-is_utf8 _ (emit-is_ascii 16 (suc n) n [] (omega arith) (omega arith) refl)
