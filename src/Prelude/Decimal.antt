-- ===== src/Prelude/Decimal.antt =====
-- Decimal integers as `format!` writes them and as `str::parse` reads them, with the round trips.
use php_analyze.Prelude.{
  ℕ, zero, suc, ◌+◌, ◌-◌, ◌*◌, ◌/◌, ◌%◌, ◌^◌, ◌<◌, ◌≤◌, ◌≡◌, ◌≢◌, refl, ◌∙◌, ◌&&◌, Option, none,
  some, [], ◌∷◌, All, ltb, leb, ◌==◌, if◌then◌else◌, arith,
}
use php_analyze.Prelude.Int.{ℤ, pos, negsuc}
use php_analyze.Prelude.Text.{Text}
use php_analyze.Prelude.Digits.{decimal, emit}

-- `{n}` for a signed integer.
unfoldable pub decimal_ℤ : ℤ → Text
unfolding decimal
decimal_ℤ (pos n) = decimal n
decimal_ℤ (negsuc n) = b'-' ∷ decimal (suc n)

-- The digits of a number below a bound, behind those read so far; a digit that leaves the range is
-- an overflow.
unfoldable pub scan : ℕ → ℕ → Text → Option ℕ
scan bound n [] = some n
scan bound n (c ∷ s) =
    let m = n * 10 + (c - b'0') in
    let rest = scan bound m s in if leb b'0' c && leb c b'9' && ltb m bound then rest else none

unfoldable pub scan_all : ℕ → Text → Option ℕ
unfolding scan
scan_all bound [] = none
scan_all bound (c ∷ s) = scan bound 0 (c ∷ s)

-- `str::parse` to an unsigned integer below a bound: one sign + is allowed.
unfoldable pub parse_unsigned : ℕ → Text → Option ℕ
unfolding scan_all
parse_unsigned bound [] = none
parse_unsigned bound (c ∷ s) = if c == b'+' then scan_all bound s else scan_all bound (c ∷ s)

abbrev negated : ℕ → ℤ
negated zero = pos 0
negated (suc n) = negsuc n

-- `str::parse` to an `i64`.
unfoldable pub parse_i64 : Text → Option ℤ
unfolding parse_unsigned scan_all
parse_i64 [] = none
parse_i64 (c ∷ s) =
    if c == b'-'
    then elim (scan_all (2 ^ 63 + 1) s) [ none ↦ none | some n ↦ some (negated n) ]
    else elim (parse_unsigned (2 ^ 63) (c ∷ s)) [ none ↦ none | some n ↦ some (pos n) ]

abbrev pub IsDigit : ℕ → Type 0
IsDigit c = (b'0' ≤ c) × (c ≤ b'9')

emit-IsDigit : (f n : ℕ) (out : Text) → All IsDigit out → All IsDigit (emit 10 f n out)
unfolding emit
emit-IsDigit zero n out h = h
emit-IsDigit (suc f) n out h =
    ground (arith, emit-IsDigit f (n / 10) ((b'0' + n % 10) ∷ out) ((omega arith, omega arith), h))

-- Every character of a decimal print is a digit.
pub decimal-IsDigit : (n : ℕ) → All IsDigit (decimal n)
unfolding decimal
decimal-IsDigit n = emit-IsDigit (suc n) n [] tt

emit-ne-nil : (f n c : ℕ) (out : Text) → emit 10 f n (c ∷ out) ≢ []
unfolding emit
emit-ne-nil zero n c out = λ e. cc
emit-ne-nil (suc f) n c out = ground (arith, emit-ne-nil f (n / 10) (b'0' + n % 10) (c ∷ out))

pub decimal-ne-nil : (n : ℕ) → decimal n ≢ []
unfolding decimal emit
decimal-ne-nil n = ground (arith, emit-ne-nil n (n / 10) (b'0' + n % 10) [])

scan-emit :
    (bound f n : ℕ) (out : Text)
    → n < f
    → n < bound
    → scan bound 0 (emit 10 f n out) ≡ scan bound n out
unfolding emit scan
scan-emit bound zero n out h k = elim h [ ]
scan-emit bound (suc f) n out h k =
    ground (arith, scan-emit bound f (n / 10) ((b'0' + n % 10) ∷ out))

scan_all-scan : (bound : ℕ) (s : Text) → s ≢ [] → scan_all bound s ≡ scan bound 0 s
unfolding scan_all
scan_all-scan bound [] h = absurd (h refl)
scan_all-scan bound (c ∷ s) h = refl

pub scan_all-decimal : (bound n : ℕ) → n < bound → scan_all bound (decimal n) ≡ some n
unfolding decimal scan
scan_all-decimal bound n h =
    scan_all-scan bound (decimal n) (decimal-ne-nil n)
    ∙ scan-emit bound (suc n) n [] (omega arith) h

unsigned-digits : (bound : ℕ) (s : Text) → All IsDigit s → parse_unsigned bound s ≡ scan_all bound s
unfolding parse_unsigned scan_all
unsigned-digits bound [] h = refl
unsigned-digits bound (c ∷ s) h = ground arith

-- An unsigned integer in range is read back from its print.
pub parse_unsigned-decimal : (bound n : ℕ) → n < bound → parse_unsigned bound (decimal n) ≡ some n
parse_unsigned-decimal bound n h =
    unsigned-digits bound (decimal n) (decimal-IsDigit n) ∙ scan_all-decimal bound n h

signed-digits :
    (s : Text) {n : ℕ}
    → All IsDigit s
    → parse_unsigned (2 ^ 63) s ≡ some n
    → parse_i64 s ≡ some (pos n)
unfolding parse_i64
signed-digits [] h e = ground arith
signed-digits (c ∷ s) h e = ground arith

-- The integers that 64 bits hold.
abbrev pub IsI64 : ℤ → Type 0
IsI64 (pos n) = n < 2 ^ 63
IsI64 (negsuc n) = n < 2 ^ 63

-- A signed integer of 64 bits is read back from its print.
pub parse_i64-decimal_ℤ : (z : ℤ) → IsI64 z → parse_i64 (decimal_ℤ z) ≡ some z
unfolding decimal_ℤ parse_i64
parse_i64-decimal_ℤ (pos n) h =
    signed-digits (decimal n) (decimal-IsDigit n) (parse_unsigned-decimal (2 ^ 63) n h)
parse_i64-decimal_ℤ (negsuc n) h =
    ground (arith, scan_all-decimal (2 ^ 63 + 1) (suc n) (omega arith))
