-- ===== src/Prelude/Digits.antt =====
-- Numbers written in a base, as `format!` writes them, and the logarithms that predict the length.
use Prim.Native.Nat.{ℕ, zero, suc, ◌+◌, ◌-◌, ◌/◌, ◌%◌, ◌^◌, ◌≤◌, ◌<◌}
use mathlib.Core.Path.{◌≡◌, refl, ap}
use mathlib.Core.Logic.{◌≢◌}
use mathlib.Core.List.{[], ◌∷◌}
use native.Mathlib.Omega.{arith}
use php_analyze.Prelude.Tests.{ltb, ◌==◌, if◌then◌else◌}
use php_analyze.Prelude.Lists.{length}
use php_analyze.Prelude.Text.{Text}

abbrev pub digit : ℕ → ℕ
digit d = if ltb d 10 then b'0' + d else b'a' - 10 + d

-- Digits are produced from the last one; `suc n` rounds are enough in any base above 1.
unfoldable pub emit : ℕ → ℕ → ℕ → Text → Text
emit base zero n out = out
emit base (suc f) n out =
    let first = digit (n % base) ∷ out in
    let more = emit base f (n / base) first in if n / base == 0 then first else more

-- `{n}` and `{n:x}`
unfoldable pub decimal : ℕ → Text
unfolding emit
decimal n = emit 10 (suc n) n []

unfoldable pub lower_hex : ℕ → Text
unfolding emit
lower_hex n = emit 16 (suc n) n []

-- How often a number can be divided before it is 0, less one.
unfoldable pub log : ℕ → ℕ → ℕ → ℕ
log base zero n = 0
log base (suc f) n = let more = log base f (n / base) in if n / base == 0 then 0 else suc more

-- `u32::ilog10`, at numbers other than 0.
unfoldable pub ilog10 : ℕ → ℕ
unfolding log
ilog10 n = log 10 (suc n) n

unfoldable pub bits : ℕ → ℕ → ℕ
bits zero n = 0
bits (suc f) n = let more = bits f (n / 2) in if n == 0 then 0 else suc more

unfoldable pub bit_length : ℕ → ℕ
unfolding bits
bit_length n = bits n n

-- `usize::leading_zeros`
unfoldable pub leading_zeros : ℕ → ℕ
unfolding bit_length
leading_zeros n = 64 - bit_length n

module _ (base : ℕ) (shrinks : (m : ℕ) → m / base ≢ 0 → m / base < m) where
  length-emit :
      (f n : ℕ) (out : Text) → n < f → length (emit base f n out) ≡ suc (log base f n) + length out
  unfolding emit log
  length-emit zero n out h = elim h [ ]
  length-emit (suc f) n out h =
      ground (arith, shrinks n, length-emit f (n / base) (digit (n % base) ∷ out))

tenth_shrinks : (m : ℕ) → m / 10 ≢ 0 → m / 10 < m
tenth_shrinks m h = omega arith

sixteenth_shrinks : (m : ℕ) → m / 16 ≢ 0 → m / 16 < m
sixteenth_shrinks m h = omega arith

-- The decimal print of a number other than 0 has one digit more than its logarithm.
pub length-decimal : (n : ℕ) → length (decimal n) ≡ ilog10 n + 1
unfolding decimal ilog10
length-decimal n = omega (arith, length-emit 10 tenth_shrinks (suc n) n [])

-- Any fuel from the number up gives the same length in bits.
bits-fuel : (f g n : ℕ) → n ≤ f → n ≤ g → bits f n ≡ bits g n
unfolding bits
bits-fuel zero zero n h k = refl
bits-fuel zero (suc g) n h k = ground arith
bits-fuel (suc f) zero n h k = ground arith
bits-fuel (suc f) (suc g) n h k = ground (arith, bits-fuel f g (n / 2))

pub bit_length_step : (n : ℕ) → 0 < n → bit_length n ≡ suc (bit_length (n / 2))
unfolding bit_length
bit_length_step zero h = elim h [ ]
bit_length_step (suc n) h = ground (arith, bits-fuel n (suc n / 2) (suc n / 2))

bit_length_zero : bit_length 0 ≡ 0
unfolding bit_length
bit_length_zero = refl

-- Sixteen times as large is four bits longer.
bit_length_nibble : (n : ℕ) → 16 ≤ n → bit_length n ≡ 4 + bit_length (n / 16)
bit_length_nibble n h = omega (
  arith,
  bit_length_step n,
  bit_length_step (n / 2),
  bit_length_step (n / 2 / 2),
  bit_length_step (n / 2 / 2 / 2),
  ap bit_length same,
)
  where
    same : n / 2 / 2 / 2 / 2 ≡ n / 16
    same = omega arith

bits-le : (k f n : ℕ) → n < 2 ^ k → bits f n ≤ k
unfolding bits
bits-le k zero n h = omega arith
bits-le zero (suc f) n h = ground arith
bits-le (suc k) (suc f) n h = ground (arith, bits-le k f (n / 2))

bit_length-le : (k n : ℕ) → n < 2 ^ k → bit_length n ≤ k
unfolding bit_length
bit_length-le k n h = bits-le k n n h

nibbles : (f n : ℕ) → n < f → 0 < n → (bit_length n + 3) / 4 ≡ suc (log 16 f n)
unfolding log
nibbles zero n h p = elim h [ ]
nibbles (suc f) n h p =
    ground (arith, bit_length_step n, bit_length-le 4 n, bit_length_nibble n, nibbles f (n / 16))

-- The hexadecimal print of a 64-bit number other than 0 has one digit for each four bits begun.
pub length-lower_hex :
    (n : ℕ) → 0 < n → n < 2 ^ 64 → length (lower_hex n) ≡ (64 - leading_zeros n + 3) / 4
unfolding lower_hex leading_zeros
length-lower_hex n p h = omega (
  arith,
  length-emit 16 sixteenth_shrinks (suc n) n [],
  nibbles (suc n) n (omega arith) p,
  bit_length-le 64 n h,
)

decimal_run : decimal 1024 ≡ 49 ∷ 48 ∷ 50 ∷ 52 ∷ []
unfolding decimal
decimal_run = refl

lower_hex_run : lower_hex 0x7f3a ≡ 55 ∷ 102 ∷ 51 ∷ 97 ∷ []
unfolding lower_hex
lower_hex_run = refl
