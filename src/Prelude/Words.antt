-- ===== src/Prelude/Words.antt =====
-- Unsigned machine words as native numbers: wrap-around, saturation and checked addition.
use Prim.Native.Nat.{ℕ, ◌+◌, ◌-◌, ◌%◌, ◌^◌, min}
use mathlib.Core.Option.{Option, none, some}
use php_analyze.Prelude.Tests.{ltb, if◌then◌else◌}

abbrev pub u16_mod : ℕ
u16_mod = 2 ^ 16

abbrev pub u32_mod : ℕ
u32_mod = 2 ^ 32

abbrev pub u64_mod : ℕ
u64_mod = 2 ^ 64

-- `fetch_add` and release-mode `+=` on a 64-bit word (`usize` and `u64`)
abbrev pub wrapping_add : ℕ → ℕ → ℕ
wrapping_add a b = (a + b) % u64_mod

-- `fetch_sub` on a 64-bit word; the amount is itself a word
abbrev pub wrapping_sub : ℕ → ℕ → ℕ
wrapping_sub a b = (a + (u64_mod - b % u64_mod)) % u64_mod

-- `uN::saturating_add`, by the modulus of the word
abbrev pub saturating_add : ℕ → ℕ → ℕ → ℕ
saturating_add modulus a b = min (a + b) (modulus - 1)

-- `uN::checked_add`
abbrev pub checked_add : ℕ → ℕ → ℕ → Option ℕ
checked_add modulus a b = if ltb (a + b) modulus then some (a + b) else none
