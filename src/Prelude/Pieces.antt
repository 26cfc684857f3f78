-- ===== src/Prelude/Pieces.antt =====
-- Text put together from pieces is taken apart again.
use php_analyze.Prelude.{
  ℕ, zero, suc, ◌%◌, ◌/◌, ◌<◌, ◌≡◌, ◌≢◌, refl, false, some, [], ◌∷◌, ◌++◌, All, All-append, arith,
}
use php_analyze.Prelude.Text.{Text}
use php_analyze.Prelude.Int.{ℤ, pos, negsuc}
use php_analyze.Prelude.Digits.{decimal, lower_hex, emit, digit}
use php_analyze.Prelude.Decimal.{IsDigit, decimal-IsDigit, decimal_ℤ}
use php_analyze.Prelude.Strings.{
  is_whitespace, split, splitn, split_once, split_at_whitespace, strip_prefix, lines,
}

-- A text without a character.
abbrev pub Avoids : ℕ → Text → Type 0
Avoids c = All (λ a. a ≢ c)

-- A text that stands alone on a line.
abbrev pub IsLine : Text → Type 0
IsLine [] = Unit
IsLine (c ∷ []) = (c ≢ b'\n') × (c ≢ 13)
IsLine (c ∷ d ∷ s) = (c ≢ b'\n') × IsLine (d ∷ s)

pub split-append :
    (sep : ℕ) (s t : Text) → Avoids sep s → split sep (s ++ (sep ∷ t)) ≡ s ∷ split sep t
unfolding split
split-append sep [] t h = ground arith
split-append sep (c ∷ s) t h = ground (arith, split-append sep s t h.1)

pub split_alone : (sep : ℕ) (s : Text) → Avoids sep s → split sep s ≡ s ∷ []
unfolding split
split_alone sep [] h = refl
split_alone sep (c ∷ s) h = ground (arith, split_alone sep s h.1)

pub splitn-append :
    (n sep : ℕ) (s t : Text)
    → Avoids sep s
    → splitn (suc (suc n)) sep (s ++ (sep ∷ t)) ≡ s ∷ splitn (suc n) sep t
unfolding splitn
splitn-append n sep [] t h = ground arith
splitn-append n sep (c ∷ s) t h = ground (arith, splitn-append n sep s t h.1)

pub splitn_last : (sep : ℕ) (s : Text) → splitn 1 sep s ≡ s ∷ []
unfolding splitn
splitn_last sep s = refl

pub split_once-append :
    (sep : ℕ) (s t : Text) → Avoids sep s → split_once sep (s ++ (sep ∷ t)) ≡ some (s, t)
unfolding split_once
split_once-append sep [] t h = ground arith
split_once-append sep (c ∷ s) t h = ground (arith, split_once-append sep s t h.1)

-- A text without whitespace.
abbrev pub IsWord : Text → Type 0
IsWord = All (λ a. is_whitespace a ≡ false)

pub split_at_whitespace-append :
    (s t : Text) → IsWord s → split_at_whitespace (s ++ (32 ∷ t)) ≡ s ∷ split_at_whitespace t
unfolding split_at_whitespace
split_at_whitespace-append [] t h = ground arith
split_at_whitespace-append (c ∷ s) t h = ground (arith, split_at_whitespace-append s t h.1)

pub split_at_whitespace_alone : (s : Text) → IsWord s → split_at_whitespace s ≡ s ∷ []
unfolding split_at_whitespace
split_at_whitespace_alone [] h = refl
split_at_whitespace_alone (c ∷ s) h = ground (arith, split_at_whitespace_alone s h.1)

pub strip_prefix-append : (p s : Text) → strip_prefix p (p ++ s) ≡ some s
unfolding strip_prefix
strip_prefix-append [] s = refl
strip_prefix-append (a ∷ p) s = ground (arith, strip_prefix-append p s)

pub lines-append : (s t : Text) → IsLine s → lines (s ++ (b'\n' ∷ t)) ≡ s ∷ lines t
unfolding lines
lines-append [] t h = refl
lines-append (c ∷ []) t h = ground arith
lines-append (c ∷ d ∷ s) t h = ground (arith, lines-append (d ∷ s) t h.1)

-- No character of the text ends a line or goes with the end of one.
abbrev pub IsPlain : Text → Type 0
IsPlain = All (λ a. (a ≢ b'\n') × (a ≢ 13))

pub IsLine-cons : (c : ℕ) (s : Text) → c ≢ b'\n' → c ≢ 13 → IsLine s → IsLine (c ∷ s)
IsLine-cons c [] h k l = (h, k)
IsLine-cons c (d ∷ s) h k l = (h, l)

-- Behind text without a newline, a line stays a line unless it is empty.
pub IsLine-append :
    (s : Text) (c : ℕ) (t : Text) → Avoids b'\n' s → IsLine (c ∷ t) → IsLine (s ++ (c ∷ t))
IsLine-append [] c t h l = l
IsLine-append (a ∷ []) c t h l = (h.0, l)
IsLine-append (a ∷ b ∷ s) c t h l = (h.0, IsLine-append (b ∷ s) c t h.1 l)

pub IsPlain-IsLine : (s : Text) → IsPlain s → IsLine s
IsPlain-IsLine [] h = tt
IsPlain-IsLine (c ∷ s) h = IsLine-cons c s h.0.0 h.0.1 (IsPlain-IsLine s h.1)

pub IsPlain-append : (s t : Text) → IsPlain s → IsPlain t → IsPlain (s ++ t)
IsPlain-append = All-append (λ a. (a ≢ b'\n') × (a ≢ 13))

pub IsPlain-Avoids : (s : Text) → IsPlain s → Avoids b'\n' s
IsPlain-Avoids [] h = tt
IsPlain-Avoids (c ∷ s) h = (h.0.0, IsPlain-Avoids s h.1)

digits-IsPlain : (s : Text) → All IsDigit s → IsPlain s
digits-IsPlain [] h = tt
digits-IsPlain (c ∷ s) h = ((λ e. omega arith, λ e. omega arith), digits-IsPlain s h.1)

pub decimal-IsPlain : (n : ℕ) → IsPlain (decimal n)
decimal-IsPlain n = digits-IsPlain (decimal n) (decimal-IsDigit n)

pub decimal_ℤ-IsPlain : (z : ℤ) → IsPlain (decimal_ℤ z)
unfolding decimal_ℤ
decimal_ℤ-IsPlain (pos n) = decimal-IsPlain n
decimal_ℤ-IsPlain (negsuc n) = ((λ e. omega arith, λ e. omega arith), decimal-IsPlain (suc n))

digit-IsPlain : (d : ℕ) → d < 16 → IsPlain (digit d ∷ [])
digit-IsPlain d h = ((λ e. ground arith, λ e. ground arith), tt)

hex-IsPlain : (f n : ℕ) (out : Text) → IsPlain out → IsPlain (emit 16 f n out)
unfolding emit
hex-IsPlain zero n out h = h
hex-IsPlain (suc f) n out h =
    let first : IsPlain (digit (n % 16) ∷ out) = ((digit-IsPlain (n % 16) (omega arith)).0, h) in
    ground (arith, hex-IsPlain f (n / 16) (digit (n % 16) ∷ out) first, first)

pub lower_hex-IsPlain : (n : ℕ) → IsPlain (lower_hex n)
unfolding lower_hex
lower_hex-IsPlain n = hex-IsPlain (suc n) n [] tt
