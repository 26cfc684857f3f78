-- ===== src/Prelude/Utf8.antt =====
-- UTF-8 in the standard library: `<[u8]>::is_ascii`, `str::from_utf8` and `String::from_utf8_lossy`,
-- on a list of bytes, by the table of well-formed byte sequences of the Unicode standard.
pub mod Laws
pub mod Concat
use php_analyze.Prelude.{
  ℕ, zero, suc, Bool, true, false, ◌&&◌, Option, none, some, List, [], ◌∷◌, ◌++◌, ltb, leb, ◌==◌,
  if◌then◌else◌,
}
use php_analyze.Prelude.Text.{Text}

unfoldable pub is_ascii : List ℕ → Bool
is_ascii [] = true
is_ascii (b ∷ bs) = ltb b 128 && is_ascii bs

-- Between two characters, or inside one: the range of the next byte, how many follow that byte, and
-- the bytes read of the character.
pub data Position : Type 0 where
  boundary : Position
  inside : ℕ → ℕ → ℕ → Text → Position

-- The first byte of a character.
unfoldable pub lead : ℕ → Option Position
lead b =
    if ltb b 128
    then some boundary
    else if ltb b 194
    then none
    else if ltb b 224
    then some (inside 128 191 0 (b ∷ []))
    else if b == 224
    then some (inside 160 191 1 (b ∷ []))
    else if b == 237
    then some (inside 128 159 1 (b ∷ []))
    else if ltb b 240
    then some (inside 128 191 1 (b ∷ []))
    else if b == 240
    then some (inside 144 191 2 (b ∷ []))
    else if ltb b 244
    then some (inside 128 191 2 (b ∷ []))
    else if b == 244
    then some (inside 128 143 2 (b ∷ []))
    else none

abbrev pub follow : ℕ → Text → Position
follow zero held = boundary
follow (suc more) held = inside 128 191 more held

-- The position after a byte, if a well-formed text can go on with it.
unfoldable pub accept : Position → ℕ → Option Position
unfolding lead
accept boundary b = lead b
accept (inside lo hi more held) b =
    if leb lo b && leb b hi then some (follow more (held ++ (b ∷ []))) else none

-- A text may end.
abbrev pub ends : Position → Bool
ends boundary = true
ends (inside lo hi more held) = false

-- `str::from_utf8` is `Ok` on the rest of a text, from a position.
unfoldable pub is_utf8 : Position → List ℕ → Bool
unfolding accept
is_utf8 p [] = ends p
is_utf8 p (b ∷ bs) = elim (accept p b) [ none ↦ false | some q ↦ is_utf8 q bs ]

-- `str::from_utf8`
unfoldable pub from_utf8 : List ℕ → Option Text
unfolding is_utf8
from_utf8 bytes = if is_utf8 boundary bytes then some bytes else none

-- U+FFFD
abbrev pub replacement : Text
replacement = 239 ∷ 191 ∷ 189 ∷ []

-- What a byte completes, and the position after it.
abbrev pub complete : Position → Text → Text
complete boundary read = read
complete (inside lo hi more held) read = []

abbrev pub held_of : Position → Text
held_of boundary = []
held_of (inside lo hi more held) = held

-- A byte at a boundary: a character, the start of one, or an error of its own.
unfoldable pub restart : ℕ → Text × Position
unfolding lead
restart b = elim (lead b) [ none ↦ (replacement, boundary) | some q ↦ (complete q (b ∷ []), q) ]

-- A byte at a position; a character that breaks off is replaced, and the byte starts the next.
unfoldable pub react : Position → ℕ → Text × Position
unfolding restart accept
react boundary b = restart b
react (inside lo hi more held) b = elim (accept (inside lo hi more held) b) [
  | some q ↦ (complete q (held ++ (b ∷ [])), q)
  | none ↦ let (out, q) = restart b in (replacement ++ out, q)
]

-- What the end of the bytes adds.
abbrev pub cut : Position → Text
cut boundary = []
cut (inside lo hi more held) = replacement

unfoldable pub lossy : Position → List ℕ → Text
unfolding react
lossy p [] = cut p
lossy p (b ∷ bs) = let (out, q) = react p b in out ++ lossy q bs

-- `String::from_utf8_lossy`
unfoldable pub from_utf8_lossy : List ℕ → Text
unfolding lossy
from_utf8_lossy bytes = lossy boundary bytes
