-- ===== src/Prelude/Strings.antt =====
-- The string operations of the standard library that the sources use, on lists of characters.
use php_analyze.Prelude.{
  ℕ, zero, suc, ◌+◌, Bool, false, ◌&&◌, ◌||◌, Option, none, some, List, [], ◌∷◌, map, leb, ◌==◌,
  if◌then◌else◌,
}
use php_analyze.Prelude.Text.{Text, codes, text_eq, starts_with}

-- `char::is_whitespace`: the characters of the Unicode property White_Space.
unfoldable pub is_whitespace : ℕ → Bool
is_whitespace c =
    (leb 9 c && leb c 13)
    || c == 32
    || c == 133
    || c == 160
    || c == 5760
    || (leb 8192 c && leb c 8202)
    || c == 8232
    || c == 8233
    || c == 8239
    || c == 8287
    || c == 12288

unfoldable pub trim_start : Text → Text
unfolding is_whitespace
trim_start [] = []
trim_start (c ∷ s) = let rest = trim_start s in if is_whitespace c then rest else c ∷ s

-- A character before a trimmed rest: whitespace before nothing goes.
unfoldable pub trim_end : Text → Text
unfolding is_whitespace
trim_end [] = []
trim_end (c ∷ s) = elim (trim_end s) [
  | [] ↦ if is_whitespace c then [] else c ∷ []
  | d ∷ rest ↦ c ∷ d ∷ rest
]

-- `str::trim`
unfoldable pub trim : Text → Text
unfolding trim_start trim_end
trim s = trim_end (trim_start s)

abbrev pub to_ascii_lowercase : Text → Text
to_ascii_lowercase = map (λ c. if leb 65 c && leb c 90 then c + 32 else c)

unfoldable pub eq_ignore_ascii_case : Text → Text → Bool
unfolding text_eq
eq_ignore_ascii_case s t = text_eq (to_ascii_lowercase s) (to_ascii_lowercase t)

-- The first piece and the pieces behind it.
abbrev join_first : ℕ → List Text → List Text
join_first c [] = (c ∷ []) ∷ []
join_first c (piece ∷ rest) = (c ∷ piece) ∷ rest

-- `str::split` at a character: one piece more than there are separators.
unfoldable pub split : ℕ → Text → List Text
split sep [] = [] ∷ []
split sep (c ∷ s) = let rest = split sep s in if c == sep then [] ∷ rest else join_first c rest

-- `str::split_once` at the text ://
unfoldable pub split_scheme : Text → Option Text
unfolding starts_with
split_scheme [] = none
split_scheme (c ∷ s) =
    let rest = split_scheme s in
    if starts_with (c ∷ s) (codes "://")
    then some []
    else elim rest [ none ↦ none | some scheme ↦ some (c ∷ scheme) ]

-- `HashSet::contains`
unfoldable pub contains : List Text → Text → Bool
unfolding text_eq
contains [] key = false
contains (name ∷ rest) key = text_eq name key || contains rest key

-- `str::splitn` at a character: the last of the pieces is what is left.
unfoldable pub splitn : ℕ → ℕ → Text → List Text
splitn zero sep s = []
splitn (suc zero) sep s = s ∷ []
splitn (suc (suc n)) sep [] = [] ∷ []
splitn (suc (suc n)) sep (c ∷ s) =
    let apart = splitn (suc n) sep s in
    let together = splitn (suc (suc n)) sep s in
    if c == sep then [] ∷ apart else join_first c together

-- `str::split_once` at a character.
unfoldable pub split_once : ℕ → Text → Option (Text × Text)
split_once sep [] = none
split_once sep (c ∷ s) =
    let rest = split_once sep s in
    if c == sep
    then some ([], s)
    else elim rest [ none ↦ none | some (key, value) ↦ some (c ∷ key, value) ]

unfoldable pub split_at_whitespace : Text → List Text
unfolding is_whitespace
split_at_whitespace [] = [] ∷ []
split_at_whitespace (c ∷ s) =
    let rest = split_at_whitespace s in if is_whitespace c then [] ∷ rest else join_first c rest

abbrev non_empty : List Text → List Text
non_empty [] = []
non_empty ([] ∷ rest) = non_empty rest
non_empty ((c ∷ s) ∷ rest) = (c ∷ s) ∷ non_empty rest

-- `str::split_whitespace`
unfoldable pub split_whitespace : Text → List Text
unfolding split_at_whitespace
split_whitespace s = non_empty (split_at_whitespace s)

-- `str::strip_prefix`
unfoldable pub strip_prefix : Text → Text → Option Text
strip_prefix [] s = some s
strip_prefix (a ∷ p) [] = none
strip_prefix (a ∷ p) (b ∷ s) = let rest = strip_prefix p s in if a == b then rest else none

abbrev ends_line : Text → Bool
ends_line [] = false
ends_line (c ∷ s) = c == b'\n'

-- A character at the front of the current line; with nothing behind it the line is the last.
abbrev line_cons : ℕ → List Text → List Text
line_cons c [] = (c ∷ []) ∷ []
line_cons c (line ∷ rest) = (c ∷ line) ∷ rest

-- `str::lines`: a line ends at a newline, and one carriage return before the newline goes with it.
unfoldable pub lines : Text → List Text
lines [] = []
lines (c ∷ s) =
    let rest = lines s in
    if c == b'\n' then [] ∷ rest else if c == 13 && ends_line s then rest else line_cons c rest
