-- ===== src/Stub/Headers.antt =====
-- The checks on the headers of a request. A header is its name and its value.
pub mod Laws
use php_analyze.Prelude.{Bool, false, Option, none, some, List, [], ◌∷◌, if◌then◌else◌}
use php_analyze.Prelude.Text.{Text, codes, text_eq}
use php_analyze.Prelude.Strings.{eq_ignore_ascii_case, strip_prefix}
use php_analyze.Wire.{media_type}

abbrev pub Header : Type 0
Header = Text × Text

-- The value of the first header with the name.
unfoldable pub find_header_value : List Header → Text → Option Text
unfolding eq_ignore_ascii_case
find_header_value [] name = none
find_header_value ((field, value) ∷ rest) name =
    let later = find_header_value rest name in
    if eq_ignore_ascii_case field name then some value else later

-- `none` of `strip_prefix` is a value that does not start with the prefix.
unfoldable pub validate_bearer : List Header → Text → Bool
unfolding find_header_value strip_prefix text_eq
validate_bearer headers configured = elim (find_header_value headers (codes "Authorization")) [
  | none ↦ false
  | some value ↦ elim (strip_prefix (codes "Bearer ") value) [
    | none ↦ false
    | some presented ↦ text_eq presented configured
  ]
]

unfoldable pub validate_content_type : List Header → Bool
unfolding find_header_value text_eq
validate_content_type headers = elim (find_header_value headers (codes "Content-Type")) [
  | none ↦ false
  | some value ↦ text_eq value media_type
]

-- The names and the values as they were sent, in their order.
unfoldable pub capture_headers : List Header → List Header
capture_headers [] = []
capture_headers ((field, value) ∷ rest) = (field, value) ∷ capture_headers rest
