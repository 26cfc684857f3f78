-- ===== src/Config/Filter.antt =====
-- The operator's list of functions that are not observed.
use php_analyze.Prelude.{
  ◌≡◌, ap, inl, inr, Bool, true, false, none, some, List, [], ◌∷◌, arith, In, is_empty,
}
use php_analyze.Prelude.Text.{Text, text_eq_refl}
use php_analyze.Prelude.Strings.{trim, split, contains, to_ascii_lowercase}
use php_analyze.Config.Skip.{entries, parsed_entries, parse_skip_functions, should_observe_filter}

contains-entries :
    (piece : Text) (pieces : List Text)
    → In piece pieces
    → is_empty (trim piece) ≡ false
    → contains (entries pieces) (to_ascii_lowercase (trim piece)) ≡ true
unfolding contains entries
contains-entries piece [] h there = absurd h
contains-entries piece (first ∷ rest) (inl e) there =
    ground (arith, ap trim e, text_eq_refl (to_ascii_lowercase (trim piece)))
contains-entries piece (first ∷ rest) (inr h) there =
    ground (arith, contains-entries piece rest h there)

-- A function without a class is not observed if its name is, up to ASCII case, one of the pieces
-- between the commas of the directive, trimmed and not blank.
pub should_observe_filter-listed :
    (skip_internal : Bool) (value piece name : Text) (is_internal : Bool)
    → In piece (split 44 value)
    → is_empty (trim piece) ≡ false
    → to_ascii_lowercase name ≡ to_ascii_lowercase (trim piece)
    → should_observe_filter skip_internal
        (parse_skip_functions (some value))
        (record { function_name = some name; class_name = none; is_internal = is_internal })
      ≡ false
unfolding should_observe_filter parse_skip_functions parsed_entries contains
should_observe_filter-listed skip_internal value piece name is_internal h there same = ground (
  arith,
  contains-entries piece (split 44 value) h there,
  ap (contains (entries (split 44 value))) same,
)
