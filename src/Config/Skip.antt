-- ===== src/Config/Skip.antt =====
-- The filter of functions: `parse_skip_functions` of config.rs and `should_observe_filter` of
-- recorder/observer.rs.
use php_analyze.Prelude.{
  Bool, true, false, not, ◌&&◌, Option, none, some, List, [], ◌∷◌, ◌++◌, is_empty, if◌then◌else◌,
}
use php_analyze.Prelude.Text.{Text, codes}
use php_analyze.Prelude.Strings.{trim, to_ascii_lowercase, split, contains}

abbrev pub default_skip_functions : List Text
default_skip_functions =
    codes "is_array"
    ∷ codes "is_bool"
    ∷ codes "is_callable"
    ∷ codes "is_countable"
    ∷ codes "is_float"
    ∷ codes "is_int"
    ∷ codes "is_integer"
    ∷ codes "is_iterable"
    ∷ codes "is_long"
    ∷ codes "is_null"
    ∷ codes "is_numeric"
    ∷ codes "is_object"
    ∷ codes "is_scalar"
    ∷ codes "is_string"
    ∷ codes "gettype"
    ∷ codes "get_class"
    ∷ codes "get_called_class"
    ∷ codes "get_parent_class"
    ∷ codes "function_exists"
    ∷ codes "method_exists"
    ∷ codes "property_exists"
    ∷ codes "defined"
    ∷ codes "spl_object_id"
    ∷ codes "spl_object_hash"
    ∷ codes "strlen"
    ∷ codes "count"
    ∷ codes "sizeof"
    ∷ codes "array_key_exists"
    ∷ codes "key_exists"
    ∷ codes "key"
    ∷ codes "current"
    ∷ codes "intval"
    ∷ codes "floatval"
    ∷ codes "doubleval"
    ∷ codes "strval"
    ∷ codes "boolval"
    ∷ codes "abs"
    ∷ codes "floor"
    ∷ codes "ceil"
    ∷ codes "round"
    ∷ codes "intdiv"
    ∷ []

-- Trim each piece, drop the empty ones, lowercase the rest.
unfoldable pub entries : List Text → List Text
unfolding trim
entries [] = []
entries (piece ∷ rest) =
    let name = trim piece in
    let others = entries rest in if is_empty name then others else to_ascii_lowercase name ∷ others

unfoldable pub parsed_entries : Option Text → List Text
unfolding entries split
parsed_entries none = []
parsed_entries (some value) = entries (split 44 value)

unfoldable pub parse_skip_functions : Option Text → List Text
unfolding parsed_entries
parse_skip_functions raw =
    let parsed = parsed_entries raw in if is_empty parsed then default_skip_functions else parsed

-- What the engine tells about a function.
pub record FcallInfo : Type 0 where
  pub function_name : Option Text
  pub class_name : Option Text
  pub is_internal : Bool

abbrev pub lookup_key : Option Text → Text → Text
lookup_key none name = to_ascii_lowercase name
lookup_key (some class) name = to_ascii_lowercase class ++ (codes "::" ++ to_ascii_lowercase name)

unfoldable pub should_observe_filter : Bool → List Text → FcallInfo → Bool
unfolding contains
should_observe_filter skip_internal skip_functions info =
    if skip_internal && info.is_internal then false else elim info.function_name [
      | none ↦ true
      | some name ↦ not (contains skip_functions (lookup_key info.class_name name))
    ]
