-- ===== src/Bootstrap/Directives/Defaults.antt =====
-- The defaults in the table of directives are the defaults of the configuration.
use php_analyze.Prelude.{
  Bool, true, false, Option, none, some, List, [], ◌∷◌, ◌≡◌, refl, sym, ap, ◌∙◌, ◌⊎◌, ◌>>=◌,
  Option-cases, if◌then◌else◌, arith, inl, inr,
}
use php_analyze.Prelude.Int.{ℤ, pos}
use php_analyze.Prelude.Text.{Text, codes, text_eq}
use php_analyze.Prelude.Decimal.{parse_i64}
use php_analyze.Config.Types.{FileContent}
use php_analyze.Config.Resolve.{from_ini_values, cpu_mode, unwrap_or}
use php_analyze.Config.Same.{SaysSame, from_ini_values-SaysSame}
use php_analyze.Bootstrap.Directives.{
  Directive, directives, Ini, str_of, lookup_str, lookup_int, lookup_bool, parse_bool,
  raw_ini_from_ini_map,
}

-- The default of a name that the table lists.
abbrev pub default_of : List Directive → Text → Option (Option Text)
default_of [] name = none
default_of (d ∷ rest) name =
    if text_eq d.name name then some (some d.default) else default_of rest name

-- A snapshot, with the default of every registered directive that it lacks.
abbrev pub registered : Ini → Ini
registered ini name = elim (ini name) [
  | some value ↦ some value
  | none ↦ default_of directives name
]

module _ (ini : Ini) (name : Text) where
  -- A reading of a field that the snapshot has, and of one that it lacks.
  filled :
      {A : Type 0} (f : Option (Option Text) → A)
      → (f (registered ini name) ≡ f (ini name))
        ⊎ ((ini name ≡ none) × (f (registered ini name) ≡ f (default_of directives name)))
  filled f = elim (Option-cases (ini name)) [
    | inl absent ↦ inr (absent, ground arith)
    | inr (value, there) ↦ inl (ground arith)
  ]

  -- With the default for want of a value, a field reads the same.
  filled_or :
      {A : Type 0} (f : Option (Option Text) → Option A) (d : A)
      → f none ≡ none
      → f (default_of directives name) ≡ some d
      → unwrap_or (f (registered ini name)) d ≡ unwrap_or (f (ini name)) d
  filled_or f d empty given = elim (filled f) [
    | inl same ↦ ap (λ x. unwrap_or x d) same
    | inr (absent, filled_in) ↦ ground (arith, ap f absent)
  ]

  -- An empty default is no value.
  filled_none :
      default_of directives name ≡ some (some [])
      → lookup_str (registered ini) name ≡ lookup_str ini name
  unfolding lookup_str
  filled_none given = elim (filled str_of) [
    | inl same ↦ same
    | inr (absent, filled_in) ↦ filled_in ∙ ap str_of given ∙ sym (ap str_of absent)
  ]

-- The readings that `lookup_int` and `lookup_bool` make of a value.
abbrev int_of : Option (Option Text) → Option ℤ
int_of value = str_of value >>= parse_i64

abbrev bool_of : Option (Option Text) → Option Bool
bool_of value = str_of value >>= parse_bool

int_default :
    (ini : Ini) (name : Text) (d : ℤ)
    → int_of (default_of directives name) ≡ some d
    → unwrap_or (lookup_int (registered ini) name) d ≡ unwrap_or (lookup_int ini name) d
unfolding lookup_int
int_default ini name d given = filled_or ini name int_of d refl given

bool_default :
    (ini : Ini) (name : Text) (d : Bool)
    → bool_of (default_of directives name) ≡ some d
    → unwrap_or (lookup_bool (registered ini) name) d ≡ unwrap_or (lookup_bool ini name) d
unfolding lookup_bool
bool_default ini name d given = filled_or ini name bool_of d refl given

-- An absent mode and the default of the table are the same mode.
mode_default :
    (ini : Ini)
    → (cpu_mode (lookup_str (registered ini) (codes "php_analyze.cpu_snapshot_mode")) []).0
      ≡ (cpu_mode (lookup_str ini (codes "php_analyze.cpu_snapshot_mode")) []).0
unfolding lookup_str cpu_mode
mode_default ini =
    let name = codes "php_analyze.cpu_snapshot_mode" in
    elim (filled ini name (λ v. (cpu_mode (str_of v) []).0)) [
      | inl same ↦ same
      | inr (absent, filled_in) ↦ filled_in ∙ ap (λ v. (cpu_mode (str_of v) []).0) (sym absent)
    ]

cap_default :
    (ini : Ini)
    → (lookup_int (registered ini) (codes "php_analyze.buffer_cap_bytes")
        ≡ lookup_int ini (codes "php_analyze.buffer_cap_bytes"))
      ⊎ ((lookup_int ini (codes "php_analyze.buffer_cap_bytes") ≡ none)
          × (lookup_int (registered ini) (codes "php_analyze.buffer_cap_bytes")
              ≡ some (pos 67108864)))
unfolding lookup_int text_eq
cap_default ini = elim (filled ini (codes "php_analyze.buffer_cap_bytes") int_of) [
  | inl same ↦ inl same
  | inr (absent, filled_in) ↦ inr (ap int_of absent, filled_in)
]

pub registered-SaysSame :
    (ini : Ini) → SaysSame (raw_ini_from_ini_map (registered ini)) (raw_ini_from_ini_map ini)
unfolding raw_ini_from_ini_map
registered-SaysSame ini = record {
  enabled = bool_default ini (codes "php_analyze.enabled") true refl;
  server_url = filled_none ini (codes "php_analyze.server_url") refl;
  auth_token = filled_none ini (codes "php_analyze.auth_token") refl;
  auth_token_file = filled_none ini (codes "php_analyze.auth_token_file") refl;
  flush_records = int_default ini (codes "php_analyze.flush_records") (pos 10000) refl;
  flush_bytes = int_default ini (codes "php_analyze.flush_bytes") (pos 1048576) refl;
  buffer_cap_bytes = cap_default ini;
  max_depth = int_default ini (codes "php_analyze.max_depth") (pos 1024) refl;
  retry_count = int_default ini (codes "php_analyze.retry_count") (pos 3) refl;
  retry_backoff_ms = int_default ini (codes "php_analyze.retry_backoff_ms") (pos 100) refl;
  http_timeout_ms = int_default ini (codes "php_analyze.http_timeout_ms") (pos 2000) refl;
  shutdown_grace_ms = int_default ini (codes "php_analyze.shutdown_grace_ms") (pos 5000) refl;
  shipper_queue_depth = int_default ini (codes "php_analyze.shipper_queue_depth") (pos 8) refl;
  cpu_snapshot_mode = mode_default ini;
  skip_functions = filled_none ini (codes "php_analyze.skip_functions") refl;
  skip_internal = bool_default ini (codes "php_analyze.skip_internal") false refl;
}

-- Whatever the INI values: the configuration is the same with and without the registered defaults
-- for the directives that have no value; the table of directives and the defaults of the
-- configuration agree.
pub from_ini_values-registered :
    (read_to_string : Text → FileContent) (ini : Ini)
    → (from_ini_values read_to_string (raw_ini_from_ini_map (registered ini))).0
      ≡ (from_ini_values read_to_string (raw_ini_from_ini_map ini)).0
from_ini_values-registered read_to_string ini =
    from_ini_values-SaysSame read_to_string _ _ (registered-SaysSame ini)
