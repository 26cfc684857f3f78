-- ===== src/Bootstrap/Directives.antt =====
-- The table of directives and the reading of the INI values into a `RawIni`.
pub mod Defaults
use php_analyze.Prelude.{
  Bool, true, false, Option, none, some, List, [], ◌∷◌, ◌||◌, is_empty, if◌then◌else◌, ◌>>=◌,
}
use php_analyze.Prelude.Int.{ℤ}
use php_analyze.Prelude.Text.{Text, codes, text_eq}
use php_analyze.Prelude.Decimal.{parse_i64}
use php_analyze.Prelude.Strings.{trim, to_ascii_lowercase}
use php_analyze.Config.Types.{RawIni}

pub record Directive : Type 0 where
  pub name : Text
  pub default : Text
  pub redact_display : Bool

abbrev directive : Text → Text → Directive
directive name default = record { name = name; default = default; redact_display = false }

abbrev pub directives : List Directive
directives =
    directive (codes "php_analyze.enabled") (codes "1")
    ∷ directive (codes "php_analyze.server_url") []
    ∷ record { name = codes "php_analyze.auth_token"; default = []; redact_display = true }
    ∷ directive (codes "php_analyze.auth_token_file") []
    ∷ directive (codes "php_analyze.flush_records") (codes "10000")
    ∷ directive (codes "php_analyze.flush_bytes") (codes "1048576")
    ∷ directive (codes "php_analyze.buffer_cap_bytes") (codes "67108864")
    ∷ directive (codes "php_analyze.max_depth") (codes "1024")
    ∷ directive (codes "php_analyze.retry_count") (codes "3")
    ∷ directive (codes "php_analyze.retry_backoff_ms") (codes "100")
    ∷ directive (codes "php_analyze.http_timeout_ms") (codes "2000")
    ∷ directive (codes "php_analyze.shutdown_grace_ms") (codes "5000")
    ∷ directive (codes "php_analyze.shipper_queue_depth") (codes "8")
    ∷ directive (codes "php_analyze.cpu_snapshot_mode") (codes "per-call")
    ∷ directive (codes "php_analyze.skip_functions") []
    ∷ directive (codes "php_analyze.skip_internal") (codes "0")
    ∷ []

-- The snapshot of the INI values is read by name alone: `HashMap::get`.
abbrev pub Ini : Type 0
Ini = Text → Option (Option Text)

unfoldable pub parse_bool : Text → Option Bool
unfolding trim text_eq
parse_bool s =
    let t = to_ascii_lowercase (trim s) in
    if text_eq t (codes "1")
      || text_eq t (codes "on")
      || text_eq t (codes "true")
      || text_eq t (codes "yes")
    then some true
    else if text_eq t (codes "0")
        || text_eq t (codes "off")
        || text_eq t (codes "false")
        || text_eq t (codes "no")
        || text_eq t []
    then some false
    else none

-- What `lookup_str` makes of the value of a name.
unfoldable pub str_of : Option (Option Text) → Option Text
unfolding trim
str_of none = none
str_of (some none) = none
str_of (some (some s)) = let trimmed = trim s in if is_empty trimmed then none else some trimmed

unfoldable pub lookup_str : Ini → Text → Option Text
unfolding str_of
lookup_str ini name = str_of (ini name)

unfoldable pub lookup_int : Ini → Text → Option ℤ
unfolding lookup_str parse_i64
lookup_int ini name = do s ← lookup_str ini name; parse_i64 s

unfoldable pub lookup_bool : Ini → Text → Option Bool
unfolding lookup_str parse_bool
lookup_bool ini name = do s ← lookup_str ini name; parse_bool s

unfoldable pub raw_ini_from_ini_map : Ini → RawIni
unfolding lookup_str lookup_int lookup_bool
raw_ini_from_ini_map ini = record {
  enabled = lookup_bool ini (codes "php_analyze.enabled");
  server_url = lookup_str ini (codes "php_analyze.server_url");
  auth_token = lookup_str ini (codes "php_analyze.auth_token");
  auth_token_file = lookup_str ini (codes "php_analyze.auth_token_file");
  flush_records = lookup_int ini (codes "php_analyze.flush_records");
  flush_bytes = lookup_int ini (codes "php_analyze.flush_bytes");
  buffer_cap_bytes = lookup_int ini (codes "php_analyze.buffer_cap_bytes");
  max_depth = lookup_int ini (codes "php_analyze.max_depth");
  retry_count = lookup_int ini (codes "php_analyze.retry_count");
  retry_backoff_ms = lookup_int ini (codes "php_analyze.retry_backoff_ms");
  http_timeout_ms = lookup_int ini (codes "php_analyze.http_timeout_ms");
  shutdown_grace_ms = lookup_int ini (codes "php_analyze.shutdown_grace_ms");
  shipper_queue_depth = lookup_int ini (codes "php_analyze.shipper_queue_depth");
  cpu_snapshot_mode = lookup_str ini (codes "php_analyze.cpu_snapshot_mode");
  skip_functions = lookup_str ini (codes "php_analyze.skip_functions");
  skip_internal = lookup_bool ini (codes "php_analyze.skip_internal");
}
