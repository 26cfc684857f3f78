-- ===== src/Tests/Config.antt =====
-- A configuration that is enabled, one whose token file is missing, and a filtered function.
use php_analyze.Prelude.{◌≡◌, refl, inl, inr, true, false, none, some, is_empty}
use php_analyze.Prelude.Int.{pos, negsuc}
use php_analyze.Prelude.Text.{text_eq, Text, codes}
use php_analyze.Prelude.Strings.{split_scheme, trim, split}
use php_analyze.Config.Types.{RawIni, FileContent, unreadable}
use php_analyze.Config.Resolve.{from_ini_values}
use php_analyze.Config.Ranges.{IsUsable, from_ini_values-IsUsable}
use php_analyze.Config.Enabled.{HasServer, from_ini_values-enabled, from_ini_values-unreadable}
use php_analyze.Config.Skip.{should_observe_filter, parse_skip_functions}
use php_analyze.Config.Filter.{should_observe_filter-listed}

abbrev pub no_files : Text → FileContent
no_files path = unreadable (codes "gone")

abbrev pub ini : RawIni
ini = record {
  enabled = none;
  server_url = some (codes "https://a");
  auth_token = some (codes "t");
  auth_token_file = none;
  flush_records = some (negsuc 4);
  flush_bytes = some (pos 900000000);
  buffer_cap_bytes = some (pos 2048);
  max_depth = none;
  retry_count = some (pos 11);
  retry_backoff_ms = none;
  http_timeout_ms = none;
  shutdown_grace_ms = none;
  shipper_queue_depth = none;
  cpu_snapshot_mode = none;
  skip_functions = none;
  skip_internal = none;
}

abbrev ini_with_file : RawIni
ini_with_file = record ini { auth_token_file = some (codes "f") }

from_ini_values-IsUsable_example : IsUsable (from_ini_values no_files ini).0
from_ini_values-IsUsable_example = from_ini_values-IsUsable no_files ini

ini_enables : (from_ini_values no_files ini).0.enabled ≡ true
unfolding from_ini_values trim split_scheme text_eq
ini_enables = refl

from_ini_values-enabled_example :
    HasServer (from_ini_values no_files ini).0.server_url
    × (is_empty (from_ini_values no_files ini).0.auth_token ≡ false)
from_ini_values-enabled_example = from_ini_values-enabled no_files ini ini_enables

from_ini_values-unreadable_example : (from_ini_values no_files ini_with_file).0.enabled ≡ false
unfolding trim
from_ini_values-unreadable_example = from_ini_values-unreadable no_files ini_with_file refl refl

should_observe_filter-listed_example :
    should_observe_filter false
      (parse_skip_functions (some (codes "a, B")))
      (record { function_name = some (codes "b"); class_name = none; is_internal = true })
    ≡ false
unfolding trim split
should_observe_filter-listed_example =
    should_observe_filter-listed false (codes "a, B") (codes " B") (codes "b") true (inr (inl refl))
      refl refl
