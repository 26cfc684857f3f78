-- ===== src/Config/Chosen.antt =====
-- The resolved configuration, put together from its parts, and its warnings.
use php_analyze.Prelude.{Bool, true, false, List, [], ◌≡◌, refl, not, if◌then◌else◌, ◌^◌}
use php_analyze.Prelude.Text.{Text}
use php_analyze.Prelude.Words.{u16_mod, u64_mod}
use php_analyze.Config.Types.{CpuSnapshotMode, master_switch_off, RawIni, Config, FileContent}
use php_analyze.Config.Skip.{parse_skip_functions}
use php_analyze.Config.Resolve.{
  numbers, Numbers, from_ini_values, access, cpu_mode, unwrap_or, disabled, Access, as_word,
  is_none,
}

-- The configuration from its parts.
abbrev pub chosen : Bool → Numbers → Access → CpuSnapshotMode → List Text → Bool → Config
chosen enabled n a mode skip_functions skip_internal =
    if not enabled then disabled master_switch_off else record {
      enabled = is_none a.disable_reason;
      disable_reason = a.disable_reason;
      server_url = a.server_url;
      auth_token = a.auth_token;
      auth_token_source = a.auth_token_source;
      flush_records = as_word u64_mod n.flush_records;
      flush_bytes = as_word u64_mod n.flush_bytes;
      buffer_cap_bytes = as_word u64_mod n.buffer_cap_bytes;
      max_depth = as_word u16_mod n.max_depth;
      retry_count = as_word (2 ^ 8) n.retry_count;
      retry_backoff = as_word u64_mod n.retry_backoff_ms;
      http_timeout = as_word u64_mod n.http_timeout_ms;
      shutdown_grace = as_word u64_mod n.shutdown_grace_ms;
      shipper_queue_depth = as_word u64_mod n.shipper_queue_depth;
      cpu_snapshot_mode = mode;
      skip_functions = skip_functions;
      skip_internal = skip_internal;
    }

first_of_if :
    {A B : Type 0} (b : Bool) (x y : A × B) → (if b then x else y).0 ≡ (if b then x.0 else y.0)
first_of_if true x y = refl
first_of_if false x y = refl

second_of_if :
    {A B : Type 0} (b : Bool) (x y : A × B) → (if b then x else y).1 ≡ (if b then x.1 else y.1)
second_of_if true x y = refl
second_of_if false x y = refl

module _ (read_to_string : Text → FileContent) where
  pub from_ini_values_lem :
      (raw : RawIni)
      → (from_ini_values read_to_string raw).0
        ≡ chosen
            (unwrap_or raw.enabled true)
            (numbers raw).0
            (access read_to_string raw (numbers raw).1).0
            (cpu_mode raw.cpu_snapshot_mode (access read_to_string raw (numbers raw).1).1).0
            (parse_skip_functions raw.skip_functions)
            (unwrap_or raw.skip_internal false)
  unfolding from_ini_values
  from_ini_values_lem raw = first_of_if (not (unwrap_or raw.enabled true)) _ _

  pub from_ini_values-warnings :
      (raw : RawIni)
      → (from_ini_values read_to_string raw).1 ≡ (
          if not (unwrap_or raw.enabled true)
          then []
          else (cpu_mode raw.cpu_snapshot_mode (access read_to_string raw (numbers raw).1).1).1)
  unfolding from_ini_values
  from_ini_values-warnings raw = second_of_if (not (unwrap_or raw.enabled true)) _ _
