-- ===== src/Config/Types.antt =====
-- The types of config.rs.
use php_analyze.Prelude.{ℕ, Bool, Option, List}
use php_analyze.Prelude.Int.{ℤ}
use php_analyze.Prelude.Text.{Text}

pub data CpuSnapshotMode : Type 0 where
  per_call off : CpuSnapshotMode

pub data TokenSource : Type 0 where
  none inline : TokenSource
  file : Text → TokenSource

pub data DisableReason : Type 0 where
  master_switch_off server_url_not_configured server_url_invalid : DisableReason
  server_url_scheme_unsupported token_not_configured : DisableReason
  token_file_unreadable token_file_empty : DisableReason

-- A set of names is a list, read by membership alone.
pub record Config : Type 0 where
  pub enabled : Bool
  pub disable_reason : Option DisableReason
  pub server_url : Option Text
  pub auth_token : Text
  pub auth_token_source : TokenSource
  pub flush_records : ℕ
  pub flush_bytes : ℕ
  pub buffer_cap_bytes : ℕ
  pub max_depth : ℕ
  pub retry_count : ℕ
  pub retry_backoff : ℕ
  pub http_timeout : ℕ
  pub shutdown_grace : ℕ
  pub shipper_queue_depth : ℕ
  pub cpu_snapshot_mode : CpuSnapshotMode
  pub skip_functions : List Text
  pub skip_internal : Bool

pub record RawIni : Type 0 where
  pub enabled : Option Bool
  pub server_url : Option Text
  pub auth_token : Option Text
  pub auth_token_file : Option Text
  pub flush_records : Option ℤ
  pub flush_bytes : Option ℤ
  pub buffer_cap_bytes : Option ℤ
  pub max_depth : Option ℤ
  pub retry_count : Option ℤ
  pub retry_backoff_ms : Option ℤ
  pub http_timeout_ms : Option ℤ
  pub shutdown_grace_ms : Option ℤ
  pub shipper_queue_depth : Option ℤ
  pub cpu_snapshot_mode : Option Text
  pub skip_functions : Option Text
  pub skip_internal : Option Bool

pub data ConfigWarning : Type 0 where
  invalid_url : Text → Text → ConfigWarning
  unsupported_scheme : Text → ConfigWarning
  http_scheme missing_server_url missing_token : ConfigWarning
  token_file_unreadable : Text → Text → ConfigWarning
  empty_token_file : Text → ConfigWarning
  out_of_range : Text → ℤ → ℤ → ConfigWarning
  unknown_cpu_snapshot_mode : Text → Text → ConfigWarning

-- What `read_to_string` gives.
pub data FileContent : Type 0 where
  readable unreadable : Text → FileContent
