-- ===== src/Config/Resolve.antt =====
-- `clamp_directive` and `Config::from_ini_values` of config.rs.
use php_analyze.Prelude.{
  ℕ, ◌-◌, ◌%◌, ◌^◌, Bool, true, false, not, Option, none, some, List, [], ◌∷◌, ◌++◌, if◌then◌else◌,
}
use php_analyze.Prelude.Int.{ℤ, pos, negsuc, ltb_ℤ, max_ℤ}
use php_analyze.Prelude.Text.{Text, codes}
use php_analyze.Prelude.Words.{u16_mod, u64_mod}
use php_analyze.Prelude.Strings.{trim, eq_ignore_ascii_case}
use php_analyze.Config.Types.{
  CpuSnapshotMode, per_call, off, TokenSource, DisableReason, master_switch_off,
  token_not_configured, server_url_not_configured, RawIni, Config, ConfigWarning, out_of_range,
  unknown_cpu_snapshot_mode, missing_server_url, missing_token, FileContent,
}
use php_analyze.Config.Server.{disable_reason, resolve_server_url}
use php_analyze.Config.Skip.{parse_skip_functions}
use php_analyze.Config.Token.{TokenOutcome, resolve_token}

-- `CpuSnapshotMode::as_ini_str` and `CpuSnapshotMode::parse`
unfoldable pub as_ini_str : CpuSnapshotMode → Text
as_ini_str per_call = codes "per-call"
as_ini_str off = codes "off"

unfoldable pub parse : Text → Option CpuSnapshotMode
unfolding trim eq_ignore_ascii_case
parse raw =
    let normalised = trim raw in
    if eq_ignore_ascii_case normalised (codes "per-call")
    then some per_call
    else if eq_ignore_ascii_case normalised (codes "off")
    then some off
    else none

abbrev pub unwrap_or {ℓ} : {A : Type ℓ} → Option A → A → A
unwrap_or none d = d
unwrap_or (some x) d = x

-- The value within the range, and the warnings after it.
unfoldable pub clamp_directive :
    Option ℤ → ℤ → ℤ × ℤ → Text → List ConfigWarning → ℤ × List ConfigWarning
clamp_directive raw default range directive warnings =
    let (low, high) = range in
    let value = unwrap_or raw default in
    if ltb_ℤ value low
    then (low, warnings ++ (out_of_range directive value low ∷ []))
    else if ltb_ℤ high value
    then (high, warnings ++ (out_of_range directive value high ∷ []))
    else (value, warnings)

-- `as` from i64 to a word.
abbrev pub as_word : ℕ → ℤ → ℕ
as_word modulus (pos n) = n % modulus
as_word modulus (negsuc n) = modulus - 1 - n % modulus

-- `Config::disabled`
unfoldable pub disabled : DisableReason → Config
disabled reason = record {
  enabled = false;
  disable_reason = some reason;
  server_url = none;
  auth_token = [];
  auth_token_source = TokenSource.none;
  flush_records = 10000;
  flush_bytes = 1048576;
  buffer_cap_bytes = 67108864;
  max_depth = 1024;
  retry_count = 3;
  retry_backoff = 100;
  http_timeout = 2000;
  shutdown_grace = 5000;
  shipper_queue_depth = 8;
  cpu_snapshot_mode = per_call;
  skip_functions = [];
  skip_internal = false;
}

-- The nine numbers, in the order in which they are clamped.
pub record Numbers : Type 0 where
  pub flush_records : ℤ
  pub flush_bytes : ℤ
  pub buffer_cap_bytes : ℤ
  pub max_depth : ℤ
  pub retry_count : ℤ
  pub retry_backoff_ms : ℤ
  pub http_timeout_ms : ℤ
  pub shutdown_grace_ms : ℤ
  pub shipper_queue_depth : ℤ

unfoldable pub numbers : RawIni → Numbers × List ConfigWarning
unfolding clamp_directive
numbers raw =
    let (flush_records, ws1) =
      clamp_directive raw.flush_records (pos 10000) (pos 1, pos 1000000000) (codes "flush_records")
        [] in
    let (flush_bytes, ws2) =
      clamp_directive raw.flush_bytes (pos 1048576) (pos 1024, pos 1000000000) (codes "flush_bytes")
        ws1 in
    let (buffer_cap_bytes, ws3) =
      clamp_directive raw.buffer_cap_bytes (max_ℤ (pos 67108864) flush_bytes)
        (max_ℤ (pos 1024) flush_bytes, pos 10000000000) (codes "buffer_cap_bytes") ws2 in
    let (max_depth, ws4) =
      clamp_directive raw.max_depth (pos 1024) (pos 1, pos 65535) (codes "max_depth") ws3 in
    let (retry_count, ws5) =
      clamp_directive raw.retry_count (pos 3) (pos 0, pos 10) (codes "retry_count") ws4 in
    let (retry_backoff_ms, ws6) =
      clamp_directive raw.retry_backoff_ms (pos 100) (pos 1, pos 60000) (codes "retry_backoff_ms")
        ws5 in
    let (http_timeout_ms, ws7) =
      clamp_directive raw.http_timeout_ms (pos 2000) (pos 100, pos 60000) (codes "http_timeout_ms")
        ws6 in
    let (shutdown_grace_ms, ws8) =
      clamp_directive raw.shutdown_grace_ms (pos 5000) (pos 0, pos 60000)
        (codes "shutdown_grace_ms") ws7 in
    let (shipper_queue_depth, ws9) =
      clamp_directive raw.shipper_queue_depth (pos 8) (pos 1, pos 1024)
        (codes "shipper_queue_depth") ws8 in
    (
      record {
        flush_records = flush_records;
        flush_bytes = flush_bytes;
        buffer_cap_bytes = buffer_cap_bytes;
        max_depth = max_depth;
        retry_count = retry_count;
        retry_backoff_ms = retry_backoff_ms;
        http_timeout_ms = http_timeout_ms;
        shutdown_grace_ms = shutdown_grace_ms;
        shipper_queue_depth = shipper_queue_depth;
      },
      ws9,
    )

-- What the server and the token resolve to.
pub record Access : Type 0 where
  pub server_url : Option Text
  pub auth_token : Text
  pub auth_token_source : TokenSource
  pub disable_reason : Option DisableReason

abbrev no_token : Option Text → DisableReason → Access
no_token url reason = record {
  server_url = url;
  auth_token = [];
  auth_token_source = TokenSource.none;
  disable_reason = some reason;
}

abbrev summary : DisableReason → List ConfigWarning → List ConfigWarning
summary server_url_not_configured warnings = warnings ++ (missing_server_url ∷ [])
summary reason warnings = warnings

-- The branches on the token.
unfoldable pub by_token :
    Option Text → TokenOutcome → List ConfigWarning → Access × List ConfigWarning
by_token url (TokenOutcome.resolved token source) warnings = (
  record {
    server_url = url;
    auth_token = token;
    auth_token_source = source;
    disable_reason = none;
  },
  warnings,
)
by_token url TokenOutcome.missing warnings =
    (no_token url token_not_configured, warnings ++ (missing_token ∷ []))
by_token url TokenOutcome.file_unreadable warnings =
    (no_token url DisableReason.token_file_unreadable, warnings)
by_token url TokenOutcome.file_empty warnings =
    (no_token url DisableReason.token_file_empty, warnings)

unfoldable pub cpu_mode : Option Text → List ConfigWarning → CpuSnapshotMode × List ConfigWarning
unfolding parse as_ini_str
cpu_mode none warnings = (per_call, warnings)
cpu_mode (some raw_value) warnings = elim (parse raw_value) [
  | some mode ↦ (mode, warnings)
  | none ↦ (per_call, warnings ++ (unknown_cpu_snapshot_mode raw_value (as_ini_str per_call) ∷ []))
]

abbrev pub is_none {ℓ} : {A : Type ℓ} → Option A → Bool
is_none none = true
is_none (some x) = false

module _ (read_to_string : Text → FileContent) where
  unfoldable pub access : RawIni → List ConfigWarning → Access × List ConfigWarning
  unfolding resolve_server_url resolve_token disable_reason by_token
  access raw warnings =
      let (url, outcome, ws1) = resolve_server_url raw warnings in
      let (token, ws2) = resolve_token read_to_string raw ws1 in
      elim (disable_reason outcome) [
        | some reason ↦ (no_token url reason, summary reason ws1)
        | none ↦ by_token url token ws2
      ]

  unfoldable pub from_ini_values : RawIni → Config × List ConfigWarning
  unfolding disabled numbers access cpu_mode parse_skip_functions
  from_ini_values raw =
      let (n, ws1) = numbers raw in
      let (a, ws2) = access raw ws1 in
      let (mode, ws3) = cpu_mode raw.cpu_snapshot_mode ws2 in
      if not (unwrap_or raw.enabled true) then (disabled master_switch_off, []) else (
        record {
          enabled = is_none a.disable_reason;
          disable_reason = a.disable_reason;
          server_url = a.server_url;
          auth_token = a.auth_token;
          auth_token_source = a.auth_token_source;
          flush_records = as_word u64_mod n.flush_records;
          flush_bytes = as_word u64_mod n.flush_bytes;
          buffer_cap_bytes = as_word u64_mod n.buffer_cap_bytes;
          max_depth = as_word u16_mod n.max_depth;
          retry_count = as_word (2 ^ 8) n.retry_count;
          retry_backoff = as_word u64_mod n.retry_backoff_ms;
          http_timeout = as_word u64_mod n.http_timeout_ms;
          shutdown_grace = as_word u64_mod n.shutdown_grace_ms;
          shipper_queue_depth = as_word u64_mod n.shipper_queue_depth;
          cpu_snapshot_mode = mode;
          skip_functions = parse_skip_functions raw.skip_functions;
          skip_internal = unwrap_or raw.skip_internal false;
        },
        ws3,
      )
