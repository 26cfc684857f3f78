-- ===== src/Config/Same.antt =====
-- Raw values that say the same once the defaults are put in resolve to the same configuration,
-- with other warnings perhaps.
use php_analyze.Prelude.{
  true, false, Option, none, some, List, [], ◌≡◌, refl, sym, ◌∙◌, ◌⊎◌, inl, inr, arith,
  Option-cases,
}
use php_analyze.Prelude.Int.{ℤ, pos, max_ℤ}
use php_analyze.Prelude.Text.{Text, codes}
use php_analyze.Config.Types.{RawIni, ConfigWarning, FileContent}
use php_analyze.Config.Server.{resolve_server_url, disable_reason}
use php_analyze.Config.Token.{TokenOutcome, resolve_token}
use php_analyze.Config.Skip.{parse_skip_functions}
use php_analyze.Config.Ranges.{Between, clamp_directive-Between}
use php_analyze.Config.Chosen.{chosen, from_ini_values_lem}
use php_analyze.Config.Resolve.{
  clamp_directive, numbers, from_ini_values, access, by_token, cpu_mode, unwrap_or,
}

-- Two sets of raw values that say the same once the defaults are put in.
pub record SaysSame (raw' raw : RawIni) : Type 0 where
  pub enabled : unwrap_or raw'.enabled true ≡ unwrap_or raw.enabled true
  pub server_url : raw'.server_url ≡ raw.server_url
  pub auth_token : raw'.auth_token ≡ raw.auth_token
  pub auth_token_file : raw'.auth_token_file ≡ raw.auth_token_file
  pub flush_records :
      unwrap_or raw'.flush_records (pos 10000) ≡ unwrap_or raw.flush_records (pos 10000)
  pub flush_bytes :
      unwrap_or raw'.flush_bytes (pos 1048576) ≡ unwrap_or raw.flush_bytes (pos 1048576)
  pub buffer_cap_bytes :
      (raw'.buffer_cap_bytes ≡ raw.buffer_cap_bytes)
      ⊎ ((raw.buffer_cap_bytes ≡ none) × (raw'.buffer_cap_bytes ≡ some (pos 67108864)))
  pub max_depth : unwrap_or raw'.max_depth (pos 1024) ≡ unwrap_or raw.max_depth (pos 1024)
  pub retry_count : unwrap_or raw'.retry_count (pos 3) ≡ unwrap_or raw.retry_count (pos 3)
  pub retry_backoff_ms :
      unwrap_or raw'.retry_backoff_ms (pos 100) ≡ unwrap_or raw.retry_backoff_ms (pos 100)
  pub http_timeout_ms :
      unwrap_or raw'.http_timeout_ms (pos 2000) ≡ unwrap_or raw.http_timeout_ms (pos 2000)
  pub shutdown_grace_ms :
      unwrap_or raw'.shutdown_grace_ms (pos 5000) ≡ unwrap_or raw.shutdown_grace_ms (pos 5000)
  pub shipper_queue_depth :
      unwrap_or raw'.shipper_queue_depth (pos 8) ≡ unwrap_or raw.shipper_queue_depth (pos 8)
  pub cpu_snapshot_mode :
      (cpu_mode raw'.cpu_snapshot_mode []).0 ≡ (cpu_mode raw.cpu_snapshot_mode []).0
  pub skip_functions : raw'.skip_functions ≡ raw.skip_functions
  pub skip_internal : unwrap_or raw'.skip_internal false ≡ unwrap_or raw.skip_internal false

-- The clamped value depends on the value with its default alone.
clamp_directive-same :
    (raw' raw : Option ℤ) (d low high : ℤ) (name : Text) (ws' ws : List ConfigWarning)
    → unwrap_or raw' d ≡ unwrap_or raw d
    → (clamp_directive raw' d (low, high) name ws').0
      ≡ (clamp_directive raw d (low, high) name ws).0
unfolding clamp_directive
clamp_directive-same raw' raw d low high name ws' ws e = ground arith

-- The default in the table is below the default of the code when the flush threshold is greater; it
-- is then clamped to the same cap.
cap-same :
    (raw' raw : Option ℤ) (bytes' bytes : ℤ) (name : Text) (ws' ws : List ConfigWarning)
    → (raw' ≡ raw) ⊎ ((raw ≡ none) × (raw' ≡ some (pos 67108864)))
    → bytes' ≡ bytes
    → Between (pos 1024) (pos 1000000000) bytes
    → (clamp_directive raw'
        (max_ℤ (pos 67108864) bytes')
        (max_ℤ (pos 1024) bytes', pos 10000000000)
        name
        ws').0
      ≡ (clamp_directive raw
          (max_ℤ (pos 67108864) bytes)
          (max_ℤ (pos 1024) bytes, pos 10000000000)
          name
          ws).0
unfolding clamp_directive
cap-same raw' raw bytes' bytes name ws' ws (inl same) e h = ground arith
cap-same raw' raw bytes' bytes name ws' ws (inr (absent, given)) e h = ground arith

numbers-SaysSame : (raw' raw : RawIni) → SaysSame raw' raw → (numbers raw').0 ≡ (numbers raw).0
unfolding numbers
numbers-SaysSame raw' raw s =
    let bytes : (numbers raw').0.flush_bytes ≡ (numbers raw).0.flush_bytes =
      clamp_directive-same raw'.flush_bytes raw.flush_bytes (pos 1048576) (pos 1024)
        (pos 1000000000) _ _ _ s.flush_bytes in
    let inside : Between (pos 1024) (pos 1000000000) (numbers raw).0.flush_bytes =
      clamp_directive-Between raw.flush_bytes _ _ _ _ _ (omega arith) in
    let cap : (numbers raw').0.buffer_cap_bytes ≡ (numbers raw).0.buffer_cap_bytes =
      cap-same raw'.buffer_cap_bytes raw.buffer_cap_bytes _ _ _ _ _ s.buffer_cap_bytes bytes
        inside in
    let flush_records : (numbers raw').0.flush_records ≡ (numbers raw).0.flush_records =
      clamp_directive-same raw'.flush_records raw.flush_records (pos 10000) (pos 1) (pos 1000000000)
        (codes "flush_records") [] [] s.flush_records in
    let max_depth : (numbers raw').0.max_depth ≡ (numbers raw).0.max_depth =
      clamp_directive-same raw'.max_depth raw.max_depth (pos 1024) (pos 1) (pos 65535) _ _ _
        s.max_depth in
    let retry_count : (numbers raw').0.retry_count ≡ (numbers raw).0.retry_count =
      clamp_directive-same raw'.retry_count raw.retry_count (pos 3) (pos 0) (pos 10) _ _ _
        s.retry_count in
    let retry_backoff_ms : (numbers raw').0.retry_backoff_ms ≡ (numbers raw).0.retry_backoff_ms =
      clamp_directive-same raw'.retry_backoff_ms raw.retry_backoff_ms (pos 100) (pos 1) (pos 60000)
        _ _ _ s.retry_backoff_ms in
    let http_timeout_ms : (numbers raw').0.http_timeout_ms ≡ (numbers raw).0.http_timeout_ms =
      clamp_directive-same raw'.http_timeout_ms raw.http_timeout_ms (pos 2000) (pos 100) (pos 60000)
        _ _ _ s.http_timeout_ms in
    let shutdown_grace_ms : (numbers raw').0.shutdown_grace_ms ≡ (numbers raw).0.shutdown_grace_ms =
      clamp_directive-same raw'.shutdown_grace_ms raw.shutdown_grace_ms (pos 5000) (pos 0)
        (pos 60000) _ _ _ s.shutdown_grace_ms in
    let shipper_queue_depth : (numbers raw').0.shipper_queue_depth
        ≡ (numbers raw).0.shipper_queue_depth =
      clamp_directive-same raw'.shipper_queue_depth raw.shipper_queue_depth (pos 8) (pos 1)
        (pos 1024) _ _ _ s.shipper_queue_depth in
    λ i. record {
      flush_records = flush_records i;
      flush_bytes = bytes i;
      buffer_cap_bytes = cap i;
      max_depth = max_depth i;
      retry_count = retry_count i;
      retry_backoff_ms = retry_backoff_ms i;
      http_timeout_ms = http_timeout_ms i;
      shutdown_grace_ms = shutdown_grace_ms i;
      shipper_queue_depth = shipper_queue_depth i;
    }

cpu_mode-warnings :
    (mode : Option Text) (ws' ws : List ConfigWarning)
    → (cpu_mode mode ws').0 ≡ (cpu_mode mode ws).0
unfolding cpu_mode
cpu_mode-warnings none ws' ws = refl
cpu_mode-warnings (some m) ws' ws = ground arith

-- The two resolutions read the strings alone; the warnings that come in do not matter.
resolve_server_url-same :
    (raw' raw : RawIni) (ws' ws : List ConfigWarning)
    → raw'.server_url ≡ raw.server_url
    → ((resolve_server_url raw' ws').0 ≡ (resolve_server_url raw ws).0)
      × ((resolve_server_url raw' ws').1 ≡ (resolve_server_url raw ws).1)
unfolding resolve_server_url
resolve_server_url-same raw' raw ws' ws e = ground arith

by_token-same :
    (url' url : Option Text) (token' token : TokenOutcome) (ws' ws : List ConfigWarning)
    → url' ≡ url
    → token' ≡ token
    → (by_token url' token' ws').0 ≡ (by_token url token ws).0
unfolding by_token
by_token-same url' url token' token ws' ws e k = ground arith

module _ (read_to_string : Text → FileContent) where
  resolve_token-same :
      (raw' raw : RawIni) (ws' ws : List ConfigWarning)
      → raw'.auth_token ≡ raw.auth_token
      → raw'.auth_token_file ≡ raw.auth_token_file
      → (resolve_token read_to_string raw' ws').0 ≡ (resolve_token read_to_string raw ws).0
  unfolding resolve_token
  resolve_token-same raw' raw ws' ws e k = ground arith

  access-SaysSame :
      (raw' raw : RawIni) (ws' ws : List ConfigWarning)
      → SaysSame raw' raw
      → (access read_to_string raw' ws').0 ≡ (access read_to_string raw ws).0
  unfolding access
  access-SaysSame raw' raw ws' ws s =
      let server = resolve_server_url-same raw' raw ws' ws s.server_url in
      elim (Option-cases (disable_reason (resolve_server_url raw ws).1)) [
        | inl fine ↦ ground (
          arith,
          server,
          by_token-same (resolve_server_url raw' ws').0 (resolve_server_url raw ws).0
              (resolve_token read_to_string raw' (resolve_server_url raw' ws').2).0
              (resolve_token read_to_string raw (resolve_server_url raw ws).2).0
              (resolve_token read_to_string raw' (resolve_server_url raw' ws').2).1
              (resolve_token read_to_string raw (resolve_server_url raw ws).2).1 server.0
              (resolve_token-same raw' raw (resolve_server_url raw' ws').2
                (resolve_server_url raw ws).2 s.auth_token s.auth_token_file),
        )
        | inr (reason, why) ↦ ground (arith, server)
      ]

  pub from_ini_values-SaysSame :
      (raw' raw : RawIni)
      → SaysSame raw' raw
      → (from_ini_values read_to_string raw').0 ≡ (from_ini_values read_to_string raw).0
  from_ini_values-SaysSame raw' raw s =
      let mode =
        cpu_mode-warnings raw'.cpu_snapshot_mode (access read_to_string raw' (numbers raw').1).1 []
        ∙ s.cpu_snapshot_mode
        ∙ cpu_mode-warnings raw.cpu_snapshot_mode []
            (access read_to_string raw (numbers raw).1).1 in
      from_ini_values_lem read_to_string raw'
      ∙ (λ i.
          chosen (s.enabled i) (numbers-SaysSame raw' raw s i)
            (access-SaysSame raw' raw (numbers raw').1 (numbers raw).1 s i) (mode i)
            (parse_skip_functions (s.skip_functions i)) (s.skip_internal i))
      ∙ sym (from_ini_values_lem read_to_string raw)
