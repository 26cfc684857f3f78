-- ===== src/Bootstrap/PhpInfo.antt =====
-- `PhpInfoRenderer`: the rows of the table of phpinfo, and `DisableReason::human`.
pub mod Redacted
use php_analyze.Prelude.{ℕ, Bool, Option, none, some, List, [], ◌∷◌, ◌++◌, if◌then◌else◌, ltb}
use php_analyze.Prelude.Text.{Text, codes}
use php_analyze.Prelude.Digits.{decimal}
use php_analyze.Config.Types.{
  Config, DisableReason, master_switch_off, server_url_not_configured, server_url_invalid,
  server_url_scheme_unsupported, token_not_configured, token_file_unreadable, token_file_empty,
  TokenSource, inline, file,
}
use php_analyze.Config.Resolve.{as_ini_str, unwrap_or}

unfoldable pub human : DisableReason → Text
human master_switch_off = codes "php_analyze.enabled = 0"
human server_url_not_configured = codes "server_url not configured"
human server_url_invalid = codes "server_url failed to parse"
human server_url_scheme_unsupported = codes "server_url scheme not supported"
human token_not_configured = codes "no bearer token configured"
human token_file_unreadable = codes "auth_token_file could not be read"
human token_file_empty = codes "auth_token_file is empty"

-- The order of two strings: by bytes, which is by characters.
pub data Rank : Type 0 where
  before same after : Rank

unfoldable rank : Text → Text → Rank
rank [] [] = same
rank [] (d ∷ t) = before
rank (c ∷ s) [] = after
rank (c ∷ s) (d ∷ t) = if ltb c d then before else if ltb d c then after else rank s t

-- A set has a name once.
unfoldable insert_name : Text → List Text → List Text
unfolding rank
insert_name name [] = name ∷ []
insert_name name (first ∷ rest) = elim (rank name first) [
  | before ↦ name ∷ first ∷ rest
  | same ↦ first ∷ rest
  | after ↦ first ∷ insert_name name rest
]

-- The names of the set after `sort_unstable`.
unfoldable sorted_names : List Text → List Text
unfolding insert_name
sorted_names [] = []
sorted_names (name ∷ names) = insert_name name (sorted_names names)

unfoldable join : Text → List Text → Text
join separator [] = []
join separator (s ∷ []) = s
join separator (s ∷ t ∷ rest) = s ++ separator ++ join separator (t ∷ rest)

abbrev Row : Type 0
Row = Text × Text

unfoldable pub status_row : Config → Text
unfolding human
status_row c =
    if c.enabled
    then codes "enabled (true)"
    else codes "enabled (false: "
      ++ (elim c.disable_reason [ none ↦ codes "unknown" | some reason ↦ human reason ])
      ++ codes ")"

abbrev on_or_off : Bool → Text
on_or_off b = if b then codes "On" else codes "Off"

abbrev master_on : Option DisableReason → Text
master_on (some master_switch_off) = codes "Off"
master_on _ = codes "On"

abbrev token_file : TokenSource → Text
token_file (file path) = path
token_file _ = codes "(unset)"

-- The rows that are pushed onto the status row.
unfoldable pub push_directive_rows : Config → List Row → List Row
unfolding as_ini_str sorted_names join
push_directive_rows c pushed =
    pushed
    ++ ((codes "php_analyze.enabled", master_on c.disable_reason)
        ∷ (codes "php_analyze.server_url", unwrap_or c.server_url (codes "(unset)"))
        ∷ (codes "php_analyze.auth_token", codes "***")
        ∷ (codes "php_analyze.auth_token_file", token_file c.auth_token_source)
        ∷ (codes "php_analyze.flush_records", decimal c.flush_records)
        ∷ (codes "php_analyze.flush_bytes", decimal c.flush_bytes)
        ∷ (codes "php_analyze.buffer_cap_bytes", decimal c.buffer_cap_bytes)
        ∷ (codes "php_analyze.max_depth", decimal c.max_depth)
        ∷ (codes "php_analyze.retry_count", decimal c.retry_count)
        ∷ (codes "php_analyze.retry_backoff_ms", decimal c.retry_backoff)
        ∷ (codes "php_analyze.http_timeout_ms", decimal c.http_timeout)
        ∷ (codes "php_analyze.shutdown_grace_ms", decimal c.shutdown_grace)
        ∷ (codes "php_analyze.shipper_queue_depth", decimal c.shipper_queue_depth)
        ∷ (codes "php_analyze.cpu_snapshot_mode", as_ini_str c.cpu_snapshot_mode)
        ∷ (codes "php_analyze.skip_functions", join (codes ", ") (sorted_names c.skip_functions))
        ∷ (codes "php_analyze.skip_internal", on_or_off c.skip_internal)
        ∷ [])

unfoldable pub rows : Option Config → List Row
unfolding status_row push_directive_rows
rows none = (codes "Status", codes "MINIT has not run") ∷ []
rows (some c) = push_directive_rows c ((codes "Status", status_row c) ∷ [])
