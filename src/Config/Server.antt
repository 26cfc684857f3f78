-- ===== src/Config/Server.antt =====
-- `resolve_server_url` of config.rs: the scheme decides.
use php_analyze.Prelude.{Option, none, some, List, [], ◌∷◌, ◌++◌, is_empty, if◌then◌else◌}
use php_analyze.Prelude.Text.{Text, codes, text_eq}
use php_analyze.Prelude.Strings.{trim, split_scheme}
use php_analyze.Config.Types.{
  DisableReason, server_url_not_configured, server_url_invalid, server_url_scheme_unsupported,
  RawIni, ConfigWarning, http_scheme,
}

pub data ServerUrlOutcome : Type 0 where
  ok unset invalid_url unsupported_scheme : ServerUrlOutcome

unfoldable pub disable_reason : ServerUrlOutcome → Option DisableReason
disable_reason ServerUrlOutcome.ok = none
disable_reason ServerUrlOutcome.unset = some server_url_not_configured
disable_reason ServerUrlOutcome.invalid_url = some server_url_invalid
disable_reason ServerUrlOutcome.unsupported_scheme = some server_url_scheme_unsupported

abbrev pub unwrap_or_empty : Option Text → Text
unwrap_or_empty none = []
unwrap_or_empty (some s) = s

-- The match on the scheme.
unfoldable pub by_scheme :
    Text → Text → List ConfigWarning → Option Text × ServerUrlOutcome × List ConfigWarning
unfolding text_eq
by_scheme url scheme warnings =
    if text_eq scheme (codes "https")
    then (some url, ServerUrlOutcome.ok, warnings)
    else if text_eq scheme (codes "http")
    then (some url, ServerUrlOutcome.ok, warnings ++ (http_scheme ∷ []))
    else (
      none,
      ServerUrlOutcome.unsupported_scheme,
      warnings ++ (ConfigWarning.unsupported_scheme scheme ∷ []),
    )

unfoldable pub resolve_server_url :
    RawIni → List ConfigWarning → Option Text × ServerUrlOutcome × List ConfigWarning
unfolding by_scheme
resolve_server_url raw warnings =
    let raw_url = trim (unwrap_or_empty raw.server_url) in
    if is_empty raw_url
    then (none, ServerUrlOutcome.unset, warnings)
    else elim (split_scheme raw_url) [
      | none ↦ (
        none,
        ServerUrlOutcome.invalid_url,
        warnings
            ++ (ConfigWarning.invalid_url raw_url
                  (codes "missing scheme (expected http:// or https://)")
                ∷ []),
      )
      | some scheme ↦ by_scheme raw_url scheme warnings
    ]
