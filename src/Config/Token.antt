-- ===== src/Config/Token.antt =====
-- `resolve_token` of config.rs: a token file wins over the inline token, and its failure is final.
use php_analyze.Prelude.{List, [], ◌∷◌, ◌++◌, is_empty, if◌then◌else◌}
use php_analyze.Prelude.Text.{Text}
use php_analyze.Prelude.Strings.{trim}
use php_analyze.Config.Server.{unwrap_or_empty}
use php_analyze.Config.Types.{
  RawIni, TokenSource, inline, file, ConfigWarning, token_file_unreadable, empty_token_file,
  FileContent, readable, unreadable,
}

pub data TokenOutcome : Type 0 where
  resolved : Text → TokenSource → TokenOutcome
  missing file_unreadable file_empty : TokenOutcome

module _ (read_to_string : Text → FileContent) where
  unfoldable pub token_of_file : Text → List ConfigWarning → TokenOutcome × List ConfigWarning
  token_of_file path warnings = elim (read_to_string path) [
    | readable content ↦
        let trimmed = trim content in
        if is_empty trimmed
        then (TokenOutcome.file_empty, warnings ++ (empty_token_file path ∷ []))
        else (TokenOutcome.resolved trimmed (file path), warnings)
    | unreadable details ↦
        (TokenOutcome.file_unreadable, warnings ++ (token_file_unreadable path details ∷ []))
  ]

  unfoldable pub resolve_token : RawIni → List ConfigWarning → TokenOutcome × List ConfigWarning
  unfolding token_of_file
  resolve_token raw warnings =
      let path = trim (unwrap_or_empty raw.auth_token_file) in
      let token = trim (unwrap_or_empty raw.auth_token) in
      if is_empty path
      then if is_empty token
        then (TokenOutcome.missing, warnings)
        else (TokenOutcome.resolved token inline, warnings)
      else token_of_file path warnings
