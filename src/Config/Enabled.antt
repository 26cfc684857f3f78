-- ===== src/Config/Enabled.antt =====
-- When a configuration is enabled, and what it carries then.
use php_analyze.Prelude.{
  ◌≡◌, ◌≢◌, ◌↔◌, ◌⊎◌, inl, inr, true, false, Option, none, some, List, arith, is_empty, Bool-cases,
  Option-cases,
}
use php_analyze.Prelude.Text.{Text, codes, text_eq, text_eq_iff}
use php_analyze.Prelude.Strings.{trim, split_scheme}
use php_analyze.Config.Types.{RawIni, ConfigWarning, FileContent, unreadable, TokenSource}
use php_analyze.Config.Server.{unwrap_or_empty, by_scheme, resolve_server_url, disable_reason}
use php_analyze.Config.Token.{TokenOutcome, resolve_token, token_of_file}
use php_analyze.Config.Resolve.{
  disabled, access, Access, by_token, numbers, from_ini_values, unwrap_or,
}

-- The scheme of an address is one that the client speaks.
abbrev pub HasScheme : Text → Type 0
HasScheme url = (split_scheme url ≡ some (codes "https")) ⊎ (split_scheme url ≡ some (codes "http"))

abbrev pub HasServer : Option Text → Type 0
HasServer none = ⊥
HasServer (some url) = HasScheme url

by_scheme-HasServer :
    (url scheme : Text) (ws : List ConfigWarning)
    → split_scheme url ≡ some scheme
    → disable_reason (by_scheme url scheme ws).1 ≡ none
    → HasServer (by_scheme url scheme ws).0
unfolding by_scheme disable_reason
by_scheme-HasServer url scheme ws e h = elim (Bool-cases (text_eq scheme (codes "https"))) [
  | inl secure ↦ ground (arith, (text_eq_iff scheme (codes "https")).0 secure)
  | inr other ↦ elim (Bool-cases (text_eq scheme (codes "http"))) [
    | inl plain ↦ ground (arith, (text_eq_iff scheme (codes "http")).0 plain)
    | inr neither ↦ absurd (ground arith)
  ]
]

resolve_server_url-HasServer :
    (raw : RawIni) (ws : List ConfigWarning)
    → disable_reason (resolve_server_url raw ws).1 ≡ none
    → HasServer (resolve_server_url raw ws).0
unfolding resolve_server_url disable_reason
resolve_server_url-HasServer raw ws h =
    let url = trim (unwrap_or_empty raw.server_url) in
    elim (Bool-cases (is_empty url)) [
      | inl blank ↦ absurd (ground arith)
      | inr there ↦ elim (Option-cases (split_scheme url)) [
        | inl bare ↦ absurd (ground arith)
        | inr (scheme, e) ↦ ground (arith, by_scheme-HasServer url scheme ws e)
      ]
    ]

-- A token that is resolved has a character.
resolve_token-there :
    (read_to_string : Text → FileContent) (raw : RawIni) (ws : List ConfigWarning) {token : Text}
    {source : TokenSource}
    → (resolve_token read_to_string raw ws).0 ≡ TokenOutcome.resolved token source
    → is_empty token ≡ false
unfolding resolve_token token_of_file
resolve_token-there read_to_string raw ws h = ground arith

abbrev IsOpen : Access → Type 0
IsOpen a = HasServer a.server_url × (is_empty a.auth_token ≡ false)

access-IsOpen :
    (read_to_string : Text → FileContent) (raw : RawIni) (ws : List ConfigWarning)
    → (access read_to_string raw ws).0.disable_reason ≡ none
    → IsOpen (access read_to_string raw ws).0
unfolding access by_token
access-IsOpen read_to_string raw ws h =
    let (url, outcome, ws1) = resolve_server_url raw ws in
    elim (Option-cases (disable_reason outcome)) [
      | inl fine ↦
          ground
            (arith, resolve_server_url-HasServer raw ws, resolve_token-there read_to_string raw ws1)
      | inr (reason, e) ↦ absurd (ground arith)
    ]

enabled-access :
    (read_to_string : Text → FileContent) (raw : RawIni)
    → (from_ini_values read_to_string raw).0.enabled ≡ true
    → (access read_to_string raw (numbers raw).1).0.disable_reason ≡ none
unfolding from_ini_values disabled
enabled-access read_to_string raw e = ground arith

-- An enabled configuration has a server address with the scheme https or http, and a token that is
-- not empty.
pub from_ini_values-enabled :
    (read_to_string : Text → FileContent) (raw : RawIni)
    → (from_ini_values read_to_string raw).0.enabled ≡ true
    → HasServer (from_ini_values read_to_string raw).0.server_url
      × (is_empty (from_ini_values read_to_string raw).0.auth_token ≡ false)
unfolding from_ini_values disabled
from_ini_values-enabled read_to_string raw e =
    let ways = access-IsOpen read_to_string raw (numbers raw).1 in
    let fine = ways (enabled-access read_to_string raw e) in ground arith

-- A configuration is enabled exactly if it gives no reason to be disabled.
from_ini_values-disable_reason :
    (read_to_string : Text → FileContent) (raw : RawIni)
    → ((from_ini_values read_to_string raw).0.enabled ≡ true)
      ↔ ((from_ini_values read_to_string raw).0.disable_reason ≡ none)
unfolding from_ini_values disabled
from_ini_values-disable_reason read_to_string raw = elim (Bool-cases (unwrap_or raw.enabled true)) [
  | inl on ↦ (λ e. ground arith, λ e. ground arith)
  | inr quiet ↦ (λ e. ground arith, λ e. ground arith)
]

resolve_token-unreadable :
    (read_to_string : Text → FileContent) (raw : RawIni) (ws : List ConfigWarning) {details : Text}
    → is_empty (trim (unwrap_or_empty raw.auth_token_file)) ≡ false
    → read_to_string (trim (unwrap_or_empty raw.auth_token_file)) ≡ unreadable details
    → (resolve_token read_to_string raw ws).0 ≡ TokenOutcome.file_unreadable
unfolding resolve_token token_of_file
resolve_token-unreadable read_to_string raw ws there bad = ground arith

access-unreadable :
    (read_to_string : Text → FileContent) (raw : RawIni) (ws : List ConfigWarning)
    → (resolve_token read_to_string raw (resolve_server_url raw ws).2).0
      ≡ TokenOutcome.file_unreadable
    → (access read_to_string raw ws).0.disable_reason ≢ none
unfolding access by_token
access-unreadable read_to_string raw ws bad e =
    elim (Option-cases (disable_reason (resolve_server_url raw ws).1)) [
      | inl fine ↦ ground arith
      | inr (reason, why) ↦ ground arith
    ]

-- A token file that is named and cannot be read disables the extension, whatever the inline token
-- is: there is no fall back.
pub from_ini_values-unreadable :
    (read_to_string : Text → FileContent) (raw : RawIni) {details : Text}
    → is_empty (trim (unwrap_or_empty raw.auth_token_file)) ≡ false
    → read_to_string (trim (unwrap_or_empty raw.auth_token_file)) ≡ unreadable details
    → (from_ini_values read_to_string raw).0.enabled ≡ false
from_ini_values-unreadable read_to_string raw there bad =
    let closed = access-unreadable read_to_string raw (numbers raw).1 (
      resolve_token-unreadable read_to_string raw (resolve_server_url raw (numbers raw).1).2 there
        bad) in
    elim (Bool-cases (from_ini_values read_to_string raw).0.enabled) [
      | inl on ↦ absurd (closed (enabled-access read_to_string raw on))
      | inr quiet ↦ quiet
    ]
