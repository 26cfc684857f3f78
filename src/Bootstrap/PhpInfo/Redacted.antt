-- ===== src/Bootstrap/PhpInfo/Redacted.antt =====
-- The bearer token is shown nowhere: neither the table of phpinfo nor a warning depends on it.
use php_analyze.Prelude.{
  true, false, not, Option, some, List, [], is_empty, ◌≡◌, refl, sym, ap, ◌∙◌, if◌then◌else◌, arith,
  Bool-cases, Option-cases, inl, inr,
}
use php_analyze.Prelude.Text.{Text}
use php_analyze.Prelude.Strings.{trim}
use php_analyze.Config.Server.{unwrap_or_empty, disable_reason, resolve_server_url}
use php_analyze.Config.Token.{TokenOutcome, token_of_file, resolve_token}
use php_analyze.Config.Types.{
  RawIni, Config, TokenSource, inline, file, ConfigWarning, FileContent, readable, unreadable,
}
use php_analyze.Config.Resolve.{
  Access, numbers, cpu_mode, access, by_token, unwrap_or, from_ini_values,
}
use php_analyze.Config.Skip.{parse_skip_functions}
use php_analyze.Config.Chosen.{chosen, from_ini_values_lem, from_ini_values-warnings}
use php_analyze.Bootstrap.PhpInfo.{rows}

-- Two results of reading a file that differ in a token at most.
abbrev pub IsAlike : FileContent → FileContent → Type 0
IsAlike (readable s) (readable t) = is_empty (trim s) ≡ is_empty (trim t)
IsAlike (unreadable s) (unreadable t) = s ≡ t
IsAlike _ _ = ⊥

data Alike : TokenOutcome → TokenOutcome → Type 0 where
  tokens :
      (s t : Text) (source : TokenSource)
      → Alike (TokenOutcome.resolved s source) (TokenOutcome.resolved t source)
  same : (o : TokenOutcome) → Alike o o

-- The same warnings, and outcomes that are alike.
abbrev Agree : TokenOutcome × List ConfigWarning → TokenOutcome × List ConfigWarning → Type 0
Agree (o, ws) (o', ws') = Alike o o' × (ws ≡ ws')

abbrev blank : Access → Access
blank a = record a { auth_token = [] }

abbrev redacted : Config → Config
redacted c = record c { auth_token = [] }

by_outcome :
    (url : Option Text) (o o' : TokenOutcome) (ws : List ConfigWarning)
    → Alike o o'
    → (blank (by_token url o ws).0 ≡ blank (by_token url o' ws).0)
      × ((by_token url o ws).1 ≡ (by_token url o' ws).1)
unfolding by_token
by_outcome url _ _ ws (tokens s t source) = (refl, refl)
by_outcome url _ _ ws (same o) = (refl, refl)

by_token-blank :
    (url : Option Text) (r r' : TokenOutcome × List ConfigWarning)
    → Agree r r'
    → (blank (by_token url r.0 r.1).0 ≡ blank (by_token url r'.0 r'.1).0)
      × ((by_token url r.0 r.1).1 ≡ (by_token url r'.0 r'.1).1)
by_token-blank url (o, ws) (o', ws') (alike, e) = rw e (by_outcome url o o' ws' alike)

-- What an access and the warnings after it make of the rest of the INI values.
abbrev settled : RawIni → Access → List ConfigWarning → Config
settled raw a ws =
    chosen (unwrap_or raw.enabled true) (numbers raw).0 a (cpu_mode raw.cpu_snapshot_mode ws).0
      (parse_skip_functions raw.skip_functions) (unwrap_or raw.skip_internal false)

settled-blank :
    (raw : RawIni) (a : Access) (ws : List ConfigWarning)
    → redacted (settled raw a ws) ≡ redacted (settled raw (blank a) ws)
settled-blank raw a ws = elim (Bool-cases (unwrap_or raw.enabled true)) [
  | inl on ↦ rw on refl
  | inr shut ↦ rw shut refl
]

token_of_file-alike :
    (path : Text) (ws : List ConfigWarning) (c c' : FileContent)
    → IsAlike c c'
    → Agree (token_of_file (λ p. c) path ws) (token_of_file (λ p. c') path ws)
unfolding token_of_file
token_of_file-alike path ws (readable s) (readable t) e = elim (Bool-cases (is_empty (trim t))) [
  | inl absent ↦ rw (e, absent) (same TokenOutcome.file_empty, refl)
  | inr present ↦ rw (e, present) (tokens (trim s) (trim t) (file path), refl)
]
token_of_file-alike path ws (readable s) (unreadable t) e = absurd e
token_of_file-alike path ws (unreadable s) (readable t) e = absurd e
token_of_file-alike path ws (unreadable s) (unreadable t) e =
    rw e (same TokenOutcome.file_unreadable, refl)

module _ (read read' : Text → FileContent)
    (files : (path : Text) → IsAlike (read path) (read' path)) (raw : RawIni) (token token' : Text)
    (hidden : is_empty (trim token) ≡ is_empty (trim token')) where
  abbrev given : RawIni
  given = record raw { auth_token = some token }

  abbrev given' : RawIni
  given' = record raw { auth_token = some token' }

  resolve_token-Agree :
      (ws : List ConfigWarning)
      → Agree (resolve_token read given ws) (resolve_token read' given' ws)
  unfolding resolve_token token_of_file
  resolve_token-Agree ws =
      let path = trim (unwrap_or_empty raw.auth_token_file) in
      elim (Bool-cases (is_empty path)) [
        | inr there ↦ rw there (token_of_file-alike path ws (read path) (read' path) (files path))
        | inl nowhere ↦ elim (Bool-cases (is_empty (trim token'))) [
          | inl absent ↦ rw (nowhere, hidden, absent) (same TokenOutcome.missing, refl)
          | inr present ↦
              rw (nowhere, hidden, present) (tokens (trim token) (trim token') inline, refl)
        ]
      ]

  access-blank :
      (ws : List ConfigWarning)
      → (blank (access read given ws).0 ≡ blank (access read' given' ws).0)
        × ((access read given ws).1 ≡ (access read' given' ws).1)
  unfolding access
  access-blank ws =
      let (url, outcome, after_url) = resolve_server_url given ws in
      elim (Option-cases (disable_reason outcome)) [
        | inl fine ↦ ground (
          arith,
          fine,
          by_token-blank url (resolve_token read given after_url)
              (resolve_token read' given' after_url) (resolve_token-Agree after_url),
        )
        | inr (reason, wrong) ↦ ground (arith, wrong)
      ]

  from_ini_values-redacted :
      (redacted (from_ini_values read given).0 ≡ redacted (from_ini_values read' given').0)
      × ((from_ini_values read given).1 ≡ (from_ini_values read' given').1)
  unfolding numbers
  from_ini_values-redacted =
      let (same_access, same_warnings) = access-blank (numbers raw).1 in
      (
        ap redacted (from_ini_values_lem read given)
            ∙ settled-blank raw (access read given (numbers raw).1).0
                (access read given (numbers raw).1).1
            ∙ (λ i. redacted (settled raw (same_access i) (same_warnings i)))
            ∙ sym (
                settled-blank raw (access read' given' (numbers raw).1).0
                  (access read' given' (numbers raw).1).1)
            ∙ ap redacted (sym (from_ini_values_lem read' given')),
        from_ini_values-warnings read given
            ∙ ap
                (λ ws.
                  if not (unwrap_or raw.enabled true)
                  then []
                  else (cpu_mode raw.cpu_snapshot_mode ws).1)
                same_warnings
            ∙ sym (from_ini_values-warnings read' given'),
      )

-- Reading the same INI values but for the inline token, and the same files but for the tokens in
-- them: as long as the same tokens are blank, the table of phpinfo has the same rows and the warnings
-- are the same.
pub rows-redacted :
    (read read' : Text → FileContent)
    → ((path : Text) → IsAlike (read path) (read' path))
    → (raw : RawIni) (token token' : Text) → is_empty (trim token) ≡ is_empty (trim token')
    → (rows (some (from_ini_values read (record raw { auth_token = some token })).0)
        ≡ rows (some (from_ini_values read' (record raw { auth_token = some token' })).0))
      × ((from_ini_values read (record raw { auth_token = some token })).1
          ≡ (from_ini_values read' (record raw { auth_token = some token' })).1)
unfolding rows
rows-redacted read read' files raw token token' hidden =
    let (same_config, same_warnings) =
      from_ini_values-redacted read read' files raw token token' hidden in
    (ap (λ c. rows (some c)) same_config, same_warnings)
