-- ===== src/Bootstrap/Hooks/Gate.antt =====
-- Silent disable: while no configuration is enabled, no hook touches the channel, the thread, the
-- request window or the memory budget.
use php_analyze.Prelude.{
  ℕ, Bool, true, false, Option, none, some, List, [], ◌∷◌, ◌≡◌, refl, ap, ◌∙◌, ◌⊎◌, inl, inr, arith,
  Bool-cases, >>=-eq-some, some_eq,
}
use mathlib.Core.Path.{subst}
use php_analyze.Prelude.Int.{ℤ}
use php_analyze.Config.Types.{Config, ConfigWarning, FileContent}
use php_analyze.Recorder.Key.{HashWrite}
use php_analyze.Recorder.Types.{RequestIdentity}
use php_analyze.Recorder.Request.{Process, begin_handler, end_handler}
use php_analyze.Prelude.Text.{Text}
use php_analyze.Recorder.End.{ExitSnapshots}
use php_analyze.Recorder.Flush.{SendResult}
use php_analyze.Shipper.Loop.{ShipperExit}
use php_analyze.Shipper.Lifecycle.{Slots}
use php_analyze.Config.Resolve.{from_ini_values}
use php_analyze.Bootstrap.Directives.{Ini, raw_ini_from_ini_map}
use php_analyze.Recorder.Snapshots.{entry_capture_now, exit_capture_now}
use php_analyze.Bootstrap.Hooks.{
  mode_of, freeze, caught, start_up, dispatched, Host, disabled, Hook, minit, rinit, begin_call,
  end_call, rshutdown, mshutdown, hook, hooks, startup, rinit_body, spawn_shipper_if_enabled,
  drain_shipper_if_enabled, rshutdown_body,
}

abbrev pub is_enabled : Option Config → Bool
is_enabled none = false
is_enabled (some c) = c.enabled

-- A configuration is enabled, or all is as it was at the start.
abbrev pub IsGated : Slots → Process → Host → Type 0
IsGated slots process h =
    (is_enabled h.config ≡ true)
    ⊎ ((h.slots ≡ slots) × (h.process ≡ process) × (h.observer ≡ disabled))

module _ (slots : Slots) (process : Process) (idle : process.current_trace ≡ none)
    (quiet : process.world.drop_notices ≡ []) where
  rshutdown-IsGated :
      (exit : ExitSnapshots) (answer : SendResult) (h : Host)
      → IsGated slots process h
      → IsGated slots process (rshutdown_body exit answer h)
  unfolding rshutdown_body
  rshutdown-IsGated exit answer h (inl on) = inl on
  rshutdown-IsGated exit answer h (inr (same, still, off)) = inr (same, ground arith, off)

  mshutdown-IsGated :
      (now : ℕ) (accepted : Bool) (joined : Option ShipperExit) (h : Host)
      → IsGated slots process h
      → IsGated slots process (drain_shipper_if_enabled now accepted joined h)
  unfolding drain_shipper_if_enabled
  mshutdown-IsGated now accepted joined h (inl on) = inl (ground arith)
  mshutdown-IsGated now accepted joined h (inr (same, still, off)) =
      elim (Bool-cases (is_enabled h.config)) [
        | inl on ↦ inl (ground arith)
        | inr shut ↦ inr (ground arith)
      ]

  start_up-IsGated : (h : Host) → IsGated slots process h → IsGated slots process (start_up h)
  unfolding start_up
  start_up-IsGated h (inl on) = inl (ground arith)
  start_up-IsGated h (inr (same, still, off)) = elim (Bool-cases (is_enabled h.config)) [
    | inl on ↦ inl (ground arith)
    | inr shut ↦ inr (ground arith)
  ]

  freeze-IsGated :
      (config : Config) (warnings : List ConfigWarning) (h : Host)
      → IsGated slots process h
      → IsGated slots process (freeze config warnings h)
  unfolding freeze
  freeze-IsGated config warnings h (inl on) = inl (ground arith)
  freeze-IsGated config warnings h (inr (same, still, off)) = inr (ground arith)

  rinit_config :
      (hash_one : List HashWrite → ℕ) (starts : Bool) (now : ℤ) (identity : RequestIdentity)
      (h : Host)
      → (caught h (rinit_body hash_one starts now identity h)).config ≡ h.config
  unfolding rinit_body spawn_shipper_if_enabled
  rinit_config hash_one starts now identity h = ground arith

  rinit-IsGated :
      (hash_one : List HashWrite → ℕ) (starts : Bool) (now : ℤ) (identity : RequestIdentity)
      (h : Host)
      → IsGated slots process h
      → IsGated slots process (caught h (rinit_body hash_one starts now identity h))
  unfolding rinit_body
  rinit-IsGated hash_one starts now identity h (inl on) =
      inl (ap is_enabled (rinit_config hash_one starts now identity h) ∙ on)
  rinit-IsGated hash_one starts now identity h (inr (same, still, off)) =
      elim (Bool-cases (is_enabled h.config)) [
        | inl on ↦ inl (ap is_enabled (rinit_config hash_one starts now identity h) ∙ on)
        | inr shut ↦ inr (ground arith)
      ]

  startup-IsGated :
      (read_to_string : Text → FileContent) (ini : Ini) (h : Host)
      → IsGated slots process h
      → IsGated slots process (startup read_to_string ini h)
  unfolding startup
  startup-IsGated read_to_string ini h p =
      let resolved = from_ini_values read_to_string (raw_ini_from_ini_map ini) in
      start_up-IsGated (freeze resolved.0 resolved.1 h) (freeze-IsGated resolved.0 resolved.1 h p)

  dispatched-IsGated :
      (h : Host) (handled : Option Process) {h' : Host}
      → dispatched h handled ≡ some h'
      → IsGated slots process h
      → IsGated slots process h'
  dispatched-IsGated h handled e (inl on) = inl (ground arith)
  dispatched-IsGated h handled e (inr (same, still, off)) = inr (ground arith)

  module _ (read_to_string : Text → FileContent) (hash_one : List HashWrite → ℕ) where
    hook-IsGated :
        (e : Hook) (h : Host) {h' : Host}
        → hook read_to_string hash_one e h ≡ some h'
        → IsGated slots process h
        → IsGated slots process h'
    unfolding hook
    hook-IsGated (minit ini) h e p =
        subst (IsGated slots process) (some_eq e) (startup-IsGated read_to_string ini h p)
    hook-IsGated (rinit starts now identity) h e p =
        subst (IsGated slots process) (some_eq e) (rinit-IsGated hash_one starts now identity h p)
    hook-IsGated (begin_call info readings) h e p =
        dispatched-IsGated h (begin_handler info (entry_capture_now (mode_of h) readings) h.process)
          e p
    hook-IsGated (end_call readings abnormal answer) h e p =
        dispatched-IsGated h
          (end_handler (exit_capture_now (mode_of h) readings) abnormal answer h.process) e p
    hook-IsGated (rshutdown readings answer) h e p =
        subst (IsGated slots process) (some_eq e)
          (rshutdown-IsGated (exit_capture_now (mode_of h) readings) answer h p)
    hook-IsGated (mshutdown now accepted joined) h e p =
        subst (IsGated slots process) (some_eq e) (mshutdown-IsGated now accepted joined h p)

    hooks-IsGated :
        (es : List Hook) (h : Host) {h' : Host}
        → hooks read_to_string hash_one es h ≡ some h'
        → IsGated slots process h
        → IsGated slots process h'
    unfolding hooks
    hooks-IsGated [] h e p = subst (IsGated slots process) (some_eq e) p
    hooks-IsGated (x ∷ es) h e p =
        let (m, first, rest) = >>=-eq-some (hook read_to_string hash_one x h) _ e in
        hooks-IsGated es m rest (hook-IsGated x h first p)

-- Whatever the INI values are, over any sequence of hooks: if no configuration is enabled at the
-- end, then the channel, the thread, the request window, the memory budget and the drop counters are
-- as they were at the start, where there is no trace, no queued notice and the inactive observer.
pub hooks-silent :
    (read_to_string : Text → FileContent) (hash_one : List HashWrite → ℕ) (es : List Hook)
    (h : Host) {h' : Host}
    → h.process.current_trace ≡ none
    → h.process.world.drop_notices ≡ []
    → h.observer ≡ disabled
    → hooks read_to_string hash_one es h ≡ some h'
    → is_enabled h'.config ≡ false
    → (h'.slots ≡ h.slots) × (h'.process ≡ h.process)
hooks-silent read_to_string hash_one es h idle quiet off e shut =
    elim (hooks-IsGated h.slots h.process idle quiet read_to_string hash_one es h e
      (inr (refl, refl, off))) [
        | inl on ↦ absurd (ground arith)
        | inr (same, still, _) ↦ (same, still)
      ]
