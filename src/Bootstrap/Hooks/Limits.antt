-- ===== src/Bootstrap/Hooks/Limits.antt =====
-- The thresholds of every trace are those of the configuration, and usable.
use php_analyze.Prelude.{
  ℕ, ◌≤◌, Bool, true, Option, none, some, List, [], ◌∷◌, ◌≡◌, refl, sym, arith, Option-cases, inl,
  inr, >>=-eq-some, some_eq,
}
use mathlib.Core.Path.{subst}
use php_analyze.Prelude.Int.{ℤ}
use php_analyze.Prelude.Text.{Text}
use php_analyze.Config.Types.{Config, ConfigWarning, FileContent}
use php_analyze.Config.Ranges.{IsUsable, from_ini_values-IsUsable}
use php_analyze.Config.Resolve.{from_ini_values}
use php_analyze.Recorder.Key.{HashWrite}
use php_analyze.Recorder.Types.{RequestIdentity}
use php_analyze.Recorder.Trace.{Trace}
use php_analyze.Recorder.Flush.{SendResult}
use php_analyze.Recorder.End.{ExitSnapshots}
use php_analyze.Recorder.Request.{Process, begin_handler, end_handler, rinit_allocate_trace}
use php_analyze.Shipper.Loop.{ShipperExit}
use php_analyze.Bootstrap.Directives.{Ini, raw_ini_from_ini_map}
use php_analyze.Recorder.Snapshots.{entry_capture_now, exit_capture_now}
use php_analyze.Bootstrap.Hooks.{
  mode_of, limits_from, BootObserver, Host, Hook, minit, rinit, begin_call, end_call, rshutdown,
  mshutdown, hook, hooks, freeze, start_up, startup, dispatched, rshutdown_body,
  drain_shipper_if_enabled, disabled, recorder,
}
use php_analyze.Bootstrap.Hooks.Follows.{
  IsLimited, IsResolved, begin_handler-IsLimited, end_handler-IsLimited, rshutdown_idle,
}
use php_analyze.Bootstrap.Hooks.Rinit.{after_rinit, untouched, allocates, requested}
use php_analyze.Bootstrap.Hooks.Gate.{is_enabled}

-- What holds of the process between two hooks.
abbrev HasLimits : Host → Type 0
HasLimits h = IsResolved h.config × IsLimited h.config h.process.current_trace

HasLimits-same :
    (h h' : Host)
    → h'.config ≡ h.config
    → h'.process.current_trace ≡ h.process.current_trace
    → HasLimits h
    → HasLimits h'
HasLimits-same h h' e f p = rw (e, f) p

late : (c : Config) (current : Option Trace) → IsLimited none current → IsLimited (some c) current
late c none l = tt
late c (some t) l = absurd l

freeze-HasLimits :
    (c : Config) (warnings : List ConfigWarning) (h : Host)
    → IsUsable c
    → HasLimits h
    → HasLimits (freeze c warnings h)
unfolding freeze
freeze-HasLimits c warnings h usable (resolved, limited) = elim (Option-cases h.config) [
  | inl unset ↦
      let frozen : (freeze c warnings h).config ≡ some c = ground arith in
      let still : (freeze c warnings h).process.current_trace ≡ h.process.current_trace =
        ground arith in
      rw (frozen, still) (usable, late c h.process.current_trace (rw unset at limited))
  | inr (first, set) ↦
      HasLimits-same h (freeze c warnings h) (ground arith) (ground arith) (resolved, limited)
]

start_up-HasLimits : (h : Host) → HasLimits h → HasLimits (start_up h)
unfolding start_up
start_up-HasLimits h p = HasLimits-same h (start_up h) (ground arith) (ground arith) p

-- A new trace follows the configuration.
allocated :
    (hash_one : List HashWrite → ℕ) (now : ℤ) (identity : RequestIdentity) (c : Config)
    (p : Process)
    → c.enabled ≡ true
    → IsLimited
        (some c)
        (rinit_allocate_trace hash_one now identity (limits_from c) p).current_trace
unfolding rinit_allocate_trace limits_from
allocated hash_one now identity c p on = (on, refl, refl, refl, refl)

module _ (hash_one : List HashWrite → ℕ) (starts : Bool) (now : ℤ) (identity : RequestIdentity)
    (h : Host) where
  rinit-HasLimits : HasLimits h → HasLimits (after_rinit hash_one starts now identity h)
  rinit-HasLimits (resolved, limited) = elim (requested hash_one starts now identity h) [
    | untouched same ↦ rw same (resolved, limited)
    | allocates c p set on kept _ _ made ↦
        let fresh_trace : IsLimited (some c)
            (after_rinit hash_one starts now identity h).process.current_trace =
          subst (λ q. IsLimited (some c) q.current_trace) (sym made)
            (allocated hash_one now identity c p on) in
        (rw (kept) (rw set at resolved), rw (kept) fresh_trace)
  ]

rshutdown-HasLimits :
    (exit : ExitSnapshots) (answer : SendResult) (h : Host)
    → HasLimits h
    → HasLimits (rshutdown_body exit answer h)
unfolding rshutdown_body
rshutdown-HasLimits exit answer h (resolved, limited) =
    let idle : (rshutdown_body exit answer h).process.current_trace ≡ none =
      rshutdown_idle exit answer h.process.current_trace h.process.world in
    (resolved, subst (IsLimited h.config) (sym idle) tt)

mshutdown-HasLimits :
    (now : ℕ) (accepted : Bool) (joined : Option ShipperExit) (h : Host)
    → HasLimits h
    → HasLimits (drain_shipper_if_enabled now accepted joined h)
unfolding drain_shipper_if_enabled
mshutdown-HasLimits now accepted joined h p =
    HasLimits-same h (drain_shipper_if_enabled now accepted joined h) (ground arith) (ground arith)
      p

passed :
    (h : Host) (handled : Option Process) (observer : BootObserver) {h' : Host}
    → h.observer ≡ observer
    → ((p : Process) → handled ≡ some p → IsLimited h.config p.current_trace)
    → dispatched h handled ≡ some h'
    → HasLimits h
    → HasLimits h'
passed h handled disabled {h'} is ok e p = HasLimits-same h h' (ground arith) (ground arith) p
passed h none recorder is ok e p = absurd (ground arith)
passed h (some q) recorder {h'} is ok e (resolved, limited) =
    let done : record h { process = q } ≡ h' = ground arith in
    subst HasLimits done (resolved, ok q refl)

dispatched-HasLimits :
    (h : Host) (handled : Option Process) {h' : Host}
    → ((p : Process) → handled ≡ some p → IsLimited h.config p.current_trace)
    → dispatched h handled ≡ some h'
    → HasLimits h
    → HasLimits h'
dispatched-HasLimits h handled ok e p = passed h handled h.observer refl ok e p

module _ (read_to_string : Text → FileContent) (hash_one : List HashWrite → ℕ) where
  startup-HasLimits :
      (ini : Ini) (h : Host) → HasLimits h → HasLimits (startup read_to_string ini h)
  unfolding startup
  startup-HasLimits ini h p =
      let raw = raw_ini_from_ini_map ini in
      let resolved = from_ini_values read_to_string raw in
      start_up-HasLimits (freeze resolved.0 resolved.1 h)
        (freeze-HasLimits resolved.0 resolved.1 h (from_ini_values-IsUsable read_to_string raw) p)

  hook-HasLimits :
      (e : Hook) (h : Host) {h' : Host}
      → hook read_to_string hash_one e h ≡ some h'
      → HasLimits h
      → HasLimits h'
  unfolding hook
  hook-HasLimits (minit ini) h e p = subst HasLimits (some_eq e) (startup-HasLimits ini h p)
  hook-HasLimits (rinit starts now identity) h e p =
      subst HasLimits (some_eq e) (rinit-HasLimits hash_one starts now identity h p)
  hook-HasLimits (begin_call info readings) h e p =
      dispatched-HasLimits h (begin_handler info (entry_capture_now (mode_of h) readings) h.process)
        (λ q ran.
          begin_handler-IsLimited h.config info (entry_capture_now (mode_of h) readings) h.process
            ran p.1)
        e p
  hook-HasLimits (end_call readings abnormal answer) h e p =
      dispatched-HasLimits h
        (end_handler (exit_capture_now (mode_of h) readings) abnormal answer h.process)
        (λ q ran.
          end_handler-IsLimited h.config (exit_capture_now (mode_of h) readings) abnormal answer
            h.process ran p.1)
        e p
  hook-HasLimits (rshutdown readings answer) h e p =
      subst HasLimits (some_eq e)
        (rshutdown-HasLimits (exit_capture_now (mode_of h) readings) answer h p)
  hook-HasLimits (mshutdown now accepted joined) h e p =
      subst HasLimits (some_eq e) (mshutdown-HasLimits now accepted joined h p)

  hooks-HasLimits :
      (es : List Hook) (h : Host) {h' : Host}
      → hooks read_to_string hash_one es h ≡ some h'
      → HasLimits h
      → HasLimits h'
  unfolding hooks
  hooks-HasLimits [] h e p = subst HasLimits (some_eq e) p
  hooks-HasLimits (x ∷ es) h e p =
      let (m, first, rest) = >>=-eq-some (hook read_to_string hash_one x h) _ e in
      hooks-HasLimits es m rest (hook-HasLimits x h first p)

-- Thresholds under which a trace can take in records and the parts of its buffer are words.
abbrev pub HasThresholds : Trace → Type 0
HasThresholds t =
    (1 ≤ t.max_depth)
    × (t.max_depth ≤ 65535)
    × (1 ≤ t.flush_records)
    × (t.flush_records ≤ 1000000000)
    × (1024 ≤ t.flush_bytes)
    × (t.flush_bytes ≤ t.buffer_cap_bytes)
    × (t.buffer_cap_bytes ≤ 10000000000)

usable :
    (config : Option Config) (t : Trace)
    → IsResolved config
    → IsLimited config (some t)
    → (is_enabled config ≡ true) × HasThresholds t
usable none t resolved limited = absurd limited
usable (some c) t resolved limited = ground arith

-- Over any sequence of hooks that does not panic, from a process without a configuration and a trace:
-- a trace in the request window is there under an enabled configuration, its depth limit and record
-- threshold are at least one, its byte threshold is at least 1024 and within the cap of its buffer.
pub hooks-HasThresholds :
    (read_to_string : Text → FileContent) (hash_one : List HashWrite → ℕ) (es : List Hook)
    (h : Host) {h' : Host} {t : Trace}
    → h.config ≡ none
    → h.process.current_trace ≡ none
    → hooks read_to_string hash_one es h ≡ some h'
    → h'.process.current_trace ≡ some t
    → (is_enabled h'.config ≡ true) × HasThresholds t
hooks-HasThresholds read_to_string hash_one es h {h'} {t} unset idle e live =
    let start : HasLimits h = (rw unset tt, rw (unset, idle) tt) in
    let (resolved, limited) = hooks-HasLimits read_to_string hash_one es h e start in
    usable h'.config t resolved (rw live at limited)
