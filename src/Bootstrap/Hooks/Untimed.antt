-- ===== src/Bootstrap/Hooks/Untimed.antt =====
-- The CPU snapshot mode `off`: no record and no frame has a CPU time.
use php_analyze.Prelude.{
  ℕ, Bool, Option, none, some, List, [], ◌∷◌, ◌++◌, ◌≡◌, refl, ◌∙◌, arith, All-append, Bool-cases,
  Option-cases, ◌⊎◌, ◌+◌, ◌&&◌, inl, inr, >>=-eq-some, some_eq,
}
use mathlib.Core.Path.{subst}
use php_analyze.Prelude.Int.{ℤ}
use php_analyze.Prelude.Text.{Text}
use php_analyze.World.{sub}
use php_analyze.Config.Types.{Config, ConfigWarning, off, FileContent}
use php_analyze.Config.Resolve.{from_ini_values}
use php_analyze.Recorder.Key.{HashWrite}
use php_analyze.Recorder.Types.{drain, RequestIdentity}
use php_analyze.Recorder.Trace.{Trace}
use php_analyze.Recorder.Trace as Traces
use php_analyze.Recorder.Flush.{SendResult}
use php_analyze.Recorder.Request.{Process, rinit_allocate_trace}
use php_analyze.Recorder.Snapshots.{Readings, encode_cpu_snapshot_mode, exit_capture_now}
use php_analyze.Recorder.Untimed.{IsUntimedMessage, IsUntimedQueue, IsUntimedProcess}
use php_analyze.Shipper.Loop.{ShipperExit}
use php_analyze.Bootstrap.Directives.{Ini, raw_ini_from_ini_map}
use php_analyze.Bootstrap.Hooks.Rinit.{after_rinit, untouched, allocates, requested}
use php_analyze.Bootstrap.Hooks.{
  mode_of, Host, Hook, minit, rinit, begin_call, end_call, rshutdown, mshutdown, hook, hooks,
  freeze, start_up, startup, dispatched, limits_from, rshutdown_body, drain_shipper_if_enabled,
  disabled, recorder, BootObserver,
}
use php_analyze.Bootstrap.Hooks.Steps.{
  IsSilentBefore, IsStep, moved, begin_handler-IsStep, end_handler-IsStep, released-IsStep,
}

abbrev HasQuietStart : Host → Type 0
HasQuietStart h = IsSilentBefore h.config h.cached_mode h.process

dispatched-HasQuietStart :
    (h : Host) (handled : Option Process) (observer : BootObserver) {h' : Host}
    → h.observer ≡ observer
    → ((q : Process) → handled ≡ some q → IsStep (mode_of h) h.process q)
    → dispatched h handled ≡ some h'
    → HasQuietStart h
    → HasQuietStart h'
dispatched-HasQuietStart h handled disabled {h'} is step e p =
    let same : h ≡ h' = ground arith in subst HasQuietStart same p
dispatched-HasQuietStart h none recorder is step e p = absurd (ground arith)
dispatched-HasQuietStart h (some q) recorder {h'} is step e p =
    let done : record h { process = q } ≡ h' = ground arith in
    subst HasQuietStart done (moved h.config h.cached_mode h.process q (step q refl) p)

rshutdown-HasQuietStart :
    (r : Readings) (answer : SendResult) (h : Host)
    → HasQuietStart h
    → HasQuietStart (rshutdown_body (exit_capture_now (mode_of h) r) answer h)
unfolding rshutdown_body
rshutdown-HasQuietStart r answer h p =
    moved h.config h.cached_mode h.process _
      (released-IsStep (mode_of h) r answer h.process.current_trace h.process.world) p

-- A step that touches neither the configuration nor the trace, and puts no records in the queue.
kept :
    (h h' : Host)
    → h'.config ≡ h.config
    → h'.cached_mode ≡ h.cached_mode
    → h'.process.current_trace ≡ h.process.current_trace
    → (IsUntimedQueue h.process.world → IsUntimedQueue h'.process.world)
    → HasQuietStart h
    → HasQuietStart h'
kept h h' ec em et queue p =
    let step : IsStep (mode_of h) h.process h'.process = (
      (λ unset queued. (et ∙ unset, queue queued)),
      (λ is_off (t, queued). (rw et t, queue queued)),
    ) in
    rw (ec, em) (moved h.config h.cached_mode h.process h'.process step p)

-- The drain puts one message without records into the channel, or none.
drained_queue :
    (now : ℕ) (accepted : Bool) (joined : Option ShipperExit) (h : Host)
    → let q = (drain_shipper_if_enabled now accepted joined h).process.world.queue in
      (q ≡ h.process.world.queue)
      ⊎ ((deadline : ℕ) × (q ≡ h.process.world.queue ++ (drain deadline ∷ [])))
unfolding drain_shipper_if_enabled
drained_queue now accepted joined h = elim (Option-cases h.config) [
  | inl unset ↦ inl (ground arith)
  | inr (c, set) ↦ elim (Bool-cases (c.enabled && (h.process.world.sender_slot && accepted))) [
    | inl took ↦ inr (now + c.shutdown_grace, ground arith)
    | inr kept_out ↦ inl (ground arith)
  ]
]

mshutdown-HasQuietStart :
    (now : ℕ) (accepted : Bool) (joined : Option ShipperExit) (h : Host)
    → HasQuietStart h
    → HasQuietStart (drain_shipper_if_enabled now accepted joined h)
unfolding drain_shipper_if_enabled
mshutdown-HasQuietStart now accepted joined h p =
    kept h (drain_shipper_if_enabled now accepted joined h) (ground arith) (ground arith)
      (ground arith)
      (λ queued. elim (drained_queue now accepted joined h) [
        | inl same ↦ rw same queued
        | inr (deadline, longer) ↦ rw longer (
            All-append IsUntimedMessage h.process.world.queue (drain deadline ∷ []) queued (tt, tt))
      ])
      p

-- The channel is the old one, or new and empty.
started_queue :
    (h : Host)
    → ((start_up h).process.world.queue ≡ h.process.world.queue)
      ⊎ ((start_up h).process.world.queue ≡ [])
unfolding start_up
started_queue h = elim (Option-cases h.config) [
  | inl unset ↦ inl (ground arith)
  | inr (c, set) ↦ elim (Bool-cases c.enabled) [
    | inr quiet ↦ inl (ground arith)
    | inl loud ↦ elim (Bool-cases h.process.world.sender_slot) [
      | inl installed ↦ inl (ground arith)
      | inr fresh ↦ inr (ground arith)
    ]
  ]
]

start_up-HasQuietStart : (h : Host) → HasQuietStart h → HasQuietStart (start_up h)
unfolding start_up
start_up-HasQuietStart h p =
    kept h (start_up h) (ground arith) (ground arith) (ground arith)
      (λ queued. elim (started_queue h) [ inl same ↦ rw same queued | inr empty ↦ rw empty tt ]) p

frozen :
    (config : Option Config) (cached : ℕ) (c : Config) (p : Process)
    → config ≡ none
    → IsSilentBefore config cached p
    → IsSilentBefore (some c) (encode_cpu_snapshot_mode c.cpu_snapshot_mode) p
frozen config cached c p unset q =
    let (idle, queued) : IsSilentBefore none cached p = rw unset at q in
    (refl, λ is_off. (rw idle tt, queued))

freeze-HasQuietStart :
    (c : Config) (warnings : List ConfigWarning) (h : Host)
    → HasQuietStart h
    → HasQuietStart (freeze c warnings h)
unfolding freeze
freeze-HasQuietStart c warnings h p = elim (Option-cases h.config) [
  | inl unset ↦
      let now_set : (freeze c warnings h).config ≡ some c = ground arith in
      let now_cached : (freeze c warnings h).cached_mode
          ≡ encode_cpu_snapshot_mode c.cpu_snapshot_mode =
        ground arith in
      let still : (freeze c warnings h).process ≡ h.process = ground arith in
      rw (now_set, now_cached, still) (frozen h.config h.cached_mode c h.process unset p)
  | inr (first, set) ↦
      let same : freeze c warnings h ≡ record h { warnings = h.warnings ++ warnings } =
        ground arith in
      rw same p
]

allocated :
    (hash_one : List HashWrite → ℕ) (now : ℤ) (identity : RequestIdentity) (c : Config)
    (p : Process)
    → IsUntimedQueue p.world
    → IsUntimedProcess (rinit_allocate_trace hash_one now identity (limits_from c) p)
unfolding rinit_allocate_trace Traces.new sub
allocated hash_one now identity c p queued = elim (Option-cases p.current_trace) [
  | inl idle ↦ rw (rinit_allocate_trace, idle) ((tt, tt), queued)
  | inr (t, stale) ↦ rw (rinit_allocate_trace, stale) ((tt, tt), queued)
]

rinit-HasQuietStart :
    (hash_one : List HashWrite → ℕ) (starts : Bool) (now : ℤ) (identity : RequestIdentity)
    (h : Host)
    → HasQuietStart h
    → HasQuietStart (after_rinit hash_one starts now identity h)
rinit-HasQuietStart hash_one starts now identity h p =
    elim (requested hash_one starts now identity h) [
      | untouched same ↦ rw same p
      | allocates c q set on config queue cached made ↦
          let (e, quiet) : IsSilentBefore (some c) h.cached_mode h.process = rw set at p in
          rw (config, cached, made)
            (e, λ is_off. allocated hash_one now identity c q (rw queue (quiet is_off).1))
    ]

module _ (read_to_string : Text → FileContent) (hash_one : List HashWrite → ℕ) where
  startup-HasQuietStart :
      (ini : Ini) (h : Host) → HasQuietStart h → HasQuietStart (startup read_to_string ini h)
  unfolding startup
  startup-HasQuietStart ini h p =
      let resolved = from_ini_values read_to_string (raw_ini_from_ini_map ini) in
      start_up-HasQuietStart (freeze resolved.0 resolved.1 h)
        (freeze-HasQuietStart resolved.0 resolved.1 h p)

  hook-HasQuietStart :
      (e : Hook) (h : Host) {h' : Host}
      → hook read_to_string hash_one e h ≡ some h'
      → HasQuietStart h
      → HasQuietStart h'
  unfolding hook
  hook-HasQuietStart (minit ini) h e p =
      subst HasQuietStart (some_eq e) (startup-HasQuietStart ini h p)
  hook-HasQuietStart (rinit starts now identity) h e p =
      subst HasQuietStart (some_eq e) (rinit-HasQuietStart hash_one starts now identity h p)
  hook-HasQuietStart (begin_call info r) h e p =
      dispatched-HasQuietStart h _ h.observer refl
        (λ q ran. begin_handler-IsStep info (mode_of h) r h.process ran) e p
  hook-HasQuietStart (end_call r abnormal answer) h e p =
      dispatched-HasQuietStart h _ h.observer refl
        (λ q ran. end_handler-IsStep (mode_of h) r abnormal answer h.process ran) e p
  hook-HasQuietStart (rshutdown r answer) h e p =
      subst HasQuietStart (some_eq e) (rshutdown-HasQuietStart r answer h p)
  hook-HasQuietStart (mshutdown now accepted joined) h e p =
      subst HasQuietStart (some_eq e) (mshutdown-HasQuietStart now accepted joined h p)

  hooks-HasQuietStart :
      (es : List Hook) (h : Host) {h' : Host}
      → hooks read_to_string hash_one es h ≡ some h'
      → HasQuietStart h
      → HasQuietStart h'
  unfolding hooks
  hooks-HasQuietStart [] h e p = subst HasQuietStart (some_eq e) p
  hooks-HasQuietStart (x ∷ es) h e p =
      let (m, first, rest) = >>=-eq-some (hook read_to_string hash_one x h) _ e in
      hooks-HasQuietStart es m rest (hook-HasQuietStart x h first p)

-- Over any sequence of hooks that does not panic, whatever the clocks give, from a process without a
-- configuration, a trace and messages: if the configuration at the end says that CPU snapshots are
-- off, then the CPU times are zero in all records of the trace and of the batches in the channel,
-- and in all frames on the stack.
pub hooks-IsUntimedProcess :
    (read_to_string : Text → FileContent) (hash_one : List HashWrite → ℕ) (es : List Hook)
    (h : Host) {h' : Host} {c : Config}
    → h.config ≡ none
    → h.process.current_trace ≡ none
    → h.process.world.queue ≡ []
    → hooks read_to_string hash_one es h ≡ some h'
    → h'.config ≡ some c
    → c.cpu_snapshot_mode ≡ off
    → IsUntimedProcess h'.process
hooks-IsUntimedProcess read_to_string hash_one es h {h'} {c} unset idle empty e set is_off =
    let start : HasQuietStart h = rw unset (idle, rw empty tt) in
    let p = hooks-HasQuietStart read_to_string hash_one es h e start in
    let (cached, quiet) : IsSilentBefore (some c) h'.cached_mode h'.process = rw set at p in
    quiet is_off
