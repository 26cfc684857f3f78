-- ===== src/Bootstrap/Hooks/Steps.antt =====
-- A handler whose clocks are read in the mode of the cache: what it does to the request window.
use php_analyze.Prelude.{
  ℕ, Bool, Option, none, some, ◌≡◌, refl, ap, ◌∙◌, arith, >>=-eq-some, some_eq,
}
use mathlib.Core.Path.{subst}
use php_analyze.World.{World}
use php_analyze.Config.Types.{Config, CpuSnapshotMode, per_call, off}
use php_analyze.Recorder.Trace.{Trace}
use php_analyze.Recorder.Flush.{SendResult}
use php_analyze.Recorder.CallSite.{RawCallSite, categorise_lazy}
use php_analyze.Recorder.Begin.{begin_with_snapshots_lazy}
use php_analyze.Recorder.End.{end_with_snapshots}
use php_analyze.Recorder.Request.{
  Process, with_current_trace, begin_handler, end_handler, rshutdown_release_trace,
}
use php_analyze.Recorder.Snapshots.{
  Readings, encode_cpu_snapshot_mode, current_cpu_snapshot_mode, entry_capture_now,
  exit_capture_now,
}
use php_analyze.Recorder.Untimed.{
  Both, IsUntimedEntry, IsUntimedExit, IsUntimedQueue, IsUntimedProcess,
  begin_with_snapshots_lazy-Both, end_with_snapshots-Both, rshutdown_release_trace-IsUntimedProcess,
}

-- Before there is a configuration there is no trace; afterwards the cache holds its mode.
abbrev pub IsSilentBefore : Option Config → ℕ → Process → Type 0
IsSilentBefore none cached p = (p.current_trace ≡ none) × IsUntimedQueue p.world
IsSilentBefore (some c) cached p =
    (cached ≡ encode_cpu_snapshot_mode c.cpu_snapshot_mode)
    × (c.cpu_snapshot_mode ≡ off → IsUntimedProcess p)

cached_of :
    (mode : CpuSnapshotMode) (config : Option Config)
    → current_cpu_snapshot_mode (encode_cpu_snapshot_mode mode) config ≡ mode
unfolding current_cpu_snapshot_mode encode_cpu_snapshot_mode
cached_of per_call config = refl
cached_of off config = refl

entry_off :
    (mode : CpuSnapshotMode) (r : Readings) → mode ≡ off → IsUntimedEntry (entry_capture_now mode r)
unfolding entry_capture_now
entry_off mode r e = rw e (refl, refl)

exit_off :
    (mode : CpuSnapshotMode) (r : Readings) → mode ≡ off → IsUntimedExit (exit_capture_now mode r)
unfolding exit_capture_now
exit_off mode r e = rw e (refl, refl)

-- A step of the process that needs a trace to do anything but to print.
abbrev pub IsStep : CpuSnapshotMode → Process → Process → Type 0
IsStep mode p q =
    (p.current_trace ≡ none
      → IsUntimedQueue p.world
      → (q.current_trace ≡ none) × IsUntimedQueue q.world)
    × (mode ≡ off → IsUntimedProcess p → IsUntimedProcess q)

pub moved :
    (config : Option Config) (cached : ℕ) (p q : Process)
    → IsStep (current_cpu_snapshot_mode cached config) p q
    → IsSilentBefore config cached p
    → IsSilentBefore config cached q
moved none cached p q (idle, quiet) (unset, queued) = idle unset queued
moved (some c) cached p q (idle, quiet) (e, kept) = (
  e,
  λ is_off.
      quiet
        (ap (λ k. current_cpu_snapshot_mode k (some c)) e
          ∙ cached_of c.cpu_snapshot_mode (some c)
          ∙ is_off)
        (kept is_off),
)

module _ (f : Trace → World → Option (Trace × World)) (mode : CpuSnapshotMode)
    (keeps : mode ≡ off
      → (t t' : Trace) (w w' : World) → f t w ≡ some (t', w')
      → Both (t, w)
      → Both (t', w')) where
  window-IsStep :
      (current : Option Trace) (w : World) {q : Process}
      → with_current_trace f (record { current_trace = current; world = w }) ≡ some q
      → IsStep mode (record { current_trace = current; world = w }) q
  unfolding with_current_trace
  window-IsStep none w e =
      subst (IsStep mode (record { current_trace = none; world = w })) (some_eq e)
        ((λ unset queued. (unset, queued)), (λ is_off p. p))
  window-IsStep (some t) w e =
      let ((t', w'), ran, left) = >>=-eq-some (f t w) _ e in
      subst (IsStep mode (record { current_trace = some t; world = w })) (some_eq left)
        ((λ unset queued. absurd (ground arith)), (λ is_off p. keeps is_off t t' w w' ran p))

pub begin_handler-IsStep :
    (info : RawCallSite) (mode : CpuSnapshotMode) (r : Readings) (p : Process) {q : Process}
    → begin_handler info (entry_capture_now mode r) p ≡ some q
    → IsStep mode p q
unfolding begin_handler
begin_handler-IsStep info mode r p e =
    window-IsStep (begin_with_snapshots_lazy (categorise_lazy info) (entry_capture_now mode r)) mode
      (λ is_off t t' w w' ran.
        begin_with_snapshots_lazy-Both (categorise_lazy info) (entry_capture_now mode r) t t' w w'
          (entry_off mode r is_off) ran)
      p.current_trace p.world e

pub end_handler-IsStep :
    (mode : CpuSnapshotMode) (r : Readings) (a : Bool) (answer : SendResult) (p : Process)
    {q : Process}
    → end_handler (exit_capture_now mode r) a answer p ≡ some q
    → IsStep mode p q
unfolding end_handler
end_handler-IsStep mode r a answer p e =
    window-IsStep (λ t w. some (end_with_snapshots (exit_capture_now mode r) a answer t w)) mode
      (λ is_off t t' w w' ran both. subst Both (some_eq ran) (
        end_with_snapshots-Both (exit_capture_now mode r) a answer t w (exit_off mode r is_off)
          both))
      p.current_trace p.world e

pub released-IsStep :
    (mode : CpuSnapshotMode) (r : Readings) (answer : SendResult) (current : Option Trace)
    (w : World)
    → IsStep mode
        (record { current_trace = current; world = w })
        (rshutdown_release_trace
          (exit_capture_now mode r)
          answer
          (record { current_trace = current; world = w }))
unfolding rshutdown_release_trace
released-IsStep mode r answer none w = ((λ unset queued. (unset, queued)), (λ is_off p. p))
released-IsStep mode r answer (some t) w = (
  (λ unset queued. absurd (ground arith)),
  (λ is_off p.
      rshutdown_release_trace-IsUntimedProcess (exit_capture_now mode r) answer (some t) w
        (exit_off mode r is_off) p),
)
