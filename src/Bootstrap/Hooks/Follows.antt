-- ===== src/Bootstrap/Hooks/Follows.antt =====
-- A trace follows the thresholds of the configuration: what the handlers of the recorder keep.
use php_analyze.Prelude.{Bool, true, Option, none, some, ◌≡◌, refl, arith, >>=-eq-some, some_eq}
use mathlib.Core.Path.{subst}
use php_analyze.World.{World}
use php_analyze.Config.Types.{Config}
use php_analyze.Config.Ranges.{IsUsable}
use php_analyze.Recorder.Trace.{Trace}
use php_analyze.Recorder.Flush.{SendResult}
use php_analyze.Recorder.CallSite.{LazyCategorised, RawCallSite, categorise_lazy}
use php_analyze.Recorder.Begin.{EntrySnapshots, begin_with_snapshots_lazy}
use php_analyze.Recorder.Begin.Cases.{Begun, dropped, known, fresh, begin_cases}
use php_analyze.Recorder.End.{ExitSnapshots, end_with_snapshots, flush_and_send}
use php_analyze.Recorder.End.Cases.{Ended, skipped, unpaired, emitted, flushed, end_cases}
use php_analyze.Recorder.Request.{
  Process, with_current_trace, begin_handler, end_handler, rshutdown_release_trace,
}

-- A trace with the thresholds of a configuration.
abbrev pub Follows : Config → Trace → Type 0
Follows c t =
    (c.enabled ≡ true)
    × (t.max_depth ≡ c.max_depth)
    × (t.buffer_cap_bytes ≡ c.buffer_cap_bytes)
    × (t.flush_records ≡ c.flush_records)
    × (t.flush_bytes ≡ c.flush_bytes)

-- A trace is there only under an enabled configuration, whose thresholds it has.
abbrev pub IsLimited : Option Config → Option Trace → Type 0
IsLimited config none = Unit
IsLimited none (some t) = ⊥
IsLimited (some c) (some t) = Follows c t

abbrev pub IsResolved : Option Config → Type 0
IsResolved none = Unit
IsResolved (some c) = IsUsable c

Begun-Follows :
    (c : Config) {lazy : LazyCategorised} {s : EntrySnapshots} {t t' : Trace} {w w' : World}
    → Begun lazy s t w t' w'
    → Follows c t
    → Follows c t'
Begun-Follows c (dropped _ et _) f = ground arith
Begun-Follows c (known _ _ _ _ _ et _) f = ground arith
Begun-Follows c (fresh _ _ _ _ _ et _) f = ground arith

Ended-Follows :
    (c : Config) {x : ExitSnapshots} {a : Bool} {r : SendResult} {t t' : Trace} {w w' : World}
    → Ended x a r t w t' w'
    → Follows c t
    → Follows c t'
unfolding flush_and_send
Ended-Follows c (skipped _ et _) f = ground arith
Ended-Follows c (unpaired _ _ et _) f = ground arith
Ended-Follows c (emitted frame rest _ _ _ et _) f = ground arith
Ended-Follows c (flushed frame rest _ _ _ et) f = ground arith

module _ (f : Trace → World → Option (Trace × World))
    (keeps : (c : Config) (t t' : Trace) (w w' : World)
      → f t w ≡ some (t', w')
      → Follows c t
      → Follows c t') where
  window-IsLimited :
      (config : Option Config) (current : Option Trace) (w : World) {p' : Process}
      → with_current_trace f (record { current_trace = current; world = w }) ≡ some p'
      → IsLimited config current
      → IsLimited config p'.current_trace
  unfolding with_current_trace
  window-IsLimited config none w e l = subst (λ p. IsLimited config p.current_trace) (some_eq e) tt
  window-IsLimited none (some t) w e l = absurd l
  window-IsLimited (some c) (some t) w e l =
      let ((t', w'), ran, left) = >>=-eq-some (f t w) _ e in
      subst (λ p. IsLimited (some c) p.current_trace) (some_eq left) (keeps c t t' w w' ran l)

pub begin_handler-IsLimited :
    (config : Option Config) (info : RawCallSite) (s : EntrySnapshots) (p : Process) {p' : Process}
    → begin_handler info s p ≡ some p'
    → IsLimited config p.current_trace
    → IsLimited config p'.current_trace
unfolding begin_handler
begin_handler-IsLimited config info s p e l =
    window-IsLimited (begin_with_snapshots_lazy (categorise_lazy info) s)
      (λ c t t' w w' ran. Begun-Follows c (begin_cases (categorise_lazy info) s t w ran)) config
      p.current_trace p.world e l

pub end_handler-IsLimited :
    (config : Option Config) (x : ExitSnapshots) (a : Bool) (r : SendResult) (p : Process)
    {p' : Process}
    → end_handler x a r p ≡ some p'
    → IsLimited config p.current_trace
    → IsLimited config p'.current_trace
unfolding end_handler
end_handler-IsLimited config x a r p e l =
    window-IsLimited (λ t w. some (end_with_snapshots x a r t w))
      (λ c t t' w w' ran.
        subst (λ u. Follows c t → Follows c u.0) (some_eq ran)
          (Ended-Follows c (end_cases x a r t w)))
      config p.current_trace p.world e l

pub rshutdown_idle :
    (x : ExitSnapshots) (r : SendResult) (current : Option Trace) (w : World)
    → (rshutdown_release_trace x r (record { current_trace = current; world = w })).current_trace
      ≡ none
unfolding rshutdown_release_trace
rshutdown_idle x r none w = refl
rshutdown_idle x r (some t) w = refl
