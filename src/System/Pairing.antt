-- ===== src/System/Pairing.antt =====
-- The two counters of a trace: the PHP-side depth is the open frames plus the dropped begins.
use php_analyze.Prelude.{ℕ, ◌+◌, ◌≤◌, ◌<◌, ◌≡◌, some, List, arith, length, Bool}
use php_analyze.Prelude.Text.{Text}
use php_analyze.Prelude.Words.{u32_mod}
use php_analyze.World.{World}
use php_analyze.Recorder.Trace.{Trace}
use php_analyze.Recorder.Begin.Cases.{Begun, dropped, known, fresh}
use php_analyze.Recorder.CallSite.{LazyCategorised}
use php_analyze.Recorder.Begin.{EntrySnapshots}
use php_analyze.Recorder.End.{ExitSnapshots, flush_and_send}
use php_analyze.Recorder.End.Cases.{Ended, skipped, unpaired, emitted, flushed}
use php_analyze.Recorder.Flush.{SendResult}
use php_analyze.System.{State, Event, run}
use php_analyze.System.Cases.{
  Stepped, begun, ended, idle, discarded, shipped, All-events, run_induction,
}

abbrev pub IsPaired : Trace → Type 0
IsPaired t = t.virtual_depth ≡ length t.stack + t.dropped_begins

pub Begun-IsPaired :
    {lazy : LazyCategorised} {s : EntrySnapshots} {t t' : Trace} {w w' : World}
    → Begun lazy s t w t' w'
    → t.virtual_depth + 1 < u32_mod
    → IsPaired t
    → IsPaired t' × (t'.virtual_depth ≤ t.virtual_depth + 1)
Begun-IsPaired (dropped _ et _) h p = ground arith
Begun-IsPaired (known _ _ _ _ _ et _) h p = ground arith
Begun-IsPaired (fresh _ _ _ _ _ et _) h p = ground arith

pub Ended-IsPaired :
    {x : ExitSnapshots} {a : Bool} {r : SendResult} {t t' : Trace} {w w' : World}
    → Ended x a r t w t' w'
    → IsPaired t
    → IsPaired t' × (t'.virtual_depth ≤ t.virtual_depth)
unfolding flush_and_send
Ended-IsPaired (skipped h et _) p = ground arith
Ended-IsPaired (unpaired h es et _) p = ground arith
Ended-IsPaired (emitted frame rest h es _ et _) p = ground arith
Ended-IsPaired (flushed frame rest h es _ et) p = ground arith

-- Paired, while fewer begins than a 32-bit counter holds have been seen.
abbrev Holds : State → Type 0
Holds s = s.begun < u32_mod → IsPaired s.trace × (s.trace.virtual_depth ≤ s.begun)

module _ (uuid : List ℕ → Text) (url : Text) where
  keep : (e : Event) (s s' : State) → Unit {0} → Stepped uuid url e s s' → Holds s → Holds s'
  keep e s s' _ (begun lazy entry _ b n _ _) p h =
      let before = p (omega arith) in
      let after = Begun-IsPaired b (omega arith) before.0 in (after.0, omega arith)
  keep e s s' _ (ended x a r _ d n _ _) p h =
      let before = p (omega arith) in
      let after = Ended-IsPaired d before.0 in (after.0, omega arith)
  keep e s s' _ (idle same) p h = ground (arith, p)
  keep e s s' _ (discarded deadline rest _ same) p h = ground (arith, p)
  keep e s s' _ (shipped o b rest _ _ et n _ _) p h = ground (arith, p)

  -- Over any schedule from a state where it holds, balanced or not: the PHP-side depth of the trace
  -- is the number of its open frames plus the dropped begins that wait for their end, as long as
  -- there have been fewer than 2 ^ 32 begins.
  pub run-IsPaired :
      (es : List Event) (s s' : State)
      → run uuid url es s ≡ some s'
      → s'.begun < u32_mod
      → IsPaired s.trace
      → s.trace.virtual_depth ≤ s.begun
      → IsPaired s'.trace
  run-IsPaired es s s' h n p d =
      (run_induction uuid url Holds (λ e. Unit {0}) keep es s s' (All-events es) h (λ _. (p, d))
        n).0
