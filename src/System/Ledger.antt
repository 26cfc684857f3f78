-- ===== src/System/Ledger.antt =====
-- The memory budget: the process-wide atomic is what the trace and the channel hold together, and
-- a trace's running estimate is the formula over what it holds.
use php_analyze.Prelude.{ℕ, ◌+◌, ◌%◌, ◌≡◌, some, List, [], ◌∷◌, ◌++◌, arith, Bool, ap}
use php_analyze.Prelude.Text.{Text}
use php_analyze.Prelude.Words.{u64_mod, wrapping_sub}
use php_analyze.World.{World, add, fetch_add}
use php_analyze.Recorder.Types.{PendingBatch, ShipperMessage, batch, drain}
use php_analyze.Recorder.Trace.{Trace, flush_into_pending_batch}
use php_analyze.Recorder.Begin.{EntrySnapshots}
use php_analyze.Recorder.Begin.Cases.{Begun, dropped, known, fresh}
use php_analyze.Recorder.CallSite.{LazyCategorised}
use php_analyze.Recorder.End.{ExitSnapshots, flush_and_send}
use php_analyze.Recorder.End.Cases.{Ended, skipped, unpaired, emitted, flushed, after_emit}
use php_analyze.Recorder.Flush.{SendResult, sent, full, disconnected}
use php_analyze.Shipper.OnBatch as Seam
use php_analyze.Shipper.OnBatch.{OnBatchOutcome}
use php_analyze.Shipper.Consume.{settle}
use php_analyze.System.{State, Event, run}
use php_analyze.System.Cases.{
  Stepped, begun, ended, idle, discarded, shipped, All-events, run_induction,
}

-- What the batches in the channel were billed.
unfoldable pub queued_bytes : List ShipperMessage → ℕ
queued_bytes [] = 0
queued_bytes (batch b ∷ rest) = b.size_estimate + queued_bytes rest
queued_bytes (drain deadline ∷ rest) = queued_bytes rest

pub queued_bytes-append :
    (xs ys : List ShipperMessage) → queued_bytes (xs ++ ys) ≡ queued_bytes xs + queued_bytes ys
unfolding queued_bytes
queued_bytes-append [] ys = omega arith
queued_bytes-append (batch b ∷ xs) ys = omega (arith, queued_bytes-append xs ys)
queued_bytes-append (drain deadline ∷ xs) ys = queued_bytes-append xs ys

-- The balance of the budget, modulo the width of the atomic.
abbrev pub IsBalanced : Trace → World → Type 0
IsBalanced t w = w.bytes_in_memory ≡ (t.buffer_estimated_bytes + queued_bytes w.queue) % u64_mod

Begun-IsBalanced :
    {lazy : LazyCategorised} {s : EntrySnapshots} {t t' : Trace} {w w' : World}
    → Begun lazy s t w t' w'
    → IsBalanced t w
    → IsBalanced t' w'
unfolding add fetch_add
Begun-IsBalanced (dropped _ et ew) p = ground arith
Begun-IsBalanced (known _ _ _ _ _ et ew) p = ground arith
Begun-IsBalanced (fresh _ _ _ _ _ et ew) p = ground arith

pub flush-IsBalanced :
    (answer : SendResult) (t : Trace) (w : World)
    → IsBalanced t w
    → IsBalanced (flush_and_send answer t w).0 (flush_and_send answer t w).1
unfolding flush_and_send queued_bytes
flush-IsBalanced sent t w p =
    ground (arith, queued_bytes-append w.queue (batch (flush_into_pending_batch t).0 ∷ []))
flush-IsBalanced full t w p = ground arith
flush-IsBalanced disconnected t w p = ground arith

Ended-IsBalanced :
    {x : ExitSnapshots} {a : Bool} {r : SendResult} {t t' : Trace} {w w' : World}
    → Ended x a r t w t' w'
    → IsBalanced t w
    → IsBalanced t' w'
unfolding add
Ended-IsBalanced (skipped _ et ew) p = ground arith
Ended-IsBalanced (unpaired _ _ et ew) p = ground arith
Ended-IsBalanced (emitted frame rest _ _ _ et ew) p = ground arith
Ended-IsBalanced {x} {a} {r} {t} {t'} {w} {w'} (flushed frame rest _ _ _ e) p =
    ground (arith, flush-IsBalanced r (after_emit x a r frame rest t) (add 64 w))

module _ (uuid : List ℕ → Text) (url : Text) where
  pub settle-bytes :
      (o : OnBatchOutcome) (b : PendingBatch) (w : World) (n : ℕ)
      → ((settle uuid b url o w n).0.bytes_in_memory
          ≡ wrapping_sub w.bytes_in_memory b.size_estimate)
        × ((settle uuid b url o w n).0.queue ≡ w.queue)
  unfolding settle
  settle-bytes Seam.sent b w n = ground arith
  settle-bytes (Seam.dropped reason attempts) b w n = ground arith

  keep :
      (e : Event) (s s' : State)
      → Unit {0}
      → Stepped uuid url e s s'
      → IsBalanced s.trace s.world
      → IsBalanced s'.trace s'.world
  unfolding queued_bytes
  keep e s s' _ (begun lazy entry _ b _ _ _) p = Begun-IsBalanced b p
  keep e s s' _ (ended x a r _ d _ _ _) p = Ended-IsBalanced d p
  keep e s s' _ (idle same) p = ground arith
  keep e s s' _ (discarded deadline rest eq same) p = ground (arith, ap queued_bytes eq)
  keep e s s' _ (shipped o b rest _ eq et _ _ ew) p =
      ground
        (arith, ap queued_bytes eq, settle-bytes o b (record s.world { queue = rest }) s.drained)

  -- Over any schedule, whatever the shipper delivers or drops and whatever the channel answers: the
  -- process-wide budget is, modulo 2 ^ 64, what the trace is billed for together with what the
  -- batches in the channel are billed for, if it was so at the start.
  pub run-IsBalanced :
      (es : List Event) (s s' : State)
      → run uuid url es s ≡ some s'
      → IsBalanced s.trace s.world
      → IsBalanced s'.trace s'.world
  run-IsBalanced es s s' h p =
      run_induction uuid url (λ s. IsBalanced s.trace s.world) (λ e. Unit {0}) keep es s s'
        (All-events es) h p
