-- ===== src/System.antt =====
-- A request under the shipper: the recorder's begins and ends on the PHP thread, interleaved with
-- the shipper thread's consumption of the channel. A schedule is a list of events, each with what
-- the environment answers. `begun` and `delivered` are the history that the theorems speak of.
pub mod Cases
pub mod Pairing
pub mod Ledger
pub mod SoftCap
pub mod Conservation
pub mod Delivery
pub mod Shutdown
pub mod Stream
pub mod Tree
pub mod Parents
pub mod Covers
pub mod Defined
pub mod CallTree
pub mod Numbered
pub mod Request
pub mod Handover
use php_analyze.Prelude.{ℕ, ◌+◌, Bool, true, Option, none, some, List, [], ◌∷◌, ◌++◌, ◌>>=◌}
use php_analyze.Prelude.Text.{Text}
use php_analyze.World.{World}
use php_analyze.Recorder.Types.{PendingBatch, ShipperMessage, batch, drain}
use php_analyze.Recorder.Trace.{Trace}
use php_analyze.Recorder.Flush.{SendResult}
use php_analyze.Recorder.CallSite.{LazyCategorised}
use php_analyze.Recorder.Begin.{EntrySnapshots, begin_with_snapshots_lazy}
use php_analyze.Recorder.End.{ExitSnapshots, end_with_snapshots}
use php_analyze.Shipper.OnBatch.{OnBatchOutcome, sent, dropped}
use php_analyze.Shipper.Consume.{settle}

pub record State : Type 0 where
  pub trace : Trace
  pub world : World
  pub drained : ℕ
  pub begun : ℕ
  pub delivered : List PendingBatch

pub data Event : Type 0 where
  begins : LazyCategorised → EntrySnapshots → Event
  ends : ExitSnapshots → Bool → SendResult → Event
  ships : OnBatchOutcome → Event

abbrev pub delivered_after : OnBatchOutcome → PendingBatch → List PendingBatch → List PendingBatch
delivered_after sent b bs = bs ++ (b ∷ [])
delivered_after (dropped reason attempts) b bs = bs

module _ (uuid : List ℕ → Text) (url : Text) where
  -- The shipper takes the oldest message.
  unfoldable pub ship : OnBatchOutcome → List ShipperMessage → State → State
  unfolding settle
  ship outcome [] s = s
  ship outcome (drain deadline ∷ rest) s = record s { world = record s.world { queue = rest } }
  ship outcome (batch b ∷ rest) s =
      let (w, drained) = settle uuid b url outcome (record s.world { queue = rest }) s.drained in
      record s { world = w; drained = drained; delivered = delivered_after outcome b s.delivered }

  unfoldable pub step : Event → State → Option State
  unfolding begin_with_snapshots_lazy end_with_snapshots ship
  step (begins lazy entry) s = do
    (t, w) ← begin_with_snapshots_lazy lazy entry s.trace s.world
    some (record s { trace = t; world = w; begun = s.begun + 1 })
  step (ends exit abnormal answer) s =
      let (t, w) = end_with_snapshots exit abnormal answer s.trace s.world in
      some (record s { trace = t; world = w })
  step (ships outcome) s = some (ship outcome s.world.queue s)

  unfoldable pub run : List Event → State → Option State
  unfolding step
  run [] s = some s
  run (e ∷ es) s = do s' ← step e s; run es s'
