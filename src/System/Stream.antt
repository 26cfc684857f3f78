-- ===== src/System/Stream.antt =====
-- The stream of batches of a request whose channel accepts and whose shipper delivers every batch:
-- what has been delivered, and after it what the channel holds.
use php_analyze.Prelude.{ℕ, ◌≡◌, refl, ap, true, List, [], ◌∷◌, ◌++◌, arith, append_assoc}
use php_analyze.Prelude.Text.{Text}
use php_analyze.World.{World, add, sub, fetch_add}
use php_analyze.Recorder.Types.{PendingBatch, ShipperMessage, batch, drain}
use php_analyze.Recorder.Trace.{Trace, flush_into_pending_batch}
use php_analyze.Recorder.Begin.{EntrySnapshots}
use php_analyze.Recorder.Begin.Cases.{Begun, dropped, known, fresh}
use php_analyze.Recorder.CallSite.{LazyCategorised}
use php_analyze.Recorder.End.{flush_and_send}
use php_analyze.Recorder.Flush as Flush
use php_analyze.Shipper.OnBatch as Seam
use php_analyze.Shipper.Consume.{settle}
use php_analyze.System.{Event, begins, ends, ships}

-- The channel and the server accept.
abbrev pub Delivers : Event → Type 0
Delivers (begins lazy entry) = Unit
Delivers (ends exit abnormal answer) = answer ≡ Flush.sent
Delivers (ships outcome) = outcome ≡ Seam.sent

unfoldable pub batches : List ShipperMessage → List PendingBatch
batches [] = []
batches (batch b ∷ rest) = b ∷ batches rest
batches (drain deadline ∷ rest) = batches rest

pub batches-append : (xs ys : List ShipperMessage) → batches (xs ++ ys) ≡ batches xs ++ batches ys
unfolding batches
batches-append [] ys = refl
batches-append (batch b ∷ xs) ys = ap (λ r. b ∷ r) (batches-append xs ys)
batches-append (drain deadline ∷ xs) ys = batches-append xs ys

abbrev pub stream : List PendingBatch → World → List PendingBatch
stream delivered w = delivered ++ batches w.queue

-- A begin leaves the channel alone.
pub Begun-queue :
    {lazy : LazyCategorised} {s : EntrySnapshots} {t t' : Trace} {w w' : World}
    → Begun lazy s t w t' w'
    → (w'.queue ≡ w.queue) × (w'.sender_slot ≡ w.sender_slot)
unfolding add fetch_add
Begun-queue (dropped _ _ ew) = ground arith
Begun-queue (known _ _ _ _ _ _ ew) = ground arith
Begun-queue (fresh _ _ _ _ _ _ ew) = ground arith

-- A flush that the channel accepts puts the trace's batch at the end of the stream.
pub flush-stream :
    (t : Trace) (w : World) (delivered : List PendingBatch)
    → w.sender_slot ≡ true
    → stream delivered (flush_and_send Flush.sent t w).1
      ≡ stream delivered w ++ ((flush_into_pending_batch t).0 ∷ [])
unfolding flush_and_send batches
flush-stream t w delivered h = ground (
  arith,
  batches-append w.queue (batch (flush_into_pending_batch t).0 ∷ []),
  append_assoc delivered (batches w.queue) ((flush_into_pending_batch t).0 ∷ []),
)

-- A delivery moves the oldest batch of the channel to what has been delivered.
pub settle-stream :
    (uuid : List ℕ → Text) (url : Text) (b : PendingBatch) (w : World) (n : ℕ)
    (rest : List ShipperMessage) (delivered : List PendingBatch)
    → w.queue ≡ batch b ∷ rest
    → (stream (delivered ++ (b ∷ [])) (settle uuid b url Seam.sent (record w { queue = rest }) n).0
        ≡ stream delivered w)
      × ((settle uuid b url Seam.sent (record w { queue = rest }) n).0.sender_slot ≡ w.sender_slot)
unfolding settle sub batches
settle-stream uuid url b w n rest delivered e =
    ground (arith, ap batches e, append_assoc delivered (b ∷ []) (batches rest))
