-- ===== src/System/Conservation.antt =====
-- Where the calls of a trace are: every accepted begin is an open frame, a buffered record, a
-- record in the channel, a delivered record, or counted in the drop counter.
use php_analyze.Prelude.{
  ℕ, ◌+◌, ◌<◌, ◌≡◌, ◌≢◌, ◌∙◌, refl, true, some, List, [], ◌∷◌, ◌++◌, arith, length, length-append,
  length-set, get_or-set_self, Bool, All, ap,
}
use mathlib.Core.Path.{subst}
use php_analyze.Prelude.Text.{Text}
use php_analyze.Prelude.Words.{u64_mod, wrapping_add}
use php_analyze.World.{World, load, add, sub, fetch_add}
use php_analyze.Recorder.Types.{PendingBatch, ShipperMessage, batch, drain}
use php_analyze.Recorder.Trace.{Trace, flush_into_pending_batch}
use php_analyze.Recorder.Begin.{EntrySnapshots}
use php_analyze.Recorder.Begin.Cases.{Begun, dropped, known, fresh}
use php_analyze.Recorder.CallSite.{LazyCategorised}
use php_analyze.Recorder.End.{ExitSnapshots, finished, flush_and_send}
use php_analyze.Recorder.End.Cases.{Ended, skipped, unpaired, emitted, flushed, after_emit}
use php_analyze.Recorder.Flush as Flush
use php_analyze.Recorder.Flush.{SendResult, full, disconnected}
use php_analyze.Shipper.OnBatch as Seam
use php_analyze.Shipper.OnBatch.{OnBatchOutcome}
use php_analyze.Shipper.Consume.{settle}
use php_analyze.System.{State, Event, ends, delivered_after, run}
use php_analyze.System.Cases.{Stepped, begun, ended, idle, discarded, shipped, run_induction}

-- The records of batches, and of the batches in the channel.
unfoldable pub delivered_records : List PendingBatch → ℕ
delivered_records [] = 0
delivered_records (b ∷ rest) = length b.calls + delivered_records rest

unfoldable pub queued_records : List ShipperMessage → ℕ
queued_records [] = 0
queued_records (batch b ∷ rest) = length b.calls + queued_records rest
queued_records (drain deadline ∷ rest) = queued_records rest

delivered_records-append :
    (xs ys : List PendingBatch)
    → delivered_records (xs ++ ys) ≡ delivered_records xs + delivered_records ys
unfolding delivered_records
delivered_records-append [] ys = omega arith
delivered_records-append (b ∷ xs) ys = omega (arith, delivered_records-append xs ys)

queued_records-append :
    (xs ys : List ShipperMessage)
    → queued_records (xs ++ ys) ≡ queued_records xs + queued_records ys
unfolding queued_records
queued_records-append [] ys = omega arith
queued_records-append (batch b ∷ xs) ys = omega (arith, queued_records-append xs ys)
queued_records-append (drain deadline ∷ xs) ys = queued_records-append xs ys

-- Every batch in the channel counts its drops in this cell.
abbrev pub SharesCell : ℕ → List ShipperMessage → Type 0
SharesCell cell [] = Unit
SharesCell cell (batch b ∷ rest) = (b.drop_counter ≡ cell) × SharesCell cell rest
SharesCell cell (drain deadline ∷ rest) = SharesCell cell rest

SharesCell-append :
    (cell : ℕ) (xs ys : List ShipperMessage)
    → SharesCell cell xs
    → SharesCell cell ys
    → SharesCell cell (xs ++ ys)
SharesCell-append cell [] ys h k = k
SharesCell-append cell (batch b ∷ xs) ys h k = (h.0, SharesCell-append cell xs ys h.1 k)
SharesCell-append cell (drain deadline ∷ xs) ys h k = SharesCell-append cell xs ys h k

-- The places where an accepted begin can be.
abbrev pub places : ℕ → Trace → World → List PendingBatch → ℕ
places cell t w delivered =
    length t.stack
    + length t.buffer
    + queued_records w.queue
    + delivered_records delivered
    + load cell w

-- The trace counts in its cell, the cell is there, a sender is installed, and every begin is in one
-- of the places.
abbrev pub IsAccounted : ℕ → ℕ → Trace → World → List PendingBatch → Type 0
IsAccounted cell count t w delivered =
    (t.drop_counter ≡ cell)
    × (cell < length w.drop_counters)
    × (w.sender_slot ≡ true)
    × SharesCell cell w.queue
    × (places cell t w delivered ≡ count)

module _ (cell : ℕ) where
  -- A cell that has room counts on.
  load-fetch_add :
      (n : ℕ) (w : World)
      → cell < length w.drop_counters
      → load cell w + n < u64_mod
      → (load cell (fetch_add cell n w) ≡ load cell w + n)
        × (cell < length (fetch_add cell n w).drop_counters)
  unfolding fetch_add
  load-fetch_add n w h room = (
    get_or-set_self w.drop_counters cell (wrapping_add (load cell w) n) 0 h ∙ omega arith,
    omega (arith, length-set w.drop_counters cell (wrapping_add (load cell w) n)),
  )

  -- A count leaves the channel and the sender alone.
  fetch_add-rest :
      (n : ℕ) (w : World)
      → ((fetch_add cell n w).queue ≡ w.queue) × ((fetch_add cell n w).sender_slot ≡ w.sender_slot)
  unfolding fetch_add
  fetch_add-rest n w = (refl, refl)

  Begun-IsAccounted :
      {lazy : LazyCategorised} {s : EntrySnapshots} {t t' : Trace} {w w' : World} (n : ℕ)
      (delivered : List PendingBatch)
      → Begun lazy s t w t' w'
      → n + 1 < u64_mod
      → IsAccounted cell n t w delivered
      → IsAccounted cell (n + 1) t' w' delivered
  unfolding add
  Begun-IsAccounted {t} {w} n delivered (dropped why et ew) room p =
      ground (arith, load-fetch_add 1 w p.1, fetch_add-rest 1 w)
  Begun-IsAccounted n delivered (known id found deep gate seq et ew) room p = ground arith
  Begun-IsAccounted n delivered (fresh absent deep gate seq next et ew) room p = ground arith

  flush-IsAccounted :
      (answer : SendResult) (t : Trace) (w : World) (n : ℕ) (delivered : List PendingBatch)
      → answer ≢ disconnected
      → n < u64_mod
      → IsAccounted cell n t w delivered
      → IsAccounted cell n (flush_and_send answer t w).0 (flush_and_send answer t w).1 delivered
  unfolding flush_and_send queued_records sub
  flush-IsAccounted Flush.sent t w n delivered there room p =
      let b = (flush_into_pending_batch t).0 in
      ground (
        arith,
        queued_records-append w.queue (batch b ∷ []),
        SharesCell-append cell w.queue (batch b ∷ []) p.3,
      )
  flush-IsAccounted full t w n delivered there room p = ground (
    arith,
    load-fetch_add (length t.buffer) (sub t.buffer_estimated_bytes w) p.1,
    fetch_add-rest (length t.buffer) (sub t.buffer_estimated_bytes w),
  )
  flush-IsAccounted disconnected t w n delivered there room p = absurd (there refl)

  Ended-IsAccounted :
      {x : ExitSnapshots} {a : Bool} {r : SendResult} {t t' : Trace} {w w' : World} (n : ℕ)
      (delivered : List PendingBatch)
      → Ended x a r t w t' w'
      → r ≢ disconnected
      → n < u64_mod
      → IsAccounted cell n t w delivered
      → IsAccounted cell n t' w' delivered
  unfolding add
  Ended-IsAccounted n delivered (skipped _ et ew) there room p = ground arith
  Ended-IsAccounted n delivered (unpaired _ es et ew) there room p = ground arith
  Ended-IsAccounted {x} {a} {t = t} n delivered (emitted frame rest _ es _ et ew) there room p =
      ground (arith, ap length es, length-append t.buffer (finished frame x a ∷ []))
  Ended-IsAccounted {x} {a} {r} {t} {t'} {w} {w'} n delivered (flushed frame rest _ es _ e) there
        room p =
      ground (
        arith,
        ap length es,
        length-append t.buffer (finished frame x a ∷ []),
        flush-IsAccounted r (after_emit x a r frame rest t) (add 64 w) n delivered there room,
      )

  -- The channel answers full at worst.
  abbrev Connected : Event → Type 0
  Connected (ends x a answer) = answer ≢ disconnected
  Connected _ = Unit

  abbrev Holds : State → Type 0
  Holds s = s.begun < u64_mod → IsAccounted cell s.begun s.trace s.world s.delivered

  module _ (uuid : List ℕ → Text) (url : Text) where
    settle-IsAccounted :
        (o : OnBatchOutcome) (b : PendingBatch) (w : World) (drained count : ℕ) (t : Trace)
        (rest : List ShipperMessage) (delivered : List PendingBatch)
        → w.queue ≡ batch b ∷ rest
        → count < u64_mod
        → IsAccounted cell count t w delivered
        → IsAccounted cell count t
            (settle uuid b url o (record w { queue = rest }) drained).0
            (delivered_after o b delivered)
    unfolding settle sub queued_records delivered_records
    settle-IsAccounted Seam.sent b w drained count t rest delivered eq room p = ground (
      arith,
      ap queued_records eq,
      ap (SharesCell cell) eq,
      delivered_records-append delivered (b ∷ []),
    )
    settle-IsAccounted (Seam.dropped reason attempts) b w drained count t rest delivered eq room p =
        ground (
          arith,
          ap queued_records eq,
          load-fetch_add (length b.calls) (record w { queue = rest }) p.1,
          fetch_add-rest (length b.calls) (record w { queue = rest }),
        )

    keep : (e : Event) (s s' : State) → Connected e → Stepped uuid url e s s' → Holds s → Holds s'
    unfolding queued_records
    keep e s s' _ (begun lazy entry _ b n _ nd) p h =
        ground (arith, Begun-IsAccounted s.begun s.delivered b (omega arith) (p (omega arith)))
    keep e s s' there (ended x a r is d n _ nd) p h = ground (
      arith,
      Ended-IsAccounted s.begun s.delivered d (subst Connected is there) (omega arith)
          (p (omega arith)),
    )
    keep e s s' _ (idle same) p h = ground (arith, p)
    keep e s s' _ (discarded deadline rest eq same) p h =
        ground (arith, p, ap queued_records eq, ap (SharesCell cell) eq)
    keep e s s' _ (shipped o b rest _ eq et n nd ew) p h = ground (
      arith,
      settle-IsAccounted o b s.world s.drained s.begun s.trace rest s.delivered eq (omega arith)
          (p (omega arith)),
    )

    -- No silent loss. Over any schedule in which the channel answers full at worst, with fewer than
    -- 2 ^ 64 begins: the calls that have begun are, in number, the open frames, the buffered records,
    -- the records in the channel, the delivered records, and the drop counter together, if it was so
    -- at the start, with a sender installed and the batches in the channel counting in the cell of
    -- the trace.
    pub run-IsAccounted :
        (es : List Event) (s s' : State)
        → All Connected es
        → run uuid url es s ≡ some s'
        → s'.begun < u64_mod
        → IsAccounted cell s.begun s.trace s.world s.delivered
        → IsAccounted cell s'.begun s'.trace s'.world s'.delivered
    run-IsAccounted es s s' there h n p =
        run_induction uuid url Holds Connected keep es s s' there h (λ _. p) n
