-- ===== src/System/Parents.antt =====
-- The call tree: what the parent of a record refers to.
use php_analyze.Prelude.{
  ℕ, ◌+◌, ◌≡◌, sym, ap, ◌∙◌, true, Bool, some, List, [], ◌∷◌, ◌++◌, All, arith, append_assoc,
  append-nil,
}
use mathlib.Core.Path.{subst}
use php_analyze.Prelude.Text.{Text}
use php_analyze.World.{World, add, fetch_add}
use php_analyze.Recorder.Types.{CallFrame, CallRecord, PendingBatch, ShipperMessage, batch}
use php_analyze.Recorder.Trace.{Trace, flush_into_pending_batch}
use php_analyze.Recorder.Begin.{EntrySnapshots}
use php_analyze.Recorder.Begin.Cases.{Begun, dropped, known, fresh}
use php_analyze.Recorder.CallSite.{LazyCategorised}
use php_analyze.Recorder.End.{ExitSnapshots, flush_and_send, finished}
use php_analyze.Recorder.End.Cases.{Ended, skipped, unpaired, emitted, flushed, after_emit}
use php_analyze.Recorder.Flush as Flush
use php_analyze.Recorder.Flush.{SendResult}
use php_analyze.Shipper.OnBatch as Seam
use php_analyze.Shipper.OnBatch.{OnBatchOutcome}
use php_analyze.Shipper.Consume.{settle}
use php_analyze.System.{State, Event, delivered_after, run}
use php_analyze.System.Cases.{Stepped, begun, ended, idle, discarded, shipped, run_induction}
use php_analyze.System.Tree.{
  records, records-append, open_ids, Refers, IsClosed, IsChain, IsChain-weaken, IsChain-parent_of,
  IsClosed-begin, IsClosed-emit, parent_there,
}
use php_analyze.System.Stream.{Delivers, batches, stream, flush-stream, settle-stream}

-- All that has left the stack of the trace, in the order in which it left.
abbrev pub emissions : Trace → World → List PendingBatch → List CallRecord
emissions t w delivered = records (stream delivered w) ++ t.buffer

abbrev pub IsTree : Trace → World → List PendingBatch → Type 0
IsTree t w delivered =
    (w.sender_slot ≡ true)
    × IsChain t.call_id_seq t.stack
    × IsClosed (emissions t w delivered) (open_ids t.stack)

Begun-IsTree :
    {lazy : LazyCategorised} {s : EntrySnapshots} {t t' : Trace} {w w' : World}
    (delivered : List PendingBatch)
    → Begun lazy s t w t' w'
    → IsTree t w delivered
    → IsTree t' w' delivered
unfolding add fetch_add
Begun-IsTree delivered (dropped _ et ew) p = ground arith
Begun-IsTree {t = t} {w = w} delivered (known id found deep gate _ et ew) p = ground (
  arith,
  IsChain-parent_of t.call_id_seq t.stack p.1,
  IsClosed-begin (t.call_id_seq + 1) (emissions t w delivered) (open_ids t.stack) p.2,
)
Begun-IsTree {t = t} {w = w} delivered (fresh absent deep gate _ _ et ew) p = ground (
  arith,
  IsChain-parent_of t.call_id_seq t.stack p.1,
  IsClosed-begin (t.call_id_seq + 1) (emissions t w delivered) (open_ids t.stack) p.2,
)

-- A flush moves the buffer into the stream.
pub flush-emissions :
    (t : Trace) (w : World) (delivered : List PendingBatch)
    → w.sender_slot ≡ true
    → emissions (flush_and_send Flush.sent t w).0 (flush_and_send Flush.sent t w).1 delivered
      ≡ emissions t w delivered
unfolding flush_and_send records
flush-emissions t w delivered h =
    let b = (flush_into_pending_batch t).0 in
    append-nil _
    ∙ ap records (flush-stream t w delivered h)
    ∙ records-append (stream delivered w) (b ∷ [])
    ∙ ap (λ r. records (stream delivered w) ++ r) (append-nil t.buffer)

flush-IsTree :
    (t : Trace) (w : World) (delivered : List PendingBatch)
    → IsTree t w delivered
    → IsTree (flush_and_send Flush.sent t w).0 (flush_and_send Flush.sent t w).1 delivered
unfolding flush_and_send
flush-IsTree t w delivered p = (
  ground arith,
  p.1,
  subst (λ xs. IsClosed xs (open_ids t.stack)) (sym (flush-emissions t w delivered p.0)) p.2,
)

-- The record of the innermost frame joins the buffer.
emit-IsTree :
    (x : ExitSnapshots) (a : Bool) (frame : CallFrame) (rest : List CallFrame) (t : Trace)
    (w : World) (delivered : List PendingBatch)
    → t.stack ≡ frame ∷ rest
    → IsTree t w delivered
    → IsTree (after_emit x a Flush.sent frame rest t) (add 64 w) delivered
unfolding add finished
emit-IsTree x a frame rest t w delivered e p =
    let chain : IsChain t.call_id_seq (frame ∷ rest) = subst (IsChain t.call_id_seq) e p.1 in
    (
      p.0,
      IsChain-weaken frame.call_id t.call_id_seq rest chain.0 chain.3,
      subst (λ xs. IsClosed xs (open_ids rest))
          (append_assoc (records (stream delivered w)) t.buffer (finished frame x a ∷ []))
          (IsClosed-emit (finished frame x a) (emissions t w delivered) (open_ids rest)
            (subst (λ n. Refers n (open_ids rest)) (sym chain.1) (parent_there rest))
            (subst (λ fs. IsClosed (emissions t w delivered) (open_ids fs)) e p.2)),
    )

Ended-IsTree :
    {x : ExitSnapshots} {a : Bool} {r : SendResult} {t t' : Trace} {w w' : World}
    (delivered : List PendingBatch)
    → Ended x a r t w t' w'
    → r ≡ Flush.sent
    → IsTree t w delivered
    → IsTree t' w' delivered
Ended-IsTree delivered (skipped _ et ew) e p = ground arith
Ended-IsTree delivered (unpaired _ es et ew) e p = ground arith
Ended-IsTree {x} {a} {r} {t} {t'} {w} {w'} delivered (emitted frame rest _ es _ et ew) e p =
    ground (arith, emit-IsTree x a frame rest t w delivered es p)
Ended-IsTree {x} {a} {r} {t} {t'} {w} {w'} delivered (flushed frame rest _ es _ et) e p = ground (
  arith,
  flush-IsTree (after_emit x a r frame rest t) (add 64 w) delivered
      (emit-IsTree x a frame rest t w delivered es p),
)

abbrev Holds : State → Type 0
Holds s = IsTree s.trace s.world s.delivered

module _ (uuid : List ℕ → Text) (url : Text) where
  settle-IsTree :
      (o : OnBatchOutcome) (b : PendingBatch) (rest : List ShipperMessage) (s : State)
      → o ≡ Seam.sent
      → s.world.queue ≡ batch b ∷ rest
      → Holds s
      → IsTree s.trace
          (settle uuid b url o (record s.world { queue = rest }) s.drained).0
          (delivered_after o b s.delivered)
  settle-IsTree o b rest s ok eq p =
      let (same, slot) = settle-stream uuid url b s.world s.drained rest s.delivered eq in
      subst
        (λ o.
          IsTree s.trace (settle uuid b url o (record s.world { queue = rest }) s.drained).0
            (delivered_after o b s.delivered))
        (sym ok)
        (
          slot ∙ p.0,
          p.1,
          subst (λ bs. IsClosed (records bs ++ s.trace.buffer) (open_ids s.trace.stack)) (sym same)
              p.2,
        )

  keep : (e : Event) (s s' : State) → Delivers e → Stepped uuid url e s s' → Holds s → Holds s'
  unfolding batches
  keep e s s' d (begun lazy entry _ b _ _ nd) p = ground (arith, Begun-IsTree s.delivered b p)
  keep e s s' d (ended x a r is en _ _ nd) p =
      ground (arith, Ended-IsTree s.delivered en (subst Delivers is d) p)
  keep e s s' d (idle same) p = ground (arith, p)
  keep e s s' d (discarded deadline rest eq same) p = ground (arith, p, ap batches eq)
  keep e s s' d (shipped o b rest is eq et _ nd ew) p =
      ground (arith, settle-IsTree o b rest s (subst Delivers is d) eq p)

  -- Over any schedule in which the channel and the server accept every batch, dropped begins
  -- included: in what the delivered batches, the channel and the buffer hold together, in order, the
  -- parent of every record is 0 or the call number of a later record or of a frame that is still
  -- open; and every open frame has a parent that is the frame below it, with a smaller number; if it
  -- was so at the start, with a sender installed.
  pub run-IsTree :
      (es : List Event) (s s' : State)
      → All Delivers es
      → run uuid url es s ≡ some s'
      → IsTree s.trace s.world s.delivered
      → IsTree s'.trace s'.world s'.delivered
  run-IsTree es s s' d h p = run_induction uuid url Holds Delivers keep es s s' d h p
