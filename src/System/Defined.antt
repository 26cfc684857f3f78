-- ===== src/System/Defined.antt =====
-- The function number of a record is defined by the dictionary entries that are sent.
use php_analyze.Prelude.{
  ℕ, ◌≡◌, refl, sym, ap, ◌∙◌, inl, true, Bool, some, List, [], ◌∷◌, ◌++◌, All, arith, append_assoc,
  append-nil, In, In-append_right,
}
use mathlib.Core.Path.{subst}
use php_analyze.Prelude.Text.{Text}
use php_analyze.World.{World, add, fetch_add}
use php_analyze.Recorder.Types.{CallFrame, PendingBatch, ShipperMessage, batch}
use php_analyze.Recorder.Dictionary.{stage, take_new_entries}
use php_analyze.Recorder.Dictionary.Numbers.{probe_ref-In}
use php_analyze.Recorder.Trace.{Trace, flush_into_pending_batch}
use php_analyze.Recorder.Begin.{lazy_build}
use php_analyze.Recorder.Begin.Cases.{Begun, dropped, known, fresh, after_new, new_bytes}
use php_analyze.Recorder.CallSite.{LazyCategorised}
use php_analyze.Recorder.Begin.{EntrySnapshots}
use php_analyze.Recorder.End.{ExitSnapshots, flush_and_send, finished}
use php_analyze.Recorder.End.Cases.{Ended, skipped, unpaired, emitted, flushed, after_emit}
use php_analyze.Recorder.Flush as Flush
use php_analyze.Recorder.Flush.{SendResult}
use php_analyze.Shipper.OnBatch as Seam
use php_analyze.Shipper.OnBatch.{OnBatchOutcome}
use php_analyze.Shipper.Consume.{settle}
use php_analyze.System.{State, Event, delivered_after, run}
use php_analyze.System.Cases.{Stepped, begun, ended, idle, discarded, shipped, run_induction}
use php_analyze.System.Covers.{
  Covered, Covered-more, Covered-In, Covered-append, record_ids, frame_ids, slot_ids, entry_ids,
  entry_ids-append, record_ids-append, defined_ids, defined_ids-append, AreDefined,
  AreDefined-append,
}
use php_analyze.System.Stream.{Delivers, batches, stream, flush-stream, settle-stream}

-- The numbers that the stream and the entries staged for the next batch define.
abbrev pub known_ids : Trace → World → List PendingBatch → List ℕ
known_ids t w delivered = defined_ids (stream delivered w) ++ entry_ids t.dictionary.new_entries

abbrev pub IsDefined : Trace → World → List PendingBatch → Type 0
IsDefined t w delivered =
    (w.sender_slot ≡ true)
    × AreDefined [] (stream delivered w)
    × Covered (slot_ids t.dictionary.intern) (known_ids t w delivered)
    × Covered (frame_ids t.stack) (known_ids t w delivered)
    × Covered (record_ids t.buffer) (known_ids t w delivered)

-- A new function is staged with its entry.
known_ids-staged :
    (lazy : LazyCategorised) (t : Trace) (w : World) (delivered : List PendingBatch)
    → defined_ids (stream delivered w)
        ++ entry_ids
            (t.dictionary.new_entries ++ ((lazy_build lazy t.dictionary.next_fn_id).1 ∷ []))
      ≡ known_ids t w delivered ++ (t.dictionary.next_fn_id ∷ [])
unfolding lazy_build
known_ids-staged lazy t w delivered =
    ap (λ r. defined_ids (stream delivered w) ++ r)
      (entry_ids-append t.dictionary.new_entries ((lazy_build lazy t.dictionary.next_fn_id).1 ∷ []))
    ∙ sym (
        append_assoc (defined_ids (stream delivered w)) (entry_ids t.dictionary.new_entries)
          (t.dictionary.next_fn_id ∷ []))

-- What was covered stays covered, and the new number is.
grown :
    (ns ids : List ℕ) (id : ℕ) {ids' : List ℕ}
    → ids' ≡ ids ++ (id ∷ [])
    → Covered ns ids
    → Covered ns ids' × In id ids'
grown ns ids id e h = (
  subst (Covered ns) (sym e) (Covered-more ns ids (id ∷ []) h),
  subst (In id) (sym e) (In-append_right id ids (id ∷ []) (inl refl)),
)

fresh-IsDefined :
    (lazy : LazyCategorised) (s : EntrySnapshots) (t : Trace) (w : World)
    (delivered : List PendingBatch)
    → IsDefined t w delivered
    → IsDefined (after_new lazy s t) (add (new_bytes lazy s t.dictionary) w) delivered
unfolding add stage
fresh-IsDefined lazy s t w delivered p =
    let ids = known_ids t w delivered in
    let next = t.dictionary.next_fn_id in
    let e = known_ids-staged lazy t w delivered in
    let slots = grown (slot_ids t.dictionary.intern) ids next e p.2 in
    let frames = grown (frame_ids t.stack) ids next e p.3 in
    (
      p.0,
      p.1,
      (slots.1, slots.0),
      (frames.1, frames.0),
      (grown (record_ids t.buffer) ids next e p.4).0,
    )

Begun-IsDefined :
    {lazy : LazyCategorised} {s : EntrySnapshots} {t t' : Trace} {w w' : World}
    (delivered : List PendingBatch)
    → Begun lazy s t w t' w'
    → IsDefined t w delivered
    → IsDefined t' w' delivered
unfolding add fetch_add stage
Begun-IsDefined delivered (dropped _ et ew) p = ground arith
Begun-IsDefined {lazy} {s} {t} {t'} {w} {w'} delivered (known id found deep gate _ et ew) p =
    ground (
      arith,
      Covered-In id (slot_ids t.dictionary.intern) (known_ids t w delivered) p.2
          (probe_ref-In t.dictionary lazy.key_ref found),
    )
Begun-IsDefined {lazy} {s} {t} {t'} {w} {w'} delivered (fresh absent deep gate _ _ et ew) p =
    ground (arith, fresh-IsDefined lazy s t w delivered p)

known_ids-flush :
    (t : Trace) (w : World) (delivered : List PendingBatch)
    → w.sender_slot ≡ true
    → known_ids (flush_and_send Flush.sent t w).0 (flush_and_send Flush.sent t w).1 delivered
      ≡ known_ids t w delivered
unfolding flush_and_send take_new_entries
known_ids-flush t w delivered h =
    let b = (flush_into_pending_batch t).0 in
    append-nil _
    ∙ ap defined_ids (flush-stream t w delivered h)
    ∙ defined_ids-append (stream delivered w) (b ∷ [])
    ∙ ap (λ r. defined_ids (stream delivered w) ++ r) (append-nil (entry_ids b.dict))

pub flush-IsDefined :
    (t : Trace) (w : World) (delivered : List PendingBatch)
    → IsDefined t w delivered
    → IsDefined (flush_and_send Flush.sent t w).0 (flush_and_send Flush.sent t w).1 delivered
unfolding flush_and_send take_new_entries
flush-IsDefined t w delivered p =
    let b = (flush_into_pending_batch t).0 in
    let same = sym (known_ids-flush t w delivered p.0) in
    (
      ground arith,
      subst (AreDefined []) (sym (flush-stream t w delivered p.0))
          (AreDefined-append [] (stream delivered w) b p.1 p.4),
      subst (Covered (slot_ids t.dictionary.intern)) same p.2,
      subst (Covered (frame_ids t.stack)) same p.3,
      tt,
    )

emit-IsDefined :
    (x : ExitSnapshots) (a : Bool) (r : SendResult) (frame : CallFrame) (rest : List CallFrame)
    (t : Trace) (w : World) (delivered : List PendingBatch)
    → t.stack ≡ frame ∷ rest
    → IsDefined t w delivered
    → IsDefined (after_emit x a r frame rest t) (add 64 w) delivered
unfolding add finished
emit-IsDefined x a r frame rest t w delivered e p =
    let ids = known_ids t w delivered in
    let frames : Covered (frame_ids (frame ∷ rest)) ids =
      subst (λ fs. Covered (frame_ids fs) ids) e p.3 in
    (
      p.0,
      p.1,
      p.2,
      frames.1,
      subst (λ ns. Covered ns ids) (sym (record_ids-append t.buffer (finished frame x a ∷ [])))
          (Covered-append (record_ids t.buffer) (frame.fn_id ∷ []) ids p.4 (frames.0, tt)),
    )

Ended-IsDefined :
    {x : ExitSnapshots} {a : Bool} {r : SendResult} {t t' : Trace} {w w' : World}
    (delivered : List PendingBatch)
    → Ended x a r t w t' w'
    → r ≡ Flush.sent
    → IsDefined t w delivered
    → IsDefined t' w' delivered
Ended-IsDefined delivered (skipped _ et ew) e p = ground arith
Ended-IsDefined delivered (unpaired _ es et ew) e p = ground arith
Ended-IsDefined {x} {a} {r} {t} {t'} {w} {w'} delivered (emitted frame rest _ es _ et ew) e p =
    ground (arith, emit-IsDefined x a r frame rest t w delivered es p)
Ended-IsDefined {x} {a} {r} {t} {t'} {w} {w'} delivered (flushed frame rest _ es _ et) e p =
    ground (
      arith,
      flush-IsDefined (after_emit x a r frame rest t) (add 64 w) delivered
          (emit-IsDefined x a r frame rest t w delivered es p),
    )

abbrev Holds : State → Type 0
Holds s = IsDefined s.trace s.world s.delivered

module _ (uuid : List ℕ → Text) (url : Text) where
  settle-IsDefined :
      (o : OnBatchOutcome) (b : PendingBatch) (rest : List ShipperMessage) (s : State)
      → o ≡ Seam.sent
      → s.world.queue ≡ batch b ∷ rest
      → Holds s
      → IsDefined s.trace
          (settle uuid b url o (record s.world { queue = rest }) s.drained).0
          (delivered_after o b s.delivered)
  settle-IsDefined o b rest s ok eq p =
      let (same, slot) = settle-stream uuid url b s.world s.drained rest s.delivered eq in
      let back = sym (ap (λ bs. defined_ids bs ++ entry_ids s.trace.dictionary.new_entries) same) in
      subst
        (λ o.
          IsDefined s.trace (settle uuid b url o (record s.world { queue = rest }) s.drained).0
            (delivered_after o b s.delivered))
        (sym ok)
        (
          slot ∙ p.0,
          subst (AreDefined []) (sym same) p.1,
          subst (Covered (slot_ids s.trace.dictionary.intern)) back p.2,
          subst (Covered (frame_ids s.trace.stack)) back p.3,
          subst (Covered (record_ids s.trace.buffer)) back p.4,
        )

  keep : (e : Event) (s s' : State) → Delivers e → Stepped uuid url e s s' → Holds s → Holds s'
  unfolding batches
  keep e s s' d (begun lazy entry _ b _ _ nd) p = ground (arith, Begun-IsDefined s.delivered b p)
  keep e s s' d (ended x a r is en _ _ nd) p =
      ground (arith, Ended-IsDefined s.delivered en (subst Delivers is d) p)
  keep e s s' d (idle same) p = ground (arith, p)
  keep e s s' d (discarded deadline rest eq same) p = ground (arith, p, ap batches eq)
  keep e s s' d (shipped o b rest is eq et _ nd ew) p =
      ground (arith, settle-IsDefined o b rest s (subst Delivers is d) eq p)

  -- Over any schedule in which the channel and the server accept every batch: the function number of
  -- every record in the delivered batches and in the channel is defined by the dictionary of the
  -- batch of the record or of one before it, and the numbers of the buffered records, of the open
  -- frames and of the interner by those dictionaries or by the entries staged for the next batch;
  -- if it was so at the start, with a sender installed.
  pub run-IsDefined :
      (es : List Event) (s s' : State)
      → All Delivers es
      → run uuid url es s ≡ some s'
      → IsDefined s.trace s.world s.delivered
      → IsDefined s'.trace s'.world s'.delivered
  run-IsDefined es s s' d h p = run_induction uuid url Holds Delivers keep es s s' d h p
