-- ===== src/Recorder/End/Cases.antt =====
-- The ways in which an end finishes: it consumes a dropped begin, it finds no frame, or it emits
-- the record of the top frame, with a flush or without.
use php_analyze.Prelude.{
  ◌-◌, ◌≤◌, ◌<◌, ◌≡◌, refl, ◌⊎◌, inl, inr, Bool, [], ◌∷◌, ◌++◌, List, none, arith, length,
  Option-cases, Bool-cases, ltb,
}
use php_analyze.Prelude.Words.{wrapping_add}
use php_analyze.World.{World, add}
use php_analyze.Recorder.Types.{CallFrame, call_record_fixed_bytes}
use php_analyze.Recorder.Trace.{Trace}
use php_analyze.Recorder.Flush.{SendResult}
use php_analyze.Recorder.End.{
  ExitSnapshots, end_with_snapshots, finished, flush_and_send, flush_predicate_trigger,
}

module _ (s : ExitSnapshots) (abnormal : Bool) (answer : SendResult) where
  abbrev pub after_skip : Trace → Trace
  after_skip t = record t {
    virtual_depth = t.virtual_depth - 1;
    dropped_begins = t.dropped_begins - 1;
  }

  -- The trace once the record of the frame is in the buffer.
  abbrev pub after_emit : CallFrame → List CallFrame → Trace → Trace
  after_emit frame rest t = record t {
    virtual_depth = t.virtual_depth - 1;
    stack = rest;
    buffer = t.buffer ++ (finished frame s abnormal ∷ []);
    buffer_estimated_bytes = wrapping_add t.buffer_estimated_bytes call_record_fixed_bytes;
  }

  abbrev pub Crosses : Trace → Type 0
  Crosses t = (t.flush_records ≤ length t.buffer) ⊎ (t.flush_bytes ≤ t.buffer_estimated_bytes)

  pub data Ended (t : Trace) (w : World) (t' : Trace) (w' : World) : Type 0 where
    skipped : 0 < t.dropped_begins → t' ≡ after_skip t → w' ≡ w → Ended t w t' w'
    unpaired :
        t.dropped_begins ≡ 0
        → t.stack ≡ []
        → t' ≡ record t { virtual_depth = t.virtual_depth - 1 }
        → w' ≡ w
        → Ended t w t' w'
    emitted :
        (frame : CallFrame) (rest : List CallFrame)
        → t.dropped_begins ≡ 0
        → t.stack ≡ frame ∷ rest
        → flush_predicate_trigger (after_emit frame rest t) ≡ none
        → t' ≡ after_emit frame rest t
        → w' ≡ add call_record_fixed_bytes w
        → Ended t w t' w'
    flushed :
        (frame : CallFrame) (rest : List CallFrame)
        → t.dropped_begins ≡ 0
        → t.stack ≡ frame ∷ rest
        → Crosses (after_emit frame rest t)
        → (t', w') ≡ flush_and_send answer (after_emit frame rest t) (add call_record_fixed_bytes w)
        → Ended t w t' w'

  end_cases_at :
      (stack : List CallFrame) (t : Trace) (w : World)
      → t.stack ≡ stack
      → Ended t w
          (end_with_snapshots s abnormal answer t w).0
          (end_with_snapshots s abnormal answer t w).1
  unfolding end_with_snapshots
  end_cases_at [] t w e = elim (Bool-cases (ltb 0 t.dropped_begins)) [
    | inl skip ↦ skipped (ground arith) (ground arith) (ground arith)
    | inr take ↦ unpaired (ground arith) e (ground arith) (ground arith)
  ]
  end_cases_at (frame ∷ rest) t w e = elim (Bool-cases (ltb 0 t.dropped_begins)) [
    | inl skip ↦ skipped (ground arith) (ground arith) (ground arith)
    | inr take ↦ elim (Option-cases (flush_predicate_trigger (after_emit frame rest t))) [
      | inl stays ↦ emitted frame rest (ground arith) e stays (ground arith) (ground arith)
      | inr (trigger, crosses) ↦ flushed frame rest (ground arith) e (ground arith) (ground arith)
    ]
  ]

  pub end_cases :
      (t : Trace) (w : World)
      → Ended t w
          (end_with_snapshots s abnormal answer t w).0
          (end_with_snapshots s abnormal answer t w).1
  end_cases t w = end_cases_at t.stack t w refl
