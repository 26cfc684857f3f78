-- ===== src/System/CallTree/Close.antt =====
-- The end of a call whose frame is on top of the stack.
use php_analyze.Prelude.{
  ◌+◌, ◌-◌, ◌≤◌, ◌≡◌, refl, sym, true, Bool, List, [], ◌∷◌, ◌++◌, arith, append_assoc,
}
use php_analyze.World.{World, add}
use php_analyze.Recorder.Types.{CallFrame, PendingBatch}
use php_analyze.Recorder.Dictionary.{take_new_entries, probe_ref}
use php_analyze.Recorder.Trace.{Trace}
use php_analyze.Recorder.End.{ExitSnapshots, end_with_snapshots, finished, flush_and_send}
use php_analyze.Recorder.End.Cases.{
  Ended, skipped, unpaired, emitted, flushed, after_emit, end_cases,
}
use php_analyze.Recorder.Flush as Flush
use php_analyze.System.Parents.{emissions, flush-emissions}
use php_analyze.System.Stream.{stream}
use php_analyze.System.Tree.{records}
use php_analyze.System.CallTree.Open.{Extends}

-- What the end of a frame leaves behind, with a channel that accepts the batch of a flush.
pub record Closed (x : ExitSnapshots) (a : Bool) (delivered : List PendingBatch) (frame : CallFrame)
    (rest : List CallFrame) (t : Trace) (w : World) : Type 0 where
  pub trace : Trace
  pub world : World
  pub ended : end_with_snapshots x a Flush.sent t w ≡ (trace, world)
  pub emits : emissions trace world delivered ≡ emissions t w delivered ++ (finished frame x a ∷ [])
  pub extends : Extends t.dictionary trace.dictionary
  pub few : trace.dictionary.next_fn_id ≡ t.dictionary.next_fn_id
  pub stack_is : trace.stack ≡ rest
  pub depth_is : trace.virtual_depth ≡ t.virtual_depth - 1
  pub dropped_is : trace.dropped_begins ≡ t.dropped_begins
  pub seq_is : trace.call_id_seq ≡ t.call_id_seq
  pub limit_is : trace.max_depth ≡ t.max_depth
  pub cap_is : trace.buffer_cap_bytes ≡ t.buffer_cap_bytes
  pub sender_is : world.sender_slot ≡ w.sender_slot
  pub budget : world.bytes_in_memory ≤ w.bytes_in_memory + 64

module _ (x : ExitSnapshots) (a : Bool) (delivered : List PendingBatch) (frame : CallFrame)
    (rest : List CallFrame) (t : Trace) (w : World) where
  emit-emissions :
      emissions (after_emit x a Flush.sent frame rest t) (add 64 w) delivered
      ≡ emissions t w delivered ++ (finished frame x a ∷ [])
  unfolding add
  emit-emissions =
      sym (append_assoc (records (stream delivered w)) t.buffer (finished frame x a ∷ []))

  Closed-Ended :
      (t' : Trace) (w' : World)
      → end_with_snapshots x a Flush.sent t w ≡ (t', w')
      → t.dropped_begins ≡ 0
      → t.stack ≡ frame ∷ rest
      → w.sender_slot ≡ true
      → Ended x a Flush.sent t w t' w'
      → Closed x a delivered frame rest t w
  unfolding add flush_and_send take_new_entries probe_ref
  Closed-Ended t' w' e none_dropped top sender (skipped h et ew) = absurd (omega arith)
  Closed-Ended t' w' e none_dropped top sender (unpaired _ es et ew) = absurd (ground arith)
  Closed-Ended t' w' e none_dropped top sender (emitted f fs _ es _ et ew) = record {
    trace = t';
    world = w';
    ended = e;
    emits = ground (arith, emit-emissions);
    extends = λ q n h. ground (arith, h);
    few = ground arith;
    stack_is = ground arith;
    depth_is = ground arith;
    dropped_is = ground arith;
    seq_is = ground arith;
    limit_is = ground arith;
    cap_is = ground arith;
    sender_is = ground arith;
    budget = ground arith;
  }
  Closed-Ended t' w' e none_dropped top sender (flushed f fs _ es _ et) = record {
    trace = t';
    world = w';
    ended = e;
    emits = ground (
      arith,
      emit-emissions,
      flush-emissions (after_emit x a Flush.sent frame rest t) (add 64 w) delivered sender,
    );
    extends = λ q n h. ground (arith, h);
    few = ground arith;
    stack_is = ground arith;
    depth_is = ground arith;
    dropped_is = ground arith;
    seq_is = ground arith;
    limit_is = ground arith;
    cap_is = ground arith;
    sender_is = ground arith;
    budget = ground arith;
  }

  pub closed :
      t.dropped_begins ≡ 0
      → t.stack ≡ frame ∷ rest
      → w.sender_slot ≡ true
      → Closed x a delivered frame rest t w
  closed none_dropped top sender =
      Closed-Ended (end_with_snapshots x a Flush.sent t w).0
        (end_with_snapshots x a Flush.sent t w).1 refl none_dropped top sender
        (end_cases x a Flush.sent t w)
