-- ===== src/Recorder/End.antt =====
-- The end side of recorder/observer.rs: the matcher, the finished record, the flush predicate and
-- the drain of open frames. The readings of the clocks, the exception state and the channel's
-- answers are arguments.
pub mod Cases
pub mod Mispairing
use php_analyze.Prelude.{
  ◌-◌, Bool, true, false, Option, none, some, List, [], ◌∷◌, length, ltb, leb, if◌then◌else◌,
}
use php_analyze.Prelude.Int.{ℤ, pos, max_ℤ, saturating_sub}
use php_analyze.World.{World}
use php_analyze.Recorder.Types.{CallFrame, CallRecord, into_abnormal_call_record}
use php_analyze.Recorder.Trace.{Trace, push_record, flush_into_pending_batch}
use php_analyze.Recorder.Flush.{SendResult, try_send_batch}

pub record ExitSnapshots : Type 0 where
  pub t_out_ns : ℤ
  pub cpu_u_now_ns : ℤ
  pub cpu_s_now_ns : ℤ
  pub mem_out_bytes : ℤ

pub data FlushTrigger : Type 0 where
  records bytes rshutdown : FlushTrigger

unfoldable pub flush_predicate_trigger : Trace → Option FlushTrigger
flush_predicate_trigger t =
    if leb t.flush_records (length t.buffer)
    then some records
    else if leb t.flush_bytes t.buffer_estimated_bytes
    then some bytes
    else none

-- The batch of the trace goes to the channel.
unfoldable pub flush_and_send : SendResult → Trace → World → Trace × World
unfolding flush_into_pending_batch try_send_batch
flush_and_send answer t w =
    let (b, t') = flush_into_pending_batch t in (t', try_send_batch answer b w)

unfoldable pub end_would_accept : Trace → Bool × Trace
end_would_accept t =
    let t' : Trace = record t { virtual_depth = t.virtual_depth - 1 } in
    if ltb 0 t.dropped_begins
    then (false, record t' { dropped_begins = t.dropped_begins - 1 })
    else (true, t')

-- The record of a frame that ends now.
unfoldable pub finished : CallFrame → ExitSnapshots → Bool → CallRecord
finished frame snapshots abnormal = record {
  call_id = frame.call_id;
  parent = frame.parent;
  fn_id = frame.fn_id;
  depth = frame.depth;
  t_in_ns = frame.t_in_ns;
  t_out_ns = snapshots.t_out_ns;
  cpu_u_ns = max_ℤ (saturating_sub snapshots.cpu_u_now_ns frame.cpu_u_in_ns) (pos 0);
  cpu_s_ns = max_ℤ (saturating_sub snapshots.cpu_s_now_ns frame.cpu_s_in_ns) (pos 0);
  mem_in_bytes = frame.mem_in_bytes;
  mem_out_bytes = snapshots.mem_out_bytes;
  abnormal_exit = abnormal;
}

unfoldable pub finish_call_record :
    Option CallFrame → ExitSnapshots → Bool → SendResult → Trace → World → Trace × World
unfolding finished push_record flush_predicate_trigger flush_and_send
finish_call_record none snapshots abnormal answer t w = (t, w)
finish_call_record (some frame) snapshots abnormal answer t w =
    let (t', w') = push_record (finished frame snapshots abnormal) t w in
    elim (flush_predicate_trigger t') [
      | none ↦ (t', w')
      | some trigger ↦ flush_and_send answer t' w'
    ]

abbrev pop : List CallFrame → Option CallFrame × List CallFrame
pop [] = (none, [])
pop (frame ∷ rest) = (some frame, rest)

unfoldable pub end_with_snapshots_accept :
    ExitSnapshots → Bool → SendResult → Trace → World → Trace × World
unfolding finish_call_record
end_with_snapshots_accept snapshots abnormal answer t w =
    let (popped, rest) = pop t.stack in
    finish_call_record popped snapshots abnormal answer (record t { stack = rest }) w

unfoldable pub end_with_snapshots :
    ExitSnapshots → Bool → SendResult → Trace → World → Trace × World
unfolding end_would_accept end_with_snapshots_accept
end_with_snapshots snapshots abnormal answer t w =
    let (accepted, t') = end_would_accept t in
    if accepted then end_with_snapshots_accept snapshots abnormal answer t' w else (t', w)

-- The loop over the open frames, from the top of the stack.
unfoldable pub drain_frames : ExitSnapshots → List CallFrame → Trace → World → Trace × World
unfolding push_record into_abnormal_call_record
drain_frames exit [] t w = (t, w)
drain_frames exit (frame ∷ rest) t w =
    let r =
      into_abnormal_call_record frame exit.t_out_ns exit.cpu_u_now_ns exit.cpu_s_now_ns
        exit.mem_out_bytes in
    let (t', w') = push_record r (record t { stack = rest }) w in drain_frames exit rest t' w'

unfoldable pub drain_open_frames_into_buffer : ExitSnapshots → Trace → World → Trace × World
unfolding drain_frames
drain_open_frames_into_buffer exit t w = drain_frames exit t.stack t w
