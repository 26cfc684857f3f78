-- ===== src/Recorder/Request.antt =====
-- The request window of recorder/observer.rs: the thread-local slot, the two handlers, `RINIT` and
-- `RSHUTDOWN`.
use php_analyze.Prelude.{ℕ, Bool, Option, none, some, List, is_empty, if◌then◌else◌, ◌>>=◌}
use php_analyze.Prelude.Int.{ℤ}
use php_analyze.World.{World, sub}
use php_analyze.Recorder.Key.{HashWrite}
use php_analyze.Recorder.Types.{RequestIdentity, TraceLimits}
use php_analyze.Recorder.Trace.{
  Trace, next_call_id, push_record, push_dict_entry_via_intern_ref, record_drop,
  flush_into_pending_batch,
}
use php_analyze.Recorder.Trace as Traces
use php_analyze.Recorder.Flush.{SendResult}
use php_analyze.Recorder.CallSite.{RawCallSite, categorise_lazy}
use php_analyze.Recorder.Begin.{EntrySnapshots, begin_with_snapshots_lazy}
use php_analyze.Recorder.End.{
  ExitSnapshots, end_with_snapshots, drain_open_frames_into_buffer, flush_and_send,
}

-- A process has one request thread: its slot, and the process-wide state.
pub record Process : Type 0 where
  pub current_trace : Option Trace
  pub world : World

unfoldable pub with_current_trace :
    (Trace → World → Option (Trace × World)) → Process → Option Process
with_current_trace f p = elim p.current_trace [
  | none ↦ some p
  | some t ↦ do (t', w') ← f t p.world; some (record { current_trace = some t'; world = w' })
]

-- `Recorder::begin_handler`, on what `extract_call_site` reads.
unfoldable pub begin_handler : RawCallSite → EntrySnapshots → Process → Option Process
unfolding with_current_trace categorise_lazy begin_with_snapshots_lazy
begin_handler info snapshots =
    with_current_trace (begin_with_snapshots_lazy (categorise_lazy info) snapshots)

unfoldable pub end_handler : ExitSnapshots → Bool → SendResult → Process → Option Process
unfolding with_current_trace end_with_snapshots
end_handler snapshots abnormal answer =
    with_current_trace (λ t w. some (end_with_snapshots snapshots abnormal answer t w))

-- The release build: a stale trace gives its bytes back first.
unfoldable pub rinit_allocate_trace :
    (List HashWrite → ℕ) → ℤ → RequestIdentity → TraceLimits → Process → Process
unfolding Traces.new sub
rinit_allocate_trace hash_one now identity limits p =
    let w : World = elim p.current_trace [
      | none ↦ p.world
      | some stale ↦ sub stale.buffer_estimated_bytes p.world
    ] in
    let (t, w') = Traces.new hash_one now identity limits w in
    record { current_trace = some t; world = w' }

-- The final flush of a trace whose frames are drained: an empty buffer is not sent.
unfoldable pub final_flush : SendResult → Trace → World → Trace × World
unfolding flush_and_send
final_flush answer t w = if is_empty t.buffer then (t, w) else flush_and_send answer t w

unfoldable pub rshutdown_release_trace : ExitSnapshots → SendResult → Process → Process
unfolding drain_open_frames_into_buffer final_flush sub
rshutdown_release_trace exit answer p = elim p.current_trace [
  | none ↦ p
  | some t ↦
      let (t1, w1) = drain_open_frames_into_buffer exit t p.world in
      let (t2, w2) = final_flush answer t1 w1 in
      record { current_trace = none; world = sub t2.buffer_estimated_bytes w2 }
]
