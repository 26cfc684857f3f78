-- ===== src/System/Shutdown.antt =====
-- The end of a request: open frames become abnormal records, the last batch is sent, and the budget
-- gets back what the trace was billed.
use php_analyze.Prelude.{
  ◌%◌, ◌≡◌, refl, sym, ◌∙◌, inl, inr, none, some, List, [], ◌∷◌, ◌++◌, map, arith, append-nil,
  append_assoc, is_empty, Bool-cases, ap, true,
}
use php_analyze.Prelude.Int.{pos, max_ℤ, saturating_sub}
use php_analyze.Prelude.Words.{u64_mod}
use php_analyze.World.{World, add, sub}
use php_analyze.Recorder.Types.{PendingBatch}
use php_analyze.Recorder.Types.{CallFrame, CallRecord, into_abnormal_call_record}
use php_analyze.Recorder.Trace.{Trace, push_record}
use php_analyze.Recorder.End.{
  ExitSnapshots, drain_frames, flush_and_send, drain_open_frames_into_buffer,
}
use php_analyze.Recorder.Flush as Flush
use php_analyze.Recorder.Flush.{SendResult}
use php_analyze.Recorder.Request.{Process, final_flush, rshutdown_release_trace}
use php_analyze.System.Stream.{batches, stream}
use php_analyze.System.Tree.{records}
use php_analyze.System.Parents.{emissions, flush-emissions}
use php_analyze.System.Ledger.{IsBalanced, queued_bytes, flush-IsBalanced}

module _ (exit : ExitSnapshots) where
  -- The record that a request owes for a call that is still open at its end: the frame's numbers and
  -- readings, the readings at the end, the CPU times at least 0, and the mark of an abnormal exit.
  abbrev pub closed : CallFrame → CallRecord
  closed frame = record {
    call_id = frame.call_id;
    parent = frame.parent;
    fn_id = frame.fn_id;
    depth = frame.depth;
    t_in_ns = frame.t_in_ns;
    t_out_ns = exit.t_out_ns;
    cpu_u_ns = max_ℤ (saturating_sub exit.cpu_u_now_ns frame.cpu_u_in_ns) (pos 0);
    cpu_s_ns = max_ℤ (saturating_sub exit.cpu_s_now_ns frame.cpu_s_in_ns) (pos 0);
    mem_in_bytes = frame.mem_in_bytes;
    mem_out_bytes = exit.mem_out_bytes;
    abnormal_exit = true;
  }

  drain_frames-stack :
      (frames : List CallFrame) (t : Trace) (w : World)
      → t.stack ≡ frames
      → (drain_frames exit frames t w).0.stack ≡ []
  unfolding drain_frames push_record into_abnormal_call_record
  drain_frames-stack [] t w h = h
  drain_frames-stack (frame ∷ rest) t w h = drain_frames-stack rest _ _ refl

  drain_frames-buffer :
      (frames : List CallFrame) (t : Trace) (w : World)
      → (drain_frames exit frames t w).0.buffer ≡ t.buffer ++ map closed frames
  unfolding drain_frames push_record into_abnormal_call_record
  drain_frames-buffer [] t w = sym (append-nil t.buffer)
  drain_frames-buffer (frame ∷ rest) t w =
      drain_frames-buffer rest _ _ ∙ append_assoc t.buffer (closed frame ∷ []) (map closed rest)

  drain_frames-IsBalanced :
      (frames : List CallFrame) (t : Trace) (w : World)
      → IsBalanced t w
      → IsBalanced (drain_frames exit frames t w).0 (drain_frames exit frames t w).1
  unfolding drain_frames push_record into_abnormal_call_record add
  drain_frames-IsBalanced [] t w p = p
  drain_frames-IsBalanced (frame ∷ rest) t w p = drain_frames-IsBalanced rest _ _ (ground arith)

  -- The drain of the open frames leaves none, and puts after the records of the buffer one abnormal
  -- record for every open frame, from the innermost to the outermost.
  pub drain_open_frames_into_buffer-buffer :
      (t : Trace) (w : World)
      → ((drain_open_frames_into_buffer exit t w).0.stack ≡ [])
        × ((drain_open_frames_into_buffer exit t w).0.buffer ≡ t.buffer ++ map closed t.stack)
  unfolding drain_open_frames_into_buffer
  drain_open_frames_into_buffer-buffer t w =
      (drain_frames-stack t.stack t w refl, drain_frames-buffer t.stack t w)

  drain-IsBalanced :
      (t : Trace) (w : World)
      → IsBalanced t w
      → IsBalanced
          (drain_open_frames_into_buffer exit t w).0
          (drain_open_frames_into_buffer exit t w).1
  unfolding drain_open_frames_into_buffer
  drain-IsBalanced t w p = drain_frames-IsBalanced t.stack t w p

  final_flush-IsBalanced :
      (answer : SendResult) (t : Trace) (w : World)
      → IsBalanced t w
      → IsBalanced (final_flush answer t w).0 (final_flush answer t w).1
  unfolding final_flush
  final_flush-IsBalanced answer t w p = elim (Bool-cases (is_empty t.buffer)) [
    | inl none_left ↦ ground arith
    | inr some_left ↦ ground (arith, flush-IsBalanced answer t w p)
  ]

  -- A request that ends with its budget in balance gives back everything that the trace was billed:
  -- whatever the channel answers, the trace is gone and the process-wide budget is, modulo 2 ^ 64,
  -- what the batches in the channel are billed for.
  pub rshutdown_release_trace-bytes :
      (answer : SendResult) (p : Process) {t : Trace}
      → p.current_trace ≡ some t
      → IsBalanced t p.world
      → ((rshutdown_release_trace exit answer p).current_trace ≡ none)
        × ((rshutdown_release_trace exit answer p).world.bytes_in_memory
            ≡ queued_bytes (rshutdown_release_trace exit answer p).world.queue % u64_mod)
  unfolding rshutdown_release_trace sub
  rshutdown_release_trace-bytes answer p {t} e balanced =
      let r = drain_open_frames_into_buffer exit t p.world in
      let drained : IsBalanced r.0 r.1 = drain-IsBalanced t p.world balanced in
      ground (arith, final_flush-IsBalanced answer r.0 r.1 drained)

drain_frames-channel :
    (exit : ExitSnapshots) (frames : List CallFrame) (t : Trace) (w : World)
    → ((drain_frames exit frames t w).1.queue ≡ w.queue)
      × ((drain_frames exit frames t w).1.sender_slot ≡ w.sender_slot)
unfolding drain_frames push_record into_abnormal_call_record add
drain_frames-channel exit [] t w = (refl, refl)
drain_frames-channel exit (frame ∷ rest) t w = drain_frames-channel exit rest _ _

empty_is : (xs : List CallRecord) → is_empty xs ≡ true → xs ≡ []
empty_is [] h = refl
empty_is (x ∷ xs) h = cc

final_flush-records :
    (delivered : List PendingBatch) (t : Trace) (w : World)
    → w.sender_slot ≡ true
    → records (stream delivered (final_flush Flush.sent t w).1) ≡ emissions t w delivered
unfolding final_flush flush_and_send
final_flush-records delivered t w sender = elim (Bool-cases (is_empty t.buffer)) [
  | inl none_left ↦ rw none_left (
      sym (append-nil (records (stream delivered w)))
      ∙ ap (λ b. records (stream delivered w) ++ b) (sym (empty_is t.buffer none_left)))
  | inr some_left ↦ rw some_left (sym (append-nil _) ∙ flush-emissions t w delivered sender)
]

-- The end of a request, with a channel that accepts: the trace is gone, and the stream of batches
-- holds, in order, the records that it held, those of the buffer, and an abnormal record for every
-- open frame, with the numbers and readings of the frame, from the innermost to the outermost.
pub rshutdown_release_trace-records :
    (exit : ExitSnapshots) (delivered : List PendingBatch) (t : Trace) (w : World)
    → w.sender_slot ≡ true
    → ((rshutdown_release_trace exit Flush.sent
          (record { current_trace = some t; world = w })).current_trace
        ≡ none)
      × (records (
            stream delivered
              (rshutdown_release_trace exit Flush.sent
                (record { current_trace = some t; world = w })).world)
          ≡ emissions t w delivered ++ map (closed exit) t.stack)
unfolding rshutdown_release_trace drain_open_frames_into_buffer sub
rshutdown_release_trace-records exit delivered t w sender =
    let r = drain_frames exit t.stack t w in
    let (same, kept) = drain_frames-channel exit t.stack t w in
    (
      refl,
      final_flush-records delivered r.0 r.1 (kept ∙ sender)
          ∙ ap (λ q. records (delivered ++ batches q) ++ r.0.buffer) same
          ∙ ap (λ b. records (stream delivered w) ++ b) (drain_frames-buffer exit t.stack t w)
          ∙ sym (append_assoc (records (stream delivered w)) t.buffer (map (closed exit) t.stack)),
    )
