-- ===== src/System/Handover.antt =====
-- What the request hands over: the dictionaries of its batches define the numbers of its records.
use php_analyze.Prelude.{
  ℕ, ◌≡◌, refl, sym, ap, ◌∙◌, true, some, none, List, [], ◌∷◌, All, inl, inr, is_empty, Bool-cases,
  >>=-eq-some, some_eq,
}
use mathlib.Core.Path.{subst}
use php_analyze.Prelude.Int.{ℤ}
use php_analyze.Prelude.Text.{Text}
use php_analyze.World.{World, add, sub, new_counter}
use php_analyze.Recorder.Key.{HashWrite}
use php_analyze.Recorder.Types.{
  CallFrame, PendingBatch, RequestIdentity, TraceLimits, into_abnormal_call_record,
}
use php_analyze.Recorder.Dictionary as Interner
use php_analyze.Recorder.Trace.{Trace, push_record}
use php_analyze.Recorder.Trace as Traces
use php_analyze.Recorder.End.{
  ExitSnapshots, drain_frames, drain_open_frames_into_buffer, flush_and_send,
}
use php_analyze.Recorder.Flush as Flush
use php_analyze.Recorder.Flush.{SendResult}
use php_analyze.Recorder.Request.{Process, final_flush, rshutdown_release_trace}
use php_analyze.System.{State, Event, run}
use php_analyze.System.Stream.{Delivers, batches, stream}
use php_analyze.System.Covers.{
  Covered, Covered-append, record_ids, frame_ids, record_ids-append, AreDefined,
}
use php_analyze.System.Defined.{IsDefined, known_ids, flush-IsDefined, run-IsDefined}
use php_analyze.System.Shutdown.{closed}
use php_analyze.System.Request.{start, process_of, resume, serve, rinit_allocate_trace-idle}

drain_frames-IsDefined :
    (exit : ExitSnapshots) (delivered : List PendingBatch) (frames : List CallFrame) (t : Trace)
    (w : World)
    → t.stack ≡ frames
    → IsDefined t w delivered
    → IsDefined (drain_frames exit frames t w).0 (drain_frames exit frames t w).1 delivered
unfolding drain_frames push_record into_abnormal_call_record add
drain_frames-IsDefined exit delivered [] t w e p = p
drain_frames-IsDefined exit delivered (frame ∷ rest) t w e p =
    let ids = known_ids t w delivered in
    let frames : Covered (frame_ids (frame ∷ rest)) ids =
      subst (λ fs. Covered (frame_ids fs) ids) e p.3 in
    drain_frames-IsDefined exit delivered rest _ _ refl (
      p.0,
      p.1,
      p.2,
      frames.1,
      subst (λ ns. Covered ns ids) (sym (record_ids-append t.buffer (closed exit frame ∷ [])))
          (Covered-append (record_ids t.buffer) (frame.fn_id ∷ []) ids p.4 (frames.0, tt)),
    )

final_flush-AreDefined :
    (delivered : List PendingBatch) (t : Trace) (w : World)
    → IsDefined t w delivered
    → AreDefined [] (stream delivered (final_flush Flush.sent t w).1)
unfolding final_flush flush_and_send
final_flush-AreDefined delivered t w p = elim (Bool-cases (is_empty t.buffer)) [
  | inl none_left ↦ rw none_left p.1
  | inr some_left ↦ rw some_left (flush-IsDefined t w delivered p).1
]

-- The end of a request hands over no record whose function number is not defined.
pub rshutdown_release_trace-AreDefined :
    (exit : ExitSnapshots) (delivered : List PendingBatch) (t : Trace) (w : World)
    → IsDefined t w delivered
    → AreDefined [] (
        stream delivered
          (rshutdown_release_trace exit Flush.sent
            (record { current_trace = some t; world = w })).world)
unfolding rshutdown_release_trace drain_open_frames_into_buffer sub
rshutdown_release_trace-AreDefined exit delivered t w p =
    final_flush-AreDefined delivered _ _ (drain_frames-IsDefined exit delivered t.stack t w refl p)

module _ (uuid : List ℕ → Text) (url : Text) where
  serve_cases :
      (hash_one : List HashWrite → ℕ) (now : ℤ) (identity : RequestIdentity) (limits : TraceLimits)
      (es : List Event) (exit : ExitSnapshots) (answer : SendResult) (delivered : List PendingBatch)
      (p : Process) {out : Process × List PendingBatch}
      → p.current_trace ≡ none
      → serve uuid url hash_one now identity limits es exit answer delivered p ≡ some out
      → (s : State) × (run uuid url es (start hash_one now identity limits delivered p.world)
          ≡ some s)
        × (some (rshutdown_release_trace exit answer (process_of s), s.delivered) ≡ some out)
  unfolding serve resume
  serve_cases hash_one now identity limits es exit answer delivered p idle e =
      >>=-eq-some (run uuid url es (start hash_one now identity limits delivered p.world)) _ (
        sym (
          ap (resume uuid url es exit answer delivered)
            (rinit_allocate_trace-idle hash_one now identity limits p idle))
        ∙ e)

  -- A whole request of any schedule in which the channel and the server accept every batch, in a
  -- process without a trace and with an installed and empty channel, which leaves calls open perhaps:
  -- in the batches that the request has delivered and left in the channel, in order, the function
  -- number of every record is defined by the dictionary of the batch of the record or of one before
  -- it.
  pub serve-AreDefined :
      (hash_one : List HashWrite → ℕ) (now : ℤ) (identity : RequestIdentity) (limits : TraceLimits)
      (es : List Event) (exit : ExitSnapshots) (p : Process) {after : Process}
      {delivered : List PendingBatch}
      → All Delivers es
      → p.current_trace ≡ none
      → p.world.sender_slot ≡ true
      → p.world.queue ≡ []
      → serve uuid url hash_one now identity limits es exit Flush.sent [] p
        ≡ some (after, delivered)
      → AreDefined [] (stream delivered after.world)
  unfolding Traces.new Interner.new new_counter batches
  serve-AreDefined hash_one now identity limits es exit p accept idle sender empty e =
      let (s, ran, left) =
        serve_cases hash_one now identity limits es exit Flush.sent [] p idle e in
      let fresh : IsDefined (start hash_one now identity limits [] p.world).trace
          (start hash_one now identity limits [] p.world).world [] =
        (sender, subst (λ q. AreDefined [] (batches q)) (sym empty) tt, tt, tt, tt) in
      subst (λ o. AreDefined [] (stream o.1 o.0.world)) (some_eq left)
        (rshutdown_release_trace-AreDefined exit s.delivered s.trace s.world
          (run-IsDefined uuid url es _ s accept ran fresh))
