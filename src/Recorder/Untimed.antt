-- ===== src/Recorder/Untimed.antt =====
-- Without CPU readings: what the handlers keep when every snapshot has zero in its CPU fields.
use php_analyze.Prelude.{
  Bool, Option, none, some, List, [], ◌∷◌, ◌++◌, ◌≡◌, refl, sym, arith, All, All-append, length,
  Bool-cases, inl, inr, is_empty,
}
use mathlib.Core.Path.{subst}
use php_analyze.Prelude.Int.{pos, saturating_sub}
use php_analyze.World.{World, sub, add, fetch_add}
use php_analyze.Recorder.Types.{
  CallFrame, CallRecord, call_record_fixed_bytes, PendingBatch, ShipperMessage, batch, drain,
  into_abnormal_call_record,
}
use php_analyze.Recorder.Trace.{Trace, push_record, flush_into_pending_batch}
use php_analyze.Recorder.Flush.{SendResult, sent, full, disconnected, try_send_batch}
use php_analyze.Recorder.CallSite.{LazyCategorised}
use php_analyze.Recorder.Begin.{EntrySnapshots, begin_with_snapshots_lazy}
use php_analyze.Recorder.Begin.Cases.{Begun, dropped, known, fresh, begin_cases}
use php_analyze.Recorder.End.{
  ExitSnapshots, finished, flush_and_send, drain_frames, drain_open_frames_into_buffer,
  end_with_snapshots,
}
use php_analyze.Recorder.End.Cases.{
  Ended, after_emit, skipped, unpaired, emitted, flushed, end_cases,
}
use php_analyze.Recorder.Request.{Process, final_flush, rshutdown_release_trace}

abbrev pub IsUntimedFrame : CallFrame → Type 0
IsUntimedFrame f = (f.cpu_u_in_ns ≡ pos 0) × (f.cpu_s_in_ns ≡ pos 0)

abbrev pub IsUntimedRecord : CallRecord → Type 0
IsUntimedRecord r = (r.cpu_u_ns ≡ pos 0) × (r.cpu_s_ns ≡ pos 0)

abbrev pub IsUntimedMessage : ShipperMessage → Type 0
IsUntimedMessage (batch b) = All IsUntimedRecord b.calls
IsUntimedMessage (drain deadline) = Unit

abbrev pub IsUntimedEntry : EntrySnapshots → Type 0
IsUntimedEntry s = (s.cpu_u_in_ns ≡ pos 0) × (s.cpu_s_in_ns ≡ pos 0)

abbrev pub IsUntimedExit : ExitSnapshots → Type 0
IsUntimedExit s = (s.cpu_u_now_ns ≡ pos 0) × (s.cpu_s_now_ns ≡ pos 0)

abbrev pub IsUntimedTrace : Trace → Type 0
IsUntimedTrace t = All IsUntimedFrame t.stack × All IsUntimedRecord t.buffer

abbrev pub IsUntimedQueue : World → Type 0
IsUntimedQueue w = All IsUntimedMessage w.queue

-- A trace and what has gone into the channel.
abbrev pub Both : Trace × World → Type 0
Both (t, w) = IsUntimedTrace t × IsUntimedQueue w

finished-IsUntimedRecord :
    (frame : CallFrame) (x : ExitSnapshots) (abnormal : Bool)
    → IsUntimedFrame frame
    → IsUntimedExit x
    → IsUntimedRecord (finished frame x abnormal)
unfolding finished saturating_sub
finished-IsUntimedRecord frame x abnormal (fu, fs) (xu, xs) = rw (fu, fs, xu, xs) (refl, refl)

begun :
    {lazy : LazyCategorised} {s : EntrySnapshots} {t t' : Trace} {w w' : World}
    → IsUntimedEntry s
    → Begun lazy s t w t' w'
    → Both (t, w)
    → Both (t', w')
unfolding fetch_add add
begun zero (dropped _ et ew) (timed, queued) = ground arith
begun zero (known _ _ _ _ _ et ew) (timed, queued) = ground arith
begun zero (fresh _ _ _ _ _ et ew) (timed, queued) = ground arith

by_answer :
    (answer : SendResult) (b : PendingBatch) (w : World)
    → All IsUntimedRecord b.calls
    → IsUntimedQueue w
    → IsUntimedQueue (elim answer as (λ a. World) [
      | sent ↦ record w { queue = w.queue ++ (batch b ∷ []) }
      | full ↦ fetch_add b.drop_counter (length b.calls) (sub b.size_estimate w)
      | disconnected ↦ sub b.size_estimate w
    ])
unfolding sub fetch_add
by_answer sent b w calls queued =
    All-append IsUntimedMessage w.queue (batch b ∷ []) queued (calls, tt)
by_answer full b w calls queued = queued
by_answer disconnected b w calls queued = queued

sent_on :
    (answer : SendResult) (b : PendingBatch) (w : World)
    → All IsUntimedRecord b.calls
    → IsUntimedQueue w
    → IsUntimedQueue (try_send_batch answer b w)
unfolding try_send_batch sub fetch_add
sent_on answer b w calls queued = elim (Bool-cases w.sender_slot) [
  | inl opened ↦ rw (try_send_batch, opened) (by_answer answer b w calls queued)
  | inr shut ↦ rw (try_send_batch, shut) queued
]

flush_and_send-Both :
    (answer : SendResult) (t : Trace) (w : World) → Both (t, w) → Both (flush_and_send answer t w)
unfolding flush_and_send flush_into_pending_batch
flush_and_send-Both answer t w ((frames, records), queued) =
    ((frames, tt), sent_on answer _ w records queued)

-- A record that is pushed.
push_record-Both :
    (r : CallRecord) (t : Trace) (w : World)
    → IsUntimedRecord r
    → Both (t, w)
    → Both (push_record r t w)
unfolding push_record add
push_record-Both r t w zero ((frames, records), queued) =
    ((frames, All-append IsUntimedRecord t.buffer (r ∷ []) records (zero, tt)), queued)

emit-Both :
    (x : ExitSnapshots) (a : Bool) (r : SendResult) (frame : CallFrame) (rest : List CallFrame)
    (t : Trace) (w : World)
    → IsUntimedExit x
    → t.stack ≡ frame ∷ rest
    → Both (t, w)
    → Both (after_emit x a r frame rest t, add call_record_fixed_bytes w)
unfolding add
emit-Both x a r frame rest t w zero top ((frames, records), queued) =
    let (first, more) : All IsUntimedFrame (frame ∷ rest) = subst (All IsUntimedFrame) top frames in
    (
      (
        more,
        All-append IsUntimedRecord t.buffer (finished frame x a ∷ []) records
            (finished-IsUntimedRecord frame x a first zero, tt),
      ),
      queued,
    )

ended :
    {x : ExitSnapshots} {a : Bool} {r : SendResult} {t t' : Trace} {w w' : World}
    → IsUntimedExit x
    → Ended x a r t w t' w'
    → Both (t, w)
    → Both (t', w')
unfolding fetch_add add
ended zero (skipped _ et ew) p = ground arith
ended zero (unpaired _ _ et ew) p = ground arith
ended {x} {a} {r} {t} {t'} {w} {w'} zero (emitted frame rest _ top _ et ew) p =
    subst Both (λ i. (sym et i, sym ew i)) (emit-Both x a r frame rest t w zero top p)
ended {x} {a} {r} {t} {t'} {w} {w'} zero (flushed frame rest _ top _ e) p =
    subst Both (sym e) (flush_and_send-Both r _ _ (emit-Both x a r frame rest t w zero top p))

abnormal-IsUntimedRecord :
    (frame : CallFrame) (x : ExitSnapshots)
    → IsUntimedFrame frame
    → IsUntimedExit x
    → IsUntimedRecord
        (into_abnormal_call_record frame x.t_out_ns x.cpu_u_now_ns x.cpu_s_now_ns x.mem_out_bytes)
unfolding into_abnormal_call_record saturating_sub
abnormal-IsUntimedRecord frame x (fu, fs) (xu, xs) = rw (fu, fs, xu, xs) (refl, refl)

drain_frames-Both :
    (x : ExitSnapshots) (frames : List CallFrame) (t : Trace) (w : World)
    → IsUntimedExit x
    → All IsUntimedFrame frames
    → Both (record t { stack = [] }, w)
    → Both (record (drain_frames x frames t w).0 { stack = [] }, (drain_frames x frames t w).1)
unfolding drain_frames push_record
drain_frames-Both x [] t w zero fs p = p
drain_frames-Both x (frame ∷ rest) t w zero ((fu, fs), more) p =
    drain_frames-Both x rest _ _ zero more (
      push_record-Both
        (into_abnormal_call_record frame x.t_out_ns x.cpu_u_now_ns x.cpu_s_now_ns x.mem_out_bytes)
        (record t { stack = [] }) w (abnormal-IsUntimedRecord frame x (fu, fs) zero) p)

pub begin_with_snapshots_lazy-Both :
    (lazy : LazyCategorised) (s : EntrySnapshots) (t t' : Trace) (w w' : World)
    → IsUntimedEntry s
    → begin_with_snapshots_lazy lazy s t w ≡ some (t', w')
    → Both (t, w)
    → Both (t', w')
begin_with_snapshots_lazy-Both lazy s t t' w w' zero e p = begun zero (begin_cases lazy s t w e) p

pub end_with_snapshots-Both :
    (x : ExitSnapshots) (a : Bool) (r : SendResult) (t : Trace) (w : World)
    → IsUntimedExit x
    → Both (t, w)
    → Both (end_with_snapshots x a r t w)
end_with_snapshots-Both x a r t w zero p = ended zero (end_cases x a r t w) p

abbrev pub IsUntimedProcess : Process → Type 0
IsUntimedProcess p =
    (elim p.current_trace [ none ↦ Unit | some t ↦ IsUntimedTrace t ]) × IsUntimedQueue p.world

final_flush-IsUntimedQueue :
    (r : SendResult) (t : Trace) (w : World)
    → All IsUntimedRecord t.buffer
    → IsUntimedQueue w
    → IsUntimedQueue (final_flush r t w).1
unfolding final_flush flush_and_send flush_into_pending_batch
final_flush-IsUntimedQueue r t w records queued = elim (Bool-cases (is_empty t.buffer)) [
  | inl nothing ↦ rw (final_flush, nothing) queued
  | inr some_left ↦ rw (final_flush, some_left) (sent_on r _ w records queued)
]

pub rshutdown_release_trace-IsUntimedProcess :
    (x : ExitSnapshots) (r : SendResult) (current : Option Trace) (w : World)
    → IsUntimedExit x
    → IsUntimedProcess (record { current_trace = current; world = w })
    → IsUntimedProcess (rshutdown_release_trace x r (record { current_trace = current; world = w }))
unfolding rshutdown_release_trace drain_open_frames_into_buffer sub
rshutdown_release_trace-IsUntimedProcess x r none w zero p = p
rshutdown_release_trace-IsUntimedProcess x r (some t) w zero ((frames, records), queued) =
    let drained = drain_open_frames_into_buffer x t w in
    let ((_, kept), sent_before) =
      drain_frames-Both x t.stack t w zero frames ((tt, records), queued) in
    (tt, final_flush-IsUntimedQueue r drained.0 drained.1 kept sent_before)
