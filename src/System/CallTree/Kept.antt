-- ===== src/System/CallTree/Kept.antt =====
-- A call above the depth limit, the calls that it made and the calls after it.
use php_analyze.Prelude.{
  ℕ, suc, ◌+◌, ◌<◌, ◌≡◌, ap, ◌∙◌, some, Option, Bool, List, map, [], ◌∷◌, ◌++◌, arith, append_assoc,
}
use mathlib.Core.List.{map-append}
use php_analyze.Prelude.Text.{Text}
use php_analyze.Prelude.Words.{u32_mod}
use php_analyze.Recorder.Types.{CallRecord}
use php_analyze.Recorder.Key.{FunctionKey, to_owned}
use php_analyze.Recorder.Dictionary.{Dictionary, probe_ref}
use php_analyze.Recorder.Dictionary.Laws.{IsValid}
use php_analyze.Recorder.Dictionary.Numbers.{key_of, key_of-probe_ref}
use php_analyze.Recorder.CallSite.{LazyCategorised}
use php_analyze.Recorder.Begin.{EntrySnapshots, parent_of}
use php_analyze.Recorder.Trace.{Trace}
use php_analyze.Recorder.Begin.Cases.{frame_of}
use php_analyze.Recorder.End.{ExitSnapshots, finished}
use php_analyze.System.{State}
use php_analyze.System.Stream.{batches}
use php_analyze.System.CallTree.{Calls, call, kept, recorded, record_of, number_of, keys, decoded}
use php_analyze.System.CallTree.Open.{Extends, Opened}
use php_analyze.System.CallTree.Close.{Closed}
use php_analyze.System.CallTree.Step.{run-call}
use php_analyze.System.CallTree.Recorded.{Recorded, emitted, owed}

-- The record of a frame is the record of its call.
finished_lem :
    (lazy : LazyCategorised) (entry : EntrySnapshots) (exit : ExitSnapshots) (abnormal : Bool)
    (d : Dictionary) (id : ℕ) (t : Trace)
    → probe_ref d lazy.key_ref ≡ some id
    → t.virtual_depth + 1 < u32_mod
    → finished (frame_of lazy entry id t) exit abnormal
      ≡ record_of d (suc t.call_id_seq) (parent_of t.stack) t.virtual_depth lazy entry exit abnormal
unfolding finished
finished_lem lazy entry exit abnormal d id t found small = ground arith

splice :
    (xs inner later : List CallRecord) (r : CallRecord)
    → ((xs ++ inner) ++ (r ∷ [])) ++ later ≡ xs ++ (inner ++ (r ∷ later))
splice xs inner later r =
    append_assoc (xs ++ inner) (r ∷ []) later ∙ append_assoc xs inner (r ∷ later)

decoded_splice :
    (d : Dictionary) (xs ys : List CallRecord) (ks ls : List FunctionKey) (r : CallRecord)
    (k : FunctionKey)
    → decoded d xs ≡ map some ks
    → decoded d ys ≡ map some ls
    → key_of d r.fn_id ≡ some k
    → decoded d (xs ++ (r ∷ ys)) ≡ map some (ks ++ (k ∷ ls))
decoded_splice d xs ys ks ls r k e f g = ground (
  arith,
  map-append (λ x. key_of d x.fn_id) xs (r ∷ ys),
  map-append {A = FunctionKey} {B = Option FunctionKey} (λ x. some x) ks (k ∷ ls),
)

module _ (uuid : List ℕ → Text) (url : Text) where
  module _ (lazy : LazyCategorised) (entry : EntrySnapshots) (exit : ExitSnapshots)
      (abnormal : Bool) (inside after : Calls) (s s2 s' : State)
      (o : Opened lazy entry s.trace s.world)
      (r : Recorded uuid url inside
        (record s { trace = o.trace; world = o.world; begun = s.begun + 1 })
        s2)
      (c : Closed exit abnormal s2.delivered
        (frame_of lazy entry o.fn_id s.trace)
        s.trace.stack
        s2.trace
        s2.world)
      (q : Recorded uuid url after (record s2 { trace = c.trace; world = c.world }) s')
      (above : s.trace.virtual_depth < s.trace.max_depth)
      (small : s.trace.virtual_depth + 1 < u32_mod) where
    owed_inside :
        (d : Dictionary)
        → owed d inside (record s { trace = o.trace; world = o.world; begun = s.begun + 1 })
          ≡ recorded d s.trace.max_depth
              (suc s.trace.call_id_seq)
              (suc s.trace.virtual_depth)
              (suc s.trace.call_id_seq)
              inside
    owed_inside d =
        ground (arith, o.limit_is, o.stack_is, o.depth_is, o.seq_is, ap parent_of o.stack_is)

    owed_after :
        (d : Dictionary)
        → owed d after (record s2 { trace = c.trace; world = c.world })
          ≡ recorded d s.trace.max_depth
              (parent_of s.trace.stack)
              s.trace.virtual_depth
              (suc s.trace.call_id_seq + kept s.trace.max_depth (suc s.trace.virtual_depth) inside)
              after
    owed_after d = ground (
      arith,
      o.limit_is,
      r.limit_is,
      c.limit_is,
      o.seq_is,
      r.seq_is,
      c.seq_is,
      o.depth_is,
      r.depth_is,
      c.depth_is,
      c.stack_is,
      ap parent_of c.stack_is,
    )

    emitted_inside :
        emitted (record s { trace = o.trace; world = o.world; begun = s.begun + 1 }) ≡ emitted s
    emitted_inside = ground (arith, o.buffer_is, ap batches o.queue_is)

    numbered :
        (d : Dictionary) → Extends s'.trace.dictionary d → probe_ref d lazy.key_ref ≡ some o.fn_id
    numbered d h =
        let k = lazy.key_ref in
        h k o.fn_id (q.extends k o.fn_id (c.extends k o.fn_id (r.extends k o.fn_id o.numbered)))

    emits_kept :
        (d : Dictionary)
        → Extends s'.trace.dictionary d
        → emitted s' ≡ emitted s ++ owed d (call lazy entry exit abnormal inside after) s
    unfolding recorded
    emits_kept d h = ground (
      arith,
      q.emits d h,
      c.emits,
      r.emits d (λ k id e. h k id (q.extends k id (c.extends k id e))),
      owed_inside d,
      owed_after d,
      emitted_inside,
      finished_lem lazy entry exit abnormal d o.fn_id s.trace (numbered d h) small,
      splice (emitted s)
          (recorded d s.trace.max_depth (suc s.trace.call_id_seq) (suc s.trace.virtual_depth)
            (suc s.trace.call_id_seq) inside)
          (owed d after (record s2 { trace = c.trace; world = c.world }))
          (finished (frame_of lazy entry o.fn_id s.trace) exit abnormal),
    )

    key_of-number_of :
        (d : Dictionary)
        → Extends s'.trace.dictionary d
        → IsValid d
        → key_of d (number_of d lazy) ≡ some (to_owned lazy.key_ref)
    key_of-number_of d h v =
        ground
          (arith, numbered d h, key_of-probe_ref d lazy.key_ref {id = o.fn_id} v (numbered d h))

    decodes_kept :
        (d : Dictionary)
        → Extends s'.trace.dictionary d
        → IsValid d
        → decoded d (owed d (call lazy entry exit abnormal inside after) s)
          ≡ map some (
              keys s.trace.max_depth s.trace.virtual_depth
                (call lazy entry exit abnormal inside after))
    unfolding recorded
    decodes_kept d h v =
        let within = r.decodes d (λ k id e. h k id (q.extends k id (c.extends k id e))) v in
        let behind = q.decodes d h v in
        ground (
          arith,
          decoded_splice d
              (owed d inside (record s { trace = o.trace; world = o.world; begun = s.begun + 1 }))
              (owed d after (record s2 { trace = c.trace; world = c.world }))
              (keys o.trace.max_depth o.trace.virtual_depth inside)
              (keys c.trace.max_depth c.trace.virtual_depth after)
              (record_of d (suc s.trace.call_id_seq) (parent_of s.trace.stack) s.trace.virtual_depth
                lazy entry exit abnormal)
              (to_owned lazy.key_ref) within behind (key_of-number_of d h v),
          owed_inside d,
          owed_after d,
          o.limit_is,
          r.limit_is,
          c.limit_is,
          o.depth_is,
          r.depth_is,
          c.depth_is,
        )

    pub Recorded-kept : Recorded uuid url (call lazy entry exit abnormal inside after) s s'
    Recorded-kept = record {
      runs =
          run-call uuid url lazy entry exit abnormal inside after s o.began r.runs c.ended q.runs;
      emits = emits_kept;
      decodes = decodes_kept;
      extends = λ k id h. q.extends k id (c.extends k id (r.extends k id (o.extends k id h)));
      few = omega (arith, o.few, r.few, c.few, q.few);
      stack_is = q.stack_is ∙ c.stack_is;
      depth_is = omega (arith, o.depth_is, r.depth_is, c.depth_is, q.depth_is);
      dropped_is = q.dropped_is ∙ c.dropped_is ∙ r.dropped_is ∙ o.dropped_is;
      seq_is = ground (
        arith, o.seq_is, r.seq_is, c.seq_is, q.seq_is, o.depth_is, r.depth_is, c.depth_is,
        o.limit_is, r.limit_is, c.limit_is,
      );
      limit_is = q.limit_is ∙ c.limit_is ∙ r.limit_is ∙ o.limit_is;
      cap_is = q.cap_is ∙ c.cap_is ∙ r.cap_is ∙ o.cap_is;
      sender_is = q.sender_is ∙ c.sender_is ∙ r.sender_is ∙ o.sender_is;
      delivered_is = q.delivered_is ∙ r.delivered_is;
      budget = omega (arith, o.budget, r.budget, c.budget, q.budget);
    }
