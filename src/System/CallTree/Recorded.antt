-- ===== src/System/CallTree/Recorded.antt =====
-- What the events of a tree of calls make of a state, and how calls follow one another.
use php_analyze.Prelude.{
  ℕ, ◌+◌, ◌≤◌, ◌≡◌, refl, sym, ap, ◌∙◌, some, Bool, List, map, [], ◌∷◌, ◌++◌, arith, append_assoc,
  append-nil,
}
use mathlib.Core.Path.{subst}
use php_analyze.Prelude.Text.{Text}
use php_analyze.Recorder.Types.{CallRecord}
use php_analyze.Recorder.Dictionary.{Dictionary}
use php_analyze.Recorder.Dictionary.Laws.{IsValid}
use php_analyze.Recorder.CallSite.{LazyCategorised}
use php_analyze.Recorder.Begin.{EntrySnapshots, parent_of}
use php_analyze.Recorder.End.{ExitSnapshots}
use php_analyze.Recorder.Flush as Flush
use php_analyze.System.{State, begins, ends, run}
use php_analyze.System.Parents.{emissions}
use php_analyze.System.CallTree.{
  Calls, done, call, events, size, cost, kept, recorded, keys, decoded,
}
use php_analyze.System.CallTree.Open.{Extends}
use php_analyze.System.CallTree.Pruned.{IsPruned}
use php_analyze.System.CallTree.Step.{run-append}

abbrev pub emitted : State → List CallRecord
emitted s = emissions s.trace s.world s.delivered

-- The records that a tree of calls owes in a state.
abbrev pub owed : Dictionary → Calls → State → List CallRecord
owed d f s =
    recorded d s.trace.max_depth (parent_of s.trace.stack) s.trace.virtual_depth s.trace.call_id_seq
      f

module _ (uuid : List ℕ → Text) (url : Text) where
  -- The events of a tree of calls lead from a state to another.
  pub record Recorded (f : Calls) (s s' : State) : Type 0 where
    pub runs : run uuid url (events f) s ≡ some s'
    pub emits :
        (d : Dictionary) → Extends s'.trace.dictionary d → emitted s' ≡ emitted s ++ owed d f s
    pub decodes :
        (d : Dictionary)
        → Extends s'.trace.dictionary d
        → IsValid d
        → decoded d (owed d f s) ≡ map some (keys s.trace.max_depth s.trace.virtual_depth f)
    pub extends : Extends s.trace.dictionary s'.trace.dictionary
    pub few : s'.trace.dictionary.next_fn_id ≤ s.trace.dictionary.next_fn_id + size f
    pub stack_is : s'.trace.stack ≡ s.trace.stack
    pub depth_is : s'.trace.virtual_depth ≡ s.trace.virtual_depth
    pub dropped_is : s'.trace.dropped_begins ≡ s.trace.dropped_begins
    pub seq_is :
        s'.trace.call_id_seq ≡ s.trace.call_id_seq + kept s.trace.max_depth s.trace.virtual_depth f
    pub limit_is : s'.trace.max_depth ≡ s.trace.max_depth
    pub cap_is : s'.trace.buffer_cap_bytes ≡ s.trace.buffer_cap_bytes
    pub sender_is : s'.world.sender_slot ≡ s.world.sender_slot
    pub delivered_is : s'.delivered ≡ s.delivered
    pub budget : s'.world.bytes_in_memory ≤ s.world.bytes_in_memory + cost f

  events-call :
      (lazy : LazyCategorised) (entry : EntrySnapshots) (exit : ExitSnapshots) (abnormal : Bool)
      (inside after : Calls)
      → events (call lazy entry exit abnormal inside done) ++ events after
        ≡ events (call lazy entry exit abnormal inside after)
  unfolding events
  events-call lazy entry exit abnormal inside after =
      ap (λ es. begins lazy entry ∷ es)
        (append_assoc (events inside) (ends exit abnormal Flush.sent ∷ []) (events after))

  pub Recorded-done : (s : State) → Recorded done s s
  unfolding run events recorded
  Recorded-done s = record {
    runs = refl;
    emits = λ d h. sym (append-nil (emitted s));
    decodes = λ d h v. refl;
    extends = λ q id h. h;
    few = omega arith;
    stack_is = refl;
    depth_is = refl;
    dropped_is = refl;
    seq_is = omega arith;
    limit_is = refl;
    cap_is = refl;
    sender_is = refl;
    delivered_is = refl;
    budget = omega arith;
  }

  -- A call at the depth limit leaves the state to the calls after it.
  pub Recorded-pruned :
      (lazy : LazyCategorised) (entry : EntrySnapshots) (exit : ExitSnapshots) (abnormal : Bool)
      (inside after : Calls) (s m s' : State)
      → s.trace.max_depth ≤ s.trace.virtual_depth
      → IsPruned uuid url (call lazy entry exit abnormal inside done) s m
      → Recorded after m s'
      → Recorded (call lazy entry exit abnormal inside after) s s'
  unfolding recorded
  Recorded-pruned lazy entry exit abnormal inside after s m s' deep (ran, et, ew, ed) r = record {
    runs =
        subst (λ es. run uuid url es s ≡ some s')
          (events-call lazy entry exit abnormal inside after)
          (run-append uuid url (events (call lazy entry exit abnormal inside done)) (events after) s
            ran r.runs);
    emits = λ d h. ground (arith, r.emits d h);
    decodes = λ d h v. ground (arith, r.decodes d h v);
    extends = λ q id h. ground (arith, r.extends q id);
    few = ground (arith, r.few);
    stack_is = ground (arith, r.stack_is);
    depth_is = ground (arith, r.depth_is);
    dropped_is = ground (arith, r.dropped_is);
    seq_is = ground (arith, r.seq_is);
    limit_is = ground (arith, r.limit_is);
    cap_is = ground (arith, r.cap_is);
    sender_is = ground (arith, r.sender_is);
    delivered_is = r.delivered_is ∙ ed;
    budget = ground (arith, r.budget);
  }
