-- ===== src/System/CallTree/Pruned.antt =====
-- Calls at the depth limit and beyond leave nothing but a count of what was dropped.
use php_analyze.Prelude.{ℕ, ◌+◌, ◌≤◌, ◌<◌, ◌≡◌, refl, ap, ◌∙◌, some, Bool, List, arith}
use php_analyze.Prelude.Text.{Text}
use php_analyze.Prelude.Words.{u32_mod}
use php_analyze.World.{World, fetch_add}
use php_analyze.Recorder.CallSite.{LazyCategorised}
use php_analyze.Recorder.Begin.{EntrySnapshots}
use php_analyze.Recorder.Begin.Cases.{after_drop}
use php_analyze.Recorder.End.{ExitSnapshots}
use php_analyze.Recorder.End.Cases.{after_skip}
use php_analyze.Recorder.Flush as Flush
use php_analyze.System.{State, run}
use php_analyze.System.CallTree.{Calls, done, call, events, size}
use php_analyze.System.CallTree.Step.{run-call, begin-drops, end-skips, skip-drop}

abbrev dropped_state : LazyCategorised → EntrySnapshots → State → State
dropped_state lazy entry s = record s {
  trace = after_drop lazy entry s.trace;
  world = fetch_add s.trace.drop_counter 1 s.world;
  begun = s.begun + 1;
}

module _ (uuid : List ℕ → Text) (url : Text) where
  -- The calls run, and only the drop counters and the count of begins differ afterwards.
  abbrev pub IsPruned : Calls → State → State → Type 0
  IsPruned f s s' =
      (run uuid url (events f) s ≡ some s')
      × (s'.trace ≡ s.trace)
      × (s'.world ≡ record s.world { drop_counters = s'.world.drop_counters })
      × (s'.delivered ≡ s.delivered)

  IsPruned-call :
      (lazy : LazyCategorised) (entry : EntrySnapshots) (exit : ExitSnapshots) (abnormal : Bool)
      (inside after : Calls) (s m s' : State)
      → s.trace.max_depth ≤ s.trace.virtual_depth
      → s.trace.virtual_depth + 1 < u32_mod
      → s.trace.dropped_begins + 1 < u32_mod
      → IsPruned inside (dropped_state lazy entry s) m
      → IsPruned after (record m { trace = s.trace }) s'
      → IsPruned (call lazy entry exit abnormal inside after) s s'
  unfolding fetch_add
  IsPruned-call lazy entry exit abnormal inside after s m s' deep small few (ran, et, ew, ed)
        (ran', et', ew', ed') =
      let back : after_skip exit abnormal Flush.sent m.trace ≡ s.trace =
        ap (λ t. after_skip exit abnormal Flush.sent t) et
        ∙ skip-drop lazy entry exit abnormal Flush.sent s.trace small few in
      (
        run-call uuid url lazy entry exit abnormal inside after s
            (begin-drops lazy entry s.trace s.world deep small) ran
            (end-skips exit abnormal Flush.sent m.trace m.world (ground arith)
              ∙ ap (λ t. (t, m.world)) back)
            ran',
        et',
        ew' ∙ ap {A = World} (λ w. record w { drop_counters = s'.world.drop_counters }) ew,
        ed' ∙ ed,
      )

  pub events-IsPruned :
      (f : Calls) (s : State)
      → s.trace.max_depth ≤ s.trace.virtual_depth
      → s.trace.virtual_depth + size f < u32_mod
      → s.trace.dropped_begins + size f < u32_mod
      → (s' : State) × IsPruned f s s'
  unfolding run events
  events-IsPruned done s deep small few = (s, (refl, refl, refl, refl))
  events-IsPruned (call lazy entry exit abnormal inside after) s deep small few =
      let (m, within) =
        events-IsPruned inside (dropped_state lazy entry s) (omega arith) (omega arith)
          (omega arith) in
      let (s', behind) =
        events-IsPruned after (record m { trace = s.trace }) deep (omega arith) (omega arith) in
      (
        s',
        IsPruned-call lazy entry exit abnormal inside after s m s' deep (omega arith) (omega arith)
            within behind,
      )
