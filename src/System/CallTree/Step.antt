-- ===== src/System/CallTree/Step.antt =====
-- One begin and one end of a call, where it is known which way they go.
use php_analyze.Prelude.{ℕ, ◌+◌, ◌≤◌, ◌<◌, ◌≡◌, Bool, some, List, [], ◌∷◌, ◌++◌, >>=-eq-some, arith}
use php_analyze.Prelude.Text.{Text}
use php_analyze.Prelude.Words.{u32_mod}
use php_analyze.World.{World, fetch_add}
use php_analyze.Recorder.Trace.{Trace}
use php_analyze.Recorder.CallSite.{LazyCategorised}
use php_analyze.Recorder.Begin.{EntrySnapshots, begin_with_snapshots_lazy}
use php_analyze.Recorder.Begin.Cases.{after_drop}
use php_analyze.Recorder.End.{ExitSnapshots, end_with_snapshots}
use php_analyze.Recorder.End.Cases.{after_skip}
use php_analyze.Recorder.Flush.{SendResult}
use php_analyze.Recorder.Flush as Flush
use php_analyze.System.{State, Event, ends, step, run}
use php_analyze.System.CallTree.{Calls, call, events}
use php_analyze.System.Cases.{some_eq}

module _ (uuid : List ℕ → Text) (url : Text) where
  pub run-append :
      (xs ys : List Event) (s : State) {m s' : State}
      → run uuid url xs s ≡ some m
      → run uuid url ys m ≡ some s'
      → run uuid url (xs ++ ys) s ≡ some s'
  unfolding run
  run-append [] ys s h k = rw (some_eq h) k
  run-append (x ∷ xs) ys s h k =
      let (n, first, rest) = >>=-eq-some (step uuid url x s) _ h in
      rw first (run-append xs ys n rest k)

-- A call that begins at the depth limit or beyond is dropped.
pub begin-drops :
    (lazy : LazyCategorised) (s : EntrySnapshots) (t : Trace) (w : World)
    → t.max_depth ≤ t.virtual_depth
    → t.virtual_depth + 1 < u32_mod
    → begin_with_snapshots_lazy lazy s t w
      ≡ some (after_drop lazy s t, fetch_add t.drop_counter 1 w)
unfolding begin_with_snapshots_lazy
begin-drops lazy s t w deep small = ground arith

-- The end of a call is skipped while a dropped begin waits.
pub end-skips :
    (x : ExitSnapshots) (a : Bool) (r : SendResult) (t : Trace) (w : World)
    → 0 < t.dropped_begins
    → end_with_snapshots x a r t w ≡ (after_skip x a r t, w)
unfolding end_with_snapshots
end-skips x a r t w h = ground arith

-- The two together leave the trace as it was.
pub skip-drop :
    (lazy : LazyCategorised) (s : EntrySnapshots) (x : ExitSnapshots) (a : Bool) (r : SendResult)
    (t : Trace)
    → t.virtual_depth + 1 < u32_mod
    → t.dropped_begins + 1 < u32_mod
    → after_skip x a r (after_drop lazy s t) ≡ t
skip-drop lazy s x a r t h k = ground arith

module _ (uuid : List ℕ → Text) (url : Text) where
  -- A call runs when its begin, the calls inside it, its end and the calls after it run in turn.
  pub run-call :
      (lazy : LazyCategorised) (entry : EntrySnapshots) (exit : ExitSnapshots) (abnormal : Bool)
      (inside after : Calls) (s : State) {t1 t3 : Trace} {w1 w3 : World} {s2 s4 : State}
      → begin_with_snapshots_lazy lazy entry s.trace s.world ≡ some (t1, w1)
      → run uuid url (events inside) (record s { trace = t1; world = w1; begun = s.begun + 1 })
        ≡ some s2
      → end_with_snapshots exit abnormal Flush.sent s2.trace s2.world ≡ (t3, w3)
      → run uuid url (events after) (record s2 { trace = t3; world = w3 }) ≡ some s4
      → run uuid url (events (call lazy entry exit abnormal inside after)) s ≡ some s4
  unfolding run events step
  run-call lazy entry exit abnormal inside after s began ran ended follows = rw began (
      run-append uuid url (events inside) (ends exit abnormal Flush.sent ∷ events after) _ ran
        (rw ended follows))
