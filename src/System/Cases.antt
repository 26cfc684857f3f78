-- ===== src/System/Cases.antt =====
-- What one event does to the state, and induction over a schedule.
use php_analyze.Prelude.{ℕ, ◌+◌, ◌≡◌, refl, Bool, some, List, [], ◌∷◌, All, >>=-eq-some}
use mathlib.Core.Path.{subst}
use php_analyze.Prelude.Text.{Text}
use php_analyze.Recorder.Types.{PendingBatch, ShipperMessage, batch, drain}
use php_analyze.Recorder.Begin.{EntrySnapshots, begin_with_snapshots_lazy}
use php_analyze.Recorder.Begin.Cases.{Begun, begin_cases}
use php_analyze.Recorder.CallSite.{LazyCategorised}
use php_analyze.Recorder.End.{ExitSnapshots}
use php_analyze.Recorder.End.Cases.{Ended, end_cases}
use php_analyze.Recorder.Flush.{SendResult}
use php_analyze.Shipper.OnBatch.{OnBatchOutcome}
use php_analyze.Shipper.Consume.{settle}
use php_analyze.System.{State, Event, begins, ends, ships, delivered_after, ship, step, run}

pub some_eq : {s s' : State} → some s ≡ some s' → s ≡ s'
some_eq h = cc

pub All-events : (es : List Event) → All (λ e. Unit {0}) es
All-events [] = tt
All-events (e ∷ es) = (tt, All-events es)

module _ (uuid : List ℕ → Text) (url : Text) where
  -- What an event makes of a state: the view of the handler that ran, and the rest of the state.
  pub data Stepped (e : Event) (s s' : State) : Type 0 where
    begun :
        (lazy : LazyCategorised) (entry : EntrySnapshots)
        → e ≡ begins lazy entry
        → Begun lazy entry s.trace s.world s'.trace s'.world
        → s'.begun ≡ s.begun + 1
        → s'.drained ≡ s.drained
        → s'.delivered ≡ s.delivered
        → Stepped e s s'
    ended :
        (exit : ExitSnapshots) (abnormal : Bool) (answer : SendResult)
        → e ≡ ends exit abnormal answer
        → Ended exit abnormal answer s.trace s.world s'.trace s'.world
        → s'.begun ≡ s.begun
        → s'.drained ≡ s.drained
        → s'.delivered ≡ s.delivered
        → Stepped e s s'
    idle : s' ≡ s → Stepped e s s'
    discarded :
        (deadline : ℕ) (rest : List ShipperMessage)
        → s.world.queue ≡ drain deadline ∷ rest
        → s' ≡ record s { world = record s.world { queue = rest } }
        → Stepped e s s'
    shipped :
        (outcome : OnBatchOutcome) (b : PendingBatch) (rest : List ShipperMessage)
        → e ≡ ships outcome
        → s.world.queue ≡ batch b ∷ rest
        → s'.trace ≡ s.trace
        → s'.begun ≡ s.begun
        → s'.delivered ≡ delivered_after outcome b s.delivered
        → (s'.world, s'.drained)
          ≡ settle uuid b url outcome (record s.world { queue = rest }) s.drained
        → Stepped e s s'

  ship_cases :
      (outcome : OnBatchOutcome) (queue : List ShipperMessage) (s : State)
      → s.world.queue ≡ queue
      → Stepped (ships outcome) s (ship uuid url outcome queue s)
  unfolding ship
  ship_cases outcome [] s e = idle refl
  ship_cases outcome (drain deadline ∷ rest) s e = discarded deadline rest e refl
  ship_cases outcome (batch b ∷ rest) s e = shipped outcome b rest refl e refl refl refl refl

  pub step_cases :
      (e : Event) (s : State) {s' : State} → step uuid url e s ≡ some s' → Stepped e s s'
  unfolding step
  step_cases (begins lazy entry) s h =
      let (r, ran, left) = >>=-eq-some (begin_with_snapshots_lazy lazy entry s.trace s.world) _ h in
      subst (λ x. Stepped (begins lazy entry) s x) (some_eq left)
        (begun lazy entry refl (begin_cases lazy entry s.trace s.world ran) refl refl refl)
  step_cases (ends exit abnormal answer) s h =
      subst (λ x. Stepped (ends exit abnormal answer) s x) (some_eq h)
        (ended exit abnormal answer refl (end_cases exit abnormal answer s.trace s.world) refl refl
          refl)
  step_cases (ships outcome) s h =
      subst (λ x. Stepped (ships outcome) s x) (some_eq h) (ship_cases outcome s.world.queue s refl)

  -- What every event of a kind keeps, a schedule of such events keeps.
  pub run_induction :
      (P : State → Type 0) (Q : Event → Type 0)
      → ((e : Event) (s s' : State) → Q e → Stepped e s s' → P s → P s')
      → (es : List Event) (s s' : State) → All Q es
      → run uuid url es s ≡ some s'
      → P s
      → P s'
  unfolding run
  run_induction P Q keep [] s s' q h p = subst P (some_eq h) p
  run_induction P Q keep (e ∷ es) s s' q h p =
      let (m, first, rest) = >>=-eq-some (step uuid url e s) _ h in
      run_induction P Q keep es m s' q.1 rest (keep e s m q.0 (step_cases e s first) p)
