-- ===== src/Shipper/Loop.antt =====
-- `run_loop` and `run_drain_phase` of shipper/mod.rs. What the receiver of the channel answers, and
-- what the deadline cell holds, are scripts; where a script ends, the thread is still waiting.
pub mod Accounting
use php_analyze.Prelude.{ℕ, ◌+◌, Bool, true, false, Option, none, some, List, [], ◌∷◌}
use php_analyze.Prelude.Text.{Text}
use php_analyze.Prelude.Words.{wrapping_add}
use php_analyze.World.{World, sub}
use php_analyze.Recorder.Types.{PendingBatch, ShipperMessage, batch, drain}
use php_analyze.Wire.{Batch}
use php_analyze.Shipper.OnBatch.{OnBatch}
use php_analyze.Shipper.Consume.{drained_consume}

pub record ShipperExit : Type 0 where
  pub batches_drained : ℕ
  pub drain_completed : Bool
  pub batches_abandoned_at_deadline : ℕ

-- One iteration before the drain: the deadline cell holds a deadline at its head, or it is empty and
-- `recv` gives a message or finds the channel closed.
pub data Turn : Type 0 where
  published : ℕ → Turn
  received : ShipperMessage → Turn
  closed : Turn

-- What `recv_deadline` gives; after a timeout, what `try_recv` finds until it fails.
pub data DrainAnswer : Type 0 where
  got : ShipperMessage → DrainAnswer
  timeout : List ShipperMessage → DrainAnswer
  disconnected : DrainAnswer

-- The loop over the residual queue.
unfoldable pub abandon : List ShipperMessage → World → ℕ → World × ℕ
unfolding sub
abandon [] w abandoned = (w, abandoned)
abandon (batch b ∷ rest) w abandoned =
    abandon rest (sub b.size_estimate w) (wrapping_add abandoned 1)
abandon (drain deadline ∷ rest) w abandoned = abandon rest w abandoned

abbrev exit_with : ℕ → Bool → ℕ → Option ShipperExit
exit_with drained completed abandoned = some (record {
  batches_drained = drained;
  drain_completed = completed;
  batches_abandoned_at_deadline = abandoned;
})

module _ (uuid : List ℕ → Text) (to_vec_named : Batch → Option (List ℕ)) (O : OnBatch) where
  unfoldable pub run_drain_phase :
      ℕ → List DrainAnswer → O.State → World → ℕ → World × Option ShipperExit
  unfolding abandon drained_consume
  run_drain_phase deadline [] o w drained = (w, none)
  run_drain_phase deadline (got (batch b) ∷ rest) o w drained =
      let (o', w', drained') = drained_consume uuid to_vec_named O b (some deadline) o w drained in
      run_drain_phase deadline rest o' w' drained'
  run_drain_phase deadline (got (drain other) ∷ rest) o w drained =
      run_drain_phase deadline rest o w drained
  run_drain_phase deadline (timeout residual ∷ rest) o w drained =
      let (w', abandoned) = abandon residual w 0 in (w', exit_with drained false abandoned)
  run_drain_phase deadline (disconnected ∷ rest) o w drained = (w, exit_with drained true 0)

  -- The iterations before the drain.
  unfoldable pub run_turns :
      List Turn → List DrainAnswer → O.State → World → ℕ → World × Option ShipperExit
  unfolding run_drain_phase drained_consume
  run_turns [] answers o w drained = (w, none)
  run_turns (published d ∷ rest) answers o w drained = run_drain_phase d answers o w drained
  run_turns (received (batch b) ∷ rest) answers o w drained =
      let (o', w', drained') = drained_consume uuid to_vec_named O b none o w drained in
      run_turns rest answers o' w' drained'
  run_turns (received (drain deadline) ∷ rest) answers o w drained =
      run_drain_phase deadline answers o w drained
  run_turns (closed ∷ rest) answers o w drained = (w, exit_with drained true 0)

  unfoldable pub run_loop :
      List Turn → List DrainAnswer → O.State → World → World × Option ShipperExit
  unfolding run_turns
  run_loop turns answers o w = run_turns turns answers o w 0
