-- ===== src/Shipper/Retry.antt =====
-- The retry loop of shipper/http.rs. An `Instant` and a `Duration` are numbers of milliseconds.
pub mod Iteration
pub mod Bounds
pub mod Exhausted
use php_analyze.Prelude.{
  ℕ, zero, suc, ◌+◌, ◌-◌, ◌*◌, ◌^◌, ◌%◌, min, Bool, false, Option, none, some, List, [], ◌∷◌, ltb,
  leb, ◌==◌, if◌then◌else◌,
}
use php_analyze.Prelude.Words.{u32_mod, u64_mod}
use php_analyze.Shipper.OnBatch.{DropReason, OnBatchOutcome, deadline_exceeded}
use php_analyze.Shipper.OnBatch as Seam

pub data AttemptOutcome : Type 0 where
  sent : AttemptOutcome
  failed : DropReason → AttemptOutcome

unfoldable pub sooner : Option ℕ → Option ℕ → Option ℕ
sooner none x = x
sooner (some x) none = some x
sooner (some x) (some y) = some (min x y)

-- `1u32.checked_shl(attempt)`, then a saturating product in milliseconds.
unfoldable pub backoff_duration : ℕ → ℕ → ℕ
backoff_duration retry_backoff_ms attempt =
    let factor = if ltb attempt 32 then 2 ^ attempt else u32_mod - 1 in
    min (retry_backoff_ms * factor) (u64_mod - 1)

-- What the closures answer in one iteration: the deadline, the clock at its head, the attempt, and
-- the clock after a failure.
pub record Round : Type 0 where
  pub deadline : Option ℕ
  pub now : ℕ
  pub attempt : AttemptOutcome
  pub now_after : ℕ

-- The outcome, with the attempts that were made and the sleeps between them, oldest first.
pub record Retried : Type 0 where
  pub outcome : OnBatchOutcome
  pub attempts : ℕ
  pub slept : List ℕ

abbrev pub past : Option ℕ → ℕ → Bool
past none now = false
past (some d) now = leb d now

abbrev pub stop : OnBatchOutcome → ℕ → Retried
stop outcome n = record { outcome = outcome; attempts = n; slept = [] }

abbrev pub slept_then : ℕ → Option Retried → Option Retried
slept_then sleep none = none
slept_then sleep (some r) = some (record r { slept = sleep ∷ r.slept })

-- `attempt_idx + 1` on u32, which wraps in a release build.
abbrev pub counted : ℕ → ℕ
counted idx = (idx + 1) % u32_mod

module _ (retry_count retry_backoff_ms : ℕ) (rounds : ℕ → Round) where
  -- The iterations from `idx` on; `none` is the `unreachable!` below the loop.
  unfoldable pub retry_loop : ℕ → ℕ → Option Retried
  retry_loop zero idx = none
  retry_loop (suc left) idx =
      let round = rounds idx in
      let sleep = backoff_duration retry_backoff_ms idx in
      let more = retry_loop left (idx + 1) in
      if past round.deadline round.now
      then some (stop (Seam.dropped deadline_exceeded idx) idx)
      else elim round.attempt [
        | sent ↦ some (stop Seam.sent (idx + 1))
        | failed reason ↦
            if idx == retry_count
            then some (stop (Seam.dropped reason (counted idx)) (idx + 1))
            else if past round.deadline (round.now_after + sleep)
            then some (stop (Seam.dropped deadline_exceeded (counted idx)) (idx + 1))
            else slept_then sleep more
      ]

  unfoldable pub run_with_retry : Option Retried
  unfolding retry_loop backoff_duration
  run_with_retry = retry_loop (suc retry_count) 0
