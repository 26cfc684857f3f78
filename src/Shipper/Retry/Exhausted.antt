-- ===== src/Shipper/Retry/Exhausted.antt =====
-- A delivery whose attempts all fail for one reason.
use php_analyze.Prelude.{ℕ, zero, suc, ◌+◌, ◌*◌, ◌^◌, ◌≤◌, ◌≡◌, ap, inl, inr, some, arith}
use php_analyze.Shipper.OnBatch.{DropReason, OnBatchOutcome, deadline_exceeded}
use php_analyze.Shipper.OnBatch as Seam
use php_analyze.Shipper.Retry.{
  failed, Round, slept_then, backoff_duration, retry_loop, run_with_retry,
}
use php_analyze.Shipper.Retry.Iteration.{late, delivered, given_up, again, iteration}
use php_analyze.Shipper.Retry.Bounds.{doubling, Unhurried, backoff_exact}

module _ (retry_count retry_backoff_ms : ℕ) (rounds : ℕ → Round) (reason : DropReason)
    (calm : Unhurried retry_count retry_backoff_ms rounds)
    (fails : (j : ℕ) → j ≤ retry_count → (rounds j).attempt ≡ failed reason) where
  abbrev sleep : ℕ → ℕ
  sleep idx = backoff_duration retry_backoff_ms idx

  exhausted_from :
      (left idx : ℕ)
      → left + idx ≡ retry_count
      → retry_count ≤ 10
      → ((j : ℕ) → j ≤ retry_count → sleep j ≡ retry_backoff_ms * 2 ^ j)
      → retry_loop retry_count retry_backoff_ms rounds (suc left) idx
        ≡ some (record {
          outcome = Seam.dropped reason (suc retry_count);
          attempts = suc retry_count;
          slept = doubling retry_backoff_ms idx left;
        })
  exhausted_from zero idx h few exact =
      elim (iteration retry_count retry_backoff_ms rounds zero idx) [
        | late over s ↦ absurd (ground (arith, calm idx))
        | delivered early good s ↦ absurd (ground (arith, fails idx (omega arith)))
        | given_up why last early bad (inl (final, same)) s ↦
            ground (arith, fails idx (omega arith))
        | given_up why last early bad (inr cut) s ↦ absurd (ground (arith, calm idx))
        | again why early bad ne s ↦ absurd (ne (omega arith))
      ]
  exhausted_from (suc left) idx h few exact =
      elim (iteration retry_count retry_backoff_ms rounds (suc left) idx) [
        | late over s ↦ absurd (ground (arith, calm idx))
        | delivered early good s ↦ absurd (ground (arith, fails idx (omega arith)))
        | given_up why last early bad (inl (final, same)) s ↦ absurd (omega arith)
        | given_up why last early bad (inr cut) s ↦ absurd (ground (arith, calm idx))
        | again why early bad ne s ↦ ground (
          arith,
          exact idx (omega arith),
          ap (slept_then (sleep idx)) (exhausted_from left (suc idx) (omega arith) few exact),
        )
      ]

  -- With no deadline, at most 10 retries and a backoff of at most a minute.
  pub run_with_retry-exhausts :
      retry_count ≤ 10
      → retry_backoff_ms ≤ 60000
      → run_with_retry retry_count retry_backoff_ms rounds
        ≡ some (record {
          outcome = Seam.dropped reason (suc retry_count);
          attempts = suc retry_count;
          slept = doubling retry_backoff_ms 0 retry_count;
        })
  unfolding run_with_retry
  run_with_retry-exhausts few short =
      exhausted_from retry_count 0 (omega arith) few
        (λ j h. backoff_exact retry_count retry_backoff_ms rounds j h few short)
