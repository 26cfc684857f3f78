-- ===== src/Shipper/Retry/Iteration.antt =====
-- What one iteration of the retry loop does.
use php_analyze.Prelude.{
  ℕ, suc, ◌+◌, ◌≡◌, ◌≢◌, refl, Option, ◌⊎◌, inl, inr, true, false, some, arith, ◌==◌, Bool-cases,
}
use php_analyze.Shipper.OnBatch.{DropReason, OnBatchOutcome, deadline_exceeded}
use php_analyze.Shipper.OnBatch as Seam
use php_analyze.Shipper.Retry.{
  AttemptOutcome, sent, failed, Round, Retried, stop, counted, slept_then, past, backoff_duration,
  retry_loop,
}

module _ (retry_count retry_backoff_ms : ℕ) (rounds : ℕ → Round) where
  attempt-cases : (a : AttemptOutcome) → (a ≡ sent) ⊎ ((reason : DropReason) × (a ≡ failed reason))
  attempt-cases sent = inl refl
  attempt-cases (failed reason) = inr (reason, refl)

  abbrev pub loop : ℕ → ℕ → Option Retried
  loop = retry_loop retry_count retry_backoff_ms rounds

  abbrev pub Early : ℕ → Type 0
  Early idx = past (rounds idx).deadline (rounds idx).now ≡ false

  abbrev pub sleep : ℕ → ℕ
  sleep idx = backoff_duration retry_backoff_ms idx

  -- What one iteration does.
  pub data Iteration (left idx : ℕ) : Type 0 where
    late :
        past (rounds idx).deadline (rounds idx).now ≡ true
        → loop (suc left) idx ≡ some (stop (Seam.dropped deadline_exceeded idx) idx)
        → Iteration left idx
    delivered :
        Early idx
        → (rounds idx).attempt ≡ sent
        → loop (suc left) idx ≡ some (stop Seam.sent (suc idx))
        → Iteration left idx
    given_up :
        (reason last : DropReason)
        → Early idx
        → (rounds idx).attempt ≡ failed last
        → ((idx ≡ retry_count) × (reason ≡ last))
          ⊎ (past (rounds idx).deadline ((rounds idx).now_after + sleep idx) ≡ true)
        → loop (suc left) idx ≡ some (stop (Seam.dropped reason (counted idx)) (suc idx))
        → Iteration left idx
    again :
        (reason : DropReason)
        → Early idx
        → (rounds idx).attempt ≡ failed reason
        → idx ≢ retry_count
        → loop (suc left) idx ≡ slept_then (sleep idx) (loop left (suc idx))
        → Iteration left idx

  Iteration-failed :
      (left idx : ℕ) (reason : DropReason)
      → Early idx
      → (rounds idx).attempt ≡ failed reason
      → Iteration left idx
  unfolding retry_loop
  Iteration-failed left idx reason early e = elim (Bool-cases (idx == retry_count)) [
    | inl last ↦ given_up reason reason early e (inl (ground arith, refl)) (ground arith)
    | inr more ↦
        elim (Bool-cases (past (rounds idx).deadline ((rounds idx).now_after + sleep idx))) [
          | inl cut ↦ given_up deadline_exceeded reason early e (inr cut) (ground arith)
          | inr room ↦ again reason early e (ground arith) (ground arith)
        ]
  ]

  pub iteration : (left idx : ℕ) → Iteration left idx
  unfolding retry_loop
  iteration left idx = elim (Bool-cases (past (rounds idx).deadline (rounds idx).now)) [
    | inl over ↦ late over (ground arith)
    | inr early ↦ elim (attempt-cases (rounds idx).attempt) [
      | inl e ↦ delivered early e (ground arith)
      | inr (reason, e) ↦ Iteration-failed left idx reason early e
    ]
  ]
