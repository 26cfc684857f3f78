-- ===== src/Shipper/Retry/Bounds.antt =====
-- The retry loop comes to an end, respects the deadline, and delivers when an attempt succeeds.
use php_analyze.Prelude.{
  ℕ, zero, suc, ◌+◌, ◌*◌, ◌^◌, ◌%◌, ◌≤◌, ◌<◌, ◌≡◌, sym, ap, ◌∙◌, Option, ◌⊎◌, inl, inr, false, none,
  some, List, [], ◌∷◌, arith,
}
use php_analyze.Prelude.Words.{u32_mod}
use mathlib.Core.Path.{subst}
use native.Mathlib.Nat.{pow-le-pow_right, mul-le-mul}
use php_analyze.Shipper.OnBatch.{DropReason, OnBatchOutcome, deadline_exceeded}
use php_analyze.Shipper.OnBatch as Seam
use php_analyze.Shipper.Retry.{
  sent, failed, Round, Retried, slept_then, past, backoff_duration, retry_loop, run_with_retry,
}
use php_analyze.Shipper.Retry.Iteration.{
  Early, Iteration, late, delivered, given_up, again, iteration,
}

-- A drop reports the number of attempts that were made, on u32.
abbrev pub Reports : OnBatchOutcome → ℕ → Type 0
Reports Seam.sent n = Unit
Reports (Seam.dropped reason attempts) n = attempts ≡ n % u32_mod

-- The sleeps of `n` failures from an iteration on, each twice the one before.
abbrev pub doubling : ℕ → ℕ → ℕ → List ℕ
doubling backoff idx zero = []
doubling backoff idx (suc n) = (backoff * 2 ^ idx) ∷ doubling backoff (suc idx) n

module _ (retry_count retry_backoff_ms : ℕ) (rounds : ℕ → Round) where
  -- The attempts lie within the bound, none was launched at or after its deadline, and a drop
  -- reports their number.
  abbrev pub IsBounded : ℕ → Retried → Type 0
  IsBounded idx r =
      (idx ≤ r.attempts)
      × (r.attempts ≤ suc retry_count)
      × Reports r.outcome r.attempts
      × ((j : ℕ) → idx ≤ j → j < r.attempts → past (rounds j).deadline (rounds j).now ≡ false)

  only : (idx j : ℕ) → idx ≤ j → j < suc idx → j ≡ idx
  only idx j h k = omega arith

  split : (idx j : ℕ) → idx ≤ j → (j ≡ idx) ⊎ (suc idx ≤ j)
  split idx j h = ground arith

  abbrev loop : ℕ → ℕ → Option Retried
  loop = retry_loop retry_count retry_backoff_ms rounds

  abbrev sleep : ℕ → ℕ
  sleep idx = backoff_duration retry_backoff_ms idx

  abbrev steps : (left idx : ℕ) → Iteration retry_count retry_backoff_ms rounds left idx
  steps = iteration retry_count retry_backoff_ms rounds

  IsBounded-from :
      (left idx : ℕ)
      → suc (left + idx) ≡ suc retry_count
      → retry_count < u32_mod
      → (r : Retried) × (loop (suc left) idx ≡ some r) × IsBounded idx r
  IsBounded-from zero idx h word = elim (steps zero idx) [
    | late over e ↦
        (_, e, (omega arith, omega arith, omega arith, λ j low high. absurd (omega arith)))
    | delivered early _ e ↦ (
      _,
      e,
      (
        omega arith,
        omega arith,
        tt,
        λ j low high.
            subst (Early retry_count retry_backoff_ms rounds) (sym (only idx j low high)) early,
      ),
    )
    | given_up reason last early _ _ e ↦ (
      _,
      e,
      (
        omega arith,
        omega arith,
        omega arith,
        λ j low high.
            subst (Early retry_count retry_backoff_ms rounds) (sym (only idx j low high)) early,
      ),
    )
    | again reason early _ ne e ↦ absurd (ne (omega arith))
  ]
  IsBounded-from (suc left) idx h word = elim (steps (suc left) idx) [
    | late over e ↦
        (_, e, (omega arith, omega arith, omega arith, λ j low high. absurd (omega arith)))
    | delivered early _ e ↦ (
      _,
      e,
      (
        omega arith,
        omega arith,
        tt,
        λ j low high.
            subst (Early retry_count retry_backoff_ms rounds) (sym (only idx j low high)) early,
      ),
    )
    | given_up reason last early _ _ e ↦ (
      _,
      e,
      (
        omega arith,
        omega arith,
        omega arith,
        λ j low high.
            subst (Early retry_count retry_backoff_ms rounds) (sym (only idx j low high)) early,
      ),
    )
    | again reason early _ ne e ↦
        let (r, found, (low, high, reports, launched)) =
          IsBounded-from left (suc idx) (omega arith) word in
        (
          record r { slept = sleep idx ∷ r.slept },
          e ∙ ap (slept_then (sleep idx)) found,
          (
            omega arith,
            high,
            reports,
            λ j from below. elim (split idx j from) [
              | inl same ↦ subst (Early retry_count retry_backoff_ms rounds) (sym same) early
              | inr above ↦ launched j above below
            ],
          ),
        )
  ]

  -- The retry loop always produces an outcome, for every retry count below 2 ^ 32, every answer of
  -- the attempts and every clock: it makes at most one attempt more than the retry count, launches
  -- none at or after the deadline of its iteration, and a drop reports the number of attempts that
  -- were made, modulo 2 ^ 32.
  pub run_with_retry-IsBounded :
      retry_count < u32_mod
      → (r : Retried) × (run_with_retry retry_count retry_backoff_ms rounds ≡ some r)
        × IsBounded 0 r
  unfolding run_with_retry
  run_with_retry-IsBounded word = IsBounded-from retry_count 0 (omega arith) word

  -- No iteration has a deadline.
  abbrev pub Unhurried : Type 0
  Unhurried = (j : ℕ) → (rounds j).deadline ≡ none

  abbrev pub FailsAt : ℕ → Type 0
  FailsAt j = (reason : DropReason) × ((rounds j).attempt ≡ failed reason)

  -- The iteration `last` is the first whose attempt succeeds.
  delivered_from :
      (left idx k last : ℕ)
      → Unhurried
      → last ≡ k + idx
      → last ≤ retry_count
      → left + idx ≡ retry_count
      → ((j : ℕ) → idx ≤ j → j < last → FailsAt j)
      → (rounds last).attempt ≡ sent
      → ((j : ℕ) → j ≤ retry_count → sleep j ≡ retry_backoff_ms * 2 ^ j)
      → loop (suc left) idx
        ≡ some (record {
          outcome = Seam.sent;
          attempts = suc last;
          slept = doubling retry_backoff_ms idx k;
        })
  delivered_from left idx zero last calm e low h fails ok exact = elim (steps left idx) [
    | late over _ ↦ absurd (ground (arith, calm idx))
    | delivered early _ s ↦ ground arith
    | given_up reason why early bad _ s ↦ absurd (ground (arith, ap rounds e))
    | again reason early bad ne s ↦ absurd (ground (arith, ap rounds e))
  ]
  delivered_from zero idx (suc k) last calm e low h fails ok exact = absurd (omega arith)
  delivered_from (suc left) idx (suc k) last calm e low h fails ok exact =
      let (why, bad) = fails idx (omega arith) (omega arith) in
      elim (steps (suc left) idx) [
        | late over _ ↦ absurd (ground (arith, calm idx))
        | delivered early good s ↦ absurd (ground arith)
        | given_up reason why' early _ (inl (final, _)) s ↦ absurd (omega arith)
        | given_up reason why' early _ (inr cut) s ↦ absurd (ground (arith, calm idx))
        | again reason early _ ne s ↦ ground (
          arith,
          exact idx (omega arith),
          ap (slept_then (sleep idx)) (
              delivered_from left (suc idx) k last calm (omega arith) low (omega arith)
                (λ j from below. fails j (omega arith) below) ok exact),
        )
      ]

  pub backoff_exact :
      (j : ℕ)
      → j ≤ retry_count
      → retry_count ≤ 10
      → retry_backoff_ms ≤ 60000
      → sleep j ≡ retry_backoff_ms * 2 ^ j
  unfolding backoff_duration
  backoff_exact j low few short =
      let small : 2 ^ j ≤ 2 ^ 10 = pow-le-pow_right (omega arith) {j = 10} (omega arith) in
      let product : retry_backoff_ms * 2 ^ j ≤ 60000 * 2 ^ 10 = mul-le-mul short small in
      ground arith

  -- With no deadline, at most 10 retries and a backoff of at most a minute: if the first attempt
  -- that succeeds is one of those that the retry count allows, the batch is sent with exactly the
  -- attempts up to it, and the sleeps between them start at the backoff and double.
  pub run_with_retry-delivers :
      (k : ℕ)
      → Unhurried
      → retry_count ≤ 10
      → retry_backoff_ms ≤ 60000
      → k ≤ retry_count
      → ((j : ℕ) → j < k → FailsAt j)
      → (rounds k).attempt ≡ sent
      → run_with_retry retry_count retry_backoff_ms rounds
        ≡ some (record {
          outcome = Seam.sent;
          attempts = suc k;
          slept = doubling retry_backoff_ms 0 k;
        })
  unfolding run_with_retry
  run_with_retry-delivers k calm few short low fails ok =
      delivered_from retry_count 0 k k calm (omega arith) low (omega arith) (λ j _ h. fails j h) ok
        (λ j h. backoff_exact j h few short)
