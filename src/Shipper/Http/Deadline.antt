-- ===== src/Shipper/Http/Deadline.antt =====
-- The drain deadline of MSHUTDOWN reaches a batch that is already being delivered.
use php_analyze.Prelude.{ℕ, ◌+◌, ◌≤◌, ◌<◌, ◌≡◌, Option, none, some, List, arith, false}
use php_analyze.Prelude.Words.{u32_mod}
use php_analyze.Shipper.Retry.{Retried, past, sooner}
use php_analyze.Shipper.Retry.Bounds.{Reports, run_with_retry-IsBounded}
use php_analyze.Shipper.Http.{RmpEncodeAndHttpPost, Outside, round_of, rounds_of, handle}

past-sooner : (a b : Option ℕ) (now d : ℕ) → past (sooner a b) now ≡ false → b ≡ some d → now < d
unfolding sooner
past-sooner none b now d e is = ground arith
past-sooner (some x) none now d e is = cc
past-sooner (some x) (some y) now d e is = ground arith

-- A drop reports the attempts that were made, on u32, and no attempt starts at or after a drain deadline
-- that the cell holds at the head of its round.
abbrev pub IsTimely : (ℕ → Outside) → Retried → Type 0
IsTimely outside r =
    Reports r.outcome r.attempts
    × ((j d : ℕ) → j < r.attempts → (outside j).drain_deadline ≡ some d → (outside j).now < d)

-- Whatever the network, the clock and the deadline cell do, with a retry count below 2 ^ 32: a
-- delivery comes to an end after at most one attempt more than the retry count, a drop reports the
-- attempts that were made, modulo 2 ^ 32, and no attempt starts at or after a drain deadline that
-- the cell holds at the head of its round.
pub handle-IsTimely :
    (outside : ℕ → Outside) (self : RmpEncodeAndHttpPost) (encoded : List ℕ) (deadline : Option ℕ)
    → self.retry_count < u32_mod
    → (r : Retried) × (handle outside self encoded deadline ≡ some r)
      × (r.attempts ≤ self.retry_count + 1)
      × IsTimely outside r
unfolding handle round_of
handle-IsTimely outside self encoded deadline word =
    let (r, e, (_, most, reported, timely)) =
      run_with_retry-IsBounded self.retry_count self.retry_backoff_ms
        (rounds_of outside self encoded deadline) word in
    let early = λ (j d : ℕ) (before : j < r.attempts) (is : (outside j).drain_deadline ≡ some d).
      past-sooner deadline (outside j).drain_deadline (outside j).now d
        (timely j (omega arith) before) is in
    (r, e, omega arith, (reported, early))
