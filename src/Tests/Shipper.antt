-- ===== src/Tests/Shipper.antt =====
-- The retry loop with two failures before a success, and the wire kinds.
use php_analyze.Prelude.{
  ◌+◌, ◌%◌, length, false, [], ◌∷◌, Option, List, true, ℕ, zero, suc, ◌<◌, ◌≡◌, ◌↔◌, refl, some,
  none, arith,
}
use php_analyze.Prelude.Words.{u64_mod}
use php_analyze.Prelude.Int.{pos}
use php_analyze.Prelude.Text.{Text}
use php_analyze.World.{World}
use php_analyze.Recorder.Types.{PendingBatch, batch}
use php_analyze.Shipper.OnBatch.{OnBatch}
use php_analyze.Shipper.Loop.{
  ShipperExit, Turn, published, received, DrainAnswer, timeout, run_loop,
}
use php_analyze.Shipper.Loop.Accounting.{
  batch_bytes, batch_count, messages, reported, run_loop-bytes, run_loop-reported,
}
use php_analyze.Shipper.Lifecycle.{Slots}
use php_analyze.Shipper.Lifecycle.Once.{
  Call, minit, rinit, mshutdown, calls, IsOnce, unstarted, calls-IsOnce,
}
use php_analyze.Wire as Wire
use php_analyze.Wire.{try_from, from, try_from_iff}
use php_analyze.Shipper.OnBatch as Seam
use php_analyze.Shipper.Retry.{AttemptOutcome, sent, failed, Round, Retried, run_with_retry}
use php_analyze.Shipper.Retry.Bounds.{
  IsBounded, run_with_retry-IsBounded, doubling, FailsAt, run_with_retry-delivers,
}

abbrev answers : ℕ → AttemptOutcome
answers zero = failed Seam.timeout
answers (suc zero) = failed (Seam.http_status 500)
answers (suc (suc n)) = sent

abbrev rounds : ℕ → Round
rounds n = record { deadline = none; now = 0; attempt = answers n; now_after = 5 }

run_with_retry-IsBounded_example :
    (r : Retried) × (run_with_retry 3 100 rounds ≡ some r) × IsBounded 3 100 rounds 0 r
run_with_retry-IsBounded_example = run_with_retry-IsBounded 3 100 rounds (omega arith)

two_fail : (j : ℕ) → j < 2 → FailsAt 3 100 rounds j
two_fail zero h = (Seam.timeout, refl)
two_fail (suc zero) h = (Seam.http_status 500, refl)
two_fail (suc (suc j)) h = absurd (omega arith)

run_with_retry-delivers_example :
    run_with_retry 3 100 rounds
    ≡ some (record { outcome = Seam.sent; attempts = 3; slept = doubling 100 0 2 })
run_with_retry-delivers_example =
    run_with_retry-delivers 3 100 rounds 2 (λ j. refl) (omega arith) (omega arith) (omega arith)
      two_fail refl

try_from_iff_example :
    (try_from 2 ≡ some Wire.FunctionKind.closure) ↔ (from Wire.FunctionKind.closure ≡ 2)
try_from_iff_example = try_from_iff 2 Wire.FunctionKind.closure

-- A handler that drops every batch, and a run in which one batch is dropped and one abandoned.
abbrev refuses : OnBatch
refuses = record {
  State = Unit;
  handle = λ encoded id n deadline o. (Seam.dropped Seam.timeout 1, o);
  server_url = λ o. none;
}

abbrev pending : PendingBatch
pending = record {
  meta_partial = record {
    schema_version = 1;
    trace_id = [];
    host = [];
    pid = 1;
    start_time_realtime_ns = pos 0;
    sapi = [];
    uri_or_script = [];
  };
  dict = [];
  calls = [];
  size_estimate = 100;
  drop_counter = 0;
}

abbrev world : World
world = record {
  bytes_in_memory = 250;
  drop_counters = 0 ∷ [];
  sender_slot = true;
  queue = [];
  drop_notices = [];
}

abbrev turns : List Turn
turns = received (batch pending) ∷ published 7 ∷ []

abbrev answers_after : List DrainAnswer
answers_after = timeout (batch pending ∷ []) ∷ []

abbrev no_text : List ℕ → Text
no_text id = []

abbrev no_bytes : Wire.Batch → Option (List ℕ)
no_bytes b = some []

run_loop-bytes_example :
    ((run_loop no_text no_bytes refuses turns answers_after tt world).0.bytes_in_memory
        + batch_bytes (messages turns answers_after))
      % u64_mod
    ≡ world.bytes_in_memory % u64_mod
run_loop-bytes_example = run_loop-bytes no_text no_bytes refuses turns answers_after tt world

abbrev exit_report : ShipperExit
exit_report = record {
  batches_drained = 0;
  drain_completed = false;
  batches_abandoned_at_deadline = 1;
}

returned : (run_loop no_text no_bytes refuses turns answers_after tt world).1 ≡ some exit_report
unfolding run_loop
returned = refl

run_loop-reported_example :
    reported exit_report (run_loop no_text no_bytes refuses turns answers_after tt world).0
    ≡ length world.drop_notices + batch_count (messages turns answers_after)
unfolding batch_count
run_loop-reported_example =
    run_loop-reported no_text no_bytes refuses turns answers_after tt world (omega arith) returned

abbrev slots_at_start : Slots
slots_at_start = record {
  sender_slot = false;
  receiver_slot = false;
  spawned = false;
  spawn_failed = false;
  handle = false;
  drain_deadline = none;
  queue = [];
  capacity = 0;
  threads = 0;
  warnings = 0;
}

-- A start that fails, and another try.
abbrev process_calls : List Call
process_calls = minit 8 ∷ rinit false ∷ rinit true ∷ mshutdown 5 10 true none ∷ []

calls-IsOnce_example : IsOnce (calls process_calls slots_at_start)
calls-IsOnce_example = calls-IsOnce process_calls slots_at_start (unstarted refl refl refl refl)
