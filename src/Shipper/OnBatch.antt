-- ===== src/Shipper/OnBatch.antt =====
-- shipper/on_batch.rs: the seam between the loop and what delivers a batch.
use php_analyze.Prelude.{ℕ, Option, List, ◌++◌}
use php_analyze.Prelude.Text.{Text, codes}
use php_analyze.Prelude.Digits.{decimal}

pub data DropReason : Type 0 where
  http_status : ℕ → DropReason
  timeout connect_refused tls_error transport encode_failed deadline_exceeded : DropReason

pub data OnBatchOutcome : Type 0 where
  sent : OnBatchOutcome
  dropped : DropReason → ℕ → OnBatchOutcome

-- `Display` of `DropReason`
unfoldable pub fmt : DropReason → Text
fmt (http_status code) = codes "http " ++ decimal code
fmt timeout = codes "timeout"
fmt connect_refused = codes "connect_refused"
fmt tls_error = codes "tls_error"
fmt transport = codes "transport"
fmt encode_failed = codes "encode_failed"
fmt deadline_exceeded = codes "deadline_exceeded"

-- The trait: a handler with a state of its own, which gets the encoded bytes, the trace id, the
-- number of records and the deadline.
pub record OnBatch : Type 1 where
  pub State : Type 0
  pub handle : List ℕ → List ℕ → ℕ → Option ℕ → State → OnBatchOutcome × State
  pub server_url : State → Option Text
