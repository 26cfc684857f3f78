-- ===== src/Shipper/Http.antt =====
-- `RmpEncodeAndHttpPost` of shipper/http.rs: one POST for each attempt of the retry loop. The HTTP
-- agent, the clock and the cell of the drain deadline answer through arguments.
pub mod Deadline
use php_analyze.Prelude.{ℕ, ◌-◌, ◌++◌, Option, none, some, List, [], ◌∷◌, ltb, if◌then◌else◌, ◌>>=◌}
use php_analyze.Prelude.Text.{Text, codes}
use php_analyze.Prelude.Words.{u32_mod}
use php_analyze.Config.Types.{Config}
use php_analyze.Wire.{media_type}
use php_analyze.Shipper.OnBatch.{DropReason, http_status, connect_refused, tls_error, transport}
use php_analyze.Shipper.OnBatch as Seam
use php_analyze.Shipper.Retry.{AttemptOutcome, sent, failed, Round, Retried, sooner, run_with_retry}

-- The variants of `ureq::Error` that the code tells apart.
pub data UreqError : Type 0 where
  status_code : ℕ → UreqError
  timeout connection_failed tls other : UreqError

unfoldable pub map_ureq_error : UreqError → DropReason
map_ureq_error (status_code code) = http_status code
map_ureq_error timeout = Seam.timeout
map_ureq_error connection_failed = connect_refused
map_ureq_error tls = tls_error
map_ureq_error other = transport

-- The agent is the library's; its timeout is a part of it.
pub record RmpEncodeAndHttpPost : Type 0 where
  pub server_url : Text
  pub auth_token : Text
  pub retry_count : ℕ
  pub retry_backoff_ms : ℕ
  pub user_agent : Text
  pub timeout_global : ℕ

-- The release build clamps the backoff where a debug build asserts.
unfoldable pub new : Text → Text → ℕ → ℕ → ℕ → RmpEncodeAndHttpPost
new server_url auth_token retry_count retry_backoff http_timeout = record {
  server_url = server_url;
  auth_token = auth_token;
  retry_count = retry_count;
  retry_backoff_ms = if ltb retry_backoff u32_mod then retry_backoff else u32_mod - 1;
  user_agent = codes "php-analyze/0.1.0";
  timeout_global = http_timeout;
}

-- What `spawn_if_needed_at_rinit` hands to the thread; `none` is the panic of `expect`.
unfoldable pub poster_of : Config → Option RmpEncodeAndHttpPost
unfolding new
poster_of config = do
  server_url ← config.server_url
  some
      (new server_url config.auth_token config.retry_count config.retry_backoff config.http_timeout)

unfoldable pub server_url : RmpEncodeAndHttpPost → Option Text
server_url self = some self.server_url

pub record HttpRequest : Type 0 where
  pub url : Text
  pub headers : List (Text × Text)
  pub body : List ℕ

-- `Ok` of any response, or the error of `send`.
pub data SendAnswer : Type 0 where
  ok : SendAnswer
  err : UreqError → SendAnswer

abbrev pub bearer : RmpEncodeAndHttpPost → Text
bearer self = codes "Bearer " ++ self.auth_token

unfoldable pub request : RmpEncodeAndHttpPost → List ℕ → HttpRequest
request self encoded = record {
  url = self.server_url;
  headers =
      (codes "Authorization", bearer self)
      ∷ (codes "Content-Type", media_type)
      ∷ (codes "User-Agent", self.user_agent)
      ∷ [];
  body = encoded;
}

unfoldable pub verdict : SendAnswer → AttemptOutcome
unfolding map_ureq_error
verdict ok = sent
verdict (err e) = failed (map_ureq_error e)

-- What the outside gives in one round: the cell of the drain deadline, the clock at the head and
-- after a failure, and the answer to the request.
pub record Outside : Type 0 where
  pub drain_deadline : Option ℕ
  pub now : ℕ
  pub send : HttpRequest → SendAnswer
  pub now_after : ℕ

-- One round of the retry loop.
unfoldable pub round_of : RmpEncodeAndHttpPost → List ℕ → Option ℕ → Outside → Round
unfolding request verdict sooner
round_of self encoded deadline o = record {
  deadline = sooner deadline o.drain_deadline;
  now = o.now;
  attempt = verdict (o.send (request self encoded));
  now_after = o.now_after;
}

abbrev pub rounds_of : (ℕ → Outside) → RmpEncodeAndHttpPost → List ℕ → Option ℕ → ℕ → Round
rounds_of outside self encoded deadline idx = round_of self encoded deadline (outside idx)

unfoldable pub handle : (ℕ → Outside) → RmpEncodeAndHttpPost → List ℕ → Option ℕ → Option Retried
unfolding round_of run_with_retry
handle outside self encoded deadline =
    run_with_retry self.retry_count self.retry_backoff_ms (rounds_of outside self encoded deadline)
