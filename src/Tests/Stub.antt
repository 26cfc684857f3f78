-- ===== src/Tests/Stub.antt =====
-- The ingest server on small requests, alone and at the other end of the shipper.
use php_analyze.Prelude.{
  ℕ, ◌≡◌, ◌↔◌, refl, Option, none, some, List, [], ◌∷◌, ◌≤◌, length, arith, ◌==◌, if◌then◌else◌,
}
use php_analyze.Prelude.Int.{pos}
use php_analyze.Prelude.Text.{Text, codes, text_eq}
use php_analyze.Prelude.Strings.{trim, split_scheme, split, eq_ignore_ascii_case}
use php_analyze.Wire.{Batch}
use php_analyze.Config.Resolve.{from_ini_values}
use php_analyze.Shipper.OnBatch.{http_status}
use php_analyze.Shipper.OnBatch as Seam
use php_analyze.Shipper.Retry.{Retried}
use php_analyze.Shipper.Retry.Bounds.{doubling}
use php_analyze.Shipper.Http.{
  RmpEncodeAndHttpPost, HttpRequest, SendAnswer, ok, err, status_code, poster_of, request, handle,
}
use php_analyze.Shipper.Http.Deadline.{IsTimely, handle-IsTimely}
use php_analyze.Stub.Headers.{find_header_value}
use php_analyze.Stub.Files.{FileWrite, succeeds, fails}
use php_analyze.Stub.Server.{Args, Request, Ingest, Codecs, post, path_of, dispatch, serve}
use php_analyze.Stub.Accepts.{Presents, dispatch-stores}
use php_analyze.Stub.Captures.Stored.{IsCaptured, empty_ingest, serve-IsCaptured}
use php_analyze.System.Delivery.Network.{network, posted, copies}
use php_analyze.System.Delivery.{IsCarrier, handle-delivers, handle-exhausts, handle-times_out}
use php_analyze.Tests.Config.{no_files, ini}

abbrev batch : Batch
batch = record {
  meta = record {
    schema_version = 1;
    trace_id = [];
    host = codes "h";
    pid = 1;
    start_time = pos 0;
    sapi = codes "cli";
    uri_or_script = codes "a.php";
    dropped_records = 0;
  };
  dict = [];
  calls = [];
}

-- One byte is the batch, whichever it is.
abbrev from_slice : List ℕ → Option Batch
from_slice (b ∷ []) = some batch
from_slice _ = none

abbrev codecs : Codecs
codecs = record {
  from_slice = from_slice;
  to_vec_pretty = λ batches. some [];
  to_vec = λ pairs. some [];
  count_to_vec = λ count. some (count ∷ []);
}

abbrev args : ℕ → Option Text → Args
args respond_with capture_dir = record {
  auth_token = codes "t";
  path = codes "/v1/ingest";
  respond_with = respond_with;
  simulate_slow = 0;
  capture_dir = capture_dir;
}

abbrev carried : HttpRequest → Request
carried r = record {
  method = post;
  url = codes "/v1/ingest";
  headers = (codes "host", codes "a") ∷ r.headers;
  remote_addr = some 5;
  body = some r.body;
}

abbrev self : RmpEncodeAndHttpPost
self = record {
  server_url = codes "https://a";
  auth_token = codes "t";
  retry_count = 10;
  retry_backoff_ms = 100;
  user_agent = codes "php-analyze/0.1.0";
  timeout_global = 2000;
}

made : poster_of (from_ini_values no_files ini).0 ≡ some self
unfolding poster_of from_ini_values trim split_scheme text_eq
made = refl

shared : codes "t" ≡ (from_ini_values no_files ini).0.auth_token
unfolding from_ini_values trim split_scheme text_eq
shared = refl

carries : (respond_with : ℕ) → IsCarrier (args respond_with none) (codes "https://a") carried
unfolding path_of split find_header_value eq_ignore_ascii_case text_eq
carries respond_with r at = (refl, refl, refl, refl, refl)

-- A server that sleeps for longer than the timeout.
abbrev slow_args : Args
slow_args = record (args 200 none) { simulate_slow = 5000 }

slow_carries : IsCarrier slow_args (codes "https://a") carried
unfolding path_of split find_header_value eq_ignore_ascii_case text_eq
slow_carries r at = (refl, refl, refl, refl, refl)

-- A 200 is a success, all else is the error of the status.
abbrev interpret : ℕ → SendAnswer
interpret status = if status == 200 then ok else err (status_code status)

abbrev at_once : ℕ → ℕ
at_once idx = 0

abbrev clock : ℕ → ℕ
clock idx = idx

handle-delivers_example :
    (handle
        (network codecs (args 200 none) carried interpret at_once clock clock 2000 empty_ingest)
        self
        (1 ∷ [])
        none
      ≡ some (record { outcome = Seam.sent; attempts = 1; slept = [] }))
    × ((posted codecs
          (args 200 none)
          carried
          interpret
          at_once
          clock
          clock
          (request self (1 ∷ []))
          empty_ingest
          1).store
        ≡ batch ∷ [])
handle-delivers_example =
    handle-delivers codecs (args 200 none) carried interpret at_once clock clock no_files ini self
      made shared (1 ∷ []) batch (carries 200) refl empty_ingest (refl, refl, refl) (omega arith)
      refl

handle-exhausts_example :
    (handle
        (network codecs (args 500 none) carried interpret at_once clock clock 2000 empty_ingest)
        self
        (1 ∷ [])
        none
      ≡ some (record {
        outcome = Seam.dropped (http_status 500) 11;
        attempts = 11;
        slept = doubling 100 0 10;
      }))
    × ((posted codecs
          (args 500 none)
          carried
          interpret
          at_once
          clock
          clock
          (request self (1 ∷ []))
          empty_ingest
          11).store
        ≡ copies 11 batch)
handle-exhausts_example =
    handle-exhausts codecs (args 500 none) carried interpret at_once clock clock no_files ini self
      made shared (1 ∷ []) batch (carries 500) refl empty_ingest (refl, refl, refl)
      (λ j low. omega arith) refl

handle-times_out_example :
    (handle
        (network codecs slow_args carried interpret at_once clock clock 2000 empty_ingest)
        self
        (1 ∷ [])
        none
      ≡ some (record {
        outcome = Seam.dropped Seam.timeout 11;
        attempts = 11;
        slept = doubling 100 0 10;
      }))
    × ((posted codecs slow_args carried interpret at_once clock clock
          (request self (1 ∷ []))
          empty_ingest
          11).store
        ≡ copies 11 batch)
handle-times_out_example =
    handle-times_out codecs slow_args carried interpret at_once clock clock no_files ini self made
      shared (1 ∷ []) batch slow_carries refl empty_ingest (refl, refl, refl) (λ j low. omega arith)

handle-IsTimely_example :
    (r : Retried) × (handle
        (network codecs (args 500 none) carried interpret at_once clock clock 2000 empty_ingest)
        self
        (1 ∷ [])
        (some 3)
      ≡ some r)
    × (r.attempts ≤ 11)
    × IsTimely
        (network codecs (args 500 none) carried interpret at_once clock clock 2000 empty_ingest)
        r
handle-IsTimely_example =
    handle-IsTimely
      (network codecs (args 500 none) carried interpret at_once clock clock 2000 empty_ingest) self
      (1 ∷ []) (some 3) (omega arith)

dispatch-stores_example :
    ((dispatch codecs
        (args 500 none)
        succeeds
        (carried (request self (1 ∷ [])))
        empty_ingest).0.store
      ≡ batch ∷ [])
    ↔ ((body : List ℕ) × Presents (args 500 none) (carried (request self (1 ∷ []))) body
        × (from_slice body ≡ some batch))
dispatch-stores_example =
    dispatch-stores codecs (args 500 none) (carried (request self (1 ∷ []))) empty_ingest batch
      (refl, refl, refl)

abbrev reset : Request
reset = record {
  method = post;
  url = codes "/debug/reset?all";
  headers = [];
  remote_addr = none;
  body = none;
}

-- A batch, a failed write, a reset and another batch.
abbrev requests : List (FileWrite × Request)
requests =
    (succeeds, carried (request self (1 ∷ [])))
    ∷ (fails (some []), carried (request self (1 ∷ [])))
    ∷ (succeeds, reset)
    ∷ (succeeds, carried (request self (1 ∷ [])))
    ∷ []

abbrev at_end : Ingest
at_end = (serve codecs (args 200 (some (codes "d"))) requests empty_ingest).0

two_files_one_batch : (length at_end.captured.written ≡ 2) × (at_end.store ≡ batch ∷ [])
unfolding serve path_of split find_header_value eq_ignore_ascii_case text_eq request
two_files_one_batch = (refl, refl)

serve-IsCaptured_example : IsCaptured codecs at_end.captured at_end.store
serve-IsCaptured_example =
    serve-IsCaptured codecs (args 200 (some (codes "d"))) (codes "d") requests refl (omega arith)
