-- ===== src/System/Delivery.antt =====
-- The shipper's HTTP side against the ingest server: what a delivery leaves in the server's store.
pub mod Network
use php_analyze.Prelude.{
  ℕ, zero, suc, ◌+◌, ◌<◌, ◌≤◌, ltb, if◌then◌else◌, ◌++◌, true, none, some, List, [], ◌∷◌, ◌≡◌, refl,
  sym, ap, ◌∙◌, arith, >>=-eq-some, append_assoc, append-nil,
}
use php_analyze.Prelude.Text.{Text, codes, text_eq}
use php_analyze.Prelude.Strings.{eq_ignore_ascii_case}
use php_analyze.Wire.{Batch, media_type}
use php_analyze.Config.Types.{Config, RawIni, FileContent}
use php_analyze.Config.Ranges.{IsUsable, from_ini_values-IsUsable}
use php_analyze.Config.Resolve.{from_ini_values}
use php_analyze.Shipper.OnBatch.{http_status}
use php_analyze.Shipper.OnBatch as Seam
use php_analyze.Shipper.Retry.{sent, failed}
use php_analyze.Shipper.Retry.Bounds.{doubling, run_with_retry-delivers}
use php_analyze.Shipper.Retry.Exhausted.{run_with_retry-exhausts}
use php_analyze.Shipper.Http.{
  RmpEncodeAndHttpPost, HttpRequest, SendAnswer, ok, err, status_code, timeout, Outside, poster_of,
  request, verdict, map_ureq_error, round_of, rounds_of, handle,
}
use php_analyze.Stub.Headers.{find_header_value}
use php_analyze.Stub.Files.{FileWrite, succeeds, fails}
use php_analyze.Stub.Server.{Args, Request, Ingest, Codecs, post, path_of, dispatch}
use php_analyze.Stub.Accepts.{IsHealthy, Presents}
use php_analyze.Stub.Answers.{dispatch-accepted, dispatch-IsHealthy}
use php_analyze.System.Delivery.Network.{
  copies, posted, network, posted-store, attempt_sent, attempt_failed, attempt_late,
}

-- What the network does with a request to the URL: a POST to the ingest path, with the values of the
-- two headers and with the body.
abbrev pub IsCarrier : Args → Text → (HttpRequest → Request) → Type 0
IsCarrier args url carried =
    (r : HttpRequest)
    → r.url ≡ url
    → ((carried r).method ≡ post)
      × (path_of (carried r).url ≡ args.path)
      × (find_header_value (carried r).headers (codes "Authorization")
          ≡ find_header_value r.headers (codes "Authorization"))
      × (find_header_value (carried r).headers (codes "Content-Type")
          ≡ find_header_value r.headers (codes "Content-Type"))
      × ((carried r).body ≡ some r.body)

authorization :
    (self : RmpEncodeAndHttpPost) (encoded : List ℕ)
    → find_header_value (request self encoded).headers (codes "Authorization")
      ≡ some (codes "Bearer " ++ self.auth_token)
unfolding request find_header_value eq_ignore_ascii_case text_eq
authorization self encoded = refl

content_type :
    (self : RmpEncodeAndHttpPost) (encoded : List ℕ)
    → find_header_value (request self encoded).headers (codes "Content-Type") ≡ some media_type
unfolding request find_header_value eq_ignore_ascii_case text_eq
content_type self encoded = refl

to_url :
    (self : RmpEncodeAndHttpPost) (encoded : List ℕ)
    → ((request self encoded).url ≡ self.server_url) × ((request self encoded).body ≡ encoded)
unfolding request
to_url self encoded = (refl, refl)

-- What the poster takes from a usable configuration.
poster_of_lem :
    (c : Config) {self : RmpEncodeAndHttpPost}
    → IsUsable c
    → poster_of c ≡ some self
    → (self.auth_token ≡ c.auth_token)
      × (self.retry_count ≡ c.retry_count)
      × (self.retry_count ≤ 10)
      × (self.retry_backoff_ms ≤ 60000)
unfolding poster_of
poster_of_lem c usable e = let (url, there, made) = >>=-eq-some c.server_url _ e in ground arith

module _ (k : Codecs) (args : Args) (carried : HttpRequest → Request) (interpret : ℕ → SendAnswer)
    (latency now now_after : ℕ → ℕ) (read_to_string : Text → FileContent) (raw : RawIni)
    (self : RmpEncodeAndHttpPost)
    (made : poster_of (from_ini_values read_to_string raw).0 ≡ some self)
    (shared : args.auth_token ≡ (from_ini_values read_to_string raw).0.auth_token)
    (encoded : List ℕ) (batch : Batch) (carries : IsCarrier args self.server_url carried)
    (decodes : k.from_slice encoded ≡ some batch) (s : Ingest) (healthy : IsHealthy s) where
  presented : Presents args (carried (request self encoded)) encoded
  presented =
      let (token, _, _, _) = poster_of_lem _ (from_ini_values-IsUsable read_to_string raw) made in
      let (at, sent_body) = to_url self encoded in
      let (to, there, bearer_kept, media_kept, body) = carries (request self encoded) at in
      (
        to,
        there,
        bearer_kept
            ∙ authorization self encoded
            ∙ ap (λ t. some (codes "Bearer " ++ t)) (token ∙ sym shared),
        media_kept ∙ content_type self encoded,
        body ∙ ap (λ b. some b) sent_body,
      )

  -- What the shipper meets, and the server after a number of attempts.
  abbrev pub met : ℕ → Outside
  met = network k args carried interpret latency now now_after self.timeout_global s

  abbrev pub stored_after : ℕ → List Batch
  stored_after n =
      (posted k args carried interpret latency now now_after (request self encoded) s n).store

  limits : (self.retry_count ≤ 10) × (self.retry_backoff_ms ≤ 60000)
  limits =
      let (_, _, few, short) = poster_of_lem _ (from_ini_values-IsUsable read_to_string raw) made in
      (few, short)

  stored_copies : (n : ℕ) → stored_after n ≡ s.store ++ copies n batch
  stored_copies n =
      (posted-store k args carried interpret latency now now_after self encoded batch presented
        decodes s n healthy).1

  -- The poster of a resolved configuration against a server with the same token, no poisoned lock
  -- and a capture directory, if any, that takes every file, over a network that carries a request to
  -- the URL as a POST to the ingest path with the two headers and the body, with a body that the
  -- server decodes to the batch, and with no drain deadline: if the answer, the sleep of the server
  -- included, comes before the timeout, and the agent takes its status for a success, the batch is
  -- sent with one attempt, and the server has stored it once.
  pub handle-delivers :
      latency 0 + args.simulate_slow < self.timeout_global
      → interpret args.respond_with ≡ ok
      → (handle met self encoded none
          ≡ some (record { outcome = Seam.sent; attempts = 1; slept = [] }))
        × (stored_after 1 ≡ s.store ++ (batch ∷ []))
  unfolding handle
  handle-delivers quick fine = (
    run_with_retry-delivers self.retry_count self.retry_backoff_ms (rounds_of met self encoded none)
        0 (λ j. refl) limits.0 limits.1 (omega arith) (λ j low. absurd (omega arith))
        (attempt_sent k args carried interpret latency now now_after self encoded batch presented
          decodes s 0 healthy quick fine),
    stored_copies 1,
  )

  -- The poster of a resolved configuration against a server with the same token, no poisoned lock
  -- and a capture directory, if any, that takes every file, over a network that carries a request to
  -- the URL as a POST to the ingest path with the two headers and the body, with a body that the
  -- server decodes to the batch, and with no drain deadline: if the answers come before the
  -- timeout, and the agent takes their status for the error of that status, the batch is dropped for
  -- it after the retries, the sleeps between the attempts double, and the server has stored one copy
  -- for every attempt.
  pub handle-exhausts :
      ((j : ℕ) → j ≤ self.retry_count → latency j + args.simulate_slow < self.timeout_global)
      → interpret args.respond_with ≡ err (status_code args.respond_with)
      → (handle met self encoded none
          ≡ some (record {
            outcome = Seam.dropped (http_status args.respond_with) (suc self.retry_count);
            attempts = suc self.retry_count;
            slept = doubling self.retry_backoff_ms 0 self.retry_count;
          }))
        × (stored_after (suc self.retry_count) ≡ s.store ++ copies (suc self.retry_count) batch)
  unfolding handle
  handle-exhausts quick bad = (
    run_with_retry-exhausts self.retry_count self.retry_backoff_ms (rounds_of met self encoded none)
        (http_status args.respond_with) (λ j. refl)
        (λ j low.
          attempt_failed k args carried interpret latency now now_after self encoded batch presented
            decodes s j healthy (quick j low) bad)
        limits.0 limits.1,
    stored_copies (suc self.retry_count),
  )

  -- The poster of a resolved configuration against a server with the same token, no poisoned lock
  -- and a capture directory, if any, that takes every file, over a network that carries a request to
  -- the URL as a POST to the ingest path with the two headers and the body, with a body that the
  -- server decodes to the batch, and with no drain deadline: if no answer comes before the
  -- timeout, whatever its status, the batch is dropped for the timeout after the retries, the sleeps
  -- between the attempts double, and the server, once it has handled every attempt, has stored one
  -- copy for each.
  pub handle-times_out :
      ((j : ℕ) → j ≤ self.retry_count → self.timeout_global ≤ latency j + args.simulate_slow)
      → (handle met self encoded none
          ≡ some (record {
            outcome = Seam.dropped Seam.timeout (suc self.retry_count);
            attempts = suc self.retry_count;
            slept = doubling self.retry_backoff_ms 0 self.retry_count;
          }))
        × (stored_after (suc self.retry_count) ≡ s.store ++ copies (suc self.retry_count) batch)
  unfolding handle
  handle-times_out slow = (
    run_with_retry-exhausts self.retry_count self.retry_backoff_ms (rounds_of met self encoded none)
        Seam.timeout (λ j. refl)
        (λ j low.
          attempt_late k args carried interpret latency now now_after self encoded batch presented
            decodes s j healthy (slow j low))
        limits.0 limits.1,
    stored_copies (suc self.retry_count),
  )
