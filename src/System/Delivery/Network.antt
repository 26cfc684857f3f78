-- ===== src/System/Delivery/Network.antt =====
-- The network between the shipper and the ingest server, and the attempts of a delivery over it.
use php_analyze.Prelude.{
  ℕ, zero, suc, ◌+◌, ◌<◌, ◌≤◌, ltb, if◌then◌else◌, ◌++◌, none, some, List, [], ◌∷◌, ◌≡◌, refl, sym,
  ap, ◌∙◌, arith, append_assoc, append-nil,
}
use php_analyze.Wire.{Batch}
use php_analyze.Shipper.OnBatch.{http_status}
use php_analyze.Shipper.OnBatch as Seam
use php_analyze.Shipper.Retry.{sent, failed}
use php_analyze.Shipper.Http.{
  RmpEncodeAndHttpPost, HttpRequest, SendAnswer, ok, err, status_code, timeout, Outside, request,
  verdict, map_ureq_error, round_of, rounds_of,
}
use php_analyze.Stub.Files.{succeeds}
use php_analyze.Stub.Server.{Args, Request, Ingest, Codecs, dispatch}
use php_analyze.Stub.Accepts.{IsHealthy, Presents}
use php_analyze.Stub.Answers.{dispatch-accepted, dispatch-IsHealthy}

-- `n` copies.
abbrev pub copies {ℓ} : {A : Type ℓ} → ℕ → A → List A
copies zero x = []
copies (suc n) x = x ∷ copies n x

copies_last {ℓ} : {A : Type ℓ} (n : ℕ) (x : A) → copies n x ++ (x ∷ []) ≡ copies (suc n) x
copies_last zero x = refl
copies_last (suc n) x = ap (λ xs. x ∷ xs) (copies_last n x)

-- What the agent reports of an answer that takes some time: its global timeout ends the wait.
abbrev pub answer_within : ℕ → ℕ → SendAnswer → SendAnswer
answer_within timeout_global delay answer = if ltb delay timeout_global then answer else err timeout

-- The network between the two: `carried` is the request that arrives, `interpret` what the agent
-- makes of the status of an answer in time, `latency` what the network adds to the sleep of the
-- server, and `now` and `now_after` are the clock. A file of the capture directory is written
-- without an error.
module _ (k : Codecs) (args : Args) (carried : HttpRequest → Request) (interpret : ℕ → SendAnswer)
    (latency now now_after : ℕ → ℕ) where
  -- The server after a number of posts of one request, those included whose client gave up.
  abbrev pub posted : HttpRequest → Ingest → ℕ → Ingest
  posted req s zero = s
  posted req s (suc n) = (dispatch k args succeeds (carried req) (posted req s n)).0

  -- The answer of the server to the post of that number, as the agent reports it.
  abbrev pub sent_to : ℕ → Ingest → ℕ → HttpRequest → SendAnswer
  sent_to timeout_global s idx req =
      let reply = (dispatch k args succeeds (carried req) (posted req s idx)).1 in
      answer_within timeout_global (latency idx + reply.slept) (interpret reply.status)

  -- What the shipper meets while no drain deadline is published.
  abbrev pub network : ℕ → Ingest → ℕ → Outside
  network timeout_global s idx = record {
    drain_deadline = none;
    now = now idx;
    send = sent_to timeout_global s idx;
    now_after = now_after idx;
  }

  module _ (self : RmpEncodeAndHttpPost) (encoded : List ℕ) (batch : Batch)
      (presents : Presents args (carried (request self encoded)) encoded)
      (decodes : k.from_slice encoded ≡ some batch) where
    pub posted-store :
        (s : Ingest) (n : ℕ)
        → IsHealthy s
        → IsHealthy (posted (request self encoded) s n)
          × ((posted (request self encoded) s n).store ≡ s.store ++ copies n batch)
    posted-store s zero healthy = (healthy, sym (append-nil s.store))
    posted-store s (suc n) healthy =
        let (still, store) = posted-store s n healthy in
        let before = posted (request self encoded) s n in
        let (more, _, _) =
          dispatch-accepted k args (carried (request self encoded)) encoded batch presents decodes
            before still in
        (
          dispatch-IsHealthy k args succeeds (carried (request self encoded)) before still,
          more
              ∙ ap (λ xs. xs ++ (batch ∷ [])) store
              ∙ append_assoc s.store (copies n batch) (batch ∷ [])
              ∙ ap (λ xs. s.store ++ xs) (copies_last n batch),
        )

    answered :
        (s : Ingest) (idx : ℕ)
        → IsHealthy s
        → sent_to self.timeout_global s idx (request self encoded)
          ≡ answer_within self.timeout_global
              (latency idx + args.simulate_slow)
              (interpret args.respond_with)
    answered s idx healthy =
        let (_, status, slept) =
          dispatch-accepted k args (carried (request self encoded)) encoded batch presents decodes
            (posted (request self encoded) s idx) (posted-store s idx healthy).0 in
        λ i. answer_within self.timeout_global (latency idx + slept i) (interpret (status i))

    pub attempt_sent :
        (s : Ingest) (idx : ℕ)
        → IsHealthy s
        → latency idx + args.simulate_slow < self.timeout_global
        → interpret args.respond_with ≡ ok
        → (rounds_of (network self.timeout_global s) self encoded none idx).attempt ≡ sent
    unfolding round_of
    attempt_sent s idx healthy quick fine = ground (arith, answered s idx healthy)

    pub attempt_failed :
        (s : Ingest) (idx : ℕ)
        → IsHealthy s
        → latency idx + args.simulate_slow < self.timeout_global
        → interpret args.respond_with ≡ err (status_code args.respond_with)
        → (rounds_of (network self.timeout_global s) self encoded none idx).attempt
          ≡ failed (http_status args.respond_with)
    unfolding round_of verdict map_ureq_error
    attempt_failed s idx healthy quick bad = ground (arith, answered s idx healthy)

    pub attempt_late :
        (s : Ingest) (idx : ℕ)
        → IsHealthy s
        → self.timeout_global ≤ latency idx + args.simulate_slow
        → (rounds_of (network self.timeout_global s) self encoded none idx).attempt
          ≡ failed Seam.timeout
    unfolding round_of verdict map_ureq_error
    attempt_late s idx healthy slow = ground (arith, answered s idx healthy)
