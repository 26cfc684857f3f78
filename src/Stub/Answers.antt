-- ===== src/Stub/Answers.antt =====
-- The answer to a request that is stored.
use php_analyze.Prelude.{ℕ, ◌++◌, false, some, List, [], ◌∷◌, ◌≡◌, ap, ◌∙◌, arith}
use php_analyze.Prelude.Text.{text_eq_iff}
use php_analyze.Wire.{Batch}
use php_analyze.Stub.Headers.{capture_headers}
use php_analyze.Stub.Headers.Laws.{validate_bearer_iff, validate_content_type_iff}
use php_analyze.Stub.Files.{FileWrite, succeeds}
use php_analyze.Stub.Server.{
  Args, Request, Reply, Ingest, Codecs, is_post, path_of, insert_addr, record_connection, capture,
  store_batch, validated, handle_ingest, dispatch, dispatch_debug, handle_debug_reset,
}
use php_analyze.Stub.Accepts.{IsHealthy, Presents, dispatch-stores}

module _ (k : Codecs) (args : Args) (request : Request) (body : List ℕ) (batch : Batch)
    (presents : Presents args request body) (decodes : k.from_slice body ≡ some batch) where
  -- The configured status, without a body, after the configured sleep.
  abbrev answer : Reply
  answer = record { status = args.respond_with; body = []; slept = args.simulate_slow }

  store_batch-answer :
      (s : Ingest)
      → s.store_poisoned ≡ false
      → (store_batch k.from_slice args succeeds body batch s).1 ≡ answer
  unfolding store_batch capture
  store_batch-answer s clean = ground arith

  validated-answer :
      (s : Ingest)
      → s.store_poisoned ≡ false
      → (validated k.from_slice args succeeds request s).1 ≡ answer
  unfolding validated
  validated-answer s clean =
      let (_, _, token, media, sent) = presents in
      ground (
        arith,
        (validate_bearer_iff request.headers args.auth_token).1 token,
        (validate_content_type_iff request.headers).1 media,
        store_batch-answer s clean,
      )

  handle_ingest-answer :
      (s : Ingest) → IsHealthy s → (handle_ingest k.from_slice args succeeds request s).1 ≡ answer
  unfolding handle_ingest record_connection
  handle_ingest-answer s (clean, open_headers, open_connections) =
      let s1 : Ingest = record s { last_headers = some (capture_headers request.headers) } in
      ground (
        arith,
        validated-answer s1 clean,
        λ (addr : ℕ).
            validated-answer (record s1 { connections = insert_addr addr s.connections }) clean,
      )

  dispatch-answer : (s : Ingest) → IsHealthy s → (dispatch k args succeeds request s).1 ≡ answer
  unfolding dispatch
  dispatch-answer s healthy =
      let (to, there, _, _, _) = presents in
      ground (
        arith,
        handle_ingest-answer s healthy,
        ap is_post to,
        (text_eq_iff (path_of request.url) args.path).1 there,
      )

  pub dispatch-accepted :
      (s : Ingest)
      → IsHealthy s
      → ((dispatch k args succeeds request s).0.store ≡ s.store ++ (batch ∷ []))
        × ((dispatch k args succeeds request s).1.status ≡ args.respond_with)
        × ((dispatch k args succeeds request s).1.slept ≡ args.simulate_slow)
  dispatch-accepted s healthy = (
    (dispatch-stores k args request s batch healthy).1 (body, presents, decodes),
    ap (λ r. r.status) (dispatch-answer s healthy),
    ap (λ r. r.slept) (dispatch-answer s healthy),
  )

-- No request poisons a lock.
module _ (k : Codecs) (args : Args) (writes : FileWrite) (request : Request) (s : Ingest) where
  pub dispatch-store_poisoned :
      (dispatch k args writes request s).0.store_poisoned ≡ s.store_poisoned
  unfolding dispatch handle_ingest record_connection validated store_batch capture dispatch_debug
      handle_debug_reset
  dispatch-store_poisoned = ground arith

  dispatch-last_headers_poisoned :
      (dispatch k args writes request s).0.last_headers_poisoned ≡ s.last_headers_poisoned
  unfolding dispatch handle_ingest record_connection validated store_batch capture dispatch_debug
      handle_debug_reset
  dispatch-last_headers_poisoned = ground arith

  dispatch-connections_poisoned :
      (dispatch k args writes request s).0.connections_poisoned ≡ s.connections_poisoned
  unfolding dispatch handle_ingest record_connection validated store_batch capture dispatch_debug
      handle_debug_reset
  dispatch-connections_poisoned = ground arith

  pub dispatch-IsHealthy : IsHealthy s → IsHealthy (dispatch k args writes request s).0
  dispatch-IsHealthy (a, b, c) = (
    dispatch-store_poisoned ∙ a,
    dispatch-last_headers_poisoned ∙ b,
    dispatch-connections_poisoned ∙ c,
  )
