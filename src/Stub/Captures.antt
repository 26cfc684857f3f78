-- ===== src/Stub/Captures.antt =====
-- "Successful capture = successful store": the files and the store.
pub mod Stored
use php_analyze.Prelude.{
  ℕ, suc, ◌+◌, ◌%◌, ◌<◌, ◌≤◌, Bool, true, false, Option, none, some, List, [], ◌∷◌, ◌++◌, ◌&&◌, ◌≡◌,
  ◌≢◌, refl, sym, ap, ◌∙◌, inl, inr, arith, length, map, All, All-append, In, Bool-cases,
  Option-cases, append_assoc, append-nil, is_empty,
}
use php_analyze.Prelude.Text.{Text, codes, text_eq}
use php_analyze.Prelude.Words.{u64_mod}
use php_analyze.Wire.{Batch}
use php_analyze.Stub.Headers.{validate_bearer, validate_content_type, capture_headers}
use php_analyze.Stub.Files.{
  FileWrite, succeeds, fails, remains, Captured, batch_file_name, write_captured_batch,
}
use php_analyze.Stub.Files.Names.{batch_file_name-injective}
use php_analyze.Stub.Server.{
  Args, Method, get, post, other, Request, Ingest, Codecs, is_post, path_of, capture, store_batch,
  validated, record_connection, handle_ingest, handle_debug_reset, dispatch_debug, dispatch, serve,
}
use php_analyze.Stub.Accepts.{IsHealthy}

abbrev pub with_file : ℕ → List ℕ → Captured → Captured
with_file n body c = record {
  capture_counter = n;
  written = c.written ++ ((batch_file_name n, body) ∷ []);
  files = c.files ++ ((batch_file_name n, body) ∷ []);
}

abbrev pub with_remains : ℕ → Option (List ℕ) → Captured → Captured
with_remains n left c = record c {
  capture_counter = n;
  files = c.files ++ remains (batch_file_name n) left;
}

record_connection-eq-some :
    (addr : Option ℕ) (s : Ingest) {s' : Ingest}
    → record_connection addr s ≡ some s'
    → (s'.captured ≡ s.captured) × (s'.store ≡ s.store) × (s'.store_poisoned ≡ s.store_poisoned)
unfolding record_connection
record_connection-eq-some none s e = ground arith
record_connection-eq-some (some a) s e = ground arith

module _ (k : Codecs) (args : Args) (dir : Text) (captures : args.capture_dir ≡ some dir) where
  -- What a request does to the files and the store.
  pub data Served (s s' : Ingest) : Type 0 where
    kept : s'.captured ≡ s.captured → s'.store ≡ s.store → Served s s'
    cleared : s'.captured ≡ s.captured → s'.store ≡ [] → Served s s'
    failed :
        (left : Option (List ℕ))
        → s'.captured ≡ with_remains ((s.captured.capture_counter + 1) % u64_mod) left s.captured
        → s'.store ≡ s.store
        → Served s s'
    written :
        (body : List ℕ) (batch : Batch)
        → k.from_slice body ≡ some batch
        → s'.captured ≡ with_file ((s.captured.capture_counter + 1) % u64_mod) body s.captured
        → s'.store ≡ s.store ++ (batch ∷ [])
        → Served s s'

  store_batch-Served :
      (writes : FileWrite) (body : List ℕ) (batch : Batch) (s : Ingest)
      → s.store_poisoned ≡ false
      → k.from_slice body ≡ some batch
      → Served s (store_batch k.from_slice args writes body batch s).0
  unfolding store_batch capture write_captured_batch
  store_batch-Served succeeds body batch s clean e =
      written body batch e (ground arith) (ground arith)
  store_batch-Served (fails left) body batch s clean e = failed left (ground arith) (ground arith)

  validated-Served :
      (writes : FileWrite) (request : Request) (s : Ingest)
      → s.store_poisoned ≡ false
      → Served s (validated k.from_slice args writes request s).0
  unfolding validated
  validated-Served writes request s clean = elim (Option-cases request.body) [
    | inl unread ↦ kept (ground arith) (ground arith)
    | inr (body, there) ↦ elim (Option-cases (k.from_slice body)) [
      | inl undecoded ↦ kept (ground arith) (ground arith)
      | inr (batch, decodes) ↦
          elim (Bool-cases (
            validate_bearer request.headers args.auth_token
            && validate_content_type request.headers)) [
              | inr refused ↦ kept (ground arith) (ground arith)
              | inl passed ↦
                  let here : (validated k.from_slice args writes request s).0
                      ≡ (store_batch k.from_slice args writes body batch s).0 =
                    ground arith in
                  rw here (store_batch-Served writes body batch s clean decodes)
            ]
    ]
  ]

  -- What the handlers change besides is not a file and not the store.
  Served-from :
      (s s1 s' : Ingest)
      → s1.captured ≡ s.captured
      → s1.store ≡ s.store
      → Served s1 s'
      → Served s s'
  Served-from s s1 s' c e (kept c' e') = kept (c' ∙ c) (e' ∙ e)
  Served-from s s1 s' c e (cleared c' e') = cleared (c' ∙ c) e'
  Served-from s s1 s' c e (failed left c' e') = failed left (ground arith) (e' ∙ e)
  Served-from s s1 s' c e (written body batch d c' e') =
      written body batch d (ground arith) (ground arith)

  handle_ingest-Served :
      (writes : FileWrite) (request : Request) (s : Ingest)
      → s.store_poisoned ≡ false
      → Served s (handle_ingest k.from_slice args writes request s).0
  unfolding handle_ingest record_connection
  handle_ingest-Served writes request s clean =
      let s1 : Ingest = record s { last_headers = some (capture_headers request.headers) } in
      elim (Bool-cases s.last_headers_poisoned) [
        | inl stuck ↦ kept (ground arith) (ground arith)
        | inr free ↦ elim (Option-cases (record_connection request.remote_addr s1)) [
          | inl stuck ↦ kept (ground arith) (ground arith)
          | inr (s2, counted) ↦
              let (c, e, p) = record_connection-eq-some request.remote_addr s1 counted in
              let here : (handle_ingest k.from_slice args writes request s).0
                  ≡ (validated k.from_slice args writes request s2).0 =
                ground arith in
              rw here (Served-from s s2 _ c e (validated-Served writes request s2 (p ∙ clean)))
        ]
      ]

  dispatch_debug-Served :
      (method : Method) (path : Text) (s : Ingest)
      → Served s (dispatch_debug k args method path s).0
  unfolding dispatch_debug handle_debug_reset
  dispatch_debug-Served get path s = kept (ground arith) (ground arith)
  dispatch_debug-Served post path s = elim (Bool-cases (text_eq path (codes "/debug/reset"))) [
    | inr elsewhere ↦ kept (ground arith) (ground arith)
    | inl reset ↦ elim (Bool-cases s.store_poisoned) [
      | inl stuck ↦ kept (ground arith) (ground arith)
      | inr free ↦ cleared (ground arith) (ground arith)
    ]
  ]
  dispatch_debug-Served (other name) path s = kept (ground arith) (ground arith)

  pub dispatch-Served :
      (writes : FileWrite) (request : Request) (s : Ingest)
      → s.store_poisoned ≡ false
      → Served s (dispatch k args writes request s).0
  unfolding dispatch
  dispatch-Served writes request s clean =
      elim (Bool-cases (is_post request.method && text_eq (path_of request.url) args.path)) [
        | inl to_ingest ↦
            let here : (dispatch k args writes request s).0
                ≡ (handle_ingest k.from_slice args writes request s).0 =
              ground arith in
            rw here (handle_ingest-Served writes request s clean)
        | inr elsewhere ↦
            let here : (dispatch k args writes request s).0
                ≡ (dispatch_debug k args request.method (path_of request.url) s).0 =
              ground arith in
            rw here (dispatch_debug-Served request.method (path_of request.url) s)
      ]
