-- ===== src/Stub/Accepts.antt =====
-- Which requests are stored.
use php_analyze.Prelude.{
  ℕ, ◌++◌, ◌&&◌, Bool, true, false, Option, none, some, List, [], ◌∷◌, ◌≡◌, ◌≢◌, ◌↔◌, ◌⊎◌, inl, inr,
  refl, sym, ap, ◌∙◌, arith, Bool-cases, Option-cases, some_eq, if◌then◌else◌,
}
use php_analyze.Prelude.Text.{Text, codes, text_eq, text_eq_iff}
use php_analyze.Wire.{Batch, media_type}
use php_analyze.Stub.Headers.{
  find_header_value, validate_bearer, validate_content_type, capture_headers,
}
use php_analyze.Stub.Headers.Laws.{validate_bearer_iff, validate_content_type_iff}
use php_analyze.Stub.Files.{succeeds, write_captured_batch}
use php_analyze.Stub.Server.{
  Args, Method, get, post, other, Request, Ingest, Codecs, is_post, path_of, insert_addr,
  record_connection, capture, store_batch, validated, handle_ingest, handle_debug_reset,
  dispatch_debug, dispatch,
}

grown_ne {ℓ} : {A : Type ℓ} (xs : List A) (x : A) → xs ≢ xs ++ (x ∷ [])
grown_ne [] x e = cc
grown_ne (y ∷ xs) x e = grown_ne xs x (cc)

last_eq {ℓ} : {A : Type ℓ} (xs : List A) (x y : A) → xs ++ (x ∷ []) ≡ xs ++ (y ∷ []) → x ≡ y
last_eq [] x y e = cc
last_eq (z ∷ xs) x y e = last_eq xs x y (cc)

-- The store after an accepted batch, or after none.
abbrev pub stored : Option Batch → List Batch → List Batch
stored none store = store
stored (some batch) store = store ++ (batch ∷ [])

stored_iff :
    (o : Option Batch) (store : List Batch) (batch : Batch)
    → (stored o store ≡ store ++ (batch ∷ [])) ↔ (o ≡ some batch)
stored_iff none store batch = (λ e. absurd (grown_ne store batch e), λ e. absurd (ground arith))
stored_iff (some b) store batch =
    (λ e. ap some (last_eq store b batch e), λ e. ap (λ c. store ++ (c ∷ [])) (some_eq e))

-- No lock is poisoned.
abbrev pub IsHealthy : Ingest → Type 0
IsHealthy s =
    (s.store_poisoned ≡ false)
    × (s.last_headers_poisoned ≡ false)
    × (s.connections_poisoned ≡ false)

-- What a request presents to be stored: where it goes, its token, its content type and its body.
abbrev pub Presents : Args → Request → List ℕ → Type 0
Presents args request body =
    (request.method ≡ post)
    × (path_of request.url ≡ args.path)
    × (find_header_value request.headers (codes "Authorization")
        ≡ some (codes "Bearer " ++ args.auth_token))
    × (find_header_value request.headers (codes "Content-Type") ≡ some media_type)
    × (request.body ≡ some body)

decoded : (List ℕ → Option Batch) → Option (List ℕ) → Option Batch
decoded from_slice none = none
decoded from_slice (some body) = from_slice body

nil_ne {ℓ} : {A : Type ℓ} (xs : List A) (x : A) → [] ≢ xs ++ (x ∷ [])
nil_ne [] x e = cc
nil_ne (y ∷ xs) x e = cc

is_post_sound : (method : Method) → is_post method ≡ true → method ≡ post
is_post_sound get e = cc
is_post_sound post e = refl
is_post_sound (other name) e = cc

module _ (k : Codecs) (args : Args) (request : Request) where
  abbrev checks : Bool
  checks = validate_bearer request.headers args.auth_token && validate_content_type request.headers

  abbrev is_ingest : Bool
  is_ingest = is_post request.method && text_eq (path_of request.url) args.path

  abbrev accepted : Option Batch
  accepted = if is_ingest && checks then decoded k.from_slice request.body else none

  validated-store :
      (s : Ingest)
      → s.store_poisoned ≡ false
      → (validated k.from_slice args succeeds request s).0.store
        ≡ stored (if checks then decoded k.from_slice request.body else none) s.store
  unfolding validated store_batch capture write_captured_batch decoded
  validated-store s clean = ground arith

  handle_ingest-store :
      (s : Ingest)
      → IsHealthy s
      → (handle_ingest k.from_slice args succeeds request s).0.store
        ≡ stored (if checks then decoded k.from_slice request.body else none) s.store
  unfolding handle_ingest record_connection
  handle_ingest-store s (clean, open_headers, open_connections) =
      let s1 : Ingest = record s { last_headers = some (capture_headers request.headers) } in
      ground (
        arith,
        validated-store s1 clean,
        λ (addr : ℕ).
            validated-store (record s1 { connections = insert_addr addr s.connections }) clean,
      )

  dispatch-store :
      (s : Ingest)
      → IsHealthy s
      → is_ingest ≡ true
      → (dispatch k args succeeds request s).0.store ≡ stored accepted s.store
  unfolding dispatch
  dispatch-store s healthy to_ingest = ground (arith, handle_ingest-store s healthy)

  -- The other routes keep the store or clear it.
  dispatch_debug-store :
      (method : Method) (path : Text) (s : Ingest)
      → ((dispatch_debug k args method path s).0.store ≡ s.store)
        ⊎ ((dispatch_debug k args method path s).0.store ≡ [])
  unfolding dispatch_debug handle_debug_reset
  dispatch_debug-store get path s = inl (ground arith)
  dispatch_debug-store post path s = ground arith
  dispatch_debug-store (other name) path s = inl (ground arith)

  dispatch_debug-ne :
      (path : Text) (s : Ingest) (batch : Batch)
      → (dispatch_debug k args request.method path s).0.store ≢ s.store ++ (batch ∷ [])
  dispatch_debug-ne path s batch e = elim (dispatch_debug-store request.method path s) [
    | inl kept ↦ grown_ne s.store batch (sym kept ∙ e)
    | inr cleared ↦ nil_ne s.store batch (sym cleared ∙ e)
  ]

  is_ingest_iff : (is_ingest ≡ true) ↔ ((request.method ≡ post) × (path_of request.url ≡ args.path))
  is_ingest_iff = (
    λ e. (is_post_sound request.method (ground arith), (text_eq_iff _ _).0 (ground arith)),
    λ (to, there). ground (arith, (text_eq_iff _ _).1 there, ap is_post to),
  )

  accepted-eq-some :
      (batch : Batch)
      → accepted ≡ some batch
      → (body : List ℕ) × Presents args request body × (k.from_slice body ≡ some batch)
  unfolding decoded
  accepted-eq-some batch e = elim (Option-cases request.body) [
    | inl unread ↦ absurd (ground arith)
    | inr (body, there) ↦
        let (to, at) = is_ingest_iff.0 (ground arith) in
        (
          body,
          (
            to,
            at,
            (validate_bearer_iff request.headers args.auth_token).0 (ground arith),
            (validate_content_type_iff request.headers).0 (ground arith),
            there,
          ),
          ground arith,
        )
  ]

  accepted_of_Presents :
      (batch : Batch) (body : List ℕ)
      → Presents args request body
      → k.from_slice body ≡ some batch
      → accepted ≡ some batch
  unfolding decoded
  accepted_of_Presents batch body (to, there, token, media, sent) e = ground (
    arith,
    is_ingest_iff.1 (to, there),
    (validate_bearer_iff request.headers args.auth_token).1 token,
    (validate_content_type_iff request.headers).1 media,
  )

-- While no lock is poisoned and the writes succeed: a request puts a batch at the end of the store
-- exactly if it is a POST to the ingest path with the configured bearer token, the content type of
-- the wire schema and a body that decodes to the batch.
pub dispatch-stores :
    (k : Codecs) (args : Args) (request : Request) (s : Ingest) (batch : Batch)
    → IsHealthy s
    → ((dispatch k args succeeds request s).0.store ≡ s.store ++ (batch ∷ []))
      ↔ ((body : List ℕ) × Presents args request body × (k.from_slice body ≡ some batch))
unfolding dispatch
dispatch-stores k args request s batch healthy = elim (Bool-cases (is_ingest k args request)) [
  | inl to_ingest ↦
      let here = dispatch-store k args request s healthy to_ingest in
      let (gave, gives) = stored_iff (accepted k args request) s.store batch in
      (
        λ e. accepted-eq-some k args request batch (gave (sym here ∙ e)),
        λ (body, presents, decodes).
            here ∙ gives (accepted_of_Presents k args request batch body presents decodes),
      )
  | inr elsewhere ↦
      let aside : (dispatch k args succeeds request s).0.store
          ≡ (dispatch_debug k args request.method (path_of request.url) s).0.store =
        ground arith in
      (
        λ e.
            absurd (dispatch_debug-ne k args request (path_of request.url) s batch (sym aside ∙ e)),
        λ (body, presents, decodes).
            absurd (ground (arith, (is_ingest_iff k args request).1 (presents.0, presents.1))),
      )
]
