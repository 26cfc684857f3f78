-- ===== src/Stub/Server.antt =====
-- `dispatch` and the handlers. The decoder of the body and the encoders of the answers are libraries'.
-- What goes to stderr is left out.
use php_analyze.Prelude.{
  ℕ, ◌++◌, ◌&&◌, Bool, true, false, Option, none, some, List, [], ◌∷◌, length, ltb, ◌==◌,
  if◌then◌else◌,
}
use php_analyze.Prelude.Text.{Text, codes, text_eq}
use php_analyze.Prelude.Strings.{split}
use php_analyze.Wire.{Batch}
use php_analyze.Stub.Headers.{Header, validate_bearer, validate_content_type, capture_headers}
use php_analyze.Stub.Files.{Captured, FileWrite, write_captured_batch}

pub record Args : Type 0 where
  pub auth_token : Text
  pub path : Text
  pub respond_with : ℕ
  pub simulate_slow : ℕ
  pub capture_dir : Option Text

pub data Method : Type 0 where
  get post : Method
  other : Text → Method

-- A socket address is its place in the order of addresses. `body` is what `read_to_end` gives.
pub record Request : Type 0 where
  pub method : Method
  pub url : Text
  pub headers : List Header
  pub remote_addr : Option ℕ
  pub body : Option (List ℕ)

-- The three locked cells, each with its poison flag, and the captured files.
pub record Ingest : Type 0 where
  pub store : List Batch
  pub store_poisoned : Bool
  pub last_headers : Option (List Header)
  pub last_headers_poisoned : Bool
  pub connections : List ℕ
  pub connections_poisoned : Bool
  pub captured : Captured

-- `slept` is how long the server sleeps before it answers.
pub record Reply : Type 0 where
  pub status : ℕ
  pub body : List ℕ
  pub slept : ℕ

abbrev pub respond_empty : ℕ → Reply
respond_empty status = record { status = status; body = []; slept = 0 }

abbrev respond_data : List ℕ → Reply
respond_data bytes = record { status = 200; body = bytes; slept = 0 }

-- `BTreeSet::insert`
unfoldable pub insert_addr : ℕ → List ℕ → List ℕ
insert_addr addr [] = addr ∷ []
insert_addr addr (first ∷ rest) =
    let later = insert_addr addr rest in
    if ltb addr first
    then addr ∷ first ∷ rest
    else if addr == first
    then first ∷ rest
    else first ∷ later

-- `none` is a poisoned lock; a request without an address leaves the set alone.
unfoldable pub record_connection : Option ℕ → Ingest → Option Ingest
unfolding insert_addr
record_connection none s = some s
record_connection (some addr) s =
    if s.connections_poisoned
    then none
    else some (record s { connections = insert_addr addr s.connections })

-- The path without a query string.
unfoldable pub path_of : Text → Text
unfolding split
path_of url = elim (split b'?' url) [ [] ↦ [] | first ∷ rest ↦ first ]

-- `writes` is what the file system gives for the write of a file.
module _ (from_slice : List ℕ → Option Batch) (args : Args) where
  -- The file of a body, when there is a directory for it.
  unfoldable pub capture : FileWrite → List ℕ → Ingest → Bool × Ingest
  unfolding write_captured_batch
  capture writes body s = elim args.capture_dir [
    | none ↦ (true, s)
    | some dir ↦
        let (done, c) = write_captured_batch writes body s.captured in
        (done, record s { captured = c })
  ]

  -- What follows the decoder.
  unfoldable pub store_batch : FileWrite → List ℕ → Batch → Ingest → Ingest × Reply
  unfolding capture
  store_batch writes body batch s =
      let (done, s') = capture writes body s in
      if done
      then (if s'.store_poisoned then (s', respond_empty 500) else (
        record s' { store = s'.store ++ (batch ∷ []) },
        record { status = args.respond_with; body = []; slept = args.simulate_slow },
      ))
      else (s', respond_empty 500)

  -- What follows the capture of the headers and the connection.
  unfoldable pub validated : FileWrite → Request → Ingest → Ingest × Reply
  unfolding validate_bearer validate_content_type store_batch
  validated writes request s =
      if validate_bearer request.headers args.auth_token
      then (if validate_content_type request.headers
          then elim request.body [
            | none ↦ (s, respond_empty 400)
            | some body ↦ elim (from_slice body) [
              | none ↦ (s, respond_empty 400)
              | some batch ↦ store_batch writes body batch s
            ]
          ]
          else (s, respond_empty 415))
      else (s, respond_empty 401)

  unfoldable pub handle_ingest : FileWrite → Request → Ingest → Ingest × Reply
  unfolding capture_headers record_connection validated
  handle_ingest writes request s =
      if s.last_headers_poisoned
      then (s, respond_empty 500)
      else let s1 : Ingest = record s { last_headers = some (capture_headers request.headers) } in
        elim (record_connection request.remote_addr s1) [
          | none ↦ (s1, respond_empty 500)
          | some s2 ↦ validated writes request s2
        ]

-- The answer with the encoded bytes, or the failure of the encoder.
abbrev encoded : Option (List ℕ) → Reply
encoded none = respond_empty 500
encoded (some bytes) = respond_data bytes

module _ (to_vec_pretty : List Batch → Option (List ℕ)) where
  unfoldable pub handle_debug_batches : Ingest → Reply
  handle_debug_batches s =
      if s.store_poisoned then respond_empty 500 else encoded (to_vec_pretty s.store)

module _ (to_vec : List Header → Option (List ℕ)) where
  unfoldable pub handle_debug_last_request_headers : Ingest → Reply
  handle_debug_last_request_headers s =
      if s.last_headers_poisoned
      then respond_empty 500
      else elim s.last_headers [ none ↦ respond_empty 404 | some pairs ↦ encoded (to_vec pairs) ]

module _ (count_to_vec : ℕ → Option (List ℕ)) where
  unfoldable pub handle_debug_connection_count : Ingest → Reply
  handle_debug_connection_count s =
      if s.connections_poisoned
      then respond_empty 500
      else encoded (count_to_vec (length s.connections))

-- The cells are cleared one after the other; a poisoned lock ends it.
unfoldable pub handle_debug_reset : Ingest → Ingest × Reply
handle_debug_reset s =
    if s.store_poisoned
    then (s, respond_empty 500)
    else let s1 : Ingest = record s { store = [] } in
      if s1.last_headers_poisoned
      then (s1, respond_empty 500)
      else let s2 : Ingest = record s1 { last_headers = none } in
        if s2.connections_poisoned
        then (s2, respond_empty 500)
        else (record s2 { connections = [] }, respond_empty 200)

-- The libraries that the server calls.
pub record Codecs : Type 0 where
  pub from_slice : List ℕ → Option Batch
  pub to_vec_pretty : List Batch → Option (List ℕ)
  pub to_vec : List Header → Option (List ℕ)
  pub count_to_vec : ℕ → Option (List ℕ)

abbrev pub is_post : Method → Bool
is_post post = true
is_post _ = false

module _ (k : Codecs) (args : Args) where
  -- The routes that come after the ingest path.
  unfoldable pub dispatch_debug : Method → Text → Ingest → Ingest × Reply
  unfolding text_eq handle_debug_batches handle_debug_last_request_headers
      handle_debug_connection_count handle_debug_reset
  dispatch_debug get path s =
      if text_eq path (codes "/debug/batches")
      then (s, handle_debug_batches k.to_vec_pretty s)
      else if text_eq path (codes "/debug/last_request_headers")
      then (s, handle_debug_last_request_headers k.to_vec s)
      else if text_eq path (codes "/debug/connection_count")
      then (s, handle_debug_connection_count k.count_to_vec s)
      else if text_eq path args.path
      then (s, respond_empty 405)
      else (s, respond_empty 404)
  dispatch_debug post path s =
      if text_eq path (codes "/debug/reset") then handle_debug_reset s else (s, respond_empty 404)
  dispatch_debug (other name) path s =
      if text_eq path args.path then (s, respond_empty 405) else (s, respond_empty 404)

  unfoldable pub dispatch : FileWrite → Request → Ingest → Ingest × Reply
  unfolding path_of handle_ingest dispatch_debug
  dispatch writes request s =
      let path = path_of request.url in
      if is_post request.method && text_eq path args.path
      then handle_ingest k.from_slice args writes request s
      else dispatch_debug request.method path s

  -- `serve` on the requests that `recv` gives, each with the answer of the file system.
  unfoldable pub serve : List (FileWrite × Request) → Ingest → Ingest × List Reply
  unfolding dispatch
  serve [] s = (s, [])
  serve ((writes, request) ∷ rest) s =
      let (s', reply) = dispatch writes request s in
      let (s'', replies) = serve rest s' in (s'', reply ∷ replies)
