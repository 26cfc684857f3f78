-- ===== src/Stub/Captures/Stored.antt =====
-- The captured files over the life of the server.
use php_analyze.Prelude.{
  ℕ, ◌+◌, ◌%◌, ◌<◌, ◌≤◌, false, Option, none, some, List, [], ◌∷◌, ◌++◌, ◌≡◌, refl, sym, ap, ◌∙◌,
  inl, inr, arith, length, map, All, All-append, In, In-append, In-append_left, In-append_right,
  append_assoc, append-nil,
}
use mathlib.Core.Path.{subst}
use php_analyze.Prelude.Text.{Text}
use php_analyze.Prelude.Words.{u64_mod}
use php_analyze.Wire.{Batch}
use php_analyze.Stub.Files.{FileWrite, remains, Captured, batch_file_name}
use php_analyze.Stub.Files.Names.{batch_file_name-injective}
use php_analyze.Stub.Server.{Args, Request, Ingest, Codecs, dispatch, serve}
use php_analyze.Stub.Answers.{dispatch-store_poisoned}
use php_analyze.Stub.Captures.{
  with_file, with_remains, Served, kept, cleared, failed, written, dispatch-Served,
}

abbrev pub Distinct : List Text → Type 0
Distinct [] = Unit
Distinct (x ∷ xs) = ¬ In x xs × Distinct xs

Distinct-append : (xs : List Text) (x : Text) → Distinct xs → ¬ In x xs → Distinct (xs ++ (x ∷ []))
Distinct-append [] x d out = ((λ h. h), tt)
Distinct-append (y ∷ xs) x (here, d) out = (
  λ h. elim (In-append y xs (x ∷ []) h) [
    | inl old ↦ here old
    | inr (inl same) ↦ out (inl (sym same))
    | inr (inr never) ↦ never
  ],
  Distinct-append xs x d (λ h. out (inr h)),
)

map-append {ℓ κ} :
    {A : Type ℓ} {B : Type κ} (f : A → B) (xs ys : List A) → map f (xs ++ ys) ≡ map f xs ++ map f ys
map-append f [] ys = refl
map-append f (x ∷ xs) ys = ap (λ r. f x ∷ r) (map-append f xs ys)

-- A file has the name of a number up to the counter.
abbrev IsNumbered : ℕ → Text → Type 0
IsNumbered counter name = (n : ℕ) × (n ≤ counter) × (name ≡ batch_file_name n)

IsNumbered-later :
    (names : List Text) (m n : ℕ) → m ≤ n → All (IsNumbered m) names → All (IsNumbered n) names
IsNumbered-later [] m n h all = tt
IsNumbered-later (x ∷ names) m n h ((i, low, e), all) =
    ((i, omega arith, e), IsNumbered-later names m n h all)

unused :
    (names : List Text) (m : ℕ) → All (IsNumbered m) names → ¬ In (batch_file_name (m + 1)) names
unused [] m all h = h
unused (x ∷ names) m ((i, low, e), all) (inl same) =
    absurd (omega (arith, batch_file_name-injective (m + 1) i (same ∙ e)))
unused (x ∷ names) m (_, all) (inr h) = unused names m all h

abbrev names_of : List (Text × List ℕ) → List Text
names_of files = map (λ f. f.0) files

module _ (k : Codecs) where
  abbrev bodies_of : List (Text × List ℕ) → List (Option Batch)
  bodies_of files = map (λ f. k.from_slice f.1) files

  -- No two files have one name, those of the successful writes are among them, and the bodies of the
  -- successful writes decode to batches, of which the store holds the last ones, in the order in
  -- which they came.
  abbrev pub IsCaptured : Captured → List Batch → Type 0
  IsCaptured c store =
      Distinct (names_of c.files)
      × Distinct (names_of c.written)
      × All (λ f. In f c.files) c.written
      × ((earlier : List Batch) × (bodies_of c.written ≡ map (λ b. some b) (earlier ++ store)))

  -- The names and the batches of a list of files.
  abbrev AreFresh : ℕ → List (Text × List ℕ) → Type 0
  AreFresh counter files = All (IsNumbered counter) (names_of files) × Distinct (names_of files)

  abbrev AreStored : List (Text × List ℕ) → List Batch → Type 0
  AreStored files store =
      (earlier : List Batch) × (bodies_of files ≡ map (λ b. some b) (earlier ++ store))

  abbrev Holds : Captured → List Batch → Type 0
  Holds c store =
      AreFresh c.capture_counter c.files
      × AreFresh c.capture_counter c.written
      × All (λ f. In f c.files) c.written
      × AreStored c.written store

  AreFresh-later :
      (files : List (Text × List ℕ)) (n : ℕ) → AreFresh n files → AreFresh (n + 1) files
  AreFresh-later files n (numbered, distinct) =
      (IsNumbered-later (names_of files) n (n + 1) (omega arith) numbered, distinct)

  AreFresh-append :
      (files : List (Text × List ℕ)) (n : ℕ) (bytes : List ℕ)
      → AreFresh n files
      → AreFresh (n + 1) (files ++ ((batch_file_name (n + 1), bytes) ∷ []))
  AreFresh-append files n bytes (numbered, distinct) =
      let names : names_of (files ++ ((batch_file_name (n + 1), bytes) ∷ []))
          ≡ names_of files ++ (batch_file_name (n + 1) ∷ []) =
        map-append (λ f. f.0) files ((batch_file_name (n + 1), bytes) ∷ []) in
      (
        subst (All (IsNumbered (n + 1))) (sym names) (
            All-append (IsNumbered (n + 1)) (names_of files) (batch_file_name (n + 1) ∷ [])
              (IsNumbered-later (names_of files) n (n + 1) (omega arith) numbered)
              ((n + 1, omega arith, refl), tt)),
        subst Distinct (sym names) (
            Distinct-append (names_of files) (batch_file_name (n + 1)) distinct
              (unused (names_of files) n numbered)),
      )

  AreFresh-remains :
      (files : List (Text × List ℕ)) (n : ℕ) (left : Option (List ℕ))
      → AreFresh n files
      → AreFresh (n + 1) (files ++ remains (batch_file_name (n + 1)) left)
  AreFresh-remains files n none h =
      subst (AreFresh (n + 1)) (sym (append-nil files)) (AreFresh-later files n h)
  AreFresh-remains files n (some bytes) h = AreFresh-append files n bytes h

  In-more :
      (files whole more : List (Text × List ℕ))
      → All (λ f. In f files) whole
      → All (λ f. In f (files ++ more)) whole
  In-more files [] more h = tt
  In-more files (f ∷ whole) more (here, rest) =
      (In-append_left f files more here, In-more files whole more rest)

  AreStored-append :
      (files : List (Text × List ℕ)) (store : List Batch) (name : Text) (body : List ℕ)
      (batch : Batch)
      → k.from_slice body ≡ some batch
      → AreStored files store
      → AreStored (files ++ ((name, body) ∷ [])) (store ++ (batch ∷ []))
  AreStored-append files store name body batch decodes (earlier, decoded) = (
    earlier,
    map-append (λ f. k.from_slice f.1) files ((name, body) ∷ [])
        ∙ ap (λ xs. xs ++ (k.from_slice body ∷ [])) decoded
        ∙ ap (λ o. map (λ b. some b) (earlier ++ store) ++ (o ∷ [])) decodes
        ∙ sym (map-append (λ b. some b) (earlier ++ store) (batch ∷ []))
        ∙ ap (map (λ b. some b)) (append_assoc earlier store (batch ∷ [])),
  )

  Holds-cleared : (c : Captured) (store : List Batch) → Holds c store → Holds c []
  Holds-cleared c store (all, whole, among, (earlier, decoded)) =
      (all, whole, among, (earlier ++ store, decoded ∙ ap (map (λ b. some b)) (sym (append-nil _))))

  Holds-failed :
      (c : Captured) (store : List Batch) (left : Option (List ℕ))
      → Holds c store
      → Holds (with_remains (c.capture_counter + 1) left c) store
  Holds-failed c store left (all, whole, among, decoded) = (
    AreFresh-remains c.files c.capture_counter left all,
    AreFresh-later c.written c.capture_counter whole,
    In-more c.files c.written (remains (batch_file_name (c.capture_counter + 1)) left) among,
    decoded,
  )

  Holds-written :
      (c : Captured) (store : List Batch) (body : List ℕ) (batch : Batch)
      → k.from_slice body ≡ some batch
      → Holds c store
      → Holds (with_file (c.capture_counter + 1) body c) (store ++ (batch ∷ []))
  Holds-written c store body batch decodes (all, whole, among, decoded) =
      let file : Text × List ℕ = (batch_file_name (c.capture_counter + 1), body) in
      (
        AreFresh-append c.files c.capture_counter body all,
        AreFresh-append c.written c.capture_counter body whole,
        All-append (λ f. In f (c.files ++ (file ∷ []))) c.written (file ∷ [])
            (In-more c.files c.written (file ∷ []) among)
            (In-append_right file c.files (file ∷ []) (inl refl), tt),
        AreStored-append c.written store file.0 body batch decodes decoded,
      )

  module _ (args : Args) (dir : Text) (captures : args.capture_dir ≡ some dir) where
    Served-Holds :
        (s s' : Ingest)
        → Served k args dir captures s s'
        → s.captured.capture_counter + 1 < u64_mod
        → Holds s.captured s.store
        → Holds s'.captured s'.store
          × (s'.captured.capture_counter ≤ s.captured.capture_counter + 1)
    Served-Holds s s' (kept c e) room p = rw (c, e) (p, omega arith)
    Served-Holds s s' (cleared c e) room p =
        rw (c, e) (Holds-cleared s.captured s.store p, omega arith)
    Served-Holds s s' (failed left c e) room p =
        let next : (s.captured.capture_counter + 1) % u64_mod ≡ s.captured.capture_counter + 1 =
          omega arith in
        rw (c, e, next) (Holds-failed s.captured s.store left p, omega arith)
    Served-Holds s s' (written body batch d c e) room p =
        let next : (s.captured.capture_counter + 1) % u64_mod ≡ s.captured.capture_counter + 1 =
          omega arith in
        rw (c, e, next) (Holds-written s.captured s.store body batch d p, omega arith)

    serve-Holds :
        (requests : List (FileWrite × Request)) (s : Ingest)
        → s.store_poisoned ≡ false
        → s.captured.capture_counter + length requests < u64_mod
        → Holds s.captured s.store
        → Holds (serve k args requests s).0.captured (serve k args requests s).0.store
    unfolding serve
    serve-Holds [] s clean room p = p
    serve-Holds ((writes, request) ∷ rest) s clean room p =
        let s' = (dispatch k args writes request s).0 in
        let (p', low) =
          Served-Holds s s' (dispatch-Served k args dir captures writes request s clean)
            (omega arith) p in
        serve-Holds rest s' (dispatch-store_poisoned k args writes request s ∙ clean) (omega arith)
          p'

-- The server as it starts.
abbrev pub empty_ingest : Ingest
empty_ingest = record {
  store = [];
  store_poisoned = false;
  last_headers = none;
  last_headers_poisoned = false;
  connections = [];
  connections_poisoned = false;
  captured = record { capture_counter = 0; written = []; files = [] };
}

-- With a capture directory, over any requests in any order (resets, refused ones and failed writes
-- included, whatever those leave) and fewer than 2 ^ 64 of them: no two files have the same name, so
-- none is overwritten; the file of every successful write is there and decodes to a batch; and the
-- store holds the batches of the last of these files, in their order.
pub serve-IsCaptured :
    (k : Codecs) (args : Args) (dir : Text) (requests : List (FileWrite × Request))
    → args.capture_dir ≡ some dir
    → length requests < u64_mod
    → IsCaptured k
        (serve k args requests empty_ingest).0.captured
        (serve k args requests empty_ingest).0.store
serve-IsCaptured k args dir requests captures few =
    let (all, whole, among, decoded) =
      serve-Holds k args dir captures requests empty_ingest refl (omega arith)
        ((tt, tt), (tt, tt), tt, ([], refl)) in
    (all.1, whole.1, among, decoded)
