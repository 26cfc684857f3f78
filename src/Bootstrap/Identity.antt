-- ===== src/Bootstrap/Identity.antt =====
-- The identity of a request, from what the server interface and the system tell, as lists of bytes.
use php_analyze.Prelude.{ℕ, Bool, Option, none, some, List, [], ◌∷◌, ◌==◌, if◌then◌else◌}
use php_analyze.Prelude.Text.{Text, codes}
use php_analyze.Prelude.Utf8.{from_utf8}
use php_analyze.Recorder.Types.{RequestIdentity}

-- `Option::or`
abbrev or_else : Option Text → Option Text → Option Text
or_else none b = b
or_else (some a) b = some a

abbrev unwrap_or_text : Option Text → Text → Text
unwrap_or_text none d = d
unwrap_or_text (some a) d = a

unfoldable pub resolve_uri_or_script : Option Text → Option Text → Option Text → Text
resolve_uri_or_script request_uri argv0 path_translated =
    unwrap_or_text (or_else (or_else request_uri argv0) path_translated) (codes "(unknown-uri)")

-- `pid` is what `std::process::id` gives.
unfoldable pub request_identity_from_sapi :
    Text → Option Text → Option Text → Option Text → Option Text → ℕ → RequestIdentity
unfolding resolve_uri_or_script
request_identity_from_sapi sapi_name request_uri argv0 path_translated hostname pid = record {
  host = unwrap_or_text hostname (codes "(unknown-host)");
  sapi = sapi_name;
  pid = pid;
  uri_or_script = resolve_uri_or_script request_uri argv0 path_translated;
}

-- The bytes before the first NUL.
unfoldable pub until_nul : List ℕ → List ℕ
until_nul [] = []
until_nul (b ∷ bs) = let rest = until_nul bs in if b == 0 then [] else b ∷ rest

-- What `gethostname` answers: whether it failed, and the buffer.
unfoldable pub read_hostname : Bool → List ℕ → Option Text
unfolding until_nul from_utf8
read_hostname failed buf = if failed then none else from_utf8 (until_nul buf)

-- The name in the SAPI module: the memory that it points at.
unfoldable pub sapi_name_of : Option (List ℕ) → Text
unfolding until_nul from_utf8
sapi_name_of none = []
sapi_name_of (some memory) = unwrap_or_text (from_utf8 (until_nul memory)) []

unfoldable pub build_request_identity :
    Option (List ℕ) → Option Text → Option Text → Option Text → Bool → List ℕ → ℕ → RequestIdentity
unfolding sapi_name_of read_hostname request_identity_from_sapi
build_request_identity module_name request_uri argv0 path_translated failed buf =
    request_identity_from_sapi (sapi_name_of module_name) request_uri argv0 path_translated
      (read_hostname failed buf)
