-- ===== src/Recorder/Key.antt =====
-- Function identities: `FunctionKey` and its borrowed view of recorder/types.rs.
pub mod Laws
use php_analyze.Prelude.{ℕ, Bool, false, ◌&&◌, List, [], ◌∷◌, ◌==◌}
use php_analyze.Prelude.Text.{Text, text_eq}

pub data FunctionKey : Type 0 where
  function : Text → Text → ℕ → FunctionKey
  method : Text → Text → FunctionKey
  closure : Text → ℕ → FunctionKey
  internal : Text → FunctionKey

pub data FunctionKeyRef : Type 0 where
  function : Text → Text → ℕ → FunctionKeyRef
  method : Text → Text → FunctionKeyRef
  closure : Text → ℕ → FunctionKeyRef
  internal : Text → FunctionKeyRef

-- One call on the hasher: `write_u8`, `str::hash`, `write_u32`.
pub data HashWrite : Type 0 where
  u8 : ℕ → HashWrite
  str : Text → HashWrite
  u32 : ℕ → HashWrite

abbrev pub fn_key_tag_function : ℕ
fn_key_tag_function = 0

abbrev pub fn_key_tag_method : ℕ
fn_key_tag_method = 1

abbrev pub fn_key_tag_closure : ℕ
fn_key_tag_closure = 2

abbrev pub fn_key_tag_internal : ℕ
fn_key_tag_internal = 3

-- The writes of `FunctionKey::hash`, in order.
unfoldable pub hash_key : FunctionKey → List HashWrite
hash_key (FunctionKey.function file name line) =
    u8 fn_key_tag_function ∷ str file ∷ str name ∷ u32 line ∷ []
hash_key (FunctionKey.method class name) = u8 fn_key_tag_method ∷ str class ∷ str name ∷ []
hash_key (FunctionKey.closure file line) = u8 fn_key_tag_closure ∷ str file ∷ u32 line ∷ []
hash_key (FunctionKey.internal name) = u8 fn_key_tag_internal ∷ str name ∷ []

-- The writes of `FunctionKeyRef::hash`, in order.
unfoldable pub hash_ref : FunctionKeyRef → List HashWrite
hash_ref (FunctionKeyRef.function file name line) =
    u8 fn_key_tag_function ∷ str file ∷ str name ∷ u32 line ∷ []
hash_ref (FunctionKeyRef.method class name) = u8 fn_key_tag_method ∷ str class ∷ str name ∷ []
hash_ref (FunctionKeyRef.closure file line) = u8 fn_key_tag_closure ∷ str file ∷ u32 line ∷ []
hash_ref (FunctionKeyRef.internal name) = u8 fn_key_tag_internal ∷ str name ∷ []

unfoldable pub matches_ref : FunctionKey → FunctionKeyRef → Bool
matches_ref (FunctionKey.function f1 n1 l1) (FunctionKeyRef.function f2 n2 l2) =
    text_eq f1 f2 && text_eq n1 n2 && l1 == l2
matches_ref (FunctionKey.method c1 m1) (FunctionKeyRef.method c2 m2) =
    text_eq c1 c2 && text_eq m1 m2
matches_ref (FunctionKey.closure f1 l1) (FunctionKeyRef.closure f2 l2) = text_eq f1 f2 && l1 == l2
matches_ref (FunctionKey.internal n1) (FunctionKeyRef.internal n2) = text_eq n1 n2
matches_ref _ _ = false

unfoldable pub as_ref : FunctionKey → FunctionKeyRef
as_ref (FunctionKey.function file name line) = FunctionKeyRef.function file name line
as_ref (FunctionKey.method class name) = FunctionKeyRef.method class name
as_ref (FunctionKey.closure file line) = FunctionKeyRef.closure file line
as_ref (FunctionKey.internal name) = FunctionKeyRef.internal name

unfoldable pub to_owned : FunctionKeyRef → FunctionKey
to_owned (FunctionKeyRef.function file name line) = FunctionKey.function file name line
to_owned (FunctionKeyRef.method class name) = FunctionKey.method class name
to_owned (FunctionKeyRef.closure file line) = FunctionKey.closure file line
to_owned (FunctionKeyRef.internal name) = FunctionKey.internal name
