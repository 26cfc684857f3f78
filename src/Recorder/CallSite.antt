-- ===== src/Recorder/CallSite.antt =====
-- The call sites of recorder/observer.rs and their categories: `RawCallSite`, `categorise`,
-- `categorise_lazy` and `FqnSpec`. A `Cow<str>` is its text.
pub mod Laws
use php_analyze.Prelude.{
  ℕ, ◌+◌, ◌-◌, ◌/◌, ◌%◌, Bool, true, false, Option, none, some, [], ◌++◌, length, ◌==◌,
  if◌then◌else◌,
}
use php_analyze.Prelude.Text.{Text, codes, starts_with}
use php_analyze.Prelude.Digits.{decimal, lower_hex, ilog10, leading_zeros}
use php_analyze.Prelude.Words.{u32_mod}
use php_analyze.Recorder.Key.{FunctionKey, FunctionKeyRef}
use php_analyze.Recorder.Types.{FunctionKind}

pub record RawCallSite : Type 0 where
  pub function_name : Option Text
  pub class_name : Option Text
  pub filename : Option Text
  pub lineno : ℕ
  pub is_internal : Bool
  pub execute_data_addr : ℕ

pub record Categorised : Type 0 where
  pub key : FunctionKey
  pub kind : FunctionKind
  pub fqn : Text
  pub file : Text
  pub line : ℕ

-- `({kind})@0x{addr:x}`
unfoldable pub unknown_placeholder : Text → ℕ → Text
unknown_placeholder kind addr = codes "(" ++ (kind ++ (codes ")@0x" ++ lower_hex addr))

abbrev pub closure_prefix : Text
closure_prefix = codes "{closure"

abbrev pub text_or : Option Text → Text → Text
text_or none d = d
text_or (some s) d = s

-- The third test of both ladders.
unfoldable pub is_closure : RawCallSite → Bool
is_closure info = elim info.function_name [
  | some name ↦ starts_with name closure_prefix
  | none ↦ elim info.filename [ some f ↦ true | none ↦ false ]
]

-- The ladder below the test for internal functions, by the class name.
unfoldable pub categorise_user : RawCallSite → Option Text → Categorised
unfolding unknown_placeholder is_closure
categorise_user info (some class) =
    let name =
      text_or info.function_name (unknown_placeholder (codes "unknown") info.execute_data_addr) in
    record {
      key = FunctionKey.method class name;
      kind = FunctionKind.method;
      fqn = class ++ (codes "::" ++ name);
      file = text_or info.filename [];
      line = info.lineno;
    }
categorise_user info none =
    let file = text_or info.filename [] in
    let name =
      text_or info.function_name (unknown_placeholder (codes "unknown") info.execute_data_addr) in
    if is_closure info
    then record {
      key = FunctionKey.closure file info.lineno;
      kind = FunctionKind.closure;
      fqn = codes "closure:" ++ (file ++ (codes ":" ++ decimal info.lineno));
      file = file;
      line = info.lineno;
    }
    else record {
      key = FunctionKey.function file name info.lineno;
      kind = FunctionKind.function;
      fqn = name;
      file = file;
      line = info.lineno;
    }

unfoldable pub categorise : RawCallSite → Categorised
unfolding categorise_user
categorise info =
    let name =
      text_or info.function_name (unknown_placeholder (codes "anonymous") info.execute_data_addr) in
    if info.is_internal
    then record {
      key = FunctionKey.internal name;
      kind = FunctionKind.internal;
      fqn = name;
      file = [];
      line = 0;
    }
    else categorise_user info info.class_name

pub data FqnSpec : Type 0 where
  borrowed : Text → FqnSpec
  method : Text → Text → FqnSpec
  closure : Text → ℕ → FqnSpec
  unknown : Text → ℕ → FqnSpec

unfoldable pub render : FqnSpec → Text
unfolding unknown_placeholder
render (FqnSpec.borrowed name) = name
render (FqnSpec.method class name) = class ++ (codes "::" ++ name)
render (FqnSpec.closure file line) = codes "closure:" ++ (file ++ (codes ":" ++ decimal line))
render (FqnSpec.unknown kind_label addr) = unknown_placeholder kind_label addr

unfoldable pub render_len : FqnSpec → ℕ
render_len (FqnSpec.borrowed name) = length name
render_len (FqnSpec.method class name) = length class + 2 + length name
render_len (FqnSpec.closure file line) =
    let line_digits = if line == 0 then 1 else ilog10 line + 1 in 8 + length file + 1 + line_digits
render_len (FqnSpec.unknown kind_label addr) =
    let hex_digits = if addr == 0 then 1 else (64 - leading_zeros addr + 3) / 4 in
    1 + length kind_label + 1 + 1 + 2 + hex_digits

pub record LazyCategorised : Type 0 where
  pub key_ref : FunctionKeyRef
  pub kind : FunctionKind
  pub fqn_spec : FqnSpec
  pub file : Text
  pub line : ℕ

-- Branch 1 of `categorise_lazy`, by the function name.
unfoldable pub categorise_lazy_internal : RawCallSite → Option Text → LazyCategorised
categorise_lazy_internal info (some name) = record {
  key_ref = FunctionKeyRef.internal name;
  kind = FunctionKind.internal;
  fqn_spec = FqnSpec.borrowed name;
  file = [];
  line = 0;
}
categorise_lazy_internal info none = record {
  key_ref = FunctionKeyRef.function [] [] (info.execute_data_addr % u32_mod);
  kind = FunctionKind.internal;
  fqn_spec = FqnSpec.unknown (codes "anonymous") info.execute_data_addr;
  file = [];
  line = 0;
}

-- Branches 2 to 4, by the class name.
unfoldable pub categorise_lazy_user : RawCallSite → Option Text → LazyCategorised
unfolding is_closure
categorise_lazy_user info (some class) =
    let name = text_or info.function_name [] in
    record {
      key_ref = FunctionKeyRef.method class name;
      kind = FunctionKind.method;
      fqn_spec = FqnSpec.method class name;
      file = text_or info.filename [];
      line = info.lineno;
    }
categorise_lazy_user info none =
    let file = text_or info.filename [] in
    let name = text_or info.function_name [] in
    if is_closure info
    then record {
      key_ref = FunctionKeyRef.closure file info.lineno;
      kind = FunctionKind.closure;
      fqn_spec = FqnSpec.closure file info.lineno;
      file = file;
      line = info.lineno;
    }
    else record {
      key_ref = FunctionKeyRef.function file name info.lineno;
      kind = FunctionKind.function;
      fqn_spec = FqnSpec.borrowed name;
      file = file;
      line = info.lineno;
    }

unfoldable pub categorise_lazy : RawCallSite → LazyCategorised
unfolding categorise_lazy_internal categorise_lazy_user
categorise_lazy info =
    if info.is_internal
    then categorise_lazy_internal info info.function_name
    else categorise_lazy_user info info.class_name
