-- ===== src/Recorder/Extract/Laws.antt =====
-- What the recorder reads of the engine's strings is text.
use php_analyze.Prelude.{
  ℕ, Bool, true, false, Option, none, some, [], ◌++◌, ◌≡◌, refl, sym, ◌↔◌, arith, inl, inr,
  Bool-cases, if◌then◌else◌, ◌==◌,
}
use mathlib.Core.Path.{subst}
use php_analyze.Prelude.Digits.{decimal, lower_hex}
use php_analyze.Prelude.Text.{Text, codes}
use php_analyze.Prelude.Utf8.{boundary, lead, accept, is_utf8, from_utf8, from_utf8_lossy}
use php_analyze.Prelude.Utf8.Laws.{is_ascii-is_utf8, from_utf8_lossy-is_utf8, from_utf8_lossy_fixed}
use php_analyze.Prelude.Utf8.Concat.{is_utf8-append, decimal-is_utf8, lower_hex-is_utf8}
use php_analyze.Recorder.CallSite.{
  RawCallSite, FqnSpec, LazyCategorised, render, categorise_lazy, categorise_lazy_internal,
  categorise_lazy_user, unknown_placeholder, text_or,
}
use php_analyze.Recorder.Extract.{
  ZendString, ClassEntry, ExecuteData, ZendFunction, zend_string_to_cow, scope_name,
  extract_function, extract_call_site, site_of,
}

-- The three arms are the lossy decoding of the payload, which is always well-formed UTF-8, and is
-- the payload itself exactly if the payload is well-formed.
pub zend_string_to_cow-from_utf8_lossy :
    (payload : ZendString)
    → (zend_string_to_cow (some payload) ≡ some (from_utf8_lossy payload))
      × (is_utf8 boundary (from_utf8_lossy payload) ≡ true)
      × ((from_utf8_lossy payload ≡ payload) ↔ (is_utf8 boundary payload ≡ true))
unfolding zend_string_to_cow from_utf8
zend_string_to_cow-from_utf8_lossy payload = (
  ground (arith, is_ascii-is_utf8 payload, from_utf8_lossy_fixed payload),
  from_utf8_lossy-is_utf8 payload,
  from_utf8_lossy_fixed payload,
)

-- A text, where there is one, is well-formed.
abbrev IsText : Option Text → Type 0
IsText none = Unit
IsText (some s) = is_utf8 boundary s ≡ true

zend_string_to_cow-IsText : (zs : Option ZendString) → IsText (zend_string_to_cow zs)
unfolding zend_string_to_cow
zend_string_to_cow-IsText none = tt
zend_string_to_cow-IsText (some payload) =
    let (e, whole, _) = zend_string_to_cow-from_utf8_lossy payload in subst IsText (sym e) whole

scope_name-IsText : (scope : Option ClassEntry) → IsText (scope_name scope)
unfolding scope_name
scope_name-IsText none = tt
scope_name-IsText (some ce) = zend_string_to_cow-IsText ce.name

record IsTextual (info : RawCallSite) : Type 0 where
  function_name : IsText info.function_name
  class_name : IsText info.class_name
  filename : IsText info.filename

text_or-is_utf8 :
    (o : Option Text) (d : Text)
    → IsText o
    → is_utf8 boundary d ≡ true
    → is_utf8 boundary (text_or o d) ≡ true
text_or-is_utf8 none d h k = k
text_or-is_utf8 (some s) d h k = h

-- The name that is staged for a new function, and its file.
abbrev pub IsNamed : LazyCategorised → Type 0
IsNamed lazy =
    (is_utf8 boundary (render lazy.fqn_spec) ≡ true) × (is_utf8 boundary lazy.file ≡ true)

render_method :
    (class name : Text)
    → is_utf8 boundary class ≡ true
    → is_utf8 boundary name ≡ true
    → is_utf8 boundary (render (FqnSpec.method class name)) ≡ true
unfolding render is_utf8 accept lead
render_method class name h k =
    is_utf8-append boundary class (codes "::" ++ name) h
      (is_utf8-append boundary (codes "::") name refl k)

render_closure :
    (file : Text) (line : ℕ)
    → is_utf8 boundary file ≡ true
    → is_utf8 boundary (render (FqnSpec.closure file line)) ≡ true
unfolding render is_utf8 accept lead
render_closure file line h =
    is_utf8-append boundary (codes "closure:") (file ++ (codes ":" ++ decimal line)) refl (
      is_utf8-append boundary file (codes ":" ++ decimal line) h
        (is_utf8-append boundary (codes ":") (decimal line) refl (decimal-is_utf8 line)))

render_unknown :
    (addr : ℕ) → is_utf8 boundary (render (FqnSpec.unknown (codes "anonymous") addr)) ≡ true
unfolding render unknown_placeholder is_utf8 accept lead
render_unknown addr =
    is_utf8-append boundary (codes "(anonymous)@0x") (lower_hex addr) refl (lower_hex-is_utf8 addr)

categorise_lazy_internal-IsNamed :
    (info : RawCallSite) (name : Option Text)
    → IsText name
    → IsNamed (categorise_lazy_internal info name)
unfolding categorise_lazy_internal render is_utf8
categorise_lazy_internal-IsNamed info none h = (render_unknown info.execute_data_addr, refl)
categorise_lazy_internal-IsNamed info (some name) h = (h, refl)

categorise_lazy_user-IsNamed :
    (info : RawCallSite) (class : Option Text)
    → IsTextual info
    → IsText class
    → IsNamed (categorise_lazy_user info class)
unfolding categorise_lazy_user is_utf8 render
categorise_lazy_user-IsNamed info (some class) t h = (
  render_method class _ h (text_or-is_utf8 info.function_name [] t.function_name refl),
  text_or-is_utf8 info.filename [] t.filename refl,
)
categorise_lazy_user-IsNamed info none t h =
    let file = text_or-is_utf8 info.filename [] t.filename refl in
    ground (
      arith,
      file,
      text_or-is_utf8 info.function_name [] t.function_name refl,
      render_closure (text_or info.filename []) info.lineno file,
    )

categorise_lazy-IsNamed : (info : RawCallSite) → IsTextual info → IsNamed (categorise_lazy info)
unfolding categorise_lazy
categorise_lazy-IsNamed info t = elim (Bool-cases info.is_internal) [
  | inl e ↦ rw e (categorise_lazy_internal-IsNamed info info.function_name t.function_name)
  | inr e ↦ rw e (categorise_lazy_user-IsNamed info info.class_name t t.class_name)
]

filename-IsText :
    (internal : Bool) (filename : Option Text)
    → IsText filename
    → IsText (if internal then none else filename)
filename-IsText true filename h = tt
filename-IsText false filename h = h

extract_function-IsTextual :
    (zend_internal_function : ℕ) (func : ZendFunction) (address : ℕ)
    → IsTextual (extract_function zend_internal_function func address)
unfolding extract_function
extract_function-IsTextual zend_internal_function func address = record {
  function_name = zend_string_to_cow-IsText func.common.function_name;
  class_name = scope_name-IsText func.common.scope;
  filename =
      filename-IsText (func.common.type_ == zend_internal_function) _
        (zend_string_to_cow-IsText func.op_array.filename);
}

site_of-IsTextual :
    (zend_internal_function address : ℕ) (func : Option ZendFunction)
    → IsTextual (site_of zend_internal_function address func)
unfolding site_of
site_of-IsTextual zend_internal_function address none = record {
  function_name = tt;
  class_name = tt;
  filename = tt;
}
site_of-IsTextual zend_internal_function address (some func) =
    extract_function-IsTextual zend_internal_function func address

-- Whatever bytes the engine's strings hold: the name that a begin stages in the dictionary for the
-- function of the call frame, and its file, are well-formed UTF-8.
pub extract_call_site-IsNamed :
    (zend_internal_function : ℕ) (execute_data : ExecuteData)
    → IsNamed (categorise_lazy (extract_call_site zend_internal_function execute_data))
unfolding extract_call_site
extract_call_site-IsNamed zend_internal_function execute_data =
    categorise_lazy-IsNamed _
      (site_of-IsTextual zend_internal_function execute_data.address execute_data.func)
