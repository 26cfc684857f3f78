-- ===== src/Recorder/Extract.antt =====
-- What a begin reads of the engine's structures, of recorder/observer.rs: `extract_call_site` and
-- `zend_string_to_cow`. The records have the fields that the code reads. A pointer is what it points
-- at, or nothing where it is null; the pointer of the call frame, which the name of a nameless
-- function shows, is a number beside the frame.
pub mod Laws
use php_analyze.Prelude.{ℕ, Bool, false, Option, none, some, List, ◌==◌, if◌then◌else◌}
use php_analyze.Prelude.Text.{Text}
use php_analyze.Prelude.Utf8.{is_ascii, from_utf8, from_utf8_lossy}
use php_analyze.Recorder.CallSite.{RawCallSite}

-- `zend_string`: the payload, of the length that the string states.
abbrev pub ZendString : Type 0
ZendString = List ℕ

-- `zend_class_entry`
pub record ClassEntry : Type 0 where
  pub name : Option ZendString

-- `zend_function.common`
pub record Common : Type 0 where
  pub type_ : ℕ
  pub function_name : Option ZendString
  pub scope : Option ClassEntry

-- `zend_function.op_array`, the arm of the union for user functions.
pub record OpArray : Type 0 where
  pub filename : Option ZendString
  pub line_start : ℕ

pub record ZendFunction : Type 0 where
  pub common : Common
  pub op_array : OpArray

pub record ExecuteData : Type 0 where
  pub func : Option ZendFunction
  pub address : ℕ

-- The arms below the test for null: ASCII, well-formed, and the rest.
unfoldable pub zend_string_to_cow : Option ZendString → Option Text
unfolding is_ascii from_utf8 from_utf8_lossy
zend_string_to_cow none = none
zend_string_to_cow (some slice) =
    if is_ascii slice
    then some slice
    else elim (from_utf8 slice) [ some s ↦ some s | none ↦ some (from_utf8_lossy slice) ]

-- `RawCallSite::empty`
abbrev pub empty : RawCallSite
empty = record {
  function_name = none;
  class_name = none;
  filename = none;
  lineno = 0;
  is_internal = false;
  execute_data_addr = 0;
}

unfoldable pub scope_name : Option ClassEntry → Option Text
unfolding zend_string_to_cow
scope_name none = none
scope_name (some ce) = zend_string_to_cow ce.name

module _ (zend_internal_function : ℕ) where
  -- The function that a call frame points at.
  unfoldable pub extract_function : ZendFunction → ℕ → RawCallSite
  unfolding zend_string_to_cow scope_name
  extract_function func address =
      let internal = func.common.type_ == zend_internal_function in
      record {
        function_name = zend_string_to_cow func.common.function_name;
        class_name = scope_name func.common.scope;
        filename = if internal then none else zend_string_to_cow func.op_array.filename;
        lineno = if internal then 0 else func.op_array.line_start;
        is_internal = internal;
        execute_data_addr = address;
      }

  -- The function pointer may be null.
  unfoldable pub site_of : ℕ → Option ZendFunction → RawCallSite
  unfolding extract_function
  site_of address none = record empty { execute_data_addr = address }
  site_of address (some func) = extract_function func address

  unfoldable pub extract_call_site : ExecuteData → RawCallSite
  unfolding site_of
  extract_call_site execute_data = site_of execute_data.address execute_data.func
