-- ===== src/Wire.antt =====
-- The wire schema of crates/php-analyze/src/wire.rs. The MessagePack bytes are the work of serde.
use php_analyze.Prelude.{ℕ, zero, suc, ◌≡◌, ◌↔◌, refl, Bool, Option, none, some, List, arith}
use php_analyze.Prelude.Int.{ℤ}
use php_analyze.Prelude.Text.{Text, codes}

abbrev pub schema_version : ℕ
schema_version = 1

abbrev pub media_type : Text
media_type = codes "application/vnd.php-analyze.v1+msgpack"

pub data FunctionKind : Type 0 where
  function method closure internal : FunctionKind

-- `u8::from(FunctionKind)`
unfoldable pub from : FunctionKind → ℕ
from FunctionKind.function = 0
from FunctionKind.method = 1
from FunctionKind.closure = 2
from FunctionKind.internal = 3

-- `FunctionKind::try_from(u8)`; `none` is the error.
unfoldable pub try_from : ℕ → Option FunctionKind
try_from zero = some FunctionKind.function
try_from (suc zero) = some FunctionKind.method
try_from (suc (suc zero)) = some FunctionKind.closure
try_from (suc (suc (suc zero))) = some FunctionKind.internal
try_from _ = none

pub record MetaFull : Type 0 where
  pub schema_version : ℕ
  pub trace_id : Text
  pub host : Text
  pub pid : ℕ
  pub start_time : ℤ
  pub sapi : Text
  pub uri_or_script : Text
  pub dropped_records : ℕ

pub record DictEntry : Type 0 where
  pub fn_id : ℕ
  pub fqn : Text
  pub file : Text
  pub line : ℕ
  pub kind : FunctionKind

pub record CallRecord : Type 0 where
  pub call_id : ℕ
  pub parent : ℕ
  pub fn_id : ℕ
  pub depth : ℕ
  pub t_in : ℤ
  pub t_out : ℤ
  pub cpu_u : ℤ
  pub cpu_s : ℤ
  pub mem_in : ℤ
  pub mem_out : ℤ
  pub abnormal_exit : Bool

pub record Batch : Type 0 where
  pub meta : MetaFull
  pub dict : List DictEntry
  pub calls : List CallRecord

try_from-from : (kind : FunctionKind) → try_from (from kind) ≡ some kind
unfolding try_from from
try_from-from FunctionKind.function = refl
try_from-from FunctionKind.method = refl
try_from-from FunctionKind.closure = refl
try_from-from FunctionKind.internal = refl

from-try_from : (value : ℕ) {kind : FunctionKind} → try_from value ≡ some kind → from kind ≡ value
unfolding try_from from
from-try_from zero h = ground arith
from-try_from (suc zero) h = ground arith
from-try_from (suc (suc zero)) h = ground arith
from-try_from (suc (suc (suc zero))) h = ground arith
from-try_from (suc (suc (suc (suc n)))) h = cc

-- A byte decodes to a kind exactly if it is the number of that kind; so every other byte is refused.
pub try_from_iff :
    (value : ℕ) (kind : FunctionKind) → (try_from value ≡ some kind) ↔ (from kind ≡ value)
try_from_iff value kind = (from-try_from value, λ e. rw (← e) (try_from-from kind))
