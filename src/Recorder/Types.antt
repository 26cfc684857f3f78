-- ===== src/Recorder/Types.antt =====
-- The data model of recorder/types.rs: frames, records, dictionary entries and batches.
use php_analyze.Prelude.{ℕ, ◌+◌, ◌*◌, ◌%◌, Bool, true, List, [], ◌∷◌, length}
use php_analyze.Prelude.Int.{ℤ, pos, max_ℤ, saturating_sub}
use php_analyze.Prelude.Text.{Text}
use php_analyze.Prelude.Words.{u64_mod}

pub data FunctionKind : Type 0 where
  function method closure internal : FunctionKind

pub record CallFrame : Type 0 where
  pub call_id : ℕ
  pub parent : ℕ
  pub fn_id : ℕ
  pub depth : ℕ
  pub t_in_ns : ℤ
  pub cpu_u_in_ns : ℤ
  pub cpu_s_in_ns : ℤ
  pub mem_in_bytes : ℤ

pub record CallRecord : Type 0 where
  pub call_id : ℕ
  pub parent : ℕ
  pub fn_id : ℕ
  pub depth : ℕ
  pub t_in_ns : ℤ
  pub t_out_ns : ℤ
  pub cpu_u_ns : ℤ
  pub cpu_s_ns : ℤ
  pub mem_in_bytes : ℤ
  pub mem_out_bytes : ℤ
  pub abnormal_exit : Bool

-- `CallFrame::into_abnormal_call_record`
unfoldable pub into_abnormal_call_record : CallFrame → ℤ → ℤ → ℤ → ℤ → CallRecord
into_abnormal_call_record frame t_out_ns cpu_u_now_ns cpu_s_now_ns mem_out_bytes = record {
  call_id = frame.call_id;
  parent = frame.parent;
  fn_id = frame.fn_id;
  depth = frame.depth;
  t_in_ns = frame.t_in_ns;
  t_out_ns = t_out_ns;
  cpu_u_ns = max_ℤ (saturating_sub cpu_u_now_ns frame.cpu_u_in_ns) (pos 0);
  cpu_s_ns = max_ℤ (saturating_sub cpu_s_now_ns frame.cpu_s_in_ns) (pos 0);
  mem_in_bytes = frame.mem_in_bytes;
  mem_out_bytes = mem_out_bytes;
  abnormal_exit = true;
}

pub record DictEntry : Type 0 where
  pub fn_id : ℕ
  pub fqn : Text
  pub file : Text
  pub line : ℕ
  pub kind : FunctionKind

pub record MetaPartial : Type 0 where
  pub schema_version : ℕ
  pub trace_id : List ℕ
  pub host : Text
  pub pid : ℕ
  pub start_time_realtime_ns : ℤ
  pub sapi : Text
  pub uri_or_script : Text

-- `drop_counter` is an `Arc<AtomicU64>`: the index of a cell that the trace shares with the batch.
pub record PendingBatch : Type 0 where
  pub meta_partial : MetaPartial
  pub dict : List DictEntry
  pub calls : List CallRecord
  pub size_estimate : ℕ
  pub drop_counter : ℕ

-- The shipper's messages; an `Instant` is a number of milliseconds.
pub data ShipperMessage : Type 0 where
  batch : PendingBatch → ShipperMessage
  drain : ℕ → ShipperMessage

abbrev pub call_record_fixed_bytes : ℕ
call_record_fixed_bytes = 64

abbrev pub dict_entry_fixed_bytes : ℕ
dict_entry_fixed_bytes = 24

-- What one staged entry adds to the estimate.
abbrev pub contribution : DictEntry → ℕ
contribution entry = dict_entry_fixed_bytes + length entry.fqn + length entry.file

pub dict_bytes : List DictEntry → ℕ
dict_bytes [] = 0
dict_bytes (entry ∷ rest) = contribution entry + dict_bytes rest

-- The sums are `usize` arithmetic, which wraps in a release build.
unfoldable pub estimate_batch_bytes : List DictEntry → List CallRecord → ℕ
unfolding dict_bytes
estimate_batch_bytes dict calls =
    (dict_bytes dict + length calls * call_record_fixed_bytes) % u64_mod

pub record RequestIdentity : Type 0 where
  pub host : Text
  pub sapi : Text
  pub pid : ℕ
  pub uri_or_script : Text

pub record TraceLimits : Type 0 where
  pub max_depth : ℕ
  pub buffer_cap_bytes : ℕ
  pub flush_records : ℕ
  pub flush_bytes : ℕ
