-- ===== src/Shipper/Encode.antt =====
-- shipper/encode.rs: a batch on the wire. The rendering of a trace id is the uuid library's.
use php_analyze.Prelude.{ℕ, List, map}
use php_analyze.Prelude.Text.{Text}
use php_analyze.World.{World, load}
use php_analyze.Recorder.Types as Types
use php_analyze.Recorder.Types.{MetaPartial, PendingBatch}
use php_analyze.Wire as Wire

unfoldable pub function_kind_to_wire : Types.FunctionKind → Wire.FunctionKind
function_kind_to_wire Types.FunctionKind.function = Wire.FunctionKind.function
function_kind_to_wire Types.FunctionKind.method = Wire.FunctionKind.method
function_kind_to_wire Types.FunctionKind.closure = Wire.FunctionKind.closure
function_kind_to_wire Types.FunctionKind.internal = Wire.FunctionKind.internal

unfoldable pub call_record_to_wire : Types.CallRecord → Wire.CallRecord
call_record_to_wire call = record {
  call_id = call.call_id;
  parent = call.parent;
  fn_id = call.fn_id;
  depth = call.depth;
  t_in = call.t_in_ns;
  t_out = call.t_out_ns;
  cpu_u = call.cpu_u_ns;
  cpu_s = call.cpu_s_ns;
  mem_in = call.mem_in_bytes;
  mem_out = call.mem_out_bytes;
  abnormal_exit = call.abnormal_exit;
}

unfoldable pub dict_entry_to_wire : Types.DictEntry → Wire.DictEntry
unfolding function_kind_to_wire
dict_entry_to_wire entry = record {
  fn_id = entry.fn_id;
  fqn = entry.fqn;
  file = entry.file;
  line = entry.line;
  kind = function_kind_to_wire entry.kind;
}

module _ (uuid : List ℕ → Text) where
  unfoldable pub meta_partial_to_wire : MetaPartial → ℕ → Wire.MetaFull
  meta_partial_to_wire meta dropped_records = record {
    schema_version = meta.schema_version;
    trace_id = uuid meta.trace_id;
    host = meta.host;
    pid = meta.pid;
    start_time = meta.start_time_realtime_ns;
    sapi = meta.sapi;
    uri_or_script = meta.uri_or_script;
    dropped_records = dropped_records;
  }

  -- The drop counter is read now, not when the batch was made.
  unfoldable pub batch_to_wire : PendingBatch → World → Wire.Batch
  unfolding meta_partial_to_wire dict_entry_to_wire call_record_to_wire
  batch_to_wire batch w = record {
    meta = meta_partial_to_wire batch.meta_partial (load batch.drop_counter w);
    dict = map dict_entry_to_wire batch.dict;
    calls = map call_record_to_wire batch.calls;
  }
