-- ===== src/Tests/Dump.antt =====
-- A dump with one flush and the lines at the end of a request.
use php_analyze.Prelude.{◌≡◌, refl, true, false, some, [], ◌∷◌, arith}
use php_analyze.Prelude.Int.{pos, negsuc}
use php_analyze.Prelude.Text.{codes}
use php_analyze.Recorder.Types.{CallRecord, DictEntry, FunctionKind, PendingBatch}
use php_analyze.Recorder.End as End
use php_analyze.Recorder.Dump.{dict_line, kind_name, as_str}
use php_analyze.Recorder.Dump.Parse.{parse_dump}
use php_analyze.Recorder.Dump.Chunks.{Flush, IsWritable}
use php_analyze.Recorder.Dump.Fields.{IsTyped, parsed_call}
use php_analyze.Recorder.Dump.Lines.{IsPrintable}
use php_analyze.Recorder.Dump.RoundTrip.{dump_of, parse_dump-dump_of}
use php_analyze.Tests.System.{trace_at_start, world_at_start}

abbrev entry_written : DictEntry
entry_written = record {
  fn_id = 1;
  fqn = codes "App::run";
  file = codes "/a:b.php";
  line = 12;
  kind = FunctionKind.method;
}

abbrev call_written : CallRecord
call_written = record {
  call_id = 1;
  parent = 0;
  fn_id = 1;
  depth = 0;
  t_in_ns = pos 10;
  t_out_ns = pos 30;
  cpu_u_ns = pos 0;
  cpu_s_ns = pos 0;
  mem_in_bytes = pos 5;
  mem_out_bytes = negsuc 4;
  abnormal_exit = false;
}

abbrev batch_written : PendingBatch
batch_written = record {
  meta_partial = record {
    schema_version = 1;
    trace_id = [];
    host = [];
    pid = 1;
    start_time_realtime_ns = pos 0;
    sapi = [];
    uri_or_script = [];
  };
  dict = entry_written ∷ [];
  calls = call_written ∷ [];
  size_estimate = 104;
  drop_counter = 0;
}

abbrev flush_written : Flush
flush_written = record {
  batch = batch_written;
  trigger = End.rshutdown;
  record_count = 1;
  estimated_bytes = 104;
}

entry-IsPrintable : IsPrintable entry_written
entry-IsPrintable = record {
  fn_id = omega arith;
  line = omega arith;
  no_tab = ground arith;
  no_newline = ground arith;
  file = ground arith;
}

call-IsTyped : IsTyped call_written
call-IsTyped = record {
  call_id = omega arith;
  parent = omega arith;
  fn_id = omega arith;
  depth = omega arith;
  t_in_ns = omega arith;
  t_out_ns = omega arith;
  cpu_u_ns = omega arith;
  cpu_s_ns = omega arith;
  mem_in_bytes = omega arith;
  mem_out_bytes = omega arith;
}

flush-IsWritable : IsWritable flush_written
flush-IsWritable = record {
  entries = (entry-IsPrintable, tt);
  calls = (call-IsTyped, tt);
  record_count = omega arith;
  estimated_bytes = omega arith;
}

line_written : dict_line entry_written ≡ codes "D:1:method:12:App::run\t/a:b.php"
unfolding dict_line
line_written = refl

parse_dump-dump_of_example :
    parse_dump (dump_of (codes "/tmp/dump") (flush_written ∷ []) trace_at_start world_at_start)
    ≡ record {
      dict =
          record {
            fn_id = 1;
            kind = codes "method";
            line = 12;
            fqn = codes "App::run";
            file = codes "/a:b.php";
          }
          ∷ [];
      calls = parsed_call call_written ∷ [];
      dropped_records = some 0;
      rshutdown_marker_seen = true;
      flushes =
          record { record_count = 1; estimated_bytes = 104; trigger = codes "rshutdown" } ∷ [];
    }
unfolding kind_name as_str
parse_dump-dump_of_example =
    parse_dump-dump_of b'/' (codes "tmp/dump") (flush_written ∷ []) trace_at_start world_at_start
      (flush-IsWritable, tt) tt tt (omega arith)
