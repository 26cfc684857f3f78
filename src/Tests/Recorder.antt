-- ===== src/Tests/Recorder.antt =====
-- Keys, call sites, the interner, a begin on both paths, and the end of a request.
use php_analyze.Prelude.{
  inl, Option, ◌%◌, ◌≡◌, refl, true, false, some, none, [], ◌∷◌, ◌++◌, map, if◌then◌else◌,
}
use php_analyze.Prelude.Int.{pos}
use php_analyze.Prelude.Text.{codes, text_eq}
use php_analyze.Prelude.Words.{u64_mod}
use php_analyze.World.{World}
use php_analyze.Recorder.Key.{FunctionKeyRef, matches_ref, as_ref, to_owned}
use php_analyze.Recorder.Types.{FunctionKind, CallFrame}
use php_analyze.Recorder.Dictionary.{Dictionary, miss, probe_ref, intern_ref, stage}
use php_analyze.Recorder.Dictionary.Laws.{
  IsValid, assigned, probe_ref-assigned, probe_ref-intern_ref,
}
use php_analyze.Recorder.Trace.{Trace, zero_id}
use php_analyze.Recorder.CallSite.{
  RawCallSite, LazyCategorised, FqnSpec, categorise, categorise_lazy,
}
use php_analyze.Recorder.CallSite.Laws.{Agrees, categorise-categorise_lazy}
use php_analyze.Recorder.Begin.{
  EntrySnapshots, begin_with_snapshots, begin_with_snapshots_lazy, lazy_build,
}
use php_analyze.Recorder.Begin.Lazy.{begin_with_snapshots-begin_with_snapshots_lazy}
use php_analyze.Recorder.End.{ExitSnapshots}
use php_analyze.Recorder.Flush as Flush
use php_analyze.Recorder.Request.{Process, rshutdown_release_trace}
use php_analyze.System.Tree.{records}
use php_analyze.System.Stream.{stream}
use php_analyze.System.Parents.{emissions}
use php_analyze.System.Ledger.{queued_bytes}
use php_analyze.System.Shutdown.{
  closed, rshutdown_release_trace-records, rshutdown_release_trace-bytes,
}

abbrev strlen : FunctionKeyRef
strlen = FunctionKeyRef.internal (115 ∷ 116 ∷ [])

abbrev count : FunctionKeyRef
count = FunctionKeyRef.internal (99 ∷ [])

abbrev save : FunctionKeyRef
save = FunctionKeyRef.method (65 ∷ []) (115 ∷ [])

-- Every hash collides.
abbrev interner : Dictionary
interner = record {
  hash_one = λ ws. 7;
  intern =
      record { hash = 7; key = to_owned count; fn_id = 2 }
      ∷ record { hash = 7; key = to_owned strlen; fn_id = 1 }
      ∷ [];
  new_entries = [];
  next_fn_id = 3;
}

interner-IsValid : IsValid interner
unfolding to_owned as_ref assigned matches_ref text_eq
interner-IsValid = (refl, refl, refl, (refl, refl, refl, refl))

probe_ref-assigned_example : probe_ref interner strlen ≡ assigned strlen interner.intern
probe_ref-assigned_example = probe_ref-assigned interner strlen interner-IsValid

abbrev save_site : LazyCategorised
save_site = record {
  key_ref = save;
  fqn_spec = FqnSpec.method (65 ∷ []) (115 ∷ []);
  kind = FunctionKind.method;
  file = 70 ∷ [];
  line = 3;
}

abbrev interner_after : Dictionary
interner_after =
    stage (record interner { next_fn_id = 4 }) 7 (lazy_build save_site 3).0 3
      (lazy_build save_site 3).1

interned : intern_ref interner save (lazy_build save_site) ≡ some (3, miss, interner_after)
unfolding intern_ref probe_ref matches_ref to_owned
interned = refl

probe_ref-intern_ref_example :
    probe_ref interner_after count
    ≡ (if matches_ref (to_owned save) count then some 3 else probe_ref interner count)
unfolding lazy_build
probe_ref-intern_ref_example =
    probe_ref-intern_ref interner save count (lazy_build save_site) (λ id. (refl, refl)) interned

abbrev top_secret : FqnSpec
top_secret = FqnSpec.unknown (117 ∷ []) 255

abbrev named_method : RawCallSite
named_method = record {
  function_name = some (115 ∷ []);
  class_name = some (65 ∷ []);
  filename = some (70 ∷ []);
  lineno = 3;
  is_internal = false;
  execute_data_addr = 4096;
}

categorise-categorise_lazy_example : Agrees (categorise named_method) (categorise_lazy named_method)
categorise-categorise_lazy_example = categorise-categorise_lazy named_method (inl (_, refl))

abbrev frame : CallFrame
frame = record {
  call_id = 1;
  parent = 0;
  fn_id = 1;
  depth = 0;
  t_in_ns = pos 1;
  cpu_u_in_ns = pos 1;
  cpu_s_in_ns = pos 1;
  mem_in_bytes = pos 1;
}

abbrev one_open : Trace
one_open = record {
  trace_id = zero_id;
  start_time_realtime_ns = pos 0;
  host = [];
  pid = 1;
  sapi = [];
  uri_or_script = [];
  drop_counter = 0;
  call_id_seq = 1;
  stack = frame ∷ [];
  buffer = [];
  dictionary = interner;
  buffer_estimated_bytes = 25;
  virtual_depth = 1;
  dropped_begins = 0;
  max_depth = 2;
  buffer_cap_bytes = 1000;
  flush_records = 2;
  flush_bytes = 100000;
}

abbrev world : World
world = record {
  bytes_in_memory = 25;
  drop_counters = 0 ∷ [];
  sender_slot = true;
  queue = [];
  drop_notices = [];
}

abbrev entry : EntrySnapshots
entry = record { t_in_ns = pos 1; cpu_u_in_ns = pos 1; cpu_s_in_ns = pos 1; mem_in_bytes = pos 1 }

abbrev exit : ExitSnapshots
exit = record {
  t_out_ns = pos 2;
  cpu_u_now_ns = pos 2;
  cpu_s_now_ns = pos 2;
  mem_out_bytes = pos 2;
}

begin_with_snapshots-begin_with_snapshots_lazy_example :
    begin_with_snapshots (categorise named_method) entry one_open world
    ≡ begin_with_snapshots_lazy (categorise_lazy named_method) entry one_open world
unfolding categorise_lazy
begin_with_snapshots-begin_with_snapshots_lazy_example =
    begin_with_snapshots-begin_with_snapshots_lazy (categorise named_method)
      (categorise_lazy named_method) (categorise-categorise_lazy named_method (inl (_, refl))) entry
      one_open world tt

abbrev process : Process
process = record { current_trace = some one_open; world = world }

rshutdown_release_trace-bytes_example :
    ((rshutdown_release_trace exit Flush.sent process).current_trace ≡ none)
    × ((rshutdown_release_trace exit Flush.sent process).world.bytes_in_memory
        ≡ queued_bytes (rshutdown_release_trace exit Flush.sent process).world.queue % u64_mod)
unfolding queued_bytes
rshutdown_release_trace-bytes_example =
    rshutdown_release_trace-bytes exit Flush.sent process refl refl

rshutdown_release_trace-records_example :
    ((rshutdown_release_trace exit Flush.sent process).current_trace ≡ none)
    × (records (stream [] (rshutdown_release_trace exit Flush.sent process).world)
        ≡ emissions one_open world [] ++ map (closed exit) (frame ∷ []))
rshutdown_release_trace-records_example =
    rshutdown_release_trace-records exit [] one_open world refl

-- The outer call is new and takes 200 bytes and more, the inner one is known and takes 64.
abbrev big_site : LazyCategorised
big_site = record save_site { file = codes "a file with a long name, longer than what is left" }

abbrev small_site : LazyCategorised
small_site = record {
  key_ref = strlen;
  fqn_spec = FqnSpec.borrowed (115 ∷ 116 ∷ []);
  kind = FunctionKind.internal;
  file = [];
  line = 0;
}

abbrev tight : Trace
tight = record one_open { max_depth = 9; buffer_cap_bytes = 100 }

abbrev outer_begun : Option (Trace × World)
outer_begun = begin_with_snapshots_lazy big_site entry tight world

abbrev or_tight : Option (Trace × World) → Trace × World
or_tight none = (tight, world)
or_tight (some r) = r

abbrev after_outer : Trace × World
after_outer = or_tight outer_begun

abbrev after_inner : Trace × World
after_inner = or_tight (begin_with_snapshots_lazy small_site entry after_outer.0 after_outer.1)
