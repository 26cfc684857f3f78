-- ===== src/Tests/System.antt =====
-- A request in which two calls nest, a third is beyond the depth limit, and a batch is shipped.
use php_analyze.Prelude.{ℕ, ◌≡◌, refl, true, false, Option, none, some, List, [], ◌∷◌, arith}
use php_analyze.Prelude.Int.{pos}
use php_analyze.Prelude.Text.{Text, text_eq}
use php_analyze.World.{World}
use php_analyze.Recorder.Key.{FunctionKeyRef, matches_ref, to_owned}
use php_analyze.Recorder.Types.{FunctionKind, PendingBatch, RequestIdentity, TraceLimits}
use php_analyze.Recorder.Request.{Process}
use php_analyze.System.Covers.{AreDefined}
use php_analyze.System.Request.{serve}
use php_analyze.System.Handover.{serve-AreDefined}
use php_analyze.Recorder.Dictionary as Interner
use php_analyze.Recorder.Dictionary.{Dictionary, probe_ref, intern_ref}
use php_analyze.Recorder.Trace.{Trace, zero_id}
use php_analyze.Recorder.Begin.{EntrySnapshots}
use php_analyze.Recorder.CallSite.{FqnSpec, LazyCategorised, render, render_len}
use php_analyze.Recorder.End.{ExitSnapshots}
use php_analyze.Recorder.Flush as Flush
use php_analyze.Shipper.OnBatch as Seam
use php_analyze.System.{State, Event, begins, ends, ships, run}
use php_analyze.System.Ledger.{IsBalanced, run-IsBalanced, queued_bytes}
use php_analyze.System.Pairing.{IsPaired, run-IsPaired}
use php_analyze.System.Tree.{records}
use php_analyze.System.Stream.{batches, stream}
use php_analyze.System.Parents.{IsTree, run-IsTree}
use php_analyze.System.Defined.{IsDefined, run-IsDefined}
use php_analyze.System.SoftCap.{IsWithin, run-IsWithin}
use php_analyze.System.Conservation.{
  IsAccounted, run-IsAccounted, queued_records, delivered_records,
}

abbrev pub empty_dictionary : Dictionary
empty_dictionary = record { hash_one = λ ws. 7; intern = []; new_entries = []; next_fn_id = 1 }

abbrev pub trace_at_start : Trace
trace_at_start = record {
  trace_id = zero_id;
  start_time_realtime_ns = pos 0;
  host = [];
  pid = 1;
  sapi = [];
  uri_or_script = [];
  drop_counter = 0;
  call_id_seq = 0;
  stack = [];
  buffer = [];
  dictionary = empty_dictionary;
  buffer_estimated_bytes = 0;
  virtual_depth = 0;
  dropped_begins = 0;
  max_depth = 2;
  buffer_cap_bytes = 1000;
  flush_records = 2;
  flush_bytes = 100000;
}

abbrev pub world_at_start : World
world_at_start = record {
  bytes_in_memory = 0;
  drop_counters = 0 ∷ [];
  sender_slot = true;
  queue = [];
  drop_notices = [];
}

abbrev pub state_at_start : State
state_at_start = record {
  trace = trace_at_start;
  world = world_at_start;
  drained = 0;
  begun = 0;
  delivered = [];
}

abbrev pub site : Text → LazyCategorised
site name = record {
  key_ref = FunctionKeyRef.internal name;
  fqn_spec = FqnSpec.borrowed name;
  kind = FunctionKind.internal;
  file = [];
  line = 0;
}

abbrev pub entry : EntrySnapshots
entry = record { t_in_ns = pos 1; cpu_u_in_ns = pos 1; cpu_s_in_ns = pos 1; mem_in_bytes = pos 1 }

abbrev pub exit : ExitSnapshots
exit = record {
  t_out_ns = pos 2;
  cpu_u_now_ns = pos 2;
  cpu_s_now_ns = pos 2;
  mem_out_bytes = pos 2;
}

abbrev pub uuid : List ℕ → Text
uuid id = []

-- Two nested calls and one that is too deep, their ends, and the delivery of the batch.
abbrev schedule : List Event
schedule =
    begins (site (10 ∷ [])) entry
    ∷ begins (site (20 ∷ [])) entry
    ∷ begins (site (10 ∷ [])) entry
    ∷ ends exit false Flush.sent
    ∷ ends exit false Flush.sent
    ∷ ends exit false Flush.sent
    ∷ ships Seam.sent
    ∷ []

abbrev or_start : Option State → State
or_start none = state_at_start
or_start (some s) = s

abbrev state_at_end : State
state_at_end = or_start (run uuid [] schedule state_at_start)

schedule_runs : run uuid [] schedule state_at_start ≡ some state_at_end
unfolding run probe_ref render_len intern_ref render matches_ref to_owned text_eq
schedule_runs = refl

three_begun : state_at_end.begun ≡ 3
unfolding run probe_ref render_len intern_ref render matches_ref to_owned text_eq
three_begun = refl

run-IsAccounted_example :
    IsAccounted 0 state_at_end.begun state_at_end.trace state_at_end.world state_at_end.delivered
unfolding queued_records delivered_records
run-IsAccounted_example =
    run-IsAccounted 0 uuid [] schedule state_at_start state_at_end
      (tt, (tt, (tt, (λ e. cc, (λ e. cc, (λ e. cc, (tt, tt))))))) schedule_runs
      (omega (arith, three_begun)) (refl, omega arith, refl, tt, refl)

run-IsBalanced_example : IsBalanced state_at_end.trace state_at_end.world
unfolding queued_bytes
run-IsBalanced_example =
    run-IsBalanced uuid [] schedule state_at_start state_at_end schedule_runs refl

run-IsPaired_example : IsPaired state_at_end.trace
run-IsPaired_example =
    run-IsPaired uuid [] schedule state_at_start state_at_end schedule_runs
      (omega (arith, three_begun)) refl (omega arith)

run-IsTree_example : IsTree state_at_end.trace state_at_end.world state_at_end.delivered
unfolding records batches
run-IsTree_example =
    run-IsTree uuid [] schedule state_at_start state_at_end
      (tt, (tt, (tt, (refl, (refl, (refl, (refl, tt))))))) schedule_runs (refl, tt, tt)

run-IsWithin_example : IsWithin 1000 2 state_at_end.trace state_at_end.world
unfolding queued_bytes
run-IsWithin_example =
    run-IsWithin 1000 2 (omega arith) uuid [] schedule state_at_start state_at_end
      (tt, (tt, (tt, (tt, (tt, (tt, (tt, tt))))))) schedule_runs (omega (arith, three_begun)) refl
      (omega arith) (refl, refl, refl, omega arith)

run-IsDefined_example : IsDefined state_at_end.trace state_at_end.world state_at_end.delivered
unfolding batches
run-IsDefined_example =
    run-IsDefined uuid [] schedule state_at_start state_at_end
      (tt, (tt, (tt, (refl, (refl, (refl, (refl, tt))))))) schedule_runs (refl, tt, tt, tt, tt)

abbrev pub idle : Process
idle = record { current_trace = none; world = world_at_start }

abbrev pub limits : TraceLimits
limits = record { max_depth = 2; buffer_cap_bytes = 1000; flush_records = 2; flush_bytes = 100000 }

abbrev pub identity : RequestIdentity
identity = record { host = []; sapi = []; pid = 1; uri_or_script = [] }

-- The request that ends while a call is open.
abbrev halted : Option (Process × List PendingBatch)
halted =
    serve uuid [] (λ ws. 7) (pos 0) identity limits (begins (site (10 ∷ [])) entry ∷ []) exit
      Flush.sent [] idle

abbrev or_idle : Option (Process × List PendingBatch) → Process × List PendingBatch
or_idle none = (idle, [])
or_idle (some o) = o

halted_runs : halted ≡ some (or_idle halted)
unfolding serve probe_ref matches_ref render_len to_owned text_eq intern_ref Interner.new
halted_runs = refl

serve-AreDefined_example : AreDefined [] (stream (or_idle halted).1 (or_idle halted).0.world)
serve-AreDefined_example =
    serve-AreDefined uuid [] (λ ws. 7) (pos 0) identity limits (begins (site (10 ∷ [])) entry ∷ [])
      exit idle {after = (or_idle halted).0} {delivered = (or_idle halted).1} (tt, tt) refl refl
      refl halted_runs
