-- ===== src/Recorder/Trace.antt =====
-- `Trace` of recorder/types.rs: the state of one request and the accessors that change it.
-- A function that also touches process-wide state takes and returns the `World`.
use php_analyze.Prelude.{ℕ, true, false, Option, some, List, [], ◌∷◌, ◌++◌, ◌>>=◌}
use php_analyze.Prelude.Int.{ℤ}
use php_analyze.Prelude.Text.{Text}
use php_analyze.Prelude.Words.{u32_mod, u64_mod, wrapping_add, saturating_add, checked_add}
use php_analyze.World.{World, add, fetch_add, new_counter}
use php_analyze.Recorder.Key.{FunctionKey, FunctionKeyRef, HashWrite}
use php_analyze.Recorder.Types.{
  CallFrame, CallRecord, DictEntry, PendingBatch, RequestIdentity, TraceLimits, contribution,
  call_record_fixed_bytes,
}
use php_analyze.Recorder.Dictionary.{Dictionary, ProbeOutcome, hit, miss}
use php_analyze.Recorder.Dictionary as Interner

-- The head of `stack` is its top; `buffer` is in the order of the pushes.
pub record Trace : Type 0 where
  pub trace_id : List ℕ
  pub start_time_realtime_ns : ℤ
  pub host : Text
  pub pid : ℕ
  pub sapi : Text
  pub uri_or_script : Text
  pub drop_counter : ℕ
  pub call_id_seq : ℕ
  pub stack : List CallFrame
  pub buffer : List CallRecord
  pub dictionary : Dictionary
  pub buffer_estimated_bytes : ℕ
  pub virtual_depth : ℕ
  pub dropped_begins : ℕ
  pub max_depth : ℕ
  pub buffer_cap_bytes : ℕ
  pub flush_records : ℕ
  pub flush_bytes : ℕ

abbrev pub zero_id : List ℕ
zero_id = 0 ∷ 0 ∷ 0 ∷ 0 ∷ 0 ∷ 0 ∷ 0 ∷ 0 ∷ 0 ∷ 0 ∷ 0 ∷ 0 ∷ 0 ∷ 0 ∷ 0 ∷ 0 ∷ []

-- `Trace::new`; the hasher and the reading of the clock come from outside.
unfoldable pub new :
    (List HashWrite → ℕ) → ℤ → RequestIdentity → TraceLimits → World → Trace × World
unfolding new_counter
new hash_one now identity limits w =
    let (cell, w') = new_counter w in
    (
      record {
        trace_id = zero_id;
        start_time_realtime_ns = now;
        host = identity.host;
        pid = identity.pid;
        sapi = identity.sapi;
        uri_or_script = identity.uri_or_script;
        drop_counter = cell;
        call_id_seq = 0;
        stack = [];
        buffer = [];
        dictionary = Interner.new hash_one;
        buffer_estimated_bytes = 0;
        virtual_depth = 0;
        dropped_begins = 0;
        max_depth = limits.max_depth;
        buffer_cap_bytes = limits.buffer_cap_bytes;
        flush_records = limits.flush_records;
        flush_bytes = limits.flush_bytes;
      },
      w',
    )

-- `none` is the panic of `expect` when the counter overflows.
unfoldable pub next_call_id : Trace → Option (ℕ × Trace)
next_call_id t = do
  next ← checked_add u64_mod t.call_id_seq 1
  some (next, record t { call_id_seq = next })

unfoldable pub push_record : CallRecord → Trace → World → Trace × World
unfolding add
push_record r t w = (
  record t {
    buffer = t.buffer ++ (r ∷ []);
    buffer_estimated_bytes = wrapping_add t.buffer_estimated_bytes call_record_fixed_bytes;
  },
  add call_record_fixed_bytes w,
)

-- What the closures of the two `push_dict_entry_*` methods add on a miss.
unfoldable pub bill : ProbeOutcome → ℕ → Trace → World → Trace × World
unfolding add
bill hit n t w = (t, w)
bill miss n t w =
    (record t { buffer_estimated_bytes = wrapping_add t.buffer_estimated_bytes n }, add n w)

unfoldable pub push_dict_entry_via_intern_ref :
    FunctionKeyRef → (ℕ → FunctionKey × DictEntry) → Trace → World → Option (ℕ × Trace × World)
unfolding bill
push_dict_entry_via_intern_ref key_ref build t w = do
  (fn_id, outcome, d) ← Interner.intern_ref t.dictionary key_ref build
  let billed = bill outcome (contribution (build fn_id).1) t w
  some (fn_id, record (billed.0) { dictionary = d }, billed.1)

-- The owning sibling bills inside the closure too, which runs on a miss alone.
unfoldable pub push_dict_entry_via_intern :
    FunctionKey → (ℕ → DictEntry) → Trace → World → Option (ℕ × Trace × World)
unfolding bill
push_dict_entry_via_intern key build t w = do
  let outcome : ProbeOutcome = elim (Interner.contains_key t.dictionary key) [
    | true ↦ hit
    | false ↦ miss
  ]
  (fn_id, d) ← Interner.intern t.dictionary key build
  let billed = bill outcome (contribution (build fn_id)) t w
  some (fn_id, record (billed.0) { dictionary = d }, billed.1)

unfoldable pub record_drop : Trace → World → Trace × World
unfolding fetch_add
record_drop t w = (
  record t { dropped_begins = saturating_add u32_mod t.dropped_begins 1 },
  fetch_add t.drop_counter 1 w,
)

unfoldable pub flush_into_pending_batch : Trace → PendingBatch × Trace
flush_into_pending_batch t =
    let taken = Interner.take_new_entries t.dictionary in
    (
      record {
        meta_partial = record {
          schema_version = 1;
          trace_id = t.trace_id;
          host = t.host;
          pid = t.pid;
          start_time_realtime_ns = t.start_time_realtime_ns;
          sapi = t.sapi;
          uri_or_script = t.uri_or_script;
        };
        dict = taken.0;
        calls = t.buffer;
        size_estimate = t.buffer_estimated_bytes;
        drop_counter = t.drop_counter;
      },
      record t { buffer = []; dictionary = taken.1; buffer_estimated_bytes = 0 },
    )
