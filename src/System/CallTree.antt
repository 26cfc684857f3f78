-- ===== src/System/CallTree.antt =====
-- The calls of a request as a tree, the events that the engine sends for it, and the records that a
-- recorder with a depth limit owes for it.
pub mod Step
pub mod Open
pub mod Close
pub mod Pruned
pub mod Recorded
pub mod Kept
pub mod Refines
use php_analyze.Prelude.{
  ℕ, suc, ◌+◌, ◌%◌, Bool, Option, none, some, List, map, [], ◌∷◌, ◌++◌, ltb, if◌then◌else◌,
}
use php_analyze.Prelude.Int.{pos, max_ℤ, saturating_sub}
use php_analyze.Prelude.Words.{u16_mod}
use php_analyze.Recorder.Types.{CallRecord, call_record_fixed_bytes}
use php_analyze.Recorder.Key.{FunctionKey, to_owned}
use php_analyze.Recorder.Dictionary.{Dictionary, probe_ref}
use php_analyze.Recorder.Dictionary.Numbers.{key_of}
use php_analyze.Recorder.CallSite.{LazyCategorised}
use php_analyze.Recorder.CallSite.Laws.{FitsAddress}
use php_analyze.Recorder.Begin.{EntrySnapshots}
use php_analyze.Recorder.Begin.Cases.{entry_cost}
use php_analyze.Recorder.End.{ExitSnapshots}
use php_analyze.Recorder.Flush as Flush
use php_analyze.System.{Event, begins, ends}

-- Sibling calls in order: a call site, the readings at the call's begin and end, whether it ended by
-- an exception, the calls that it made, and the calls after it.
pub data Calls : Type 0 where
  done : Calls
  call : LazyCategorised → EntrySnapshots → ExitSnapshots → Bool → Calls → Calls → Calls

-- What the engine sends, with a channel that accepts every batch.
unfoldable pub events : Calls → List Event
events done = []
events (call lazy entry exit abnormal inside after) =
    begins lazy entry ∷ (events inside ++ (ends exit abnormal Flush.sent ∷ events after))

abbrev pub size : Calls → ℕ
size done = 0
size (call lazy entry exit abnormal inside after) = suc (size inside + size after)

-- The bytes that the calls take if every one is recorded and every function is new.
abbrev pub cost : Calls → ℕ
cost done = 0
cost (call lazy entry exit abnormal inside after) =
    call_record_fixed_bytes + entry_cost lazy entry + cost inside + cost after

abbrev pub FitAddresses : Calls → Type 0
FitAddresses done = Unit
FitAddresses (call lazy entry exit abnormal inside after) =
    FitsAddress lazy.fqn_spec × FitAddresses inside × FitAddresses after

module _ (max_depth : ℕ) where
  -- How many calls are recorded, from a depth on.
  abbrev pub kept : ℕ → Calls → ℕ
  kept depth done = 0
  kept depth (call lazy entry exit abnormal inside after) =
      (if ltb depth max_depth then suc (kept (suc depth) inside) else 0) + kept depth after

module _ (max_depth : ℕ) where
  -- The functions of the recorded calls, in the order in which the calls end.
  abbrev pub keys : ℕ → Calls → List FunctionKey
  keys depth done = []
  keys depth (call lazy entry exit abnormal inside after) =
      let within = keys (suc depth) inside in
      let behind = keys depth after in
      if ltb depth max_depth then within ++ (to_owned lazy.key_ref ∷ behind) else behind

-- The functions that the numbers of records stand for.
abbrev pub decoded : Dictionary → List CallRecord → List (Option FunctionKey)
decoded d = map (λ r. key_of d r.fn_id)

abbrev pub number_of : Dictionary → LazyCategorised → ℕ
number_of d lazy = elim (probe_ref d lazy.key_ref) [ none ↦ 0 | some id ↦ id ]

-- The record of a call, given its number, its parent and its depth.
abbrev pub record_of :
    Dictionary → ℕ → ℕ → ℕ → LazyCategorised → EntrySnapshots → ExitSnapshots → Bool → CallRecord
record_of d call_id parent depth lazy entry exit abnormal = record {
  call_id = call_id;
  parent = parent;
  fn_id = number_of d lazy;
  depth = depth % u16_mod;
  t_in_ns = entry.t_in_ns;
  t_out_ns = exit.t_out_ns;
  cpu_u_ns = max_ℤ (saturating_sub exit.cpu_u_now_ns entry.cpu_u_in_ns) (pos 0);
  cpu_s_ns = max_ℤ (saturating_sub exit.cpu_s_now_ns entry.cpu_s_in_ns) (pos 0);
  mem_in_bytes = entry.mem_in_bytes;
  mem_out_bytes = exit.mem_out_bytes;
  abnormal_exit = abnormal;
}

module _ (d : Dictionary) (max_depth : ℕ) where
  -- The records of the calls above the depth limit, a call after those that it made; the call
  -- numbers go by the order of the begins, from the one after `last`.
  unfoldable pub recorded : ℕ → ℕ → ℕ → Calls → List CallRecord
  recorded parent depth last done = []
  recorded parent depth last (call lazy entry exit abnormal inside after) =
      let within = recorded (suc last) (suc depth) (suc last) inside in
      let behind = recorded parent depth (suc last + kept max_depth (suc depth) inside) after in
      let behind_pruned = recorded parent depth last after in
      if ltb depth max_depth
      then within ++ (record_of d (suc last) parent depth lazy entry exit abnormal ∷ behind)
      else behind_pruned
