-- ===== src/System/CallTree/Open.antt =====
-- The begin of a call that the gates admit.
use php_analyze.Prelude.{
  ℕ, ◌+◌, ◌≤◌, ◌<◌, ◌≡◌, refl, some, ◌∷◌, arith, Option-cases, inl, inr, none,
}
use php_analyze.Prelude.Words.{u32_mod, u64_mod}
use php_analyze.World.{World, add}
use php_analyze.Recorder.Key.{FunctionKeyRef}
use php_analyze.Recorder.Key.Laws.{matches_ref_self}
use php_analyze.Recorder.Types.{call_record_fixed_bytes}
use php_analyze.Recorder.Dictionary.{Dictionary, probe_ref, stage, intern_ref}
use php_analyze.Recorder.Dictionary.Laws.{probe_ref-stage, view_same}
use php_analyze.Recorder.Trace.{Trace}
use php_analyze.Recorder.CallSite.{LazyCategorised}
use php_analyze.Recorder.CallSite.Laws.{FitsAddress}
use php_analyze.Recorder.Begin.{EntrySnapshots, begin_with_snapshots_lazy, would_add, lazy_build}
use php_analyze.Recorder.Begin.Cases.{
  Begun, dropped, known, fresh, begin_cases, frame_of, entry_cost, staged,
}
use php_analyze.System.SoftCap.{new_bytes-entry_cost}

-- A function that has a number keeps it.
abbrev pub Extends : Dictionary → Dictionary → Type 0
Extends d d' = (q : FunctionKeyRef) (id : ℕ) → probe_ref d q ≡ some id → probe_ref d' q ≡ some id

-- A new function takes no number away.
staged-Extends :
    (lazy : LazyCategorised) (s : EntrySnapshots) (d : Dictionary)
    → probe_ref d lazy.key_ref ≡ none
    → Extends d (staged lazy s d)
unfolding lazy_build
staged-Extends lazy s d absent q id found = ground (
  arith,
  probe_ref-stage d lazy.key_ref q (lazy_build lazy d.next_fn_id).0 d.next_fn_id (d.next_fn_id + 1)
      (lazy_build lazy d.next_fn_id).1 refl,
  view_same lazy.key_ref q,
)

staged_here :
    (lazy : LazyCategorised) (s : EntrySnapshots) (d : Dictionary)
    → probe_ref (staged lazy s d) lazy.key_ref ≡ some d.next_fn_id
unfolding lazy_build
staged_here lazy s d = ground (
  arith,
  probe_ref-stage d lazy.key_ref lazy.key_ref (lazy_build lazy d.next_fn_id).0 d.next_fn_id
      (d.next_fn_id + 1) (lazy_build lazy d.next_fn_id).1 refl,
  matches_ref_self lazy.key_ref,
)

-- A begin returns while the two counters are below their last values.
begin_total :
    (lazy : LazyCategorised) (s : EntrySnapshots) (t : Trace) (w : World)
    → t.call_id_seq + 1 < u64_mod
    → t.dictionary.next_fn_id + 1 < u32_mod
    → (t' : Trace) × (w' : World) × (begin_with_snapshots_lazy lazy s t w ≡ some (t', w'))
unfolding begin_with_snapshots_lazy intern_ref
begin_total lazy s t w seq next = elim (Option-cases (begin_with_snapshots_lazy lazy s t w)) [
  | inl e ↦ absurd (ground arith)
  | inr ((t', w'), e) ↦ (t', w', e)
]

-- What an admitted begin leaves behind.
pub record Opened (lazy : LazyCategorised) (s : EntrySnapshots) (t : Trace) (w : World)
    : Type 0 where
  pub trace : Trace
  pub world : World
  pub fn_id : ℕ
  pub began : begin_with_snapshots_lazy lazy s t w ≡ some (trace, world)
  pub numbered : probe_ref trace.dictionary lazy.key_ref ≡ some fn_id
  pub extends : Extends t.dictionary trace.dictionary
  pub few : trace.dictionary.next_fn_id ≤ t.dictionary.next_fn_id + 1
  pub stack_is : trace.stack ≡ frame_of lazy s fn_id t ∷ t.stack
  pub depth_is : trace.virtual_depth ≡ t.virtual_depth + 1
  pub dropped_is : trace.dropped_begins ≡ t.dropped_begins
  pub seq_is : trace.call_id_seq ≡ t.call_id_seq + 1
  pub limit_is : trace.max_depth ≡ t.max_depth
  pub cap_is : trace.buffer_cap_bytes ≡ t.buffer_cap_bytes
  pub buffer_is : trace.buffer ≡ t.buffer
  pub queue_is : world.queue ≡ w.queue
  pub sender_is : world.sender_slot ≡ w.sender_slot
  pub budget : world.bytes_in_memory ≤ w.bytes_in_memory + entry_cost lazy s

Opened-Begun :
    (lazy : LazyCategorised) (s : EntrySnapshots) (t t' : Trace) (w w' : World)
    → begin_with_snapshots_lazy lazy s t w ≡ some (t', w')
    → FitsAddress lazy.fqn_spec
    → t.virtual_depth < t.max_depth
    → t.virtual_depth + 1 < u32_mod
    → w.bytes_in_memory + (call_record_fixed_bytes + entry_cost lazy s) ≤ t.buffer_cap_bytes
    → t.buffer_cap_bytes < u64_mod
    → Begun lazy s t w t' w'
    → Opened lazy s t w
unfolding add would_add stage
Opened-Begun lazy s t t' w w' e fits deep small room word (dropped why et ew) =
    absurd (ground arith)
Opened-Begun lazy s t t' w w' e fits deep small room word (known id found gate _ _ et ew) = record {
  trace = t';
  world = w';
  fn_id = id;
  began = e;
  numbered = ground (arith, found);
  extends = λ q n h. ground (arith, h);
  few = ground arith;
  stack_is = ground arith;
  depth_is = ground arith;
  dropped_is = ground arith;
  seq_is = ground arith;
  limit_is = ground arith;
  cap_is = ground arith;
  buffer_is = ground arith;
  queue_is = ground arith;
  sender_is = ground arith;
  budget = ground arith;
}
Opened-Begun lazy s t t' w w' e fits deep small room word (fresh absent gate _ _ _ et ew) = record {
  trace = t';
  world = w';
  fn_id = t.dictionary.next_fn_id;
  began = e;
  numbered = ground (arith, staged_here lazy s t.dictionary);
  extends = λ q n h. ground (arith, staged-Extends lazy s t.dictionary absent q n h);
  few = ground arith;
  stack_is = ground arith;
  depth_is = ground arith;
  dropped_is = ground arith;
  seq_is = ground arith;
  limit_is = ground arith;
  cap_is = ground arith;
  buffer_is = ground arith;
  queue_is = ground arith;
  sender_is = ground arith;
  budget = ground (arith, new_bytes-entry_cost lazy s t fits);
}

-- A begin above the depth limit that fits under the cap is admitted.
pub opened :
    (lazy : LazyCategorised) (s : EntrySnapshots) (t : Trace) (w : World)
    → FitsAddress lazy.fqn_spec
    → t.virtual_depth < t.max_depth
    → t.virtual_depth + 1 < u32_mod
    → t.call_id_seq + 1 < u64_mod
    → t.dictionary.next_fn_id + 1 < u32_mod
    → w.bytes_in_memory + (call_record_fixed_bytes + entry_cost lazy s) ≤ t.buffer_cap_bytes
    → t.buffer_cap_bytes < u64_mod
    → Opened lazy s t w
opened lazy s t w fits deep small seq next room word =
    let (t', w', e) = begin_total lazy s t w seq next in
    Opened-Begun lazy s t t' w w' e fits deep small room word (begin_cases lazy s t w e)
