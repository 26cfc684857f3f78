-- ===== src/Recorder/Begin/Cases.antt =====
-- The three ways in which a begin ends: dropped at a gate, accepted with a function that the
-- dictionary knows, and accepted with a new one.
use php_analyze.Prelude.{
  ℕ, ◌+◌, ◌-◌, ◌%◌, ◌≤◌, ◌<◌, ◌≡◌, ◌⊎◌, inl, inr, none, some, ◌∷◌, arith, length, Option-cases,
  Bool-cases, ltb, ltb→lt, ltb→le, false,
}
use php_analyze.Prelude.Words.{u16_mod, u32_mod, u64_mod, wrapping_add, saturating_add}
use php_analyze.World.{World, add, fetch_add}
use php_analyze.Recorder.Key.{hash_ref}
use php_analyze.Recorder.Types.{
  CallFrame, contribution, call_record_fixed_bytes, dict_entry_fixed_bytes,
}
use php_analyze.Recorder.Dictionary.{Dictionary, probe_ref, contains_key_ref, stage, intern_ref}
use php_analyze.Recorder.Trace.{Trace}
use php_analyze.Recorder.CallSite.{LazyCategorised, render_len}
use php_analyze.Recorder.Begin.{
  EntrySnapshots, parent_of, would_add, begin_with_snapshots_lazy_accept, lazy_build,
  begin_with_snapshots_lazy,
}

module _ (lazy : LazyCategorised) (s : EntrySnapshots) where
  -- The frame that an accepted begin pushes.
  abbrev pub frame_of : ℕ → Trace → CallFrame
  frame_of fn_id t = record {
    call_id = t.call_id_seq + 1;
    parent = parent_of t.stack;
    fn_id = fn_id;
    depth = (saturating_add u32_mod t.virtual_depth 1 - 1) % u16_mod;
    t_in_ns = s.t_in_ns;
    cpu_u_in_ns = s.cpu_u_in_ns;
    cpu_s_in_ns = s.cpu_s_in_ns;
    mem_in_bytes = s.mem_in_bytes;
  }

  abbrev pub depth_after : Trace → ℕ
  depth_after t = saturating_add u32_mod t.virtual_depth 1

  -- The bytes of the entry that a new function would take.
  abbrev pub entry_cost : ℕ
  entry_cost = dict_entry_fixed_bytes + render_len lazy.fqn_spec + length lazy.file

  -- The trace after a drop, and after the two kinds of acceptance.
  abbrev pub after_drop : Trace → Trace
  after_drop t = record t {
    virtual_depth = depth_after t;
    dropped_begins = saturating_add u32_mod t.dropped_begins 1;
  }

  abbrev pub after_known : ℕ → Trace → Trace
  after_known fn_id t = record t {
    virtual_depth = depth_after t;
    call_id_seq = t.call_id_seq + 1;
    stack = frame_of fn_id t ∷ t.stack;
  }

  abbrev pub staged : Dictionary → Dictionary
  staged d =
      stage (record d { next_fn_id = d.next_fn_id + 1 }) (d.hash_one (hash_ref lazy.key_ref))
        (lazy_build lazy d.next_fn_id).0 d.next_fn_id (lazy_build lazy d.next_fn_id).1

  abbrev pub new_bytes : Dictionary → ℕ
  new_bytes d = contribution (lazy_build lazy d.next_fn_id).1

  abbrev pub after_new : Trace → Trace
  after_new t = record t {
    virtual_depth = depth_after t;
    call_id_seq = t.call_id_seq + 1;
    stack = frame_of t.dictionary.next_fn_id t ∷ t.stack;
    dictionary = staged t.dictionary;
    buffer_estimated_bytes = wrapping_add t.buffer_estimated_bytes (new_bytes t.dictionary);
  }

  -- The budget that the cap gate compares with the cap.
  abbrev pub projected : Trace → World → ℕ
  projected t w =
      saturating_add u64_mod w.bytes_in_memory
        (would_add (contains_key_ref t.dictionary lazy.key_ref) entry_cost)

  pub data Begun (t : Trace) (w : World) (t' : Trace) (w' : World) : Type 0 where
    dropped :
        (t.max_depth < depth_after t) ⊎ (t.buffer_cap_bytes < projected t w)
        → t' ≡ after_drop t
        → w' ≡ fetch_add t.drop_counter 1 w
        → Begun t w t' w'
    known :
        (fn_id : ℕ)
        → probe_ref t.dictionary lazy.key_ref ≡ some fn_id
        → depth_after t ≤ t.max_depth
        → saturating_add u64_mod w.bytes_in_memory call_record_fixed_bytes ≤ t.buffer_cap_bytes
        → t.call_id_seq + 1 < u64_mod
        → t' ≡ after_known fn_id t
        → w' ≡ w
        → Begun t w t' w'
    fresh :
        probe_ref t.dictionary lazy.key_ref ≡ none
        → depth_after t ≤ t.max_depth
        → saturating_add u64_mod w.bytes_in_memory (call_record_fixed_bytes + entry_cost)
          ≤ t.buffer_cap_bytes
        → t.call_id_seq + 1 < u64_mod
        → t.dictionary.next_fn_id + 1 < u32_mod
        → t' ≡ after_new t
        → w' ≡ add (new_bytes t.dictionary) w
        → Begun t w t' w'

  -- An accepting tail that returns has numbered the call and the function.
  accept_cases :
      (t : Trace) (w : World) {t' : Trace} {w' : World}
      → begin_with_snapshots_lazy_accept lazy s (record t { virtual_depth = depth_after t }) w
        ≡ some (t', w')
      → (t.call_id_seq + 1 < u64_mod)
        × (((fn_id : ℕ) × (probe_ref t.dictionary lazy.key_ref ≡ some fn_id)
              × (t' ≡ after_known fn_id t)
              × (w' ≡ w))
            ⊎ ((probe_ref t.dictionary lazy.key_ref ≡ none)
                × (t.dictionary.next_fn_id + 1 < u32_mod)
                × (t' ≡ after_new t)
                × (w' ≡ add (new_bytes t.dictionary) w)))
  unfolding begin_with_snapshots_lazy_accept intern_ref
  accept_cases t w {t'} {w'} e = elim (Option-cases (probe_ref t.dictionary lazy.key_ref)) [
    | inl absent ↦ elim (Bool-cases (ltb (t.dictionary.next_fn_id + 1) u32_mod)) [
      | inl fits ↦ (ground arith, inr (absent, ltb→lt _ _ fits, ground arith, ground arith))
      | inr over ↦ absurd (ground arith)
    ]
    | inr (id, found) ↦ (ground arith, inl (id, found, ground arith, ground arith))
  ]

  tail_of :
      (t : Trace) (w : World) {t' : Trace} {w' : World}
      → ltb t.max_depth (depth_after t) ≡ false
      → ltb t.buffer_cap_bytes (projected t w) ≡ false
      → begin_with_snapshots_lazy lazy s t w ≡ some (t', w')
      → begin_with_snapshots_lazy_accept lazy s (record t { virtual_depth = depth_after t }) w
        ≡ some (t', w')
  unfolding begin_with_snapshots_lazy
  tail_of t w deep fits e = ground arith

  accepted :
      (t : Trace) (w : World) {t' : Trace} {w' : World}
      → ltb t.max_depth (depth_after t) ≡ false
      → ltb t.buffer_cap_bytes (projected t w) ≡ false
      → begin_with_snapshots_lazy lazy s t w ≡ some (t', w')
      → Begun t w t' w'
  unfolding would_add contains_key_ref
  accepted t w deep fits e =
      let (seq, ways) = accept_cases t w (tail_of t w deep fits e) in
      elim ways [
        | inl (id, found, et, ew) ↦ known id found (ltb→le _ _ deep) (ground arith) seq et ew
        | inr (absent, next, et, ew) ↦ fresh absent (ltb→le _ _ deep) (ground arith) seq next et ew
      ]

  pub begin_cases :
      (t : Trace) (w : World) {t' : Trace} {w' : World}
      → begin_with_snapshots_lazy lazy s t w ≡ some (t', w')
      → Begun t w t' w'
  unfolding begin_with_snapshots_lazy
  begin_cases t w {t'} {w'} e = elim (Bool-cases (ltb t.max_depth (depth_after t))) [
    | inl over ↦ dropped (inl (ltb→lt _ _ over)) (ground arith) (ground arith)
    | inr deep ↦ elim (Bool-cases (ltb t.buffer_cap_bytes (projected t w))) [
      | inl over ↦ dropped (inr (ltb→lt _ _ over)) (ground arith) (ground arith)
      | inr fits ↦ accepted t w deep fits e
    ]
  ]
