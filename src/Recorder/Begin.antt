-- ===== src/Recorder/Begin.antt =====
-- The begin side of recorder/observer.rs: the gates and the accepting tails. The readings of the
-- clocks are arguments. `none` is the panic of an overflowing counter.
pub mod Cases
pub mod Lazy
use php_analyze.Prelude.{
  ℕ, ◌+◌, ◌-◌, ◌%◌, Bool, true, false, Option, some, List, [], ◌∷◌, length, ltb, if◌then◌else◌,
  ◌>>=◌,
}
use php_analyze.Prelude.Int.{ℤ}
use php_analyze.Prelude.Words.{u16_mod, u32_mod, u64_mod, saturating_add}
use php_analyze.World.{World, snapshot}
use php_analyze.Recorder.Key.{FunctionKey, FunctionKeyRef, as_ref, to_owned}
use php_analyze.Recorder.Types.{
  CallFrame, DictEntry, call_record_fixed_bytes, dict_entry_fixed_bytes,
}
use php_analyze.Recorder.Dictionary.{contains_key_ref}
use php_analyze.Recorder.Trace.{Trace, next_call_id, push_dict_entry_via_intern_ref, record_drop}
use php_analyze.Recorder.CallSite.{Categorised, LazyCategorised, render, render_len}

pub record EntrySnapshots : Type 0 where
  pub t_in_ns : ℤ
  pub cpu_u_in_ns : ℤ
  pub cpu_s_in_ns : ℤ
  pub mem_in_bytes : ℤ

-- What the cap gate adds up for a call whose entry would take `n` bytes.
unfoldable pub would_add : Bool → ℕ → ℕ
would_add known n = if known then call_record_fixed_bytes else call_record_fixed_bytes + n

-- The two gates, after the depth has been counted.
unfoldable pub gates : ℕ → Trace → World → Bool × Trace × World
unfolding record_drop snapshot
gates cost t w =
    let (t', w') = record_drop t w in
    if ltb t.max_depth t.virtual_depth
    then (false, t', w')
    else if ltb t.buffer_cap_bytes (saturating_add u64_mod (snapshot w) cost)
    then (false, t', w')
    else (true, t, w)

abbrev deeper : Trace → Trace
deeper t = record t { virtual_depth = saturating_add u32_mod t.virtual_depth 1 }

unfoldable pub begin_lazy_would_accept : LazyCategorised → Trace → World → Bool × Trace × World
unfolding gates would_add contains_key_ref
begin_lazy_would_accept lazy t w =
    gates
      (would_add (contains_key_ref t.dictionary lazy.key_ref)
        (dict_entry_fixed_bytes + render_len lazy.fqn_spec + length lazy.file))
      (deeper t) w

unfoldable pub dict_miss_cost_ref : Trace → FunctionKeyRef → List ℕ → List ℕ → ℕ
unfolding contains_key_ref
dict_miss_cost_ref t key_ref fqn file =
    if contains_key_ref t.dictionary key_ref
    then 0
    else dict_entry_fixed_bytes + length fqn + length file

unfoldable pub begin_would_accept : Categorised → Trace → World → Bool × Trace × World
unfolding gates dict_miss_cost_ref
begin_would_accept c t w =
    gates (call_record_fixed_bytes + dict_miss_cost_ref t (as_ref c.key) c.fqn c.file) (deeper t) w

abbrev pub parent_of : List CallFrame → ℕ
parent_of [] = 0
parent_of (frame ∷ rest) = frame.call_id

-- The accepting tail: a call number, the function's number, and a frame on the stack.
unfoldable pub push_frame :
    FunctionKeyRef
    → (ℕ → FunctionKey × DictEntry)
    → EntrySnapshots
    → Trace
    → World
    → Option (Trace × World)
unfolding next_call_id push_dict_entry_via_intern_ref
push_frame key_ref build snapshots t w = do
  (call_id, t1) ← next_call_id t
  let parent = parent_of t1.stack
  let depth = (t1.virtual_depth - 1) % u16_mod
  (fn_id, t2, w') ← push_dict_entry_via_intern_ref key_ref build t1 w
  let frame : CallFrame = record {
    call_id = call_id;
    parent = parent;
    fn_id = fn_id;
    depth = depth;
    t_in_ns = snapshots.t_in_ns;
    cpu_u_in_ns = snapshots.cpu_u_in_ns;
    cpu_s_in_ns = snapshots.cpu_s_in_ns;
    mem_in_bytes = snapshots.mem_in_bytes;
  }
  some (record t2 { stack = frame ∷ t2.stack }, w')

-- The build closures of the two accepting tails.
unfoldable pub lazy_build : LazyCategorised → ℕ → FunctionKey × DictEntry
lazy_build lazy fn_id = (
  to_owned lazy.key_ref,
  record {
    fn_id = fn_id;
    fqn = render lazy.fqn_spec;
    file = lazy.file;
    line = lazy.line;
    kind = lazy.kind;
  },
)

unfoldable pub owned_build : Categorised → ℕ → FunctionKey × DictEntry
owned_build c fn_id =
    (c.key, record { fn_id = fn_id; fqn = c.fqn; file = c.file; line = c.line; kind = c.kind })

unfoldable pub begin_with_snapshots_lazy_accept :
    LazyCategorised → EntrySnapshots → Trace → World → Option (Trace × World)
unfolding push_frame lazy_build
begin_with_snapshots_lazy_accept lazy = push_frame lazy.key_ref (lazy_build lazy)

unfoldable pub begin_with_snapshots_accept :
    Categorised → EntrySnapshots → Trace → World → Option (Trace × World)
unfolding push_frame owned_build
begin_with_snapshots_accept c = push_frame (as_ref c.key) (owned_build c)

unfoldable pub begin_with_snapshots_lazy :
    LazyCategorised → EntrySnapshots → Trace → World → Option (Trace × World)
unfolding begin_lazy_would_accept begin_with_snapshots_lazy_accept
begin_with_snapshots_lazy lazy snapshots t w =
    let (accepted, t', w') = begin_lazy_would_accept lazy t w in
    if accepted then begin_with_snapshots_lazy_accept lazy snapshots t' w' else some (t', w')

unfoldable pub begin_with_snapshots :
    Categorised → EntrySnapshots → Trace → World → Option (Trace × World)
unfolding begin_would_accept begin_with_snapshots_accept
begin_with_snapshots c snapshots t w =
    let (accepted, t', w') = begin_would_accept c t w in
    if accepted then begin_with_snapshots_accept c snapshots t' w' else some (t', w')
