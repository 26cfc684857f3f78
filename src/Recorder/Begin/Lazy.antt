-- ===== src/Recorder/Begin/Lazy.antt =====
-- The hot path against the owning reference path of a begin.
use php_analyze.Prelude.{
  ℕ, Option, some, if◌then◌else◌, Bool, ◌≡◌, ◌+◌, sym, ap, ◌∙◌, arith, length,
}
use mathlib.Core.Path.{ap₂, fun_ext}
use php_analyze.World.{World}
use php_analyze.Recorder.Key.{as_ref}
use php_analyze.Recorder.Key.Laws.{as_ref-to_owned}
use php_analyze.Recorder.Types.{call_record_fixed_bytes, dict_entry_fixed_bytes}
use php_analyze.Recorder.Dictionary.{contains_key_ref}
use php_analyze.Recorder.Trace.{Trace}
use php_analyze.Recorder.CallSite.{Categorised, LazyCategorised, render_len}
use php_analyze.Recorder.CallSite.Laws.{Agrees, FitsAddress, length-render}
use php_analyze.Recorder.Begin.{
  EntrySnapshots, gates, would_add, dict_miss_cost_ref, begin_with_snapshots,
  begin_with_snapshots_lazy, begin_would_accept, begin_lazy_would_accept,
  begin_with_snapshots_accept, begin_with_snapshots_lazy_accept, push_frame, lazy_build,
  owned_build, deeper,
}

module _ (c : Categorised) (lazy : LazyCategorised) (same : Agrees c lazy) where
  same_ref : as_ref c.key ≡ lazy.key_ref
  same_ref = ap as_ref (sym same.same_key) ∙ as_ref-to_owned lazy.key_ref

  same_build_at : (id : ℕ) → owned_build c id ≡ lazy_build lazy id
  unfolding owned_build lazy_build
  same_build_at id = ground arith

  same_build : owned_build c ≡ lazy_build lazy
  same_build = fun_ext same_build_at

  same_cost :
      (t : Trace)
      → FitsAddress lazy.fqn_spec
      → call_record_fixed_bytes + dict_miss_cost_ref t (as_ref c.key) c.fqn c.file
        ≡ would_add
            (contains_key_ref t.dictionary lazy.key_ref)
            (dict_entry_fixed_bytes + render_len lazy.fqn_spec + length lazy.file)
  unfolding dict_miss_cost_ref would_add
  same_cost t fits = rw (same_ref) (
      ground (
        arith,
        ap length same.same_fqn,
        ap length same.same_file,
        length-render lazy.fqn_spec fits,
      ))

  same_gates :
      (t : Trace) (w : World)
      → FitsAddress lazy.fqn_spec
      → begin_would_accept c t w ≡ begin_lazy_would_accept lazy t w
  unfolding begin_would_accept begin_lazy_would_accept
  same_gates t w fits = ap (λ n. gates n (deeper t) w) (same_cost (deeper t) fits)

  same_tail : begin_with_snapshots_accept c ≡ begin_with_snapshots_lazy_accept lazy
  unfolding begin_with_snapshots_accept begin_with_snapshots_lazy_accept
  same_tail = ap₂ push_frame same_ref same_build

  -- A begin from its accepting tail and the answer of its gates.
  abbrev chosen :
      EntrySnapshots
      → (EntrySnapshots → Trace → World → Option (Trace × World))
      → Bool × Trace × World
      → Option (Trace × World)
  chosen snapshots tail (accepted, t, w) = if accepted then tail snapshots t w else some (t, w)

  -- The owning begin and the lazy begin of a site on which the two categorisations agree, with a
  -- machine address in its name: the same gates, the same drop or frame, the same entry and the
  -- same bytes, on every trace and every process state.
  pub begin_with_snapshots-begin_with_snapshots_lazy :
      (snapshots : EntrySnapshots) (t : Trace) (w : World)
      → FitsAddress lazy.fqn_spec
      → begin_with_snapshots c snapshots t w ≡ begin_with_snapshots_lazy lazy snapshots t w
  unfolding begin_with_snapshots begin_with_snapshots_lazy
  begin_with_snapshots-begin_with_snapshots_lazy snapshots t w fits =
      ap₂ (chosen snapshots) same_tail (same_gates t w fits)
