-- ===== src/System/SoftCap.antt =====
-- The cap on the memory budget: the gate admits calls, their records are billed when they end.
use php_analyze.Prelude.{
  ℕ, ◌+◌, ◌*◌, ◌≤◌, ◌<◌, ◌≡◌, some, List, [], ◌∷◌, arith, length, Bool, All, ap,
}
use mathlib.Core.Path.{subst}
use php_analyze.Prelude.Text.{Text}
use php_analyze.Prelude.Words.{u32_mod, u64_mod}
use php_analyze.World.{World, add, sub, fetch_add}
use php_analyze.Recorder.Types.{call_record_fixed_bytes, batch}
use php_analyze.Recorder.Trace.{Trace, flush_into_pending_batch}
use php_analyze.Recorder.Begin.{EntrySnapshots, lazy_build}
use php_analyze.Recorder.Begin.Cases.{Begun, dropped, known, fresh, new_bytes, entry_cost}
use php_analyze.Recorder.CallSite.{LazyCategorised}
use php_analyze.Recorder.CallSite.Laws.{FitsAddress, length-render}
use php_analyze.Recorder.End.{ExitSnapshots, flush_and_send}
use php_analyze.Recorder.End.Cases.{Ended, skipped, unpaired, emitted, flushed, after_emit}
use php_analyze.Recorder.Flush.{SendResult, sent, full, disconnected}
use php_analyze.System.{State, Event, begins, run}
use php_analyze.System.Cases.{Stepped, begun, ended, idle, discarded, shipped, run_induction}
use php_analyze.System.Pairing.{IsPaired, Begun-IsPaired, Ended-IsPaired}
use php_analyze.System.Ledger.{queued_bytes, queued_bytes-append, settle-bytes}

-- The budget, with a record's worth set aside for every open frame, stays under the cap plus a
-- record's worth for every admissible depth, and is exactly what trace and channel hold.
abbrev pub IsWithin : ℕ → ℕ → Trace → World → Type 0
IsWithin cap depth t w =
    (t.buffer_cap_bytes ≡ cap)
    × (t.max_depth ≡ depth)
    × (w.bytes_in_memory ≡ t.buffer_estimated_bytes + queued_bytes w.queue)
    × (w.bytes_in_memory + length t.stack * call_record_fixed_bytes
        ≤ cap + depth * call_record_fixed_bytes)

-- The bytes that a new function is billed are those that the gate has projected.
pub new_bytes-entry_cost :
    (lazy : LazyCategorised) (s : EntrySnapshots) (t : Trace)
    → FitsAddress lazy.fqn_spec
    → new_bytes lazy s t.dictionary ≡ entry_cost lazy s
unfolding lazy_build
new_bytes-entry_cost lazy s t fits = ground (arith, length-render lazy.fqn_spec fits)

module _ (cap depth : ℕ) (room : cap + depth * call_record_fixed_bytes < u64_mod) where
  Begun-IsWithin :
      {lazy : LazyCategorised} {s : EntrySnapshots} {t t' : Trace} {w w' : World}
      → Begun lazy s t w t' w'
      → FitsAddress lazy.fqn_spec
      → t.virtual_depth + 1 < u32_mod
      → IsPaired t
      → IsWithin cap depth t w
      → IsWithin cap depth t' w'
  unfolding add fetch_add
  Begun-IsWithin (dropped _ et ew) fits small paired p = ground arith
  Begun-IsWithin {lazy} {s} {t} {t'} {w} {w'} (known id found deep gate _ et ew) fits small paired
        p =
      ground arith
  Begun-IsWithin {lazy} {s} {t} (fresh absent deep gate _ _ et ew) fits small paired p =
      ground (arith, new_bytes-entry_cost lazy s t fits)

  flush-IsWithin :
      (answer : SendResult) (t : Trace) (w : World)
      → IsWithin cap depth t w
      → IsWithin cap depth (flush_and_send answer t w).0 (flush_and_send answer t w).1
  unfolding flush_and_send queued_bytes sub
  flush-IsWithin sent t w p =
      ground (arith, queued_bytes-append w.queue (batch (flush_into_pending_batch t).0 ∷ []))
  flush-IsWithin full t w p = ground arith
  flush-IsWithin disconnected t w p = ground arith

  Ended-IsWithin :
      {x : ExitSnapshots} {a : Bool} {r : SendResult} {t t' : Trace} {w w' : World}
      → Ended x a r t w t' w'
      → IsWithin cap depth t w
      → IsWithin cap depth t' w'
  unfolding add
  Ended-IsWithin (skipped _ et ew) p = ground arith
  Ended-IsWithin (unpaired _ _ et ew) p = ground arith
  Ended-IsWithin (emitted frame rest _ es _ et ew) p = ground (arith, ap length es)
  Ended-IsWithin {x} {a} {r} {t} {t'} {w} {w'} (flushed frame rest _ es _ e) p =
      ground (arith, ap length es, flush-IsWithin r (after_emit x a r frame rest t) (add 64 w))

  -- While fewer begins than a 32-bit counter holds have been seen.
  abbrev Holds : State → Type 0
  Holds s =
      s.begun < u32_mod
      → IsPaired s.trace × (s.trace.virtual_depth ≤ s.begun) × IsWithin cap depth s.trace s.world

  -- The address in the name of a site is a machine address.
  abbrev Fits : Event → Type 0
  Fits (begins lazy entry) = FitsAddress lazy.fqn_spec
  Fits _ = Unit

  module _ (uuid : List ℕ → Text) (url : Text) where
    keep : (e : Event) (s s' : State) → Fits e → Stepped uuid url e s s' → Holds s → Holds s'
    unfolding queued_bytes
    keep e s s' fits (begun lazy entry is b n _ _) p h =
        let (paired, low, within) = p (omega arith) in
        let after = Begun-IsPaired b (omega arith) paired in
        (after.0, omega arith, Begun-IsWithin b (subst Fits is fits) (omega arith) paired within)
    keep e s s' fits (ended x a r _ d n _ _) p h =
        let (paired, low, within) = p (omega arith) in
        let after = Ended-IsPaired d paired in (after.0, omega arith, Ended-IsWithin d within)
    keep e s s' fits (idle same) p h = ground (arith, p)
    keep e s s' fits (discarded deadline rest eq same) p h = ground (arith, p, ap queued_bytes eq)
    keep e s s' fits (shipped o b rest _ eq et n _ ew) p h = ground (
      arith,
      p,
      ap queued_bytes eq,
      settle-bytes uuid url o b (record s.world { queue = rest }) s.drained,
    )

    -- Over any schedule, with the cap and 64 bytes for every admissible depth together below 2 ^ 64,
    -- and fewer than 2 ^ 32 begins: the process-wide budget never exceeds the cap by more than 64
    -- bytes for every admissible depth, and is exactly, with no wrap-around, what the trace and the
    -- channel hold; if it was so at the start, with the depth of the trace paired.
    -- The addresses in the names of the call sites are machine addresses.
    pub run-IsWithin :
        (es : List Event) (s s' : State)
        → All Fits es
        → run uuid url es s ≡ some s'
        → s'.begun < u32_mod
        → IsPaired s.trace
        → s.trace.virtual_depth ≤ s.begun
        → IsWithin cap depth s.trace s.world
        → IsWithin cap depth s'.trace s'.world
    run-IsWithin es s s' fits h n paired low within =
        (run_induction uuid url Holds Fits keep es s s' fits h (λ _. (paired, low, within)) n).2
