-- ===== src/Tests/CallTree.antt =====
-- Two nested calls, a third beyond the depth limit, and a call after them, as a tree.
use php_analyze.Prelude.{◌≡◌, refl, true, false, some, [], map, ◌∷◌, ◌++◌, arith}
use php_analyze.Recorder.Key.{FunctionKey, to_owned}
use php_analyze.Recorder.Dictionary.{probe_ref}
use php_analyze.Recorder.CallSite.{render_len}
use php_analyze.Prelude.{none, ◌%◌}
use php_analyze.Prelude.Int.{pos}
use php_analyze.Prelude.Words.{u64_mod}
use php_analyze.Recorder.Flush as Flush
use php_analyze.Recorder.Request.{Process, rshutdown_release_trace}
use php_analyze.System.{State, run}
use php_analyze.System.Ledger.{queued_bytes}
use php_analyze.System.Stream.{stream}
use php_analyze.System.Tree.{records}
use php_analyze.System.Request.{serve, process_of, serve-events}
use php_analyze.System.Parents.{emissions}
use php_analyze.System.CallTree.{Calls, done, call, events, recorded, decoded}
use php_analyze.System.CallTree.Refines.{HasRoom, run-events}
use php_analyze.Tests.System.{
  idle, limits, identity, world_at_start, state_at_start, site, entry, exit, uuid, empty_dictionary,
}

abbrev tree : Calls
tree =
    call (site (10 ∷ [])) entry exit false
      (call (site (20 ∷ [])) entry exit true (call (site (10 ∷ [])) entry exit false done done)
        done)
      (call (site (20 ∷ [])) entry exit false done done)

tree-HasRoom : HasRoom tree state_at_start
unfolding render_len
tree-HasRoom = record {
  none_dropped = refl;
  sender = refl;
  depth = omega arith;
  calls = omega arith;
  functions = omega arith;
  bytes = omega arith;
  cap_is_word = omega arith;
  addresses = (tt, (tt, (tt, tt, tt), tt), (tt, tt, tt));
}

run-events_example :
    (s' : State) × (run uuid [] (events tree) state_at_start ≡ some s')
    × (emissions s'.trace s'.world s'.delivered
        ≡ emissions state_at_start.trace state_at_start.world state_at_start.delivered
          ++ recorded s'.trace.dictionary 2 0 0 0 tree)
    × (s'.trace.stack ≡ [])
    × (s'.trace.virtual_depth ≡ 0)
    × (s'.trace.dropped_begins ≡ 0)
run-events_example = run-events uuid [] tree state_at_start tree-HasRoom

tree_numbers : map (λ r. r.call_id) (recorded empty_dictionary 2 0 0 0 tree) ≡ 2 ∷ 1 ∷ 3 ∷ []
unfolding recorded probe_ref
tree_numbers = refl

serve-events_example :
    (s : State) × (after : Process) × (serve uuid []
        (λ ws. 7)
        (pos 0)
        identity
        limits
        (events tree)
        exit
        Flush.sent
        []
        idle
      ≡ some (after, s.delivered))
    × (after ≡ rshutdown_release_trace exit Flush.sent (process_of s))
    × (after.current_trace ≡ none)
    × (records (stream s.delivered after.world)
        ≡ records (stream [] world_at_start) ++ recorded s.trace.dictionary 2 0 0 0 tree)
    × (decoded s.trace.dictionary (recorded s.trace.dictionary 2 0 0 0 tree)
        ≡ map some (
            FunctionKey.internal (20 ∷ [])
            ∷ FunctionKey.internal (10 ∷ [])
            ∷ FunctionKey.internal (20 ∷ [])
            ∷ []))
    × (after.world.bytes_in_memory ≡ queued_bytes after.world.queue % u64_mod)
unfolding queued_bytes to_owned
serve-events_example =
    serve-events uuid [] tree (λ ws. 7) (pos 0) identity limits exit [] idle refl refl refl
      (omega arith) tree-HasRoom.bytes (omega arith) tree-HasRoom.addresses
