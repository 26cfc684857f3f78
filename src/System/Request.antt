-- ===== src/System/Request.antt =====
-- A whole request of a process: RINIT, the events of the engine and the shipper, RSHUTDOWN.
use php_analyze.Prelude.{
  ℕ, ◌+◌, ◌%◌, ◌≤◌, ◌<◌, ◌≡◌, refl, ap, ◌∙◌, true, Option, none, some, List, [], map, ◌++◌, ◌>>=◌,
  arith, append-nil,
}
use php_analyze.Prelude.Int.{ℤ}
use php_analyze.Prelude.Text.{Text}
use php_analyze.Prelude.Words.{u32_mod, u64_mod}
use php_analyze.World.{World, new_counter}
use php_analyze.Recorder.Key.{HashWrite}
use php_analyze.Recorder.Types.{RequestIdentity, TraceLimits, PendingBatch}
use php_analyze.Recorder.Dictionary.{Dictionary}
use php_analyze.Recorder.Dictionary as Interner
use php_analyze.Recorder.Trace.{Trace, push_record}
use php_analyze.Recorder.Trace as Traces
use php_analyze.Recorder.Flush as Flush
use php_analyze.Recorder.Flush.{SendResult}
use php_analyze.Recorder.End.{ExitSnapshots}
use php_analyze.Recorder.Request.{Process, rinit_allocate_trace, rshutdown_release_trace}
use php_analyze.System.{State, Event, run}
use php_analyze.System.Ledger.{queued_bytes, run-IsBalanced}
use php_analyze.System.Stream.{stream}
use php_analyze.System.Shutdown.{
  closed, rshutdown_release_trace-bytes, rshutdown_release_trace-records,
}
use php_analyze.System.Tree.{records}
use php_analyze.System.Parents.{emissions}
use php_analyze.System.Numbered.{run-IsValid}
use php_analyze.Recorder.Dictionary.Laws.{new-IsValid}
use php_analyze.System.CallTree.{Calls, events, size, cost, FitAddresses, recorded, keys, decoded}
use php_analyze.System.CallTree.Refines.{HasRoom, events-Recorded}

-- The state of the events' schedule at the start of a request.
abbrev pub state_of : List PendingBatch → World → Trace → State
state_of delivered w t = record {
  trace = t;
  world = w;
  drained = 0;
  begun = 0;
  delivered = delivered;
}

abbrev pub process_of : State → Process
process_of s = record { current_trace = some s.trace; world = s.world }

-- The state after the RINIT of a process without a trace.
abbrev pub start :
    (List HashWrite → ℕ) → ℤ → RequestIdentity → TraceLimits → List PendingBatch → World → State
start hash_one now identity limits delivered w =
    let (t, w') = Traces.new hash_one now identity limits w in state_of delivered w' t

pub rinit_allocate_trace-idle :
    (hash_one : List HashWrite → ℕ) (now : ℤ) (identity : RequestIdentity) (limits : TraceLimits)
    (p : Process)
    → p.current_trace ≡ none
    → rinit_allocate_trace hash_one now identity limits p
      ≡ process_of (start hash_one now identity limits [] p.world)
unfolding rinit_allocate_trace
rinit_allocate_trace-idle hash_one now identity limits p idle = rw (idle, rinit_allocate_trace) refl

module _ (uuid : List ℕ → Text) (url : Text) where
  -- The events and the RSHUTDOWN of a process whose request has started.
  unfoldable pub resume :
      List Event
      → ExitSnapshots
      → SendResult
      → List PendingBatch
      → Process
      → Option (Process × List PendingBatch)
  unfolding run rshutdown_release_trace
  resume es exit answer delivered started = do
    t ← started.current_trace
    s ← run uuid url es (state_of delivered started.world t)
    some (rshutdown_release_trace exit answer (process_of s), s.delivered)

  -- What the process and the delivered batches are after a request.
  unfoldable pub serve :
      (List HashWrite → ℕ)
      → ℤ
      → RequestIdentity
      → TraceLimits
      → List Event
      → ExitSnapshots
      → SendResult
      → List PendingBatch
      → Process
      → Option (Process × List PendingBatch)
  unfolding rinit_allocate_trace resume
  serve hash_one now identity limits es exit answer delivered p =
      resume es exit answer delivered (rinit_allocate_trace hash_one now identity limits p)

  serve-run :
      (hash_one : List HashWrite → ℕ) (now : ℤ) (identity : RequestIdentity) (limits : TraceLimits)
      (es : List Event) (exit : ExitSnapshots) (answer : SendResult) (delivered : List PendingBatch)
      (p : Process) (s : State)
      → p.current_trace ≡ none
      → run uuid url es (start hash_one now identity limits delivered p.world) ≡ some s
      → serve hash_one now identity limits es exit answer delivered p
        ≡ some (rshutdown_release_trace exit answer (process_of s), s.delivered)
  unfolding serve resume
  serve-run hash_one now identity limits es exit answer delivered p s idle ran =
      ap (resume es exit answer delivered)
        (rinit_allocate_trace-idle hash_one now identity limits p idle)
      ∙ ap (λ o. o >>= λ s. some (rshutdown_release_trace exit answer (process_of s), s.delivered))
          ran

  room_at_start :
      (f : Calls) (hash_one : List HashWrite → ℕ) (now : ℤ) (identity : RequestIdentity)
      (limits : TraceLimits) (delivered : List PendingBatch) (w : World)
      → w.sender_slot ≡ true
      → size f + 1 < u32_mod
      → w.bytes_in_memory + cost f ≤ limits.buffer_cap_bytes
      → limits.buffer_cap_bytes < u64_mod
      → FitAddresses f
      → HasRoom f (start hash_one now identity limits delivered w)
  unfolding Traces.new Interner.new new_counter
  room_at_start f hash_one now identity limits delivered w sender few bytes word fit = record {
    none_dropped = refl;
    sender = sender;
    depth = omega (arith, few);
    calls = omega (arith, few);
    functions = omega (arith, few);
    bytes = bytes;
    cap_is_word = word;
    addresses = fit;
  }

  -- A whole request that makes a tree of calls, on an installed and accepting channel, in a process
  -- without a trace and with a budget in balance, with room for the tree under a cap below 2 ^ 64,
  -- fewer than 2 ^ 32 - 1 calls, and machine addresses in their names: it runs without a panic and
  -- leaves no trace; the stream of batches holds, in order, the records that it held and those of
  -- the tree (the calls above the depth limit, numbered from 1), whose function numbers the
  -- dictionary at the last event decodes to the functions that were called; and the budget is,
  -- modulo 2 ^ 64, what the batches in the channel are billed for.
  pub serve-events :
      (f : Calls) (hash_one : List HashWrite → ℕ) (now : ℤ) (identity : RequestIdentity)
      (limits : TraceLimits) (exit : ExitSnapshots) (delivered : List PendingBatch) (p : Process)
      → p.current_trace ≡ none
      → p.world.sender_slot ≡ true
      → p.world.bytes_in_memory ≡ queued_bytes p.world.queue % u64_mod
      → size f + 1 < u32_mod
      → p.world.bytes_in_memory + cost f ≤ limits.buffer_cap_bytes
      → limits.buffer_cap_bytes < u64_mod
      → FitAddresses f
      → (s : State) × (after : Process) × (serve hash_one now identity limits
            (events f)
            exit
            Flush.sent
            delivered
            p
          ≡ some (after, s.delivered))
        × (after ≡ rshutdown_release_trace exit Flush.sent (process_of s))
        × (after.current_trace ≡ none)
        × (records (stream s.delivered after.world)
            ≡ records (stream delivered p.world)
              ++ recorded s.trace.dictionary limits.max_depth 0 0 0 f)
        × (decoded s.trace.dictionary (recorded s.trace.dictionary limits.max_depth 0 0 0 f)
            ≡ map some (keys limits.max_depth 0 f))
        × (after.world.bytes_in_memory ≡ queued_bytes after.world.queue % u64_mod)
  unfolding serve
  serve-events f hash_one now identity limits exit delivered p idle sender balanced few bytes word
        fit =
      let begun = start hash_one now identity limits delivered p.world in
      let (s, r) = events-Recorded uuid url f begun (
        room_at_start f hash_one now identity limits delivered p.world sender few bytes word fit) in
      let balance = run-IsBalanced uuid url (events f) begun s r.runs (omega (arith, balanced)) in
      let (gone, given_back) =
        rshutdown_release_trace-bytes exit Flush.sent (process_of s) {t = s.trace} refl balance in
      (
        s,
        rshutdown_release_trace exit Flush.sent (process_of s),
        serve-run hash_one now identity limits (events f) exit Flush.sent delivered p s idle r.runs,
        refl,
        gone,
        (rshutdown_release_trace-records exit s.delivered s.trace s.world (r.sender_is ∙ sender)).1
            ∙ ap (λ frames. emissions s.trace s.world s.delivered ++ map (closed exit) frames)
                r.stack_is
            ∙ append-nil _
            ∙ r.emits s.trace.dictionary (λ q id e. e)
            ∙ ap (λ rs. rs ++ recorded s.trace.dictionary limits.max_depth 0 0 0 f)
                (append-nil (records (stream delivered p.world))),
        r.decodes s.trace.dictionary (λ q id e. e)
            (run-IsValid uuid url (events f) begun s r.runs (new-IsValid hash_one)),
        given_back,
      )
