-- ===== src/System/CallTree/Refines.antt =====
-- The recorder implements the call tree: what it emits for the events of a tree of calls is what the
-- tree says.
use php_analyze.Prelude.{
  ℕ, suc, ◌+◌, ◌≤◌, ◌<◌, ◌≡◌, ◌∙◌, some, true, Bool, List, ◌++◌, arith, ltb, Bool-cases, inl, inr,
  ltb→lt, ltb→le,
}
use php_analyze.Prelude.Text.{Text}
use php_analyze.Prelude.Words.{u32_mod, u64_mod}
use php_analyze.Recorder.CallSite.{LazyCategorised}
use php_analyze.Recorder.Begin.{EntrySnapshots, parent_of}
use php_analyze.Recorder.Begin.Cases.{frame_of}
use php_analyze.Recorder.End.{ExitSnapshots}
use php_analyze.System.{State, run}
use php_analyze.System.Parents.{emissions}
use php_analyze.System.CallTree.{
  Calls, done, call, events, size, cost, FitAddresses, kept, recorded,
}
use php_analyze.System.CallTree.Open.{Opened, opened}
use php_analyze.System.CallTree.Close.{Closed, closed}
use php_analyze.System.CallTree.Pruned.{IsPruned, events-IsPruned}
use php_analyze.System.CallTree.Recorded.{Recorded, Recorded-done, Recorded-pruned}
use php_analyze.System.CallTree.Kept.{Recorded-kept}

-- The counters, the cap and the addresses leave room for every call of a tree; nothing is dropped
-- so far, and a sender is installed.
pub record HasRoom (f : Calls) (s : State) : Type 0 where
  pub none_dropped : s.trace.dropped_begins ≡ 0
  pub sender : s.world.sender_slot ≡ true
  pub depth : s.trace.virtual_depth + size f < u32_mod
  pub calls : s.trace.call_id_seq + size f < u64_mod
  pub functions : s.trace.dictionary.next_fn_id + size f < u32_mod
  pub bytes : s.world.bytes_in_memory + cost f ≤ s.trace.buffer_cap_bytes
  pub cap_is_word : s.trace.buffer_cap_bytes < u64_mod
  pub addresses : FitAddresses f

module _ (uuid : List ℕ → Text) (url : Text) where
  room_inside :
      (lazy : LazyCategorised) (entry : EntrySnapshots) (exit : ExitSnapshots) (abnormal : Bool)
      (inside after : Calls) (s : State) (o : Opened lazy entry s.trace s.world)
      → HasRoom (call lazy entry exit abnormal inside after) s
      → HasRoom inside (record s { trace = o.trace; world = o.world; begun = s.begun + 1 })
  room_inside lazy entry exit abnormal inside after s o h = record {
    none_dropped = o.dropped_is ∙ h.none_dropped;
    sender = o.sender_is ∙ h.sender;
    depth = omega (arith, h.depth, o.depth_is);
    calls = omega (arith, h.calls, o.seq_is);
    functions = omega (arith, h.functions, o.few);
    bytes = omega (arith, h.bytes, o.budget, o.cap_is);
    cap_is_word = omega (arith, h.cap_is_word, o.cap_is);
    addresses = h.addresses.1;
  }

  kept-le-size : (max_depth depth : ℕ) (f : Calls) → kept max_depth depth f ≤ size f
  kept-le-size max_depth depth done = omega arith
  kept-le-size max_depth depth (call lazy entry exit abnormal inside after) =
      ground (arith, kept-le-size max_depth (suc depth) inside, kept-le-size max_depth depth after)

  room_after :
      (lazy : LazyCategorised) (entry : EntrySnapshots) (exit : ExitSnapshots) (abnormal : Bool)
      (inside after : Calls) (s s2 : State) (o : Opened lazy entry s.trace s.world)
      (r : Recorded uuid url inside
        (record s { trace = o.trace; world = o.world; begun = s.begun + 1 })
        s2)
      (c : Closed exit abnormal s2.delivered
        (frame_of lazy entry o.fn_id s.trace)
        s.trace.stack
        s2.trace
        s2.world)
      → HasRoom (call lazy entry exit abnormal inside after) s
      → HasRoom after (record s2 { trace = c.trace; world = c.world })
  room_after lazy entry exit abnormal inside after s s2 o r c h = record {
    none_dropped = c.dropped_is ∙ r.dropped_is ∙ o.dropped_is ∙ h.none_dropped;
    sender = c.sender_is ∙ r.sender_is ∙ o.sender_is ∙ h.sender;
    depth = omega (arith, h.depth, o.depth_is, r.depth_is, c.depth_is);
    calls = omega (
      arith,
      h.calls,
      o.seq_is,
      r.seq_is,
      c.seq_is,
      kept-le-size o.trace.max_depth o.trace.virtual_depth inside,
    );
    functions = omega (arith, h.functions, o.few, r.few, c.few);
    bytes = omega (arith, h.bytes, o.budget, r.budget, c.budget, o.cap_is, r.cap_is, c.cap_is);
    cap_is_word = omega (arith, h.cap_is_word, o.cap_is, r.cap_is, c.cap_is);
    addresses = h.addresses.2;
  }

  room_pruned :
      (lazy : LazyCategorised) (entry : EntrySnapshots) (exit : ExitSnapshots) (abnormal : Bool)
      (inside after : Calls) (s m : State)
      → IsPruned uuid url (call lazy entry exit abnormal inside done) s m
      → HasRoom (call lazy entry exit abnormal inside after) s
      → HasRoom after m
  room_pruned lazy entry exit abnormal inside after s m (_, et, ew, _) h = record {
    none_dropped = ground (arith, h.none_dropped);
    sender = ground (arith, h.sender);
    depth = ground (arith, h.depth);
    calls = ground (arith, h.calls);
    functions = ground (arith, h.functions);
    bytes = ground (arith, h.bytes);
    cap_is_word = ground (arith, h.cap_is_word);
    addresses = h.addresses.2;
  }

  pub events-Recorded :
      (f : Calls) (s : State) → HasRoom f s → (s' : State) × Recorded uuid url f s s'
  events-Recorded done s h = (s, Recorded-done uuid url s)
  events-Recorded (call lazy entry exit abnormal inside after) s h =
      elim (Bool-cases (ltb s.trace.virtual_depth s.trace.max_depth)) [
        | inl above ↦
            let small : s.trace.virtual_depth + 1 < u32_mod = omega (arith, h.depth) in
            let o =
              opened lazy entry s.trace s.world h.addresses.0 (ltb→lt _ _ above) small
                (omega (arith, h.calls)) (omega (arith, h.functions)) (omega (arith, h.bytes))
                h.cap_is_word in
            let (s2, r) =
              events-Recorded inside _ (room_inside lazy entry exit abnormal inside after s o h) in
            let c =
              closed exit abnormal s2.delivered (frame_of lazy entry o.fn_id s.trace) s.trace.stack
                s2.trace s2.world (r.dropped_is ∙ o.dropped_is ∙ h.none_dropped)
                (r.stack_is ∙ o.stack_is) (r.sender_is ∙ o.sender_is ∙ h.sender) in
            let (s', q) =
              events-Recorded after _
                (room_after lazy entry exit abnormal inside after s s2 o r c h) in
            (
              s',
              Recorded-kept uuid url lazy entry exit abnormal inside after s s2 s' o r c q
                  (ltb→lt _ _ above) small,
            )
        | inr below ↦
            let deep = ltb→le _ _ below in
            let (m, p) =
              events-IsPruned uuid url (call lazy entry exit abnormal inside done) s deep
                (omega (arith, h.depth)) (omega (arith, h.depth, h.none_dropped)) in
            let (s', q) =
              events-Recorded after m (room_pruned lazy entry exit abnormal inside after s m p h) in
            (s', Recorded-pruned uuid url lazy entry exit abnormal inside after s m s' deep p q)
      ]

  -- The events of a tree of calls, with a channel that accepts every batch, from a state that has
  -- room for the tree: they run without a panic; the records that leave the stack are, in order,
  -- those of the tree (the calls above the depth limit, each after the calls that it made, numbered
  -- by the order of their begins, with the number of the enclosing call, the depth, the readings and
  -- the number that the dictionary has for the function at the end); and the open frames, the depth
  -- and the count of dropped begins are as before.
  pub run-events :
      (f : Calls) (s : State)
      → HasRoom f s
      → (s' : State) × (run uuid url (events f) s ≡ some s')
        × (emissions s'.trace s'.world s'.delivered
            ≡ emissions s.trace s.world s.delivered
              ++ recorded s'.trace.dictionary s.trace.max_depth
                  (parent_of s.trace.stack)
                  s.trace.virtual_depth
                  s.trace.call_id_seq
                  f)
        × (s'.trace.stack ≡ s.trace.stack)
        × (s'.trace.virtual_depth ≡ s.trace.virtual_depth)
        × (s'.trace.dropped_begins ≡ 0)
  run-events f s h =
      let (s', r) = events-Recorded f s h in
      (
        s',
        r.runs,
        r.emits s'.trace.dictionary (λ q id e. e),
        r.stack_is,
        r.depth_is,
        r.dropped_is ∙ h.none_dropped,
      )
