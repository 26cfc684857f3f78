-- ===== src/Shipper/Lifecycle.antt =====
-- The life cycle of the shipper thread in shipper/mod.rs: the channel at MINIT, the thread at the
-- first RINIT, the drain at MSHUTDOWN. Whether the system starts a thread, what its join gives and
-- the clock are arguments.
pub mod Once
use php_analyze.Prelude.{
  ℕ, ◌+◌, Bool, true, false, Option, none, some, List, [], ◌∷◌, ◌++◌, if◌then◌else◌,
}
use php_analyze.Recorder.Types.{ShipperMessage, drain}
use php_analyze.Shipper.Loop.{ShipperExit}

-- The process-wide slots, and the channel with its bound; whether a send gets in is what the channel
-- answers. `threads` and `warnings` count the threads that were started and the
-- warnings that were emitted.
pub record Slots : Type 0 where
  pub sender_slot : Bool
  pub receiver_slot : Bool
  pub spawned : Bool
  pub spawn_failed : Bool
  pub handle : Bool
  pub drain_deadline : Option ℕ
  pub queue : List ShipperMessage
  pub capacity : ℕ
  pub threads : ℕ
  pub warnings : ℕ

-- A new channel is empty, and holds at most `depth` messages.
unfoldable pub install_channel_at_minit : ℕ → Slots → Slots
install_channel_at_minit depth s =
    if s.sender_slot
    then s
    else record s { sender_slot = true; receiver_slot = true; queue = []; capacity = depth }

unfoldable pub emit_spawn_failure_warning : Slots → Slots
emit_spawn_failure_warning s = record s { warnings = s.warnings + 1 }

-- `starts` says whether the system starts the thread.
unfoldable pub spawn_with_on_batch_factory_inner : Bool → Slots → Slots
unfolding emit_spawn_failure_warning
spawn_with_on_batch_factory_inner starts s =
    if s.spawn_failed
    then s
    else if s.spawned
    then s
    else if s.receiver_slot
    then (if starts
        then record s {
          spawned = true;
          receiver_slot = false;
          handle = true;
          threads = s.threads + 1;
        }
        else emit_spawn_failure_warning (record s {
          spawned = false;
          receiver_slot = false;
          spawn_failed = true;
          sender_slot = false;
        }))
    else record s { spawned = false }

unfoldable pub publish_drain_deadline : ℕ → Slots → Slots
publish_drain_deadline deadline s = record s { drain_deadline = some deadline }

pub data JoinOutcome : Type 0 where
  clean : ShipperExit → JoinOutcome
  panicked not_installed : JoinOutcome

-- `accepted` says whether `send_timeout` gets the message into the channel. `joined` is what the join
-- gives; `none` is a panic of the thread.
unfoldable pub drain_and_join_at_mshutdown :
    ℕ → ℕ → Bool → Option ShipperExit → Slots → JoinOutcome × Slots
unfolding publish_drain_deadline
drain_and_join_at_mshutdown now grace accepted joined s =
    let deadline = now + grace in
    let s1 = publish_drain_deadline deadline (record s { sender_slot = false }) in
    let s2 : Slots =
      if accepted then record s1 { queue = s1.queue ++ (drain deadline ∷ []) } else s1 in
    let outcome : JoinOutcome = elim joined [ some exit ↦ clean exit | none ↦ panicked ] in
    if s.sender_slot
    then (if s.handle then (outcome, record s2 { handle = false }) else (not_installed, s2))
    else (not_installed, s)
