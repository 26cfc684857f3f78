-- ===== src/Recorder/Flush.antt =====
-- recorder/flush.rs: a batch is offered to the channel. What `try_send` of the channel library
-- answers is an argument: the channel may be full, or its receiver may be gone.
use php_analyze.Prelude.{[], ◌∷◌, ◌++◌, length, if◌then◌else◌}
use php_analyze.World.{World, sub, fetch_add}
use php_analyze.Recorder.Types.{PendingBatch, batch}

pub data SendResult : Type 0 where
  sent full disconnected : SendResult

-- The release build; in a debug build the branch with no sender panics.
unfoldable pub try_send_batch : SendResult → PendingBatch → World → World
unfolding sub fetch_add
try_send_batch answer b w =
    if w.sender_slot
    then elim answer [
      | sent ↦ record w { queue = w.queue ++ (batch b ∷ []) }
      | full ↦ fetch_add b.drop_counter (length b.calls) (sub b.size_estimate w)
      | disconnected ↦ sub b.size_estimate w
    ]
    else sub b.size_estimate w
