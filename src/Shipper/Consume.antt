-- ===== src/Shipper/Consume.antt =====
-- The consume step of shipper/mod.rs and shipper/http.rs: encode a batch, deliver it, account for
-- it. The MessagePack encoder and the rendering of a trace id are libraries'.
use php_analyze.Prelude.{ℕ, Option, none, some, List, [], ◌∷◌, ◌++◌, length}
use php_analyze.Prelude.Text.{Text, codes}
use php_analyze.Prelude.Words.{wrapping_add}
use php_analyze.Prelude.Digits.{decimal}
use php_analyze.World.{World, sub, fetch_add}
use php_analyze.Recorder.Types.{PendingBatch}
use php_analyze.Wire.{Batch}
use php_analyze.Shipper.OnBatch.{
  OnBatch, OnBatchOutcome, sent, dropped, DropReason, encode_failed, fmt,
}
use php_analyze.Shipper.Encode.{batch_to_wire}

unfoldable pub bump_drop_counter_on_drop : PendingBatch → OnBatchOutcome → World → World
unfolding fetch_add
bump_drop_counter_on_drop batch sent w = w
bump_drop_counter_on_drop batch (dropped reason attempts) w =
    fetch_add batch.drop_counter (length batch.calls) w

unfoldable pub push_drop_notice : Text → World → World
push_drop_notice notice w = record w { drop_notices = w.drop_notices ++ (notice ∷ []) }

-- All queued lines, and the world without them.
unfoldable pub drain_drop_notices : World → List Text × World
drain_drop_notices w = (w.drop_notices, record w { drop_notices = [] })

abbrev url_or_empty : Option Text → Text
url_or_empty none = []
url_or_empty (some url) = url

module _ (uuid : List ℕ → Text) where
  unfoldable pub format_drop_notice : PendingBatch → Text → DropReason → ℕ → Text
  unfolding fmt
  format_drop_notice batch server_url reason attempts =
      codes "php-analyze: dropped "
      ++ (decimal (length batch.calls)
          ++ (codes " records from trace "
              ++ (uuid batch.meta_partial.trace_id
                  ++ (codes ": "
                      ++ (server_url
                          ++ (codes " "
                              ++ (fmt reason
                                  ++ (codes " (attempt " ++ (decimal attempts ++ codes ")")))))))))

  -- What follows the outcome: counter, budget, notice, count.
  unfoldable pub settle : PendingBatch → Text → OnBatchOutcome → World → ℕ → World × ℕ
  unfolding bump_drop_counter_on_drop sub push_drop_notice
  settle batch url sent w drained =
      (sub batch.size_estimate (bump_drop_counter_on_drop batch sent w), wrapping_add drained 1)
  settle batch url (dropped reason attempts) w drained = (
    push_drop_notice (format_drop_notice batch url reason attempts)
        (sub batch.size_estimate (bump_drop_counter_on_drop batch (dropped reason attempts) w)),
    drained,
  )

  module _ (to_vec_named : Batch → Option (List ℕ)) (O : OnBatch) where
    unfoldable pub encode_and_handle :
        PendingBatch → Option ℕ → O.State → World → OnBatchOutcome × O.State
    encode_and_handle batch deadline o w = elim (to_vec_named (batch_to_wire uuid batch w)) [
      | none ↦ (dropped encode_failed 0, o)
      | some encoded ↦ O.handle encoded batch.meta_partial.trace_id (length batch.calls) deadline o
    ]

    unfoldable pub drained_consume :
        PendingBatch → Option ℕ → O.State → World → ℕ → O.State × World × ℕ
    unfolding encode_and_handle settle
    drained_consume batch deadline o w drained =
        let (outcome, o') = encode_and_handle batch deadline o w in
        let (w', drained') = settle batch (url_or_empty (O.server_url o')) outcome w drained in
        (o', w', drained')
