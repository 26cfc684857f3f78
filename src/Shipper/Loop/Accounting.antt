-- ===== src/Shipper/Loop/Accounting.antt =====
-- Every batch that comes off the channel gives its bytes back, and is sent, abandoned or noticed.
use php_analyze.Prelude.{
  ℕ, ◌+◌, ◌%◌, ◌<◌, ◌≤◌, suc, ◌≡◌, refl, none, some, Option, List, [], ◌∷◌, arith, length,
  length-append,
}
use php_analyze.Prelude.Text.{Text}
use php_analyze.Prelude.Words.{u64_mod, wrapping_sub, wrapping_add}
use php_analyze.World.{World, sub, fetch_add}
use php_analyze.Recorder.Types.{PendingBatch, ShipperMessage, batch, drain}
use php_analyze.Wire.{Batch}
use php_analyze.Shipper.OnBatch as Seam
use php_analyze.Shipper.OnBatch.{OnBatch, OnBatchOutcome}
use php_analyze.Shipper.Consume.{format_drop_notice, settle, encode_and_handle, drained_consume}
use php_analyze.Shipper.Loop.{
  ShipperExit, Turn, published, received, closed, DrainAnswer, got, timeout, disconnected, abandon,
  run_drain_phase, run_turns, run_loop,
}

-- The number of batches among messages, and what they were billed.
unfoldable pub batch_count : List ShipperMessage → ℕ
batch_count [] = 0
batch_count (batch b ∷ rest) = 1 + batch_count rest
batch_count (drain deadline ∷ rest) = batch_count rest

unfoldable pub batch_bytes : List ShipperMessage → ℕ
batch_bytes [] = 0
batch_bytes (batch b ∷ rest) = b.size_estimate + batch_bytes rest
batch_bytes (drain deadline ∷ rest) = batch_bytes rest

-- The messages that come off the channel: up to the timeout with the residual ones, or up to the
-- closing.
abbrev pub drain_messages : List DrainAnswer → List ShipperMessage
drain_messages [] = []
drain_messages (got message ∷ rest) = message ∷ drain_messages rest
drain_messages (timeout residual ∷ rest) = residual
drain_messages (disconnected ∷ rest) = []

abbrev pub messages : List Turn → List DrainAnswer → List ShipperMessage
messages [] answers = []
messages (published d ∷ rest) answers = drain_messages answers
messages (received (batch b) ∷ rest) answers = batch b ∷ messages rest answers
messages (received (drain deadline) ∷ rest) answers = drain deadline ∷ drain_messages answers
messages (closed ∷ rest) answers = []

-- The batches that an exit reports, and the notices.
abbrev pub reported : ShipperExit → World → ℕ
reported e w = e.batches_drained + e.batches_abandoned_at_deadline + length w.drop_notices

-- The messages have been accounted for: the bytes are back, and an exit reports every batch, while
-- their count fits the counters.
abbrev pub IsSettled : List ShipperMessage → World → ℕ → World × Option ShipperExit → Type 0
IsSettled messages w drained (w', result) =
    ((w'.bytes_in_memory + batch_bytes messages) % u64_mod ≡ w.bytes_in_memory % u64_mod)
    × ((e : ShipperExit)
        → drained + batch_count messages < u64_mod
        → result ≡ some e
        → reported e w' ≡ drained + length w.drop_notices + batch_count messages)

abandon-settled :
    (residual : List ShipperMessage) (w : World) (n : ℕ)
    → (((abandon residual w n).0.bytes_in_memory + batch_bytes residual) % u64_mod
        ≡ w.bytes_in_memory % u64_mod)
      × (n + batch_count residual < u64_mod → (abandon residual w n).1 ≡ n + batch_count residual)
      × ((abandon residual w n).0.drop_notices ≡ w.drop_notices)
unfolding abandon sub batch_count batch_bytes
abandon-settled [] w n = (omega arith, λ few. omega arith, refl)
abandon-settled (batch b ∷ rest) w n =
    let (bytes, count, notices) = abandon-settled rest (sub b.size_estimate w) (wrapping_add n 1) in
    (
      omega (arith, bytes),
      λ few.
          let exact : wrapping_add n 1 ≡ n + 1 = omega arith in
          omega (arith, exact, count (omega (arith, exact))),
      notices,
    )
abandon-settled (drain deadline ∷ rest) w n = abandon-settled rest w n

module _ (uuid : List ℕ → Text) where
  settle-settled :
      (b : PendingBatch) (url : Text) (o : OnBatchOutcome) (w : World) (drained : ℕ)
      → ((settle uuid b url o w drained).0.bytes_in_memory
          ≡ wrapping_sub w.bytes_in_memory b.size_estimate)
        × (drained + 1 < u64_mod
            → (settle uuid b url o w drained).1
                + length (settle uuid b url o w drained).0.drop_notices
              ≡ suc (drained + length w.drop_notices))
        × (drained + 1 < u64_mod → (settle uuid b url o w drained).1 ≤ drained + 1)
  unfolding settle fetch_add sub
  settle-settled b url Seam.sent w drained = (refl, λ few. omega arith, λ few. omega arith)
  settle-settled b url (Seam.dropped reason attempts) w drained = (
    refl,
    λ few.
        omega (
          arith,
          length-append w.drop_notices (format_drop_notice uuid b url reason attempts ∷ []),
        ),
    λ few. omega arith,
  )

  module _ (to_vec_named : Batch → Option (List ℕ)) (O : OnBatch) where
    drained_consume-settled :
        (b : PendingBatch) (deadline : Option ℕ) (o : O.State) (w : World) (drained : ℕ)
        → ((drained_consume uuid to_vec_named O b deadline o w drained).1.bytes_in_memory
            ≡ wrapping_sub w.bytes_in_memory b.size_estimate)
          × (drained + 1 < u64_mod
              → (drained_consume uuid to_vec_named O b deadline o w drained).2
                  + length
                      (drained_consume uuid to_vec_named O b deadline o w drained).1.drop_notices
                ≡ suc (drained + length w.drop_notices))
          × (drained + 1 < u64_mod
              → (drained_consume uuid to_vec_named O b deadline o w drained).2 ≤ drained + 1)
    unfolding drained_consume
    drained_consume-settled b deadline o w drained =
        let r = encode_and_handle uuid to_vec_named O b deadline o w in
        settle-settled b _ r.0 w drained

    run_drain_phase-IsSettled :
        (deadline : ℕ) (answers : List DrainAnswer) (o : O.State) (w : World) (drained : ℕ)
        → IsSettled
            (drain_messages answers)
            w
            drained
            (run_drain_phase uuid to_vec_named O deadline answers o w drained)
    unfolding run_drain_phase batch_count batch_bytes
    run_drain_phase-IsSettled deadline [] o w drained = (omega arith, λ e few h. cc)
    run_drain_phase-IsSettled deadline (got (batch b) ∷ rest) o w drained =
        let r = drained_consume uuid to_vec_named O b (some deadline) o w drained in
        let one = drained_consume-settled b (some deadline) o w drained in
        let more = run_drain_phase-IsSettled deadline rest r.0 r.1 r.2 in
        (
          omega (arith, one.0, more.0),
          λ e few h.
              let here = one.1 (omega arith) in
              let low = one.2 (omega arith) in omega (arith, here, more.1 e (omega (arith, low)) h),
        )
    run_drain_phase-IsSettled deadline (got (drain other) ∷ rest) o w drained =
        run_drain_phase-IsSettled deadline rest o w drained
    run_drain_phase-IsSettled deadline (timeout residual ∷ rest) o w drained = (
      ground (arith, abandon-settled residual w 0),
      λ e few h.
          ground
            (arith, abandon-settled residual w 0, (abandon-settled residual w 0).1 (omega arith)),
    )
    run_drain_phase-IsSettled deadline (disconnected ∷ rest) o w drained =
        (omega arith, λ e few h. ground arith)

    run_turns-IsSettled :
        (turns : List Turn) (answers : List DrainAnswer) (o : O.State) (w : World) (drained : ℕ)
        → IsSettled
            (messages turns answers)
            w
            drained
            (run_turns uuid to_vec_named O turns answers o w drained)
    unfolding run_turns batch_count batch_bytes
    run_turns-IsSettled [] answers o w drained = (omega arith, λ e few h. cc)
    run_turns-IsSettled (published d ∷ rest) answers o w drained =
        run_drain_phase-IsSettled d answers o w drained
    run_turns-IsSettled (received (batch b) ∷ rest) answers o w drained =
        let r = drained_consume uuid to_vec_named O b none o w drained in
        let one = drained_consume-settled b none o w drained in
        let more = run_turns-IsSettled rest answers r.0 r.1 r.2 in
        (
          omega (arith, one.0, more.0),
          λ e few h.
              let here = one.1 (omega arith) in
              let low = one.2 (omega arith) in omega (arith, here, more.1 e (omega (arith, low)) h),
        )
    run_turns-IsSettled (received (drain deadline) ∷ rest) answers o w drained =
        run_drain_phase-IsSettled deadline answers o w drained
    run_turns-IsSettled (closed ∷ rest) answers o w drained = (omega arith, λ e few h. ground arith)

    -- Whatever comes off the channel, whatever the deadline cell holds, and whatever the handler and
    -- the encoder do: the budget has got back, modulo 2 ^ 64, exactly what the batches that came off
    -- the channel were billed for, the abandoned ones included.
    pub run_loop-bytes :
        (turns : List Turn) (answers : List DrainAnswer) (o : O.State) (w : World)
        → ((run_loop uuid to_vec_named O turns answers o w).0.bytes_in_memory
              + batch_bytes (messages turns answers))
            % u64_mod
          ≡ w.bytes_in_memory % u64_mod
    unfolding run_loop
    run_loop-bytes turns answers o w = (run_turns-IsSettled turns answers o w 0).0

    -- When the loop returns, and fewer than 2 ^ 64 batches came off the channel, every one of them
    -- has been counted as drained, counted as abandoned, or put into a drop notice, once.
    pub run_loop-reported :
        (turns : List Turn) (answers : List DrainAnswer) (o : O.State) (w : World) {e : ShipperExit}
        → batch_count (messages turns answers) < u64_mod
        → (run_loop uuid to_vec_named O turns answers o w).1 ≡ some e
        → reported e (run_loop uuid to_vec_named O turns answers o w).0
          ≡ length w.drop_notices + batch_count (messages turns answers)
    unfolding run_loop
    run_loop-reported turns answers o w {e} few h =
        omega (arith, (run_turns-IsSettled turns answers o w 0).1 e (omega arith) h)
