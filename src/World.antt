-- ===== src/World.antt =====
-- The process-wide state that the recorder and the shipper share: the budget atomic of
-- recorder/accounting.rs, the drop counters behind `Arc<AtomicU64>`, and the channel of
-- shipper/mod.rs with its sender slot.
use php_analyze.Prelude.{ℕ, Bool, List, ◌∷◌, ◌++◌, [], get_or, set, length}
use php_analyze.Prelude.Words.{wrapping_add, wrapping_sub}
use php_analyze.Prelude.Text.{Text}
use php_analyze.Recorder.Types.{ShipperMessage}

-- `queue` is what the channel holds, oldest first; `sender_slot` says that a sender is installed;
-- `drop_notices` is the queue of lines for the PHP error log.
pub record World : Type 0 where
  pub bytes_in_memory : ℕ
  pub drop_counters : List ℕ
  pub sender_slot : Bool
  pub queue : List ShipperMessage
  pub drop_notices : List Text

-- `accounting::add`, `accounting::sub` and `accounting::snapshot`
unfoldable pub add : ℕ → World → World
add bytes w = record w { bytes_in_memory = wrapping_add w.bytes_in_memory bytes }

unfoldable pub sub : ℕ → World → World
sub bytes w = record w { bytes_in_memory = wrapping_sub w.bytes_in_memory bytes }

unfoldable pub snapshot : World → ℕ
snapshot w = w.bytes_in_memory

-- `AtomicU64::load` and `AtomicU64::fetch_add` of one drop counter.
abbrev pub load : ℕ → World → ℕ
load cell w = get_or w.drop_counters cell 0

unfoldable pub fetch_add : ℕ → ℕ → World → World
fetch_add cell n w = record w {
  drop_counters = set w.drop_counters cell (wrapping_add (load cell w) n);
}

-- `Arc::new(AtomicU64::new(0))`: a fresh cell, and its index.
unfoldable pub new_counter : World → ℕ × World
new_counter w = (length w.drop_counters, record w { drop_counters = w.drop_counters ++ (0 ∷ []) })
