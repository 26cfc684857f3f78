-- ===== src/Config/Ranges.antt =====
-- The thresholds of a configuration, whatever the INI values are: clamping, and the casts to words.
use php_analyze.Prelude.{ℕ, ◌≤◌, ◌<◌, ◌^◌, inl, inr, true, Option, List, [], arith, Bool-cases}
use php_analyze.Prelude.Int.{ℤ, pos, negsuc, max_ℤ, ◌≤ℤ◌}
use php_analyze.Prelude.Text.{Text, codes}
use native.Mathlib.Nat.{mod-eq_of_lt}
use php_analyze.Prelude.Words.{u16_mod, u64_mod}
use php_analyze.Config.Types.{RawIni, Config, ConfigWarning, FileContent}
use php_analyze.Config.Resolve.{
  clamp_directive, numbers, Numbers, disabled, from_ini_values, unwrap_or, as_word,
}

pub record Between (low high z : ℤ) : Type 0 where
  pub at_least : low ≤ℤ z
  pub at_most : z ≤ℤ high

-- The value that a directive is clamped to lies in its range.
pub clamp_directive-Between :
    (raw : Option ℤ) (default low high : ℤ) (name : Text) (ws : List ConfigWarning)
    → low ≤ℤ high
    → Between low high (clamp_directive raw default (low, high) name ws).0
unfolding clamp_directive
clamp_directive-Between raw default low high name ws h = record {
  at_least = ground arith;
  at_most = ground arith;
}

-- The bounds of the nine numbers.
abbrev pub IsUsable : Config → Type 0
IsUsable c =
    (1 ≤ c.flush_records)
    × (c.flush_records ≤ 1000000000)
    × (1024 ≤ c.flush_bytes)
    × (c.flush_bytes ≤ c.buffer_cap_bytes)
    × (c.buffer_cap_bytes ≤ 10000000000)
    × (1 ≤ c.max_depth)
    × (c.max_depth ≤ 65535)
    × (c.retry_count ≤ 10)
    × (1 ≤ c.retry_backoff)
    × (c.retry_backoff ≤ 60000)
    × (100 ≤ c.http_timeout)
    × (c.http_timeout ≤ 60000)
    × (c.shutdown_grace ≤ 60000)
    × (1 ≤ c.shipper_queue_depth)
    × (c.shipper_queue_depth ≤ 1024)
    × (c.flush_bytes ≤ 1000000000)

abbrev Bounded : Numbers → Type 0
Bounded n =
    Between (pos 1) (pos 1000000000) n.flush_records
    × Between (pos 1024) (pos 1000000000) n.flush_bytes
    × Between (max_ℤ (pos 1024) n.flush_bytes) (pos 10000000000) n.buffer_cap_bytes
    × Between (pos 1) (pos 65535) n.max_depth
    × Between (pos 0) (pos 10) n.retry_count
    × Between (pos 1) (pos 60000) n.retry_backoff_ms
    × Between (pos 100) (pos 60000) n.http_timeout_ms
    × Between (pos 0) (pos 60000) n.shutdown_grace_ms
    × Between (pos 1) (pos 1024) n.shipper_queue_depth

max-le : (z : ℤ) → Between (pos 1024) (pos 1000000000) z → max_ℤ (pos 1024) z ≤ℤ pos 10000000000
max-le z h = ground arith

numbers-Bounded : (raw : RawIni) → Bounded (numbers raw).0
unfolding numbers
numbers-Bounded raw =
    let bytes =
      clamp_directive-Between raw.flush_bytes (pos 1048576) (pos 1024) (pos 1000000000)
        (codes "flush_bytes")
        (clamp_directive raw.flush_records (pos 10000) (pos 1, pos 1000000000)
          (codes "flush_records") []).1
        (omega arith) in
    (
      clamp_directive-Between raw.flush_records (pos 10000) (pos 1) (pos 1000000000)
          (codes "flush_records") [] (omega arith),
      bytes,
      clamp_directive-Between raw.buffer_cap_bytes _ _ _ _ _ (max-le _ bytes),
      clamp_directive-Between raw.max_depth _ (pos 1) (pos 65535) _ _ (omega arith),
      clamp_directive-Between raw.retry_count _ (pos 0) (pos 10) _ _ (omega arith),
      clamp_directive-Between raw.retry_backoff_ms _ (pos 1) (pos 60000) _ _ (omega arith),
      clamp_directive-Between raw.http_timeout_ms _ (pos 100) (pos 60000) _ _ (omega arith),
      clamp_directive-Between raw.shutdown_grace_ms _ (pos 0) (pos 60000) _ _ (omega arith),
      clamp_directive-Between raw.shipper_queue_depth _ (pos 1) (pos 1024) _ _ (omega arith),
    )

-- A number within a range of words survives the cast.
as_word-Between :
    (modulus low high : ℕ) (z : ℤ)
    → high < modulus
    → Between (pos low) (pos high) z
    → (low ≤ as_word modulus z) × (as_word modulus z ≤ high)
as_word-Between modulus low high (pos n) h b =
    rw (mod-eq_of_lt {n = n} {m = modulus} (omega arith)) (omega arith, omega arith)
as_word-Between modulus low high (negsuc n) h b = absurd (omega (arith, b.at_least))

as_word-le :
    (a b : ℤ)
    → Between (pos 1024) (pos 1000000000) a
    → Between (max_ℤ (pos 1024) a) (pos 10000000000) b
    → (as_word u64_mod a ≤ as_word u64_mod b) × (as_word u64_mod b ≤ 10000000000)
as_word-le a b h k = ground arith

-- Every configuration, enabled or not and whatever the INI values: the thresholds lie in their
-- documented ranges after the casts to machine words, and the buffer cap is at least the flush
-- threshold in bytes.
pub from_ini_values-IsUsable :
    (read_to_string : Text → FileContent) (raw : RawIni)
    → IsUsable (from_ini_values read_to_string raw).0
unfolding from_ini_values disabled
from_ini_values-IsUsable read_to_string raw =
    let b = numbers-Bounded raw in
    let n = (numbers raw).0 in
    elim (Bool-cases (unwrap_or raw.enabled true)) [
      | inl on ↦ ground (
        arith,
        as_word-Between u64_mod 1 1000000000 n.flush_records (omega arith) b.0,
        as_word-Between u64_mod 1024 1000000000 n.flush_bytes (omega arith) b.1,
        as_word-le n.flush_bytes n.buffer_cap_bytes b.1 b.2,
        as_word-Between u16_mod 1 65535 n.max_depth (omega arith) b.3,
        as_word-Between (2 ^ 8) 0 10 n.retry_count (omega arith) b.4,
        as_word-Between u64_mod 1 60000 n.retry_backoff_ms (omega arith) b.5,
        as_word-Between u64_mod 100 60000 n.http_timeout_ms (omega arith) b.6,
        as_word-Between u64_mod 0 60000 n.shutdown_grace_ms (omega arith) b.7,
        as_word-Between u64_mod 1 1024 n.shipper_queue_depth (omega arith) b.8,
      )
      | inr quiet ↦ ground arith
    ]
