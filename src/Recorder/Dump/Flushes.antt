-- ===== src/Recorder/Dump/Flushes.antt =====
-- The `F:` line and the number of the `DROP:` line are read back.
use php_analyze.Prelude.{ℕ, ◌<◌, ◌≡◌, refl, ◌∙◌, ap, some, [], ◌∷◌, ◌++◌, All, arith}
use php_analyze.Prelude.Text.{Text, codes}
use php_analyze.Prelude.Words.{u64_mod}
use php_analyze.Prelude.Digits.{decimal}
use php_analyze.Prelude.Decimal.{IsDigit, decimal-IsDigit, parse_unsigned-decimal}
use php_analyze.Prelude.Strings.{split_at_whitespace, is_whitespace, trim, trim_start, trim_end}
use php_analyze.Prelude.Pieces.{IsWord, split_at_whitespace-append, split_at_whitespace_alone}
use php_analyze.Recorder.End.{FlushTrigger, records, bytes, rshutdown}
use php_analyze.Recorder.Dump.{as_str, flush_fields}
use php_analyze.Recorder.Dump.Parse.{ParsedFlush, parse_flush_line}

-- What is read back of a flush.
abbrev pub parsed_flush : FlushTrigger → ℕ → ℕ → ParsedFlush
parsed_flush trigger count bytes_estimated = record {
  record_count = count;
  estimated_bytes = bytes_estimated;
  trigger = as_str trigger;
}

digits-IsWord : (s : Text) → All IsDigit s → IsWord s
unfolding is_whitespace
digits-IsWord [] h = tt
digits-IsWord (c ∷ s) h = (ground arith, digits-IsWord s h.1)

IsWord-append : (s t : Text) → IsWord s → IsWord t → IsWord (s ++ t)
IsWord-append [] t h k = k
IsWord-append (c ∷ s) t h k = (h.0, IsWord-append s t h.1 k)

trim_start-digits : (s : Text) → All IsDigit s → trim_start s ≡ s
unfolding trim_start is_whitespace
trim_start-digits [] h = refl
trim_start-digits (c ∷ s) h = ground arith

trim_end-digits : (s : Text) → All IsDigit s → trim_end s ≡ s
unfolding trim_end is_whitespace
trim_end-digits [] h = refl
trim_end-digits (c ∷ []) h = ground arith
trim_end-digits (c ∷ d ∷ s) h = ground (arith, trim_end-digits (d ∷ s) h.1)

pub trim-decimal : (n : ℕ) → trim (decimal n) ≡ decimal n
unfolding trim
trim-decimal n =
    ap trim_end (trim_start-digits (decimal n) (decimal-IsDigit n))
    ∙ trim_end-digits (decimal n) (decimal-IsDigit n)

part-IsWord : (key : Text) (n : ℕ) → IsWord key → IsWord (key ++ (b'=' ∷ decimal n))
unfolding is_whitespace
part-IsWord key n h =
    IsWord-append key (b'=' ∷ decimal n) h (refl, digits-IsWord (decimal n) (decimal-IsDigit n))

as_str-IsWord : (trigger : FlushTrigger) → IsWord (codes "trigger" ++ (b'=' ∷ as_str trigger))
unfolding as_str is_whitespace
as_str-IsWord records = ground arith
as_str-IsWord bytes = ground arith
as_str-IsWord rshutdown = ground arith

-- The three parts of an `F:` line.
abbrev count_part : ℕ → Text
count_part count = codes "record_count" ++ (b'=' ∷ decimal count)

abbrev bytes_part : ℕ → Text
bytes_part estimated = codes "estimated_bytes" ++ (b'=' ∷ decimal estimated)

abbrev trigger_part : FlushTrigger → Text
trigger_part trigger = codes "trigger" ++ (b'=' ∷ as_str trigger)

split-flush_fields :
    (trigger : FlushTrigger) (count estimated : ℕ)
    → split_at_whitespace (flush_fields trigger count estimated)
      ≡ count_part count ∷ bytes_part estimated ∷ trigger_part trigger ∷ []
unfolding is_whitespace
split-flush_fields trigger count estimated =
    split_at_whitespace-append (count_part count)
      (bytes_part estimated ++ (b' ' ∷ trigger_part trigger))
      (part-IsWord (codes "record_count") count (ground arith))
    ∙ ap (λ ps. count_part count ∷ ps)
        (split_at_whitespace-append (bytes_part estimated) (trigger_part trigger)
          (part-IsWord (codes "estimated_bytes") estimated (ground arith)))
    ∙ ap (λ ps. count_part count ∷ bytes_part estimated ∷ ps)
        (split_at_whitespace_alone (trigger_part trigger) (as_str-IsWord trigger))

-- A flush is read back from its `F:` line.
pub parse_flush_line-flush_fields :
    (trigger : FlushTrigger) (count estimated : ℕ)
    → count < u64_mod
    → estimated < u64_mod
    → parse_flush_line (flush_fields trigger count estimated)
      ≡ some (parsed_flush trigger count estimated)
unfolding parse_flush_line
parse_flush_line-flush_fields trigger count estimated h k =
    rw (split-flush_fields trigger count estimated) (
      ground
        (arith, parse_unsigned-decimal u64_mod count h, parse_unsigned-decimal u64_mod estimated k))
