-- ===== src/Recorder/Dump/Lines.antt =====
-- Every line that the writer writes stands alone, and the parser takes it for what it is.
use php_analyze.Prelude.{
  ℕ, ◌<◌, ◌≡◌, Bool, true, false, some, List, [], ◌∷◌, ◌++◌, arith, ltb, if◌then◌else◌,
}
use php_analyze.Prelude.Text.{Text, codes}
use php_analyze.Prelude.Words.{u32_mod, u64_mod}
use php_analyze.Prelude.Digits.{decimal, lower_hex}
use php_analyze.Prelude.Decimal.{decimal_ℤ, parse_unsigned-decimal}
use php_analyze.Prelude.Pieces.{
  Avoids, IsLine, IsPlain, IsLine-cons, IsLine-append, IsPlain-IsLine, IsPlain-append,
  IsPlain-Avoids, decimal-IsPlain, decimal_ℤ-IsPlain, lower_hex-IsPlain,
}
use php_analyze.Recorder.Types.{
  FunctionKind, function, method, closure, internal, DictEntry, CallRecord,
}
use php_analyze.Recorder.End.{FlushTrigger, records, bytes, rshutdown}
use php_analyze.Recorder.Dump.{
  as_str, kind_name, bool_name, dict_line, call_line, call_fields, dict_fields, drop_line,
  flush_line, flush_fields, shutdown_line, hex_bytes, ◌then_colon◌,
}
use php_analyze.Recorder.Dump.Fields.{
  parsed_dict, parsed_call, parse_call_line-call_fields, parse_dict_line-dict_fields, IsTyped,
}
use php_analyze.Recorder.Dump.Flushes.{parsed_flush, parse_flush_line-flush_fields, trim-decimal}
use php_analyze.Recorder.Dump.Parse.{ParsedDump, take_line}

-- An entry that the format can carry: its numbers are in range, no tab or newline is in its name,
-- and its file stands alone on a line.
pub record IsPrintable (entry : DictEntry) : Type 0 where
  pub fn_id : entry.fn_id < u32_mod
  pub line : entry.line < u32_mod
  pub no_tab : Avoids b'\t' entry.fqn
  pub no_newline : Avoids b'\n' entry.fqn
  pub file : IsLine entry.file

pub take_line-dict_line :
    (entry : DictEntry) (seen : ParsedDump)
    → IsPrintable entry
    → take_line (dict_line entry) seen
      ≡ record seen { dict = seen.dict ++ (parsed_dict entry ∷ []) }
unfolding take_line dict_line
take_line-dict_line entry seen p =
    ground (arith, parse_dict_line-dict_fields entry p.fn_id p.line p.no_tab)

pub take_line-call_line :
    (r : CallRecord) (seen : ParsedDump)
    → IsTyped r
    → take_line (call_line r) seen ≡ record seen { calls = seen.calls ++ (parsed_call r ∷ []) }
unfolding take_line call_line
take_line-call_line r seen p = ground (arith, parse_call_line-call_fields r p)

pub take_line-flush_line :
    (trigger : FlushTrigger) (count estimated : ℕ) (seen : ParsedDump)
    → count < u64_mod
    → estimated < u64_mod
    → take_line (flush_line trigger count estimated) seen
      ≡ record seen { flushes = seen.flushes ++ (parsed_flush trigger count estimated ∷ []) }
unfolding take_line flush_line
take_line-flush_line trigger count estimated seen h k =
    ground (arith, parse_flush_line-flush_fields trigger count estimated h k)

pub take_line-drop_line :
    (n : ℕ) (seen : ParsedDump)
    → n < u64_mod
    → take_line (drop_line n) seen ≡ record seen { dropped_records = some n }
unfolding take_line drop_line
take_line-drop_line n seen h = ground (arith, trim-decimal n, parse_unsigned-decimal u64_mod n h)

pub take_line-shutdown_line :
    (id : List ℕ) (seen : ParsedDump)
    → take_line (shutdown_line id) seen ≡ record seen { rshutdown_marker_seen = true }
unfolding take_line shutdown_line
take_line-shutdown_line id seen = ground arith

IsPlain-then_colon : (s t : Text) → IsPlain s → IsPlain t → IsPlain (s then_colon t)
IsPlain-then_colon s t h k = IsPlain-append s (b':' ∷ t) h ((λ e. omega arith, λ e. omega arith), k)

kind_name-IsPlain : (k : FunctionKind) → IsPlain (kind_name k)
unfolding kind_name
kind_name-IsPlain function = ground arith
kind_name-IsPlain method = ground arith
kind_name-IsPlain closure = ground arith
kind_name-IsPlain internal = ground arith

bool_name-IsPlain : (a : Bool) → IsPlain (bool_name a)
unfolding bool_name
bool_name-IsPlain true = ground arith
bool_name-IsPlain false = ground arith

as_str-IsPlain : (trigger : FlushTrigger) → IsPlain (as_str trigger)
unfolding as_str
as_str-IsPlain records = ground arith
as_str-IsPlain bytes = ground arith
as_str-IsPlain rshutdown = ground arith

hex_byte-IsPlain : (b : ℕ) → IsPlain (if ltb b 16 then b'0' ∷ lower_hex b else lower_hex b)
hex_byte-IsPlain b =
    elim (ltb b 16) as (λ c. IsPlain (if c then b'0' ∷ lower_hex b else lower_hex b)) [
      | true ↦ ((λ e. omega arith, λ e. omega arith), lower_hex-IsPlain b)
      | false ↦ lower_hex-IsPlain b
    ]

hex_bytes-IsPlain : (id : List ℕ) → IsPlain (hex_bytes id)
unfolding hex_bytes
hex_bytes-IsPlain [] = tt
hex_bytes-IsPlain (b ∷ rest) =
    IsPlain-append (if ltb b 16 then b'0' ∷ lower_hex b else lower_hex b) (hex_bytes rest)
      (hex_byte-IsPlain b) (hex_bytes-IsPlain rest)

IsLine-then_colon : (s t : Text) → IsPlain s → IsLine t → IsLine (s then_colon t)
IsLine-then_colon s t h l =
    IsLine-append s b':' t (IsPlain-Avoids s h)
      (IsLine-cons b':' t (λ e. omega arith) (λ e. omega arith) l)

dict_fields-IsLine : (entry : DictEntry) → IsPrintable entry → IsLine (dict_fields entry)
dict_fields-IsLine entry p =
    IsLine-then_colon (decimal entry.fn_id) _ (decimal-IsPlain entry.fn_id) (
      IsLine-then_colon (kind_name entry.kind) _ (kind_name-IsPlain entry.kind) (
        IsLine-then_colon (decimal entry.line) _ (decimal-IsPlain entry.line) (
          IsLine-append entry.fqn b'\t' entry.file p.no_newline
            (IsLine-cons b'\t' entry.file (λ e. omega arith) (λ e. omega arith) p.file))))

pub dict_line-IsLine : (entry : DictEntry) → IsPrintable entry → IsLine (dict_line entry)
unfolding dict_line
dict_line-IsLine entry p = (
  λ e. omega arith,
  IsLine-cons b':' (dict_fields entry) (λ e. omega arith) (λ e. omega arith)
      (dict_fields-IsLine entry p),
)

call_fields-IsPlain : (r : CallRecord) → IsPlain (call_fields r)
call_fields-IsPlain r = IsPlain-then_colon (decimal r.call_id) _ (decimal-IsPlain r.call_id) (
    IsPlain-then_colon (decimal r.parent) _ (decimal-IsPlain r.parent) (
      IsPlain-then_colon (decimal r.fn_id) _ (decimal-IsPlain r.fn_id) (
        IsPlain-then_colon (decimal r.depth) _ (decimal-IsPlain r.depth) (
          IsPlain-then_colon (decimal_ℤ r.t_in_ns) _ (decimal_ℤ-IsPlain r.t_in_ns) (
            IsPlain-then_colon (decimal_ℤ r.t_out_ns) _ (decimal_ℤ-IsPlain r.t_out_ns) (
              IsPlain-then_colon (decimal_ℤ r.cpu_u_ns) _ (decimal_ℤ-IsPlain r.cpu_u_ns) (
                IsPlain-then_colon (decimal_ℤ r.cpu_s_ns) _ (decimal_ℤ-IsPlain r.cpu_s_ns) (
                  IsPlain-then_colon (decimal_ℤ r.mem_in_bytes) _ (decimal_ℤ-IsPlain r.mem_in_bytes)
                    (IsPlain-then_colon (decimal_ℤ r.mem_out_bytes) (bool_name r.abnormal_exit)
                      (decimal_ℤ-IsPlain r.mem_out_bytes)
                      (bool_name-IsPlain r.abnormal_exit))))))))))

pub call_line-IsLine : (r : CallRecord) → IsLine (call_line r)
unfolding call_line
call_line-IsLine r =
    IsPlain-IsLine (codes "C:" ++ call_fields r)
      (IsPlain-append (codes "C:") (call_fields r) (ground arith) (call_fields-IsPlain r))

flush_fields-IsPlain :
    (trigger : FlushTrigger) (count estimated : ℕ) → IsPlain (flush_fields trigger count estimated)
flush_fields-IsPlain trigger count estimated =
    IsPlain-append (codes "record_count=" ++ decimal count) _
      (IsPlain-append (codes "record_count=") (decimal count) (ground arith)
        (decimal-IsPlain count))
      (
        (λ e. omega arith, λ e. omega arith),
        IsPlain-append (codes "estimated_bytes=" ++ decimal estimated) _
            (IsPlain-append (codes "estimated_bytes=") (decimal estimated) (ground arith)
              (decimal-IsPlain estimated))
            (IsPlain-append (codes " trigger=") (as_str trigger) (ground arith)
              (as_str-IsPlain trigger)),
      )

pub flush_line-IsLine :
    (trigger : FlushTrigger) (count estimated : ℕ) → IsLine (flush_line trigger count estimated)
unfolding flush_line
flush_line-IsLine trigger count estimated =
    IsPlain-IsLine (codes "F:" ++ flush_fields trigger count estimated) (
      IsPlain-append (codes "F:") (flush_fields trigger count estimated) (ground arith)
        (flush_fields-IsPlain trigger count estimated))

pub drop_line-IsLine : (n : ℕ) → IsLine (drop_line n)
unfolding drop_line
drop_line-IsLine n =
    IsPlain-IsLine (codes "DROP: dropped_records=" ++ decimal n) (
      IsPlain-append (codes "DROP: dropped_records=") (decimal n) (ground arith)
        (decimal-IsPlain n))

pub shutdown_line-IsLine : (id : List ℕ) → IsLine (shutdown_line id)
unfolding shutdown_line
shutdown_line-IsLine id = IsPlain-IsLine (codes "RSHUTDOWN: dropped trace_id=" ++ hex_bytes id) (
    IsPlain-append (codes "RSHUTDOWN: dropped trace_id=") (hex_bytes id) (ground arith)
      (hex_bytes-IsPlain id))
