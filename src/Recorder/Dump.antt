-- ===== src/Recorder/Dump.antt =====
-- The writer of recorder/dump.rs, the diagnostic dump of a request as text. Text is a list of
-- characters here. The file system is a parameter: what appending to a file makes of it; an error of
-- the file is logged and otherwise ignored, so that it is a way of appending.
pub mod Parse
pub mod Fields
pub mod Flushes
pub mod Lines
pub mod Chunks
pub mod RoundTrip
use php_analyze.Prelude.{
  ℕ, ◌/◌, ◌%◌, Bool, true, false, Option, none, some, List, [], ◌∷◌, ◌++◌, ltb, if◌then◌else◌,
}
use php_analyze.Prelude.Text.{Text, codes}
use php_analyze.Prelude.Digits.{decimal, lower_hex}
use php_analyze.Prelude.Decimal.{decimal_ℤ}
use php_analyze.World.{World, load}
use php_analyze.Recorder.Types.{
  FunctionKind, function, method, closure, internal, DictEntry, CallRecord, PendingBatch,
}
use php_analyze.Recorder.Trace.{Trace}
use php_analyze.Recorder.End.{FlushTrigger}

-- `FlushTrigger::as_str`
unfoldable pub as_str : FlushTrigger → Text
as_str FlushTrigger.records = codes "records"
as_str FlushTrigger.bytes = codes "bytes"
as_str FlushTrigger.rshutdown = codes "rshutdown"

unfoldable pub kind_name : FunctionKind → Text
kind_name function = codes "function"
kind_name method = codes "method"
kind_name closure = codes "closure"
kind_name internal = codes "internal"

-- `{b}` for a Boolean.
unfoldable pub bool_name : Bool → Text
bool_name true = codes "true"
bool_name false = codes "false"

-- A field and the separator behind it.
infixr 60 ◌then_colon◌
abbrev pub ◌then_colon◌ : Text → Text → Text
field then_colon rest = field ++ (b':' ∷ rest)

abbrev pub writeln : Text → Text
writeln line = line ++ (b'\n' ∷ [])

-- The fields of a `D:` line, a `C:` line and an `F:` line.
abbrev pub dict_fields : DictEntry → Text
dict_fields entry =
    decimal entry.fn_id
    then_colon kind_name entry.kind
    then_colon decimal entry.line
    then_colon (entry.fqn ++ (b'\t' ∷ entry.file))

unfoldable pub dict_line : DictEntry → Text
unfolding decimal kind_name
dict_line entry = codes "D:" ++ dict_fields entry

unfoldable pub write_dict_line : DictEntry → Text
unfolding dict_line
write_dict_line entry = writeln (dict_line entry)

abbrev pub call_fields : CallRecord → Text
call_fields r =
    decimal r.call_id
    then_colon decimal r.parent
    then_colon decimal r.fn_id
    then_colon decimal r.depth
    then_colon decimal_ℤ r.t_in_ns
    then_colon decimal_ℤ r.t_out_ns
    then_colon decimal_ℤ r.cpu_u_ns
    then_colon decimal_ℤ r.cpu_s_ns
    then_colon decimal_ℤ r.mem_in_bytes
    then_colon decimal_ℤ r.mem_out_bytes
    then_colon bool_name r.abnormal_exit

unfoldable pub call_line : CallRecord → Text
unfolding decimal decimal_ℤ bool_name
call_line r = codes "C:" ++ call_fields r

unfoldable pub dict_lines : List DictEntry → Text
unfolding write_dict_line
dict_lines [] = []
dict_lines (entry ∷ rest) = write_dict_line entry ++ dict_lines rest

unfoldable pub call_lines : List CallRecord → Text
unfolding call_line
call_lines [] = []
call_lines (r ∷ rest) = writeln (call_line r) ++ call_lines rest

abbrev pub flush_fields : FlushTrigger → ℕ → ℕ → Text
flush_fields trigger record_count estimated_bytes =
    (codes "record_count" ++ (b'=' ∷ decimal record_count))
    ++ (b' '
        ∷ ((codes "estimated_bytes" ++ (b'=' ∷ decimal estimated_bytes))
            ++ (b' ' ∷ (codes "trigger" ++ (b'=' ∷ as_str trigger)))))

unfoldable pub flush_line : FlushTrigger → ℕ → ℕ → Text
unfolding decimal as_str
flush_line trigger record_count estimated_bytes =
    codes "F:" ++ flush_fields trigger record_count estimated_bytes

-- What `write_flush_block` appends.
unfoldable pub write_flush_block : PendingBatch → FlushTrigger → ℕ → ℕ → Text
unfolding flush_line dict_lines call_lines
write_flush_block b trigger record_count estimated_bytes =
    writeln (flush_line trigger record_count estimated_bytes)
    ++ (dict_lines b.dict ++ call_lines b.calls)

-- `{b:02x}` for every byte.
unfoldable pub hex_bytes : List ℕ → Text
unfolding lower_hex
hex_bytes [] = []
hex_bytes (b ∷ rest) = (if ltb b 16 then b'0' ∷ lower_hex b else lower_hex b) ++ hex_bytes rest

unfoldable pub drop_line : ℕ → Text
unfolding decimal
drop_line dropped_records = codes "DROP: dropped_records=" ++ decimal dropped_records

unfoldable pub shutdown_line : List ℕ → Text
unfolding hex_bytes
shutdown_line trace_id = codes "RSHUTDOWN: dropped trace_id=" ++ hex_bytes trace_id

-- What `write_trace_to_path` appends.
unfoldable pub write_trace_to_path : Trace → World → Text
unfolding dict_lines call_lines drop_line shutdown_line
write_trace_to_path t w =
    dict_lines t.dictionary.new_entries
    ++ (call_lines t.buffer
        ++ (writeln (drop_line (load t.drop_counter w)) ++ writeln (shutdown_line t.trace_id)))

-- From the value of PHP_ANALYZE_DUMP_PATH.
unfoldable pub read_dump_path : Option Text → Option Text
read_dump_path none = none
read_dump_path (some []) = none
read_dump_path (some (c ∷ path)) = some (c ∷ path)

module _ {Files : Type 0} (append : Text → Text → Files → Files) (variable : Option Text) where
  unfoldable pub record_flush : PendingBatch → FlushTrigger → ℕ → ℕ → Files → Files
  unfolding read_dump_path write_flush_block
  record_flush b trigger record_count estimated_bytes files = elim (read_dump_path variable) [
    | none ↦ files
    | some path ↦ append path (write_flush_block b trigger record_count estimated_bytes) files
  ]

  unfoldable pub write_trace_if_path_set : Trace → World → Files → Files
  unfolding read_dump_path write_trace_to_path
  write_trace_if_path_set t w files = elim (read_dump_path variable) [
    | none ↦ files
    | some path ↦ append path (write_trace_to_path t w) files
  ]
