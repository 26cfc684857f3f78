-- ===== src/Recorder/Dump/Chunks.antt =====
-- The parser at the front of what the writer has written: lines, entries, records and flushes.
use php_analyze.Prelude.{
  ℕ, ◌<◌, ◌≡◌, refl, sym, ap, ◌∙◌, List, [], ◌∷◌, ◌++◌, All, map, append_assoc, append-nil,
}
use php_analyze.Prelude.Text.{Text}
use php_analyze.Prelude.Words.{u64_mod}
use php_analyze.Prelude.Strings.{lines}
use php_analyze.Prelude.Pieces.{IsLine, lines-append}
use php_analyze.Recorder.Types.{DictEntry, CallRecord, PendingBatch}
use php_analyze.Recorder.End.{FlushTrigger}
use php_analyze.Recorder.Dump.{
  writeln, dict_line, dict_lines, call_line, call_lines, flush_line, write_flush_block,
}
use php_analyze.Recorder.Dump.Fields.{parsed_dict, parsed_call, IsTyped}
use php_analyze.Recorder.Dump.Flushes.{parsed_flush}
use php_analyze.Recorder.Dump.Lines.{
  IsPrintable, take_line-dict_line, take_line-call_line, take_line-flush_line, dict_line-IsLine,
  call_line-IsLine, flush_line-IsLine,
}
use php_analyze.Recorder.Dump.Parse.{
  ParsedDict, ParsedCall, ParsedFlush, ParsedDump, take_line, take_lines,
}

-- A flush of a request: its batch, why it was flushed, and the two numbers of its `F:` line.
pub record Flush : Type 0 where
  pub batch : PendingBatch
  pub trigger : FlushTrigger
  pub record_count : ℕ
  pub estimated_bytes : ℕ

-- The parser at the front of some text, with what it has seen.
abbrev pub parse_from : Text → ParsedDump → ParsedDump
parse_from text seen = take_lines (lines text) seen

pub parse_line :
    (line rest : Text) (seen : ParsedDump)
    → IsLine line
    → parse_from (writeln line ++ rest) seen ≡ parse_from rest (take_line line seen)
unfolding take_lines
parse_line line rest seen h =
    rw (append_assoc line (b'\n' ∷ []) rest) (rw (lines-append line rest h) refl)

abbrev pub with_dict : List DictEntry → ParsedDump → ParsedDump
with_dict entries seen = record seen { dict = seen.dict ++ map parsed_dict entries }

abbrev pub with_calls : List CallRecord → ParsedDump → ParsedDump
with_calls calls seen = record seen { calls = seen.calls ++ map parsed_call calls }

pub parse-dict_lines :
    (entries : List DictEntry) (rest : Text) (seen : ParsedDump)
    → All IsPrintable entries
    → parse_from (dict_lines entries ++ rest) seen ≡ parse_from rest (with_dict entries seen)
unfolding dict_lines
parse-dict_lines [] rest seen h =
    ap {A = List ParsedDict} (λ xs. parse_from rest (record seen { dict = xs }))
      (sym (append-nil seen.dict))
parse-dict_lines (entry ∷ entries) rest seen h =
    ap (λ x. parse_from x seen) (append_assoc (writeln (dict_line entry)) (dict_lines entries) rest)
    ∙ parse_line (dict_line entry) (dict_lines entries ++ rest) seen (dict_line-IsLine entry h.0)
    ∙ ap (λ x. parse_from (dict_lines entries ++ rest) x) (take_line-dict_line entry seen h.0)
    ∙ parse-dict_lines entries rest (with_dict (entry ∷ []) seen) h.1
    ∙ ap {A = List ParsedDict} (λ xs. parse_from rest (record seen { dict = xs }))
        (append_assoc seen.dict (parsed_dict entry ∷ []) (map parsed_dict entries))

pub parse-call_lines :
    (calls : List CallRecord) (rest : Text) (seen : ParsedDump)
    → All IsTyped calls
    → parse_from (call_lines calls ++ rest) seen ≡ parse_from rest (with_calls calls seen)
unfolding call_lines
parse-call_lines [] rest seen h =
    ap {A = List ParsedCall} (λ xs. parse_from rest (record seen { calls = xs }))
      (sym (append-nil seen.calls))
parse-call_lines (r ∷ calls) rest seen h =
    ap (λ x. parse_from x seen) (append_assoc (writeln (call_line r)) (call_lines calls) rest)
    ∙ parse_line (call_line r) (call_lines calls ++ rest) seen (call_line-IsLine r)
    ∙ ap (λ x. parse_from (call_lines calls ++ rest) x) (take_line-call_line r seen h.0)
    ∙ parse-call_lines calls rest (with_calls (r ∷ []) seen) h.1
    ∙ ap {A = List ParsedCall} (λ xs. parse_from rest (record seen { calls = xs }))
        (append_assoc seen.calls (parsed_call r ∷ []) (map parsed_call calls))

-- Everything that a flush writes is in the range of its type, and its entries are printable.
pub record IsWritable (f : Flush) : Type 0 where
  pub entries : All IsPrintable f.batch.dict
  pub calls : All IsTyped f.batch.calls
  pub record_count : f.record_count < u64_mod
  pub estimated_bytes : f.estimated_bytes < u64_mod

abbrev pub block : Flush → Text
block f = write_flush_block f.batch f.trigger f.record_count f.estimated_bytes

abbrev pub flush_of : Flush → ParsedFlush
flush_of f = parsed_flush f.trigger f.record_count f.estimated_bytes

abbrev pub with_flush : Flush → ParsedDump → ParsedDump
with_flush f seen =
    with_calls f.batch.calls
      (with_dict f.batch.dict (record seen { flushes = seen.flushes ++ (flush_of f ∷ []) }))

pub parse-block :
    (f : Flush) (rest : Text) (seen : ParsedDump)
    → IsWritable f
    → parse_from (block f ++ rest) seen ≡ parse_from rest (with_flush f seen)
unfolding write_flush_block
parse-block f rest seen h =
    let line = flush_line f.trigger f.record_count f.estimated_bytes in
    let entries = dict_lines f.batch.dict in
    let calls = call_lines f.batch.calls in
    let first : ParsedDump = record seen { flushes = seen.flushes ++ (flush_of f ∷ []) } in
    ap (λ x. parse_from x seen)
      (append_assoc (writeln line) (entries ++ calls) rest
        ∙ ap (λ x. writeln line ++ x) (append_assoc entries calls rest))
    ∙ parse_line line (entries ++ (calls ++ rest)) seen
        (flush_line-IsLine f.trigger f.record_count f.estimated_bytes)
    ∙ ap (λ x. parse_from (entries ++ (calls ++ rest)) x)
        (take_line-flush_line f.trigger f.record_count f.estimated_bytes seen h.record_count
          h.estimated_bytes)
    ∙ parse-dict_lines f.batch.dict (calls ++ rest) first h.entries
    ∙ parse-call_lines f.batch.calls rest (with_dict f.batch.dict first) h.calls

abbrev pub blocks : List Flush → Text
blocks [] = []
blocks (f ∷ fs) = block f ++ blocks fs

abbrev pub with_flushes : List Flush → ParsedDump → ParsedDump
with_flushes [] seen = seen
with_flushes (f ∷ fs) seen = with_flushes fs (with_flush f seen)

pub parse-blocks :
    (fs : List Flush) (rest : Text) (seen : ParsedDump)
    → All IsWritable fs
    → parse_from (blocks fs ++ rest) seen ≡ parse_from rest (with_flushes fs seen)
parse-blocks [] rest seen h = refl
parse-blocks (f ∷ fs) rest seen h =
    ap (λ x. parse_from x seen) (append_assoc (block f) (blocks fs) rest)
    ∙ parse-block f (blocks fs ++ rest) seen h.0
    ∙ parse-blocks fs rest (with_flush f seen) h.1
