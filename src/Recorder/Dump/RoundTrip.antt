-- ===== src/Recorder/Dump/RoundTrip.antt =====
-- What the writer has written for a request, the parser reads back.
use php_analyze.Prelude.{
  ℕ, ◌<◌, ◌≡◌, refl, sym, ap, ◌∙◌, true, some, List, [], ◌∷◌, ◌++◌, All, map, arith, append_assoc,
  append-nil,
}
use php_analyze.Prelude.Text.{Text}
use php_analyze.Prelude.Words.{u64_mod}
use php_analyze.Prelude.Strings.{lines}
use php_analyze.World.{World, load}
use php_analyze.Recorder.Types.{DictEntry, CallRecord}
use php_analyze.Recorder.Trace.{Trace}
use php_analyze.Recorder.Dump.{
  writeln, call_lines, drop_line, shutdown_line, write_trace_to_path, record_flush,
  write_trace_if_path_set,
}
use php_analyze.Recorder.Dump.Fields.{parsed_dict, parsed_call, IsTyped}
use php_analyze.Recorder.Dump.Lines.{
  IsPrintable, take_line-drop_line, take_line-shutdown_line, drop_line-IsLine, shutdown_line-IsLine,
}
use php_analyze.Recorder.Dump.Parse.{ParsedDump, take_lines, nothing_seen, parse_dump}
use php_analyze.Recorder.Dump.Chunks.{
  Flush, flush_of, parse_from, parse_line, with_dict, with_calls, with_flush, with_flushes, block,
  blocks, IsWritable, parse-dict_lines, parse-call_lines, parse-blocks,
}

abbrev pub all_entries : List Flush → List DictEntry
all_entries [] = []
all_entries (f ∷ fs) = f.batch.dict ++ all_entries fs

abbrev pub all_calls : List Flush → List CallRecord
all_calls [] = []
all_calls (f ∷ fs) = f.batch.calls ++ all_calls fs

map-append : {A B : Type 0} (g : A → B) (xs ys : List A) → map g (xs ++ ys) ≡ map g xs ++ map g ys
map-append g [] ys = refl
map-append g (x ∷ xs) ys = ap (λ r. g x ∷ r) (map-append g xs ys)

-- The flushes of a request and the lines at its end, appended to one file; a path is set.
abbrev append_to : Text → Text → Text → Text
append_to path chunk file = file ++ chunk

abbrev record_flushes : Text → List Flush → Text → Text
record_flushes path [] file = file
record_flushes path (f ∷ fs) file =
    record_flushes path fs
      (record_flush append_to (some path) f.batch f.trigger f.record_count f.estimated_bytes file)

abbrev pub dump_of : Text → List Flush → Trace → World → Text
dump_of path fs t w = write_trace_if_path_set append_to (some path) t w (record_flushes path fs [])

record_flushes-blocks :
    (c : ℕ) (path : Text) (fs : List Flush) (file : Text)
    → record_flushes (c ∷ path) fs file ≡ file ++ blocks fs
unfolding record_flush
record_flushes-blocks c path [] file = sym (append-nil file)
record_flushes-blocks c path (f ∷ fs) file =
    record_flushes-blocks c path fs (file ++ block f) ∙ append_assoc file (block f) (blocks fs)

-- What is seen after the flushes, in one piece.
abbrev seen_after : List Flush → ParsedDump → ParsedDump
seen_after fs seen = record seen {
  dict = seen.dict ++ map parsed_dict (all_entries fs);
  calls = seen.calls ++ map parsed_call (all_calls fs);
  flushes = seen.flushes ++ map flush_of fs;
}

with_flushes-seen_after :
    (fs : List Flush) (seen : ParsedDump) → with_flushes fs seen ≡ seen_after fs seen
with_flushes-seen_after [] seen =
    ground (arith, append-nil seen.dict, append-nil seen.calls, append-nil seen.flushes)
with_flushes-seen_after (f ∷ fs) seen =
    with_flushes-seen_after fs (with_flush f seen)
    ∙ ground (
      arith,
      map-append parsed_dict f.batch.dict (all_entries fs),
      map-append parsed_call f.batch.calls (all_calls fs),
      append_assoc seen.dict (map parsed_dict f.batch.dict) (map parsed_dict (all_entries fs)),
      append_assoc seen.calls (map parsed_call f.batch.calls) (map parsed_call (all_calls fs)),
      append_assoc seen.flushes (flush_of f ∷ []) (map flush_of fs),
    )

parse_last :
    (id : List ℕ) (seen : ParsedDump)
    → parse_from (writeln (shutdown_line id)) seen ≡ record seen { rshutdown_marker_seen = true }
unfolding take_lines lines
parse_last id seen =
    ap (λ x. parse_from x seen) (sym (append-nil (writeln (shutdown_line id))))
    ∙ parse_line (shutdown_line id) [] seen (shutdown_line-IsLine id)
    ∙ take_line-shutdown_line id seen

parse-trace :
    (t : Trace) (w : World) (seen : ParsedDump)
    → All IsPrintable t.dictionary.new_entries
    → All IsTyped t.buffer
    → load t.drop_counter w < u64_mod
    → parse_from (write_trace_to_path t w) seen
      ≡ record (with_calls t.buffer (with_dict t.dictionary.new_entries seen)) {
        dropped_records = some (load t.drop_counter w);
        rshutdown_marker_seen = true;
      }
unfolding write_trace_to_path
parse-trace t w seen printable typed small =
    let dropped = load t.drop_counter w in
    let last = writeln (shutdown_line t.trace_id) in
    let ending = writeln (drop_line dropped) ++ last in
    let before : ParsedDump = with_calls t.buffer (with_dict t.dictionary.new_entries seen) in
    parse-dict_lines t.dictionary.new_entries (call_lines t.buffer ++ ending) seen printable
    ∙ parse-call_lines t.buffer ending (with_dict t.dictionary.new_entries seen) typed
    ∙ parse_line (drop_line dropped) last before (drop_line-IsLine dropped)
    ∙ ap (λ x. parse_from last x) (take_line-drop_line dropped before small)
    ∙ parse_last t.trace_id (record before { dropped_records = some dropped })

-- With a path set, and the flushes and the end of a request appended to an empty file: the parser
-- reads back every entry and every record, in order, the numbers and the reason of every flush, the
-- count of dropped records and the end marker. The numbers are in the range of their types, no name
-- holds a tab or a newline, and no file name holds a newline or ends in a carriage return.
pub parse_dump-dump_of :
    (c : ℕ) (path : Text) (fs : List Flush) (t : Trace) (w : World)
    → All IsWritable fs
    → All IsPrintable t.dictionary.new_entries
    → All IsTyped t.buffer
    → load t.drop_counter w < u64_mod
    → parse_dump (dump_of (c ∷ path) fs t w) ≡ record {
      dict = map parsed_dict (all_entries fs ++ t.dictionary.new_entries);
      calls = map parsed_call (all_calls fs ++ t.buffer);
      dropped_records = some (load t.drop_counter w);
      rshutdown_marker_seen = true;
      flushes = map flush_of fs;
    }
unfolding parse_dump write_trace_if_path_set
parse_dump-dump_of c path fs t w writable printable typed small =
    let ending = write_trace_to_path t w in
    ap (λ x. parse_from (x ++ ending) nothing_seen) (record_flushes-blocks c path fs [])
    ∙ parse-blocks fs ending nothing_seen writable
    ∙ ap (λ x. parse_from ending x) (with_flushes-seen_after fs nothing_seen)
    ∙ parse-trace t w (seen_after fs nothing_seen) printable typed small
    ∙ ground (
      arith,
      map-append parsed_dict (all_entries fs) t.dictionary.new_entries,
      map-append parsed_call (all_calls fs) t.buffer,
    )
