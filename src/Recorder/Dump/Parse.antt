-- ===== src/Recorder/Dump/Parse.antt =====
-- The parser of recorder/dump.rs: `parse_dump` and its helpers, on the contents of the file.
use php_analyze.Prelude.{
  ℕ, Bool, true, false, Option, none, some, List, [], ◌∷◌, ◌++◌, if◌then◌else◌, ◌>>=◌,
}
use php_analyze.Prelude.Int.{ℤ}
use php_analyze.Prelude.Text.{Text, codes, text_eq, starts_with}
use php_analyze.Prelude.Words.{u16_mod, u32_mod, u64_mod}
use php_analyze.Prelude.Decimal.{parse_unsigned, parse_i64}
use php_analyze.Prelude.Strings.{
  trim, split, splitn, split_once, split_whitespace, strip_prefix, lines,
}

pub record ParsedFlush : Type 0 where
  pub record_count : ℕ
  pub estimated_bytes : ℕ
  pub trigger : Text

pub record ParsedDict : Type 0 where
  pub fn_id : ℕ
  pub kind : Text
  pub line : ℕ
  pub fqn : Text
  pub file : Text

pub record ParsedCall : Type 0 where
  pub call_id : ℕ
  pub parent : ℕ
  pub fn_id : ℕ
  pub depth : ℕ
  pub t_in_ns : ℤ
  pub t_out_ns : ℤ
  pub cpu_u_ns : ℤ
  pub cpu_s_ns : ℤ
  pub mem_in_bytes : ℤ
  pub mem_out_bytes : ℤ
  pub abnormal_exit : Bool

pub record ParsedDump : Type 0 where
  pub dict : List ParsedDict
  pub calls : List ParsedCall
  pub dropped_records : Option ℕ
  pub rshutdown_marker_seen : Bool
  pub flushes : List ParsedFlush

-- The three optional values that the loop over the parts of an `F:` line fills.
pub record FlushParts : Type 0 where
  pub record_count : Option ℕ
  pub estimated_bytes : Option ℕ
  pub trigger : Option Text

-- One part of an `F:` line; `none` is the early return of `?`.
unfoldable pub flush_part : Text → FlushParts → Option FlushParts
unfolding text_eq split_once parse_unsigned
flush_part part found = do
  (key, value) ← split_once b'=' part
  some (
      if text_eq key (codes "record_count")
      then record found { record_count = parse_unsigned u64_mod value }
      else if text_eq key (codes "estimated_bytes")
      then record found { estimated_bytes = parse_unsigned u64_mod value }
      else if text_eq key (codes "trigger")
      then record found { trigger = some value }
      else found)

unfoldable pub flush_parts : List Text → FlushParts → Option FlushParts
unfolding flush_part
flush_parts [] found = some found
flush_parts (part ∷ rest) found = do found' ← flush_part part found; flush_parts rest found'

unfoldable pub parse_flush_line : Text → Option ParsedFlush
unfolding flush_parts split_whitespace
parse_flush_line rest = do
  found ←
      flush_parts (split_whitespace rest)
        (record { record_count = none; estimated_bytes = none; trigger = none })
  record_count ← found.record_count
  estimated_bytes ← found.estimated_bytes
  trigger ← found.trigger
  some
      (record { record_count = record_count; estimated_bytes = estimated_bytes; trigger = trigger })

-- `Iterator::next`
abbrev pub next : List Text → Option (Text × List Text)
next [] = none
next (piece ∷ rest) = some (piece, rest)

abbrev file_or_empty : List Text → Text
file_or_empty [] = []
file_or_empty (file ∷ rest) = file

unfoldable pub parse_dict_line : Text → Option ParsedDict
unfolding splitn parse_unsigned
parse_dict_line rest = do
  (fn_id_text, p1) ← next (splitn 4 b':' rest)
  fn_id ← parse_unsigned u32_mod fn_id_text
  (kind, p2) ← next p1
  (line_text, p3) ← next p2
  line ← parse_unsigned u32_mod line_text
  (fqn_file, p4) ← next p3
  (fqn, q) ← next (splitn 2 b'\t' fqn_file)
  some (record { fn_id = fn_id; kind = kind; line = line; fqn = fqn; file = file_or_empty q })

-- The next piece, read as an unsigned or as a signed integer.
unfoldable pub next_unsigned : ℕ → List Text → Option (ℕ × List Text)
unfolding parse_unsigned
next_unsigned bound parts = do
  (piece, rest) ← next parts
  n ← parse_unsigned bound piece
  some (n, rest)

unfoldable pub next_i64 : List Text → Option (ℤ × List Text)
unfolding parse_i64
next_i64 parts = do (piece, rest) ← next parts; n ← parse_i64 piece; some (n, rest)

unfoldable pub read_bool : Text → Option Bool
unfolding text_eq
read_bool s =
    if text_eq s (codes "true")
    then some true
    else if text_eq s (codes "false")
    then some false
    else none

unfoldable pub parse_call_line : Text → Option ParsedCall
unfolding split next_unsigned next_i64 read_bool
parse_call_line rest = do
  (call_id, p1) ← next_unsigned u64_mod (split b':' rest)
  (parent, p2) ← next_unsigned u64_mod p1
  (fn_id, p3) ← next_unsigned u32_mod p2
  (depth, p4) ← next_unsigned u16_mod p3
  (t_in_ns, p5) ← next_i64 p4
  (t_out_ns, p6) ← next_i64 p5
  (cpu_u_ns, p7) ← next_i64 p6
  (cpu_s_ns, p8) ← next_i64 p7
  (mem_in_bytes, p9) ← next_i64 p8
  (mem_out_bytes, p10) ← next_i64 p9
  (abnormal_text, p11) ← next p10
  abnormal_exit ← read_bool abnormal_text
  some (record {
    call_id = call_id;
    parent = parent;
    fn_id = fn_id;
    depth = depth;
    t_in_ns = t_in_ns;
    t_out_ns = t_out_ns;
    cpu_u_ns = cpu_u_ns;
    cpu_s_ns = cpu_s_ns;
    mem_in_bytes = mem_in_bytes;
    mem_out_bytes = mem_out_bytes;
    abnormal_exit = abnormal_exit;
  })

-- What a line that parses is pushed to; other lines are ignored.
abbrev pushed : {A : Type 0} → Option A → List A → List A
pushed none xs = xs
pushed (some a) xs = xs ++ (a ∷ [])

-- The body of the loop over the lines.
unfoldable pub take_line : Text → ParsedDump → ParsedDump
unfolding strip_prefix starts_with parse_dict_line parse_call_line parse_flush_line trim
    parse_unsigned
take_line line seen = elim (strip_prefix (codes "D:") line) [
  | some rest ↦ record seen { dict = pushed (parse_dict_line rest) seen.dict }
  | none ↦ elim (strip_prefix (codes "C:") line) [
    | some rest ↦ record seen { calls = pushed (parse_call_line rest) seen.calls }
    | none ↦ elim (strip_prefix (codes "F:") line) [
      | some rest ↦ record seen { flushes = pushed (parse_flush_line rest) seen.flushes }
      | none ↦ elim (strip_prefix (codes "DROP: dropped_records=") line) [
        | some rest ↦ record seen { dropped_records = parse_unsigned u64_mod (trim rest) }
        | none ↦
            if starts_with line (codes "RSHUTDOWN:")
            then record seen { rshutdown_marker_seen = true }
            else seen
      ]
    ]
  ]
]

unfoldable pub take_lines : List Text → ParsedDump → ParsedDump
unfolding take_line
take_lines [] seen = seen
take_lines (line ∷ rest) seen = take_lines rest (take_line line seen)

abbrev pub nothing_seen : ParsedDump
nothing_seen = record {
  dict = [];
  calls = [];
  dropped_records = none;
  rshutdown_marker_seen = false;
  flushes = [];
}

-- On the contents of a file that could be read.
unfoldable pub parse_dump : Text → ParsedDump
unfolding take_lines lines
parse_dump contents = take_lines (lines contents) nothing_seen
