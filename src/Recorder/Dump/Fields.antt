-- ===== src/Recorder/Dump/Fields.antt =====
-- The fields of a dump line are read back from it.
use php_analyze.Prelude.{
  ℕ, suc, ◌<◌, ◌≡◌, refl, ◌⊎◌, inr, Bool, true, false, some, [], ◌∷◌, All, arith,
}
use php_analyze.Prelude.Int.{ℤ, pos, negsuc}
use php_analyze.Prelude.Text.{Text}
use php_analyze.Prelude.Words.{u16_mod, u32_mod, u64_mod}
use php_analyze.Prelude.Digits.{decimal}
use php_analyze.Prelude.Decimal.{
  IsDigit, decimal-IsDigit, decimal_ℤ, IsI64, parse_unsigned-decimal, parse_i64-decimal_ℤ,
}
use php_analyze.Prelude.Strings.{split}
use php_analyze.Prelude.Pieces.{Avoids, split-append, splitn-append}
use php_analyze.Recorder.Types.{
  FunctionKind, function, method, closure, internal, DictEntry, CallRecord,
}
use php_analyze.Recorder.Dump.{kind_name, bool_name, dict_fields, call_fields, ◌then_colon◌}
use php_analyze.Recorder.Dump.Parse.{
  ParsedDict, ParsedCall, parse_dict_line, parse_call_line, next_unsigned, next_i64, read_bool,
}

-- What is read back of an entry and of a record.
abbrev pub parsed_dict : DictEntry → ParsedDict
parsed_dict entry = record {
  fn_id = entry.fn_id;
  kind = kind_name entry.kind;
  line = entry.line;
  fqn = entry.fqn;
  file = entry.file;
}

abbrev pub parsed_call : CallRecord → ParsedCall
parsed_call r = record {
  call_id = r.call_id;
  parent = r.parent;
  fn_id = r.fn_id;
  depth = r.depth;
  t_in_ns = r.t_in_ns;
  t_out_ns = r.t_out_ns;
  cpu_u_ns = r.cpu_u_ns;
  cpu_s_ns = r.cpu_s_ns;
  mem_in_bytes = r.mem_in_bytes;
  mem_out_bytes = r.mem_out_bytes;
  abnormal_exit = r.abnormal_exit;
}

-- The integers of a record are in the range of their types.
pub record IsTyped (r : CallRecord) : Type 0 where
  pub call_id : r.call_id < u64_mod
  pub parent : r.parent < u64_mod
  pub fn_id : r.fn_id < u32_mod
  pub depth : r.depth < u16_mod
  pub t_in_ns : IsI64 r.t_in_ns
  pub t_out_ns : IsI64 r.t_out_ns
  pub cpu_u_ns : IsI64 r.cpu_u_ns
  pub cpu_s_ns : IsI64 r.cpu_s_ns
  pub mem_in_bytes : IsI64 r.mem_in_bytes
  pub mem_out_bytes : IsI64 r.mem_out_bytes

digits-Avoids : (c : ℕ) (s : Text) → (c < b'0') ⊎ (b'9' < c) → All IsDigit s → Avoids c s
digits-Avoids c [] far h = tt
digits-Avoids c (d ∷ s) far h = (λ e. ground arith, digits-Avoids c s far h.1)

pub decimal-Avoids : (c n : ℕ) → (c < b'0') ⊎ (b'9' < c) → Avoids c (decimal n)
decimal-Avoids c n far = digits-Avoids c (decimal n) far (decimal-IsDigit n)

decimal_ℤ-Avoids : (z : ℤ) → Avoids b':' (decimal_ℤ z)
unfolding decimal_ℤ
decimal_ℤ-Avoids (pos n) = decimal-Avoids b':' n (inr (omega arith))
decimal_ℤ-Avoids (negsuc n) = (λ e. omega arith, decimal-Avoids b':' (suc n) (inr (omega arith)))

kind_name-Avoids : (k : FunctionKind) → Avoids b':' (kind_name k)
unfolding kind_name
kind_name-Avoids function = ground arith
kind_name-Avoids method = ground arith
kind_name-Avoids closure = ground arith
kind_name-Avoids internal = ground arith

next_unsigned-then_colon :
    (bound n : ℕ) (rest : Text)
    → n < bound
    → next_unsigned bound (split b':' (decimal n then_colon rest)) ≡ some (n, split b':' rest)
unfolding next_unsigned
next_unsigned-then_colon bound n rest h =
    rw (split-append b':' (decimal n) rest (decimal-Avoids b':' n (inr (omega arith))))
      (ground (arith, parse_unsigned-decimal bound n h))

next_i64-then_colon :
    (z : ℤ) (rest : Text)
    → IsI64 z
    → next_i64 (split b':' (decimal_ℤ z then_colon rest)) ≡ some (z, split b':' rest)
unfolding next_i64
next_i64-then_colon z rest h =
    rw (split-append b':' (decimal_ℤ z) rest (decimal_ℤ-Avoids z))
      (ground (arith, parse_i64-decimal_ℤ z h))

read_bool-bool_name : (a : Bool) → read_bool (bool_name a) ≡ some a
unfolding read_bool bool_name
read_bool-bool_name true = refl
read_bool-bool_name false = refl

split-bool_name : (a : Bool) → split b':' (bool_name a) ≡ bool_name a ∷ []
unfolding split bool_name
split-bool_name true = refl
split-bool_name false = refl

-- A record is read back from its `C:` line.
pub parse_call_line-call_fields :
    (r : CallRecord) → IsTyped r → parse_call_line (call_fields r) ≡ some (parsed_call r)
unfolding parse_call_line
parse_call_line-call_fields r h = rw (
  next_unsigned-then_colon u64_mod r.call_id _ h.call_id,
  next_unsigned-then_colon u64_mod r.parent _ h.parent,
  next_unsigned-then_colon u32_mod r.fn_id _ h.fn_id,
  next_unsigned-then_colon u16_mod r.depth _ h.depth,
  next_i64-then_colon r.t_in_ns _ h.t_in_ns,
  next_i64-then_colon r.t_out_ns _ h.t_out_ns,
  next_i64-then_colon r.cpu_u_ns _ h.cpu_u_ns,
  next_i64-then_colon r.cpu_s_ns _ h.cpu_s_ns,
  next_i64-then_colon r.mem_in_bytes _ h.mem_in_bytes,
  next_i64-then_colon r.mem_out_bytes _ h.mem_out_bytes,
  split-bool_name r.abnormal_exit,
  read_bool-bool_name r.abnormal_exit,
)

-- An entry is read back from its `D:` line.
pub parse_dict_line-dict_fields :
    (entry : DictEntry)
    → entry.fn_id < u32_mod
    → entry.line < u32_mod
    → Avoids b'\t' entry.fqn
    → parse_dict_line (dict_fields entry) ≡ some (parsed_dict entry)
unfolding parse_dict_line
parse_dict_line-dict_fields entry h k clean =
    rw
      (
        splitn-append 2 b':' (decimal entry.fn_id) _
            (decimal-Avoids b':' entry.fn_id (inr (omega arith))),
        parse_unsigned-decimal u32_mod entry.fn_id h,
        splitn-append 1 b':' (kind_name entry.kind) _ (kind_name-Avoids entry.kind),
        splitn-append 0 b':' (decimal entry.line) _
            (decimal-Avoids b':' entry.line (inr (omega arith))),
        parse_unsigned-decimal u32_mod entry.line k,
        splitn-append 0 b'\t' entry.fqn entry.file clean,
      )
      refl
