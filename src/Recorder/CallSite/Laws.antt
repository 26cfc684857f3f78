-- ===== src/Recorder/CallSite/Laws.antt =====
-- The two categorisations of a call site agree where Zend reports a name, and the projected length
-- of a name is its length.
use php_analyze.Prelude.{
  ◌⊎◌, inl, inr, ◌<◌, ◌^◌, ◌≡◌, refl, false, none, some, ◌++◌, arith, length, length-append,
}
use php_analyze.Prelude.Text.{Text, codes}
use php_analyze.Prelude.Digits.{decimal, lower_hex, length-decimal, length-lower_hex}
use php_analyze.Recorder.Key.{to_owned}
use php_analyze.Recorder.CallSite.{
  RawCallSite, Categorised, FqnSpec, LazyCategorised, render, render_len, categorise,
  categorise_lazy,
}

-- A machine address.
abbrev pub FitsAddress : FqnSpec → Type 0
FitsAddress (FqnSpec.unknown kind_label addr) = addr < 2 ^ 64
FitsAddress _ = Unit

length-decimal_zero : length (decimal 0) ≡ 1
unfolding decimal
length-decimal_zero = refl

length-lower_hex_zero : length (lower_hex 0) ≡ 1
unfolding lower_hex
length-lower_hex_zero = refl

-- `render_len` is the length of what `render` writes, for every name and every 64-bit address.
pub length-render : (spec : FqnSpec) → FitsAddress spec → length (render spec) ≡ render_len spec
unfolding render render_len
length-render (FqnSpec.borrowed name) h = refl
length-render (FqnSpec.method class name) h =
    omega (arith, length-append class (codes "::" ++ name))
length-render (FqnSpec.closure file line) h = ground (
  arith,
  length-append file (codes ":" ++ decimal line),
  length-decimal line,
  length-decimal_zero,
)
length-render (FqnSpec.unknown kind_label addr) h = ground (
  arith,
  length-append kind_label (codes ")@0x" ++ lower_hex addr),
  length-lower_hex addr,
  length-lower_hex_zero,
)

-- What the owning and the lazy categorisation of a site have in common.
pub record Agrees (c : Categorised) (l : LazyCategorised) : Type 0 where
  pub same_key : to_owned l.key_ref ≡ c.key
  pub same_fqn : render l.fqn_spec ≡ c.fqn
  pub same_kind : l.kind ≡ c.kind
  pub same_file : l.file ≡ c.file
  pub same_line : l.line ≡ c.line

-- The site has a function name, or it is a user function without a name and a class, but with a file.
abbrev pub IsIdentified : RawCallSite → Type 0
IsIdentified info =
    ((name : Text) × (info.function_name ≡ some name))
    ⊎ ((info.function_name ≡ none)
        × (info.is_internal ≡ false)
        × (info.class_name ≡ none)
        × ((file : Text) × (info.filename ≡ some file)))

-- Where the site has a function name, or is a closure for want of one (a user function with neither
-- name nor class, but with a file), both categorisations give the same key, name, kind, file and
-- line.
pub categorise-categorise_lazy :
    (info : RawCallSite) → IsIdentified info → Agrees (categorise info) (categorise_lazy info)
unfolding categorise categorise_lazy to_owned render
categorise-categorise_lazy info (inl (name, h)) = ground arith
categorise-categorise_lazy info (inr (nameless, user, free, (file, there))) = ground arith
