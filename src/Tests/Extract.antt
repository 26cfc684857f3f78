-- ===== src/Tests/Extract.antt =====
-- The strings of the engine's structures: bytes that are no text, and a call frame.
use php_analyze.Prelude.{some, [], ◌∷◌, ◌++◌, ◌≡◌, refl, true, ◌↔◌}
use php_analyze.Prelude.Text.{codes}
use php_analyze.Prelude.Utf8.{boundary, is_utf8, from_utf8_lossy, replacement}
use php_analyze.Recorder.CallSite.{categorise_lazy}
use php_analyze.Recorder.Extract.{ZendString, ExecuteData, zend_string_to_cow, extract_call_site}
use php_analyze.Recorder.Extract.Laws.{
  IsNamed, zend_string_to_cow-from_utf8_lossy, extract_call_site-IsNamed,
}

-- A character of four bytes that breaks off after its third.
abbrev torn : ZendString
torn = codes "Hello " ++ (240 ∷ 144 ∷ 128 ∷ codes "World")

torn_decodes : from_utf8_lossy torn ≡ codes "Hello " ++ (replacement ++ codes "World")
unfolding from_utf8_lossy
torn_decodes = refl

-- A surrogate: three bytes, each an error of its own.
surrogate_decodes :
    from_utf8_lossy (237 ∷ 160 ∷ 128 ∷ []) ≡ replacement ++ (replacement ++ replacement)
unfolding from_utf8_lossy
surrogate_decodes = refl

-- The text é€😀.
well_formed : is_utf8 boundary (195 ∷ 169 ∷ 226 ∷ 130 ∷ 172 ∷ 240 ∷ 159 ∷ 152 ∷ 128 ∷ []) ≡ true
unfolding is_utf8
well_formed = refl

zend_string_to_cow-from_utf8_lossy_example :
    (zend_string_to_cow (some torn) ≡ some (from_utf8_lossy torn))
    × (is_utf8 boundary (from_utf8_lossy torn) ≡ true)
    × ((from_utf8_lossy torn ≡ torn) ↔ (is_utf8 boundary torn ≡ true))
zend_string_to_cow-from_utf8_lossy_example = zend_string_to_cow-from_utf8_lossy torn

-- A method of a class whose name is not UTF-8, in a file whose name is not.
abbrev torn_frame : ExecuteData
torn_frame = record {
  func = some (record {
    common = record {
      type_ = 2;
      function_name = some (codes "run");
      scope = some (record { name = some torn });
    };
    op_array = record { filename = some (codes "/srv/" ++ (255 ∷ [])); line_start = 7 };
  });
  address = 4096;
}

extract_call_site-IsNamed_example : IsNamed (categorise_lazy (extract_call_site 1 torn_frame))
extract_call_site-IsNamed_example = extract_call_site-IsNamed 1 torn_frame
