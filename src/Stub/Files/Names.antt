-- ===== src/Stub/Files/Names.antt =====
-- The names of the captured files: another number gives another name.
use php_analyze.Prelude.{
  ℕ, zero, suc, ◌+◌, ◌-◌, ◌*◌, ◌/◌, ◌%◌, ◌<◌, ◌≡◌, ◌&&◌, ◌++◌, refl, sym, ap, ◌∙◌, [], ◌∷◌, leb,
  length, if◌then◌else◌, arith,
}
use php_analyze.Prelude.Text.{Text, codes}
use php_analyze.Prelude.Digits.{decimal, emit}
use php_analyze.Stub.Files.{padded, batch_file_name}

-- The number that the digits at the front spell, behind those read so far.
unfoldable value : ℕ → Text → ℕ
value n [] = n
value n (c ∷ s) =
    let rest = value (n * 10 + (c - b'0')) s in if leb b'0' c && leb c b'9' then rest else n

emit-append : (f n : ℕ) (out t : Text) → emit 10 f n out ++ t ≡ emit 10 f n (out ++ t)
unfolding emit
emit-append zero n out t = refl
emit-append (suc f) n out t = ground (arith, emit-append f (n / 10) ((b'0' + n % 10) ∷ out) t)

value-emit : (f n : ℕ) (out : Text) → n < f → value 0 (emit 10 f n out) ≡ value n out
unfolding emit value
value-emit zero n out h = elim h [ ]
value-emit (suc f) n out h = ground (arith, value-emit f (n / 10) ((b'0' + n % 10) ∷ out))

value-padded : (k : ℕ) (s t : Text) → value 0 (padded k s ++ t) ≡ value 0 (s ++ t)
unfolding padded value
value-padded zero s t = refl
value-padded (suc k) s t = value-padded k s t

abbrev behind_prefix : Text → Text
behind_prefix (a ∷ b ∷ c ∷ d ∷ e ∷ f ∷ rest) = rest
behind_prefix _ = []

number_of_name : (n : ℕ) → value 0 (behind_prefix (batch_file_name n)) ≡ n
unfolding batch_file_name decimal value
number_of_name n =
    value-padded (4 - length (decimal n)) (decimal n) (codes ".msgpack")
    ∙ ap (value 0) (emit-append (suc n) n [] (codes ".msgpack"))
    ∙ value-emit (suc n) n (codes ".msgpack") (omega arith)

pub batch_file_name-injective : (m n : ℕ) → batch_file_name m ≡ batch_file_name n → m ≡ n
batch_file_name-injective m n e =
    sym (number_of_name m) ∙ ap (λ s. value 0 (behind_prefix s)) e ∙ number_of_name n
