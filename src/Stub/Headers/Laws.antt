-- ===== src/Stub/Headers/Laws.antt =====
-- What the checks of the headers ask for.
use php_analyze.Prelude.{
  true, some, List, [], ◌∷◌, ◌++◌, ◌≡◌, ◌↔◌, inl, inr, sym, ap, ◌∙◌, arith, Option-cases, some_eq,
  ==_iff,
}
use php_analyze.Prelude.Text.{Text, codes, text_eq_iff}
use php_analyze.Prelude.Strings.{strip_prefix}
use php_analyze.Prelude.Pieces.{strip_prefix-append}
use php_analyze.Wire.{media_type}
use php_analyze.Stub.Headers.{Header, find_header_value, validate_bearer, validate_content_type}

strip_prefix-eq-some : (p s r : Text) → strip_prefix p s ≡ some r → s ≡ p ++ r
unfolding strip_prefix
strip_prefix-eq-some [] s r e = some_eq e
strip_prefix-eq-some (a ∷ p) [] r e = cc
strip_prefix-eq-some (a ∷ p) (b ∷ s) r e = ground (arith, ==_iff a b, strip_prefix-eq-some p s r)

module _ (headers : List Header) where
  pub validate_bearer_iff :
      (token : Text)
      → (validate_bearer headers token ≡ true)
        ↔ (find_header_value headers (codes "Authorization") ≡ some (codes "Bearer " ++ token))
  unfolding validate_bearer
  validate_bearer_iff token =
      elim (Option-cases (find_header_value headers (codes "Authorization"))) [
        | inl absent ↦ (λ e. absurd (ground arith), λ e. absurd (ground arith))
        | inr (value, there) ↦ elim (Option-cases (strip_prefix (codes "Bearer ") value)) [
          | inl off ↦ (
            λ e. absurd (ground arith),
            λ e.
                let same : value ≡ codes "Bearer " ++ token = some_eq (sym there ∙ e) in
                absurd (
                  cc (
                    sym off
                    ∙ ap (strip_prefix (codes "Bearer ")) same
                    ∙ strip_prefix-append (codes "Bearer ") token)),
          )
          | inr (presented, on) ↦ (
            λ e.
                let same : presented ≡ token = (text_eq_iff presented token).0 (ground arith) in
                there
                ∙ ap some (strip_prefix-eq-some (codes "Bearer ") value presented on)
                ∙ ap (λ r. some (codes "Bearer " ++ r)) same,
            λ e.
                let same : value ≡ codes "Bearer " ++ token = some_eq (sym there ∙ e) in
                let rest : presented ≡ token = some_eq (
                  sym on
                  ∙ ap (strip_prefix (codes "Bearer ")) same
                  ∙ strip_prefix-append (codes "Bearer ") token) in
                ground (arith, (text_eq_iff presented token).1 rest),
          )
        ]
      ]

  pub validate_content_type_iff :
      (validate_content_type headers ≡ true)
      ↔ (find_header_value headers (codes "Content-Type") ≡ some media_type)
  unfolding validate_content_type
  validate_content_type_iff =
      elim (Option-cases (find_header_value headers (codes "Content-Type"))) [
        | inl absent ↦ (λ e. absurd (ground arith), λ e. absurd (ground arith))
        | inr (value, there) ↦ (
          λ e. ground (arith, text_eq_iff value media_type),
          λ e. ground (arith, text_eq_iff value media_type),
        )
      ]
