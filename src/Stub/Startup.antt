-- ===== src/Stub/Startup.antt =====
-- `run` up to its loop, and `validate_capture_dir`. What the system answers is an argument; an error
-- is its message.
use php_analyze.Prelude.{
  Bool, Option, none, some, List, [], ◌∷◌, ◌++◌, ◌⊎◌, inl, inr, if◌then◌else◌,
}
use php_analyze.Prelude.Text.{Text, codes}
use php_analyze.Stub.Server.{Args}

-- `metadata`: an error, or whether the path is a directory.
pub data Metadata : Type 0 where
  unreadable : Text → Metadata
  found : Bool → Metadata

-- The answers of the system. `none` is success.
pub record Startup : Type 0 where
  pub metadata : Metadata
  pub probe_error : Option Text
  pub bind_error : Option Text
  pub ip : Option Text
  pub bound_line_error : Option Text
  pub bound_flush_error : Option Text
  pub ready_line_error : Option Text
  pub ready_flush_error : Option Text

pub data Failure : Type 0 where
  failed : Text → Failure

-- `map_err` and `?`: a failure with its prefix, or the rest.
abbrev checked {ℓ} : {A : Type ℓ} → Option Text → Text → (A ⊎ Failure) → A ⊎ Failure
checked none prefix rest = rest
checked (some e) prefix rest = inr (failed (prefix ++ e))

unfoldable pub validate_capture_dir : Startup → Text → Unit {0} ⊎ Failure
validate_capture_dir answers dir = elim answers.metadata [
  | unreadable e ↦ inr (failed (codes "--capture-dir: cannot read " ++ (dir ++ (codes ": " ++ e))))
  | found is_dir ↦
      if is_dir
      then checked answers.probe_error
          (codes "--capture-dir: " ++ (dir ++ codes " is not writable: ")) (inl tt)
      else inr (failed (codes "--capture-dir: " ++ (dir ++ codes " exists but is not a directory")))
]

abbrev validated_dir : Startup → Option Text → Unit {0} ⊎ Failure
validated_dir answers none = inl tt
validated_dir answers (some dir) = validate_capture_dir answers dir

-- The lines on stdout before the first request is taken.
unfoldable pub run : Startup → Text → Args → List Text ⊎ Failure
unfolding validate_capture_dir
run answers bind args = elim (validated_dir answers args.capture_dir) [
  | inr failure ↦ inr failure
  | inl valid ↦
      checked answers.bind_error (codes "bind " ++ (bind ++ codes ": ")) (elim answers.ip [
        | none ↦ inr (failed (codes "server_addr returned a non-IP socket"))
        | some bound ↦ checked answers.bound_line_error (codes "stdout: ") (
            checked answers.bound_flush_error (codes "stdout flush: ") (
              checked answers.ready_line_error (codes "stdout: ") (
                checked answers.ready_flush_error (codes "stdout flush: ")
                  (inl ((codes "bound: " ++ bound) ∷ codes "ready" ∷ [])))))
      ])
]
