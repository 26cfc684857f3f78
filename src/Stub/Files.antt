-- ===== src/Stub/Files.antt =====
-- The files of `--capture-dir`. What the file system answers is an argument.
pub mod Names
use php_analyze.Prelude.{
  ℕ, zero, suc, ◌+◌, ◌%◌, ◌-◌, ◌++◌, Bool, true, false, Option, none, some, List, [], ◌∷◌, length,
  if◌then◌else◌,
}
use php_analyze.Prelude.Text.{Text, codes}
use php_analyze.Prelude.Digits.{decimal}
use php_analyze.Prelude.Words.{u64_mod}

-- `{n:04}`
unfoldable pub padded : ℕ → Text → Text
padded zero s = s
padded (suc n) s = b'0' ∷ padded n s

unfoldable pub batch_file_name : ℕ → Text
unfolding padded decimal
batch_file_name n =
    codes "batch-" ++ (padded (4 - length (decimal n)) (decimal n) ++ codes ".msgpack")

-- What `std::fs::write` gives: success, or an error, with what is left in the file, if there is one.
pub data FileWrite : Type 0 where
  succeeds : FileWrite
  fails : Option (List ℕ) → FileWrite

-- The counter of the process, the successful writes (name and content), and the files in the
-- directory, those that failed writes have left included; the oldest first.
pub record Captured : Type 0 where
  pub capture_counter : ℕ
  pub written : List (Text × List ℕ)
  pub files : List (Text × List ℕ)

abbrev pub remains : Text → Option (List ℕ) → List (Text × List ℕ)
remains name none = []
remains name (some bytes) = (name, bytes) ∷ []

-- The counter goes on in any case.
unfoldable pub write_captured_batch : FileWrite → List ℕ → Captured → Bool × Captured
unfolding batch_file_name
write_captured_batch succeeds body c =
    let n = (c.capture_counter + 1) % u64_mod in
    let file : Text × List ℕ = (batch_file_name n, body) in
    (
      true,
      record {
        capture_counter = n;
        written = c.written ++ (file ∷ []);
        files = c.files ++ (file ∷ []);
      },
    )
write_captured_batch (fails left) body c =
    let n = (c.capture_counter + 1) % u64_mod in
    (false, record c { capture_counter = n; files = c.files ++ remains (batch_file_name n) left })
