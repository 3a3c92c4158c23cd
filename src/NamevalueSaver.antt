-- ===== src/NamevalueSaver.antt =====
-- public/namevalue_saver.h and public/namevalue_saver.cpp: how save replaces the file of a saver, in
-- steps between which the program may end, and how load makes good what it left. The pairs stand
-- here as the text that the stream writes.
pub mod Crash
use frame_work.Prelude.{ℕ, zero, suc, List, [], ◌∷◌, ◌++◌, Option, none, some, length, drop}

-- The contents of file_name_, and of those with .old and .tmp behind it; none where there is no file.
pub record Disk : Type 0 where
  pub file : Option (List ℕ)
  pub old : Option (List ℕ)
  pub tmp : Option (List ℕ)

-- The calls of save that change the disk; each endl is a write.
pub data Step : Type 0 where
  rename_file : Step
  open_tmp : Step
  writes : List ℕ → Step
  rename_tmp : Step
  remove_old : Step

-- rename of a file that is not there fails, and changes nothing.
abbrev pub renamed_file : Disk → Option (List ℕ) → Disk
renamed_file d none = d
renamed_file d (some text) = record d { file = none; old = some text }

abbrev pub renamed_tmp : Disk → Option (List ℕ) → Disk
renamed_tmp d none = d
renamed_tmp d (some text) = record d { file = some text; tmp = none }

abbrev pub written : List ℕ → Option (List ℕ) → Option (List ℕ)
written line none = none
written line (some text) = some (text ++ line)

unfoldable pub step : Disk → Step → Disk
step d rename_file = renamed_file d d.file
step d open_tmp = record d { tmp = some [] }
step d (writes line) = record d { tmp = written line d.tmp }
step d rename_tmp = renamed_tmp d d.tmp
step d remove_old = record d { old = none }

unfoldable pub run : Disk → List Step → Disk
unfolding step
run d [] = d
run d (s ∷ ss) = run (step d s) ss

abbrev pub write_steps : List (List ℕ) → List Step
write_steps [] = rename_tmp ∷ remove_old ∷ []
write_steps (line ∷ lines) = writes line ∷ write_steps lines

-- save, whose stream writes these lines.
unfoldable pub save : List (List ℕ) → List Step
save lines = rename_file ∷ open_tmp ∷ write_steps lines

abbrev pub or_empty : Option (List ℕ) → List ℕ
or_empty none = []
or_empty (some text) = text

-- copy_file writes over what is there, without O_TRUNC. `offset` is what the variable bytesCopied
-- has, which is not set: sendfile reads the source from there on.
abbrev pub copy_file : ℕ → List ℕ → Option (List ℕ) → List ℕ
copy_file offset source destination =
    let copied = drop offset source in copied ++ drop (length copied) (or_empty destination)

abbrev pub restored : ℕ → Disk → Option (List ℕ) → Disk
restored offset d none = d
restored offset d (some source) = record d {
  file = some (copy_file offset source d.file);
  old = none;
}

-- What load does to the disk before it reads the file.
unfoldable pub recover : ℕ → Disk → Disk
recover offset d = restored offset (record d { tmp = none }) d.old
