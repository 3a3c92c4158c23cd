-- ===== src/Tests/Configs.antt =====
-- Runs of the configuration.
use frame_work.Prelude.{ℕ, ◌≡◌, refl, Bool, true, List, [], ◌∷◌, none, some, arith}
use frame_work.UnixConfig.{Node, set, empty}
use frame_work.UnixConfig.Lines.{parse_line, line_of}
use frame_work.UnixConfig.Uses.{find}
use frame_work.UnixConfig.Runs.{Call, sets, removes, Serves, run, spec_run, run-Serves}
use frame_work.UnixConfig.Printed.{parse_line-line_of}

abbrev memory : ℕ → Bool
memory size = true

-- "port" and "80"
abbrev port : List ℕ
port = b'p' ∷ b'o' ∷ b'r' ∷ b't' ∷ []

abbrev eighty : List ℕ
eighty = b'8' ∷ b'0' ∷ []

abbrev calls : List Call
calls = sets port eighty ∷ sets eighty port ∷ sets port port ∷ removes eighty ∷ []

run-Serves_example : Serves (run memory empty calls) (spec_run memory (λ k. none) calls)
run-Serves_example = run-Serves memory calls

found : find (run memory empty calls) port ≡ some port
found = (run-Serves memory calls).1 port

abbrev entry : Node
entry = record { hash_value = 0; key = port; value = eighty }

parse_line-line_of_example : parse_line memory empty (line_of entry) ≡ set memory empty port eighty
parse_line-line_of_example =
    parse_line-line_of memory empty entry
      ((λ e. absurd (omega arith)), (refl, (refl, (refl, (refl, tt)))))
      ((λ e. absurd (omega arith)), (refl, (refl, tt))) (omega arith)
