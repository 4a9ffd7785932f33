-- ===== src/TwoPhaseCommit/Tests.antt =====
-- Transactions of 37-Two-Phase-Commit/main.go, and an instance of its theorem.
use design_with_ts_go.Base.{◌≡◌, refl, List, [], ◌∷◌, nat_key, str, string_key, int_key}
use design_with_ts_go.TwoPhaseCommit.{
  committed, aborted, commit_all, abort_all, execute_from, execute, ProgramParticipant, memory,
  failing, prepare_message, commit_message, abort_message, program_prepare, program_commit,
  program_abort, program_participant,
}
use design_with_ts_go.TwoPhaseCommit.Atomicity.{Ends, execute-Ends}

program : Unit {0}
unfolding commit_all abort_all execute_from execute program_prepare program_commit program_abort
program = tt

all_yes : execute (memory [] ∷ memory [] ∷ []) (str "tx1") ≡ (
  memory (prepare_message ∷ commit_message ∷ [])
      ∷ memory (prepare_message ∷ commit_message ∷ [])
      ∷ [],
  committed,
)
unfolding program
all_yes = refl

abbrev one_fails : List ProgramParticipant
one_fails = memory [] ∷ failing (str "disk full") [] ∷ memory [] ∷ []

one_no : execute one_fails (str "tx2") ≡ (
  memory (prepare_message ∷ abort_message ∷ [])
      ∷ failing (str "disk full") (prepare_message ∷ [])
      ∷ memory []
      ∷ [],
  aborted,
)
unfolding program
one_no = refl

execute-Ends_example : Ends (str "tx2") one_fails (execute one_fails (str "tx2"))
execute-Ends_example = execute-Ends (str "tx2") one_fails
