-- ===== src/TwoPhaseCommit.antt =====
-- 37-Two-Phase-Commit/main.go: the coordinator over any participants, and the two kinds of
-- participant of the program. A participant's call returns its new state.
mod Atomicity
mod Tests
use design_with_ts_go.Base.{
  ℕ, zero, suc, ◌+◌, ◌-◌, ◌*◌, ◌/◌, ◌%◌, ◌^◌, ◌≤◌, ◌<◌, max, min, ◌≡◌, refl, sym, ap, ◌∙◌, ◌≢◌, ◌↔◌,
  ◌⊎◌, inl, inr, ite, if_pos, if_neg, Bool, true, false, not, ◌&&◌, ◌||◌, Option, none, some, List,
  [], ◌∷◌, ◌++◌, arith, ℕ_discrete, ltb, leb, ◌==◌, if◌then◌else◌, Bool-cases, Option-cases, length,
  get_elem?, set, replicate, length-append, length-set, length-replicate, All, get_or, is_some, Key,
  nat_key, same_key, Map, IsMap, lookup, assign, delete, lookup-assign, lookup-delete, assign-IsMap,
  delete-IsMap, length-assign, GoString, str, GoString-discrete, string_key, fnv1a_from,
  fnv1a_from-lt, fnv1a, assign_all, or_else, map_some, get_elem?-lt, get_elem?-set, All-get,
  All-map, lookup-assign_all, assign_all-IsMap, ◌+ℤ◌, total, total-assign, total_ext, ℤ, pos,
  negsuc, pos_part, neg_part, sub_ℕ, ◌≤ℤ◌, leb_ℤ, ltb_ℤ, ℤ-discrete, int_key, count_of, raise_all,
  count_of-raise_all, raise_all-IsMap,
}

-- `Participant`: the Go interface, over a type of participants' states. The transaction's id is
-- the same in every call.
pub record Participant {ℓ} (P : Type ℓ) : Type ℓ where
  pub prepare : GoString → P → P × Bool
  pub commit : GoString → P → P
  pub abort : GoString → P → P

pub data Outcome : Type 0 where
  committed aborted : Outcome

module _ {ℓ} {P : Type ℓ} ⦃participant : Participant P⦄ where
  open participant use {prepare, commit, abort}

  -- The loops of phase 2 and of the abort, each over the prepared participants in order.
  unfoldable pub commit_all : GoString → List P → List P
  commit_all transaction_id [] = []
  commit_all transaction_id (p ∷ prepared) =
      commit transaction_id p ∷ commit_all transaction_id prepared

  unfoldable pub abort_all : GoString → List P → List P
  abort_all transaction_id [] = []
  abort_all transaction_id (p ∷ prepared) =
      abort transaction_id p ∷ abort_all transaction_id prepared

  -- Phase 1 from a participant on, with those prepared so far; then phase 2 or the abort.
  unfoldable pub execute_from : GoString → List P → List P → List P × Outcome
  unfolding commit_all abort_all
  execute_from transaction_id prepared [] = (commit_all transaction_id prepared, committed)
  execute_from transaction_id prepared (p ∷ participants) =
      let (p', vote) = prepare transaction_id p in
      let rest = execute_from transaction_id (prepared ++ p' ∷ []) participants in
      if vote then rest else (abort_all transaction_id prepared ++ p' ∷ participants, aborted)

  unfoldable pub execute : List P → GoString → List P × Outcome
  unfolding execute_from
  execute participants transaction_id = execute_from transaction_id [] participants

-- What a participant was told, in order. The program's participants only log.
pub data Message : Type 0 where
  prepare_message commit_message abort_message : Message

-- `MemoryParticipant` and `FailingParticipant`, each with the messages that it logged.
pub data ProgramParticipant : Type 0 where
  memory : List Message → ProgramParticipant
  failing : GoString → List Message → ProgramParticipant

unfoldable pub program_prepare : GoString → ProgramParticipant → ProgramParticipant × Bool
program_prepare transaction_id (memory log) = (memory (log ++ prepare_message ∷ []), true)
program_prepare transaction_id (failing reason log) =
    (failing reason (log ++ prepare_message ∷ []), false)

unfoldable pub program_commit : GoString → ProgramParticipant → ProgramParticipant
program_commit transaction_id (memory log) = memory (log ++ commit_message ∷ [])
program_commit transaction_id (failing reason log) = failing reason (log ++ commit_message ∷ [])

unfoldable pub program_abort : GoString → ProgramParticipant → ProgramParticipant
program_abort transaction_id (memory log) = memory (log ++ abort_message ∷ [])
program_abort transaction_id (failing reason log) = failing reason (log ++ abort_message ∷ [])

instance abbrev pub program_participant : Participant ProgramParticipant
program_participant = record {
  prepare = program_prepare;
  commit = program_commit;
  abort = program_abort;
}
