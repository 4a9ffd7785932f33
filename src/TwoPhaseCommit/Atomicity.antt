-- ===== src/TwoPhaseCommit/Atomicity.antt =====
-- What `Execute` of 37-Two-Phase-Commit/main.go tells each participant.
use mathlib.Core.List.{append_assoc, append-nil}
use design_with_ts_go.Base.{
  ◌≡◌, refl, inl, inr, true, false, List, [], ◌∷◌, ◌++◌, Bool-cases, All, nat_key, GoString,
  string_key, int_key,
}
use design_with_ts_go.TwoPhaseCommit.{
  Participant, Outcome, committed, aborted, commit_all, abort_all, execute_from, execute,
}

module _ {ℓ} {P : Type ℓ} ⦃participant : Participant P⦄ (transaction_id : GoString) where
  open participant use {prepare, commit, abort}

  -- The participant votes yes, and has prepared.
  abbrev pub VotesYes : P → Type 0
  VotesYes p = (prepare transaction_id p).1 ≡ true

  abbrev pub prepared : P → P
  prepared p = (prepare transaction_id p).0

  abbrev pub each : (P → P) → List P → List P
  each f [] = []
  each f (p ∷ ps) = f p ∷ each f ps

  -- The two ways in which a transaction can end.
  pub data Ends : List P → List P × Outcome → Type ℓ where
    -- All vote yes, and every participant is told to commit.
    all_commit :
        (ps : List P)
        → All VotesYes ps
        → Ends ps (each (λ p. commit transaction_id (prepared p)) ps, committed)
    -- The participants before the first no are told to abort, nobody is told to commit, and
    -- those behind it are told nothing.
    first_no :
        (yes_voters : List P) (voter : P) (rest ps : List P)
        → ps ≡ yes_voters ++ voter ∷ rest
        → All VotesYes yes_voters
        → (prepare transaction_id voter).1 ≡ false
        → Ends ps (
          each (λ p. abort transaction_id (prepared p)) yes_voters ++ prepared voter ∷ rest,
          aborted,
        )

  commit_all-each :
      (ps : List P)
      → commit_all transaction_id (each prepared ps)
        ≡ each (λ p. commit transaction_id (prepared p)) ps
  unfolding commit_all
  commit_all-each [] = refl
  commit_all-each (p ∷ ps) = rw (commit_all-each ps)

  abort_all-each :
      (ps : List P)
      → abort_all transaction_id (each prepared ps)
        ≡ each (λ p. abort transaction_id (prepared p)) ps
  unfolding abort_all
  abort_all-each [] = refl
  abort_all-each (p ∷ ps) = rw (abort_all-each ps)

  each-append : (f : P → P) (ps qs : List P) → each f (ps ++ qs) ≡ each f ps ++ each f qs
  each-append f [] qs = refl
  each-append f (p ∷ ps) qs = rw (each-append f ps qs)

  All-snoc : (ps : List P) (p : P) → All VotesYes ps → VotesYes p → All VotesYes (ps ++ p ∷ [])
  All-snoc [] p h v = (v, tt)
  All-snoc (q ∷ ps) p h v = (h.0, All-snoc ps p h.1 v)

  execute_from-Ends :
      (done ps : List P)
      → All VotesYes done
      → Ends (done ++ ps) (execute_from transaction_id (each prepared done) ps)
  unfolding execute_from
  execute_from-Ends done [] h = rw (append-nil, commit_all-each done) (all_commit done h)
  execute_from-Ends done (p ∷ ps) h = elim (Bool-cases (prepare transaction_id p).1) [
    | inl vote ↦ rw vote (
        rw (append_assoc, each-append) at
          (execute_from-Ends (done ++ p ∷ []) ps (All-snoc done p h vote)))
    | inr vote ↦ rw (vote, abort_all-each done) (first_no done p ps (done ++ p ∷ ps) refl h vote)
  ]

  -- Every transaction ends in one of two ways. All vote yes, it commits, and every participant is
  -- told to commit; or it aborts at the first no, those prepared before it are told to abort, and
  -- nobody is told to commit.
  pub execute-Ends : (ps : List P) → Ends ps (execute ps transaction_id)
  unfolding execute
  execute-Ends ps = execute_from-Ends [] ps tt
