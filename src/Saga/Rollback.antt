-- ===== src/Saga/Rollback.antt =====
-- What `Execute` of 36-Distributed-Transaction/main.go leaves behind.
use design_with_ts_go.Base.{
  ◌≡◌, refl, ◌⊎◌, inl, inr, Bool, true, false, List, [], ◌∷◌, Bool-cases, All, nat_key, string_key,
  int_key,
}
use design_with_ts_go.Saga.{SagaStep, SagaCoordinator, compensate_all, execute_from, execute}

module _ {ℓ} {World : Type ℓ} where
  -- What is relied on of a step: a failed action leaves the world alone, and a compensation undoes
  -- a successful one.
  pub record IsReversible (step : SagaStep World) : Type ℓ where
    pub failure : (w : World) → (step.action w).1 ≡ false → (step.action w).0 ≡ w
    pub undone : (w : World) → (step.action w).1 ≡ true → (step.compensate (step.action w).0).0 ≡ w

  -- The worlds through which the actions lead, each from the one before, all of them successful.
  abbrev pub Succeeds : List (SagaStep World) → World → World → Type ℓ
  Succeeds [] start end = start ≡ end
  Succeeds (step ∷ steps) start end =
      ((step.action start).1 ≡ true) × Succeeds steps (step.action start).0 end

  execute_from_lem :
      (completed steps : List (SagaStep World)) (start w : World)
      → All IsReversible steps
      → compensate_all completed w ≡ start
      → (((execute_from completed steps w).1 ≡ true)
          × Succeeds steps w (execute_from completed steps w).0)
        ⊎ (((execute_from completed steps w).1 ≡ false)
            × ((execute_from completed steps w).0 ≡ start))
  unfolding execute_from
  execute_from_lem completed [] start w h back = inl (refl, refl)
  execute_from_lem completed (step ∷ steps) start w h back = elim (Bool-cases (step.action w).1) [
    | inl done ↦
        let world' = (step.action w).0 in
        let back' : compensate_all (step ∷ completed) world' ≡ start =
          unfold compensate_all in rw (h.0.undone w done) back in
        rw done (prepend (execute_from_lem (step ∷ completed) steps start world' h.1 back'))
    | inr fails ↦ rw fails (inr (refl, rw (h.0.failure w fails) back))
  ]
    where
      prepend : {A : Type 0} {B C : Type ℓ} → (A × B) ⊎ C → (A × (◌≡◌ {A = Bool} true true × B)) ⊎ C
      prepend (inl (a, b)) = inl (a, (refl, b))
      prepend (inr c) = inr c

  -- If compensations undo their actions and a failed action changes nothing, then `Execute` either
  -- returns true with the world to which the actions led, one after the other and all of them
  -- successful, or returns false with the world exactly as it was before.
  pub execute_lem :
      (s : SagaCoordinator World) (w : World)
      → All IsReversible s.steps
      → (((execute s w).1 ≡ true) × Succeeds s.steps w (execute s w).0)
        ⊎ (((execute s w).1 ≡ false) × ((execute s w).0 ≡ w))
  unfolding execute compensate_all
  execute_lem s w h = execute_from_lem [] s.steps w w h refl
