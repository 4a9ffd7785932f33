-- ===== src/Saga.antt =====
-- 36-Distributed-Transaction/main.go: a saga over a world that its steps act on. An action or a
-- compensation returns the new world and whether it returned no error.
mod Rollback
mod Tests
use design_with_ts_go.Base.{
  ℕ, zero, suc, ◌+◌, ◌-◌, ◌*◌, ◌/◌, ◌%◌, ◌^◌, ◌≤◌, ◌<◌, max, min, ◌≡◌, refl, sym, ap, ◌∙◌, ◌≢◌, ◌↔◌,
  ◌⊎◌, inl, inr, ite, if_pos, if_neg, Bool, true, false, not, ◌&&◌, ◌||◌, Option, none, some, List,
  [], ◌∷◌, ◌++◌, arith, ℕ_discrete, ltb, leb, ◌==◌, if◌then◌else◌, Bool-cases, Option-cases, length,
  get_elem?, set, replicate, length-append, length-set, length-replicate, All, get_or, is_some, Key,
  nat_key, same_key, Map, IsMap, lookup, assign, delete, lookup-assign, lookup-delete, assign-IsMap,
  delete-IsMap, length-assign, GoString, str, GoString-discrete, string_key, fnv1a_from,
  fnv1a_from-lt, fnv1a, assign_all, or_else, map_some, get_elem?-lt, get_elem?-set, All-get,
  All-map, lookup-assign_all, assign_all-IsMap, ◌+ℤ◌, total, total-assign, total_ext, ℤ, pos,
  negsuc, pos_part, neg_part, sub_ℕ, ◌≤ℤ◌, leb_ℤ, ltb_ℤ, ℤ-discrete, int_key, count_of, raise_all,
  count_of-raise_all, raise_all-IsMap,
}

pub record SagaStep {ℓ} (World : Type ℓ) : Type ℓ where
  pub name : GoString
  pub action : World → World × Bool
  pub compensate : World → World × Bool

pub record SagaCoordinator {ℓ} (World : Type ℓ) : Type ℓ where
  pub steps : List (SagaStep World)

module _ {ℓ} {World : Type ℓ} where
  unfoldable pub new : List (SagaStep World) → SagaCoordinator World
  new steps = record { steps = steps }

  -- The loop over the completed steps from the last one down to the first; the list holds the last
  -- one first. A failed compensation is logged, and the loop goes on.
  unfoldable pub compensate_all : List (SagaStep World) → World → World
  compensate_all [] world = world
  compensate_all (step ∷ completed) world = compensate_all completed (step.compensate world).0

  -- The loop of `Execute`, with the steps completed so far, the last one first.
  unfoldable pub execute_from : List (SagaStep World) → List (SagaStep World) → World → World × Bool
  unfolding compensate_all
  execute_from completed [] world = (world, true)
  execute_from completed (step ∷ steps) world =
      let (world', done) = step.action world in
      let rest = execute_from (step ∷ completed) steps world' in
      if done then rest else (compensate_all completed world', false)

  unfoldable pub execute : SagaCoordinator World → World → World × Bool
  unfolding execute_from
  execute s world = execute_from [] s.steps world
