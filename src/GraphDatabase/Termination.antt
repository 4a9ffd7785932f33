-- ===== src/GraphDatabase/Termination.antt =====
-- 28-Graph-Database/main.go: the measure of the loop over the queue.
use design_with_ts_go.Base.{
  Among, ℕ, ◌+◌, ◌≤◌, ◌<◌, ◌≡◌, refl, inl, inr, true, false, List, [], ◌∷◌, ◌++◌, arith,
  if◌then◌else◌, Bool-cases, length, length-append, nat_key, assign, lookup-assign, GoString,
  string_key, int_key, Among,
}
use design_with_ts_go.GraphDatabase.{Frontier, is_seen, offer, scan}

-- How many of the names are not seen.
abbrev pub unseen : Frontier → List GoString → ℕ
unseen s [] = 0
unseen s (x ∷ xs) = if is_seen s x then unseen s xs else unseen s xs + 1

abbrev queue_next : List GoString → Frontier → GoString → Frontier
queue_next path s next = record {
  queue = s.queue ++ (path ++ next ∷ []) ∷ [];
  seen = assign next true s.seen;
}

unseen-queue_next :
    (path : List GoString) (s : Frontier) (next : GoString) (xs : List GoString)
    → unseen (queue_next path s next) xs ≤ unseen s xs
unseen-queue_next path s next [] = omega arith
unseen-queue_next path s next (x ∷ xs) =
    ground (arith, unseen-queue_next path s next xs, lookup-assign x next true s.seen)

unseen_falls :
    (path : List GoString) (s : Frontier) (next : GoString) (xs : List GoString)
    → Among next xs
    → is_seen s next ≡ false
    → unseen (queue_next path s next) xs < unseen s xs
unseen_falls path s next [] m fresh = absurd m
unseen_falls path s next (x ∷ xs) (inl e) fresh =
    ground (arith, unseen-queue_next path s next xs, lookup-assign x next true s.seen, e)
unseen_falls path s next (x ∷ xs) (inr m) fresh =
    ground (arith, unseen_falls path s next xs m fresh, lookup-assign x next true s.seen)

offer-work :
    (path : List GoString) (s : Frontier) (next : GoString) (xs : List GoString)
    → Among next xs
    → unseen (offer path s next) xs + length (offer path s next).queue
      ≤ unseen s xs + length s.queue
unfolding offer
offer-work path s next xs m = elim (Bool-cases (is_seen s next)) [
  | inl seen ↦ rw seen (omega arith)
  | inr fresh ↦ rw fresh (
      omega (
        arith,
        unseen_falls path s next xs m fresh,
        length-append s.queue ((path ++ next ∷ []) ∷ []),
      ))
]

pub scan-work :
    (path nexts : List GoString) (s : Frontier) (xs : List GoString)
    → ((v : GoString) → Among v nexts → Among v xs)
    → unseen (scan path nexts s) xs + length (scan path nexts s).queue
      ≤ unseen s xs + length s.queue
unfolding scan
scan-work path [] s xs sub = omega arith
scan-work path (next ∷ nexts) s xs sub = omega (
  arith,
  scan-work path nexts (offer path s next) xs (λ v m. sub v (inr m)),
  offer-work path s next xs (sub next (inl refl)),
)

pub unseen-le : (s : Frontier) (xs : List GoString) → unseen s xs ≤ length xs
unseen-le s [] = omega arith
unseen-le s (x ∷ xs) = ground (arith, unseen-le s xs)
