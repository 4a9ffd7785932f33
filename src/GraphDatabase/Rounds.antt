-- ===== src/GraphDatabase/Rounds.antt =====
-- 28-Graph-Database/main.go: what the loop over the neighbours keeps.
use mathlib.Core.Path.{subst}
use design_with_ts_go.Base.{
  ℕ, suc, ◌≤◌, ◌<◌, ◌≡◌, refl, ◌≢◌, ◌↔◌, ◌⊎◌, inl, inr, true, false, List, [], ◌∷◌, ◌++◌, arith,
  Bool-cases, length, length-append, All, nat_key, assign, lookup-assign, GoString, string_key,
  All-map, int_key, Among,
}
use design_with_ts_go.GraphDatabase.{GraphDatabase, Frontier, is_seen, offer, scan}
use design_with_ts_go.GraphDatabase.Paths.{extend, Edge, PathTo}

-- The paths are ordered by length, from the one bound up to the other.
abbrev pub Ascends : ℕ → ℕ → List (List GoString) → Type 0
Ascends least most [] = Unit
Ascends least most (path ∷ queue) =
    (least ≤ length path) × (length path ≤ most) × Ascends (length path) most queue

pub Ascends-append :
    (least most : ℕ) (queue : List (List GoString)) (path : List GoString)
    → least ≤ most
    → Ascends least most queue
    → length path ≡ most
    → Ascends least most (queue ++ path ∷ [])
Ascends-append least most [] path b h e = (omega arith, omega arith, tt)
Ascends-append least most (first ∷ queue) path b h e =
    (h.0, h.1, Ascends-append (length first) most queue path h.1 h.2 e)

pub widened :
    (least most more : ℕ) (queue : List (List GoString))
    → most ≤ more
    → Ascends least most queue
    → Ascends least more queue
widened least most more [] b h = tt
widened least most more (path ∷ queue) b h =
    (h.0, omega arith, widened (length path) most more queue b h.2)

pub All-append_one {ℓ κ} :
    {A : Type ℓ} (P : A → Type κ) (xs : List A) (x : A) → All P xs → P x → All P (xs ++ x ∷ [])
All-append_one P [] x h p = (p, tt)
All-append_one P (y ∷ xs) x h p = (h.0, All-append_one P xs x h.1 p)

is_seen-offer :
    (path : List GoString) (s : Frontier) (next v : GoString)
    → (is_seen (offer path s next) v ≡ true) ↔ ((is_seen s v ≡ true) ⊎ (next ≡ v))
unfolding offer
is_seen-offer path s next v = ground (arith, lookup-assign v next true s.seen)

pub is_seen-scan :
    (path nexts : List GoString) (s : Frontier) (v : GoString)
    → (is_seen (scan path nexts s) v ≡ true) ↔ ((is_seen s v ≡ true) ⊎ Among v nexts)
unfolding scan
is_seen-scan path [] s v = ground arith
is_seen-scan path (next ∷ nexts) s v =
    ground (arith, is_seen-scan path nexts (offer path s next) v, is_seen-offer path s next v)

module _ (g : GraphDatabase) (start : GoString) where
  -- A shortest path to a name.
  pub record Shortest (path : List GoString) (v : GoString) : Type 0 where
    pub is_path : PathTo g start path v
    pub least : (other : List GoString) → PathTo g start other v → length path ≤ length other

  -- Some queued path is a shortest one to the name.
  abbrev pub Queued : GoString → List (List GoString) → Type 0
  Queued v [] = ⊥
  Queued v (path ∷ queue) = Shortest path v ⊎ Queued v queue

  pub Queued-append :
      (v : GoString) (queue : List (List GoString)) (path : List GoString)
      → Queued v queue ⊎ Shortest path v
      → Queued v (queue ++ path ∷ [])
  Queued-append v [] path (inl none_queued) = absurd none_queued
  Queued-append v [] path (inr p) = inl p
  Queued-append v (first ∷ queue) path (inl (inl p)) = inl p
  Queued-append v (first ∷ queue) path (inl (inr q)) = inr (Queued-append v queue path (inl q))
  Queued-append v (first ∷ queue) path (inr p) = inr (Queued-append v queue path (inr p))

  pub record IsWaiting (s : Frontier) (path : List GoString) : Type 0 where
    pub at : GoString
    pub shortest : Shortest path at
    pub marked : is_seen s at ≡ true

module _ (g : GraphDatabase) (start end : GoString) where
  -- The search goes past the name, and all its neighbours are seen.
  abbrev pub IsClosed : Frontier → GoString → Type 0
  IsClosed s v = (v ≢ end) × ((w : GoString) → Edge g v w → is_seen s w ≡ true)

  -- Between two rounds, and while the neighbours of `u` are scanned.
  pub record IsBetween (s : Frontier) (path : List GoString) (u : GoString) : Type 0 where
    pub waiting : All (IsWaiting g start s) s.queue
    pub ordered : Ascends (length path) (suc (length path)) s.queue
    pub covered :
        (v : GoString) → is_seen s v ≡ true → IsClosed s v ⊎ (Queued g start v s.queue ⊎ (v ≡ u))
    pub near :
        (v : GoString) (other : List GoString)
        → PathTo g start other v
        → (is_seen s v ≡ true) ⊎ (length path < length other)

  still_queued :
      (s t : Frontier)
      → ((v : GoString) → is_seen s v ≡ true → is_seen t v ≡ true)
      → (queue : List (List GoString)) → All (IsWaiting g start s) queue
      → All (IsWaiting g start t) queue
  still_queued s t grows queue =
      All-map (IsWaiting g start s) (IsWaiting g start t) queue
        (λ q w. record { at = w.at; shortest = w.shortest; marked = grows w.at w.marked })

  still_so :
      (s t : Frontier)
      → ((v : GoString) → is_seen s v ≡ true → is_seen t v ≡ true)
      → (v : GoString) → IsClosed s v
      → IsClosed t v
  still_so s t grows v c = (c.0, λ w e. grows w (c.1 w e))

  module _ (path : List GoString) (u : GoString) (to_u : PathTo g start path u) where
    abbrev queue_next : Frontier → GoString → Frontier
    queue_next s next = record {
      queue = s.queue ++ (path ++ next ∷ []) ∷ [];
      seen = assign next true s.seen;
    }

    is_seen-queue_next :
        (s : Frontier) (next v : GoString)
        → (is_seen (queue_next s next) v ≡ true) ↔ ((is_seen s v ≡ true) ⊎ (next ≡ v))
    is_seen-queue_next s next v = ground (arith, lookup-assign v next true s.seen)

    queue_next-IsBetween :
        (s : Frontier) (next : GoString)
        → Edge g u next
        → is_seen s next ≡ false
        → IsBetween s path u
        → IsBetween (queue_next s next) path u
    queue_next-IsBetween s next edge fresh h =
        let grows =
          λ (v : GoString) (m : is_seen s v ≡ true). (is_seen-queue_next s next v).1 (inl m) in
        let longer : length (path ++ next ∷ []) ≡ suc (length path) =
          omega (arith, length-append path (next ∷ [])) in
        let found : Shortest g start (path ++ next ∷ []) next = record {
          is_path = extend to_u edge;
          least = λ other p. elim (h.near next other p) [ inl m ↦ cc | inr lt ↦ omega arith ];
        } in
        record {
          waiting =
              All-append_one (IsWaiting g start (queue_next s next)) s.queue (path ++ next ∷ [])
                (still_queued s (queue_next s next) grows s.queue h.waiting)
                (record {
                  at = next;
                  shortest = found;
                  marked = (is_seen-queue_next s next next).1 (inr refl);
                });
          ordered =
              Ascends-append (length path) (suc (length path)) s.queue (path ++ next ∷ [])
                (omega arith) h.ordered longer;
          covered = λ v m. elim ((is_seen-queue_next s next v).0 m) [
            | inl old ↦ elim (h.covered v old) [
              | inl c ↦ inl (still_so s (queue_next s next) grows v c)
              | inr (inl q) ↦
                  inr (inl (Queued-append g start v s.queue (path ++ next ∷ []) (inl q)))
              | inr (inr e) ↦ inr (inr e)
            ]
            | inr e ↦ inr (
                inl (
                  Queued-append g start v s.queue (path ++ next ∷ [])
                    (inr (subst (Shortest g start (path ++ next ∷ [])) e found))))
          ];
          near = λ v other p. elim (h.near v other p) [ inl m ↦ inl (grows v m) | inr lt ↦ inr lt ];
        }

    offer_seen : (s : Frontier) (next : GoString) → is_seen s next ≡ true → s ≡ offer path s next
    unfolding offer
    offer_seen s next seen = rw seen refl

    offer_fresh :
        (s : Frontier) (next : GoString)
        → is_seen s next ≡ false
        → queue_next s next ≡ offer path s next
    unfolding offer
    offer_fresh s next fresh = rw fresh refl

    offer-IsBetween :
        (s : Frontier) (next : GoString)
        → Edge g u next
        → IsBetween s path u
        → IsBetween (offer path s next) path u
    offer-IsBetween s next edge h = elim (Bool-cases (is_seen s next)) [
      | inl seen ↦ subst (λ t. IsBetween t path u) (offer_seen s next seen) h
      | inr fresh ↦
          subst (λ t. IsBetween t path u) (offer_fresh s next fresh)
            (queue_next-IsBetween s next edge fresh h)
    ]

    pub scan-IsBetween :
        (nexts : List GoString) (s : Frontier)
        → ((v : GoString) → Among v nexts → Edge g u v)
        → IsBetween s path u
        → IsBetween (scan path nexts s) path u
    unfolding scan
    scan-IsBetween [] s edges h = h
    scan-IsBetween (next ∷ nexts) s edges h =
        scan-IsBetween nexts (offer path s next) (λ v m. edges v (inr m))
          (offer-IsBetween s next (edges next (inl refl)) h)
