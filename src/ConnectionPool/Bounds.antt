-- ===== src/ConnectionPool/Bounds.antt =====
-- How many connections of 20-Connection-Pool/main.go there are, and which `Acquire` gives.
use mathlib.Core.Path.{subst}
use design_with_ts_go.Base.{
  ℕ, suc, ◌+◌, ◌≤◌, max, ◌≡◌, refl, sym, ap, ◌∙◌, ◌⊎◌, inl, inr, Bool, true, false, Option, none,
  some, List, [], ◌∷◌, arith, Bool-cases, Option-cases, length, All, nat_key, string_key, ◌+ℤ◌, ℤ,
  pos, negsuc, ◌≤ℤ◌, leb_ℤ, int_key, add_parts, add_zero, add_assoc, zero_add,
}
use design_with_ts_go.ConnectionPool.{
  ConnectionPool, new, take_valid, acquire, release, Call, acquire_call, release_call, step, run,
}

lend_idle : (a m : ℤ) (n n' : ℕ) → a +ℤ pos n ≤ℤ m → n' + 1 ≤ n → (a +ℤ pos 1) +ℤ pos n' ≤ℤ m
lend_idle a m n n' h le =
    omega (arith, add_parts a (pos n), add_parts a (pos 1), add_parts (a +ℤ pos 1) (pos n'))

lend_new : (a m : ℤ) → leb_ℤ m a ≡ false → (a +ℤ pos 1) +ℤ pos 0 ≤ℤ m
lend_new a m free = ground (arith, add_parts a (pos 1), add_parts (a +ℤ pos 1) (pos 0))

lend_none : (a m : ℤ) (n : ℕ) → a +ℤ pos n ≤ℤ m → a +ℤ pos 0 ≤ℤ m
lend_none a m n h = omega (arith, add_parts a (pos n), add_parts a (pos 0))

take_back : (a m : ℤ) (n n' : ℕ) → a +ℤ pos n ≤ℤ m → n' ≤ n + 1 → (a +ℤ negsuc 0) +ℤ pos n' ≤ℤ m
take_back a m n n' h le =
    omega (arith, add_parts a (pos n), add_parts a (negsuc 0), add_parts (a +ℤ negsuc 0) (pos n'))

module _ {T : Type 0} where
  length-take_valid :
      (validate : T → Bool) (idle : List T) → length (take_valid validate idle).0 ≤ length idle
  unfolding take_valid
  length-take_valid validate [] = omega arith
  length-take_valid validate (conn ∷ idle) = ground (arith, length-take_valid validate idle)

  take_valid-some :
      (validate : T → Bool) (idle : List T) (conn : T)
      → (take_valid validate idle).1 ≡ some conn
      → (validate conn ≡ true) × (length (take_valid validate idle).0 + 1 ≤ length idle)
  unfolding take_valid
  take_valid-some validate [] conn h = ground arith
  take_valid-some validate (c ∷ idle) conn h = ground (arith, take_valid-some validate idle conn)

  take_valid-none :
      (validate : T → Bool) (idle : List T)
      → (take_valid validate idle).1 ≡ none
      → ((take_valid validate idle).0 ≡ []) × All (λ c. validate c ≡ false) idle
  unfolding take_valid
  take_valid-none validate [] h = (refl, tt)
  take_valid-none validate (c ∷ idle) h = ground (arith, take_valid-none validate idle)

  module _ (p : ConnectionPool T) (validate : T → Bool) (fresh : T) where
    acquire_idle :
        (conn : T)
        → (take_valid validate p.idle).1 ≡ some conn
        → acquire p validate fresh ≡ (
          record p { idle = (take_valid validate p.idle).0; active = p.active +ℤ pos 1 },
          some conn,
        )
    unfolding acquire
    acquire_idle conn found = rw (found, acquire) refl

    acquire_full :
        (take_valid validate p.idle).1 ≡ none
        → leb_ℤ p.max p.active ≡ true
        → acquire p validate fresh ≡ (record p { idle = [] }, none)
    unfolding acquire
    acquire_full missing full =
        rw (missing, acquire, full, (take_valid-none validate p.idle missing).0) refl

    acquire_new :
        (take_valid validate p.idle).1 ≡ none
        → leb_ℤ p.max p.active ≡ false
        → acquire p validate fresh
          ≡ (record p { idle = []; active = p.active +ℤ pos 1 }, some fresh)
    unfolding acquire
    acquire_new missing free =
        rw (missing, acquire, free, (take_valid-none validate p.idle missing).0) refl

  -- The connections that are lent out and those that are idle are at most `max`.
  abbrev pub IsBounded : ConnectionPool T → Type 0
  IsBounded p = p.active +ℤ pos (length p.idle) ≤ℤ p.max

  abbrev pub lent_by : Option T → ℤ
  lent_by (some conn) = pos 1
  lent_by none = pos 0

  -- What a call changes in the number of connections lent out.
  abbrev pub lent : ConnectionPool T → Call T → ℤ
  lent p (acquire_call validate fresh) = lent_by (acquire p validate fresh).1
  lent p (release_call validate conn) = negsuc 0

  step-IsBounded :
      (p : ConnectionPool T) (call : Call T)
      → IsBounded p
      → IsBounded (step p call)
        × ((step p call).active ≡ p.active +ℤ lent p call)
        × ((step p call).max ≡ p.max)
  unfolding step acquire release
  step-IsBounded p (acquire_call validate fresh) h =
      elim (Option-cases (take_valid validate p.idle).1) [
        | inr (conn, found) ↦
            rw (step, acquire_idle p validate fresh conn found)
              (
                lend_idle p.active p.max (length p.idle) _ h
                    (take_valid-some validate p.idle conn found).1,
                refl,
                refl,
              )
        | inl missing ↦ elim (Bool-cases (leb_ℤ p.max p.active)) [
          | inl full ↦
              rw (step, acquire_full p validate fresh missing full)
                (lend_none p.active p.max (length p.idle) h, sym (add_zero p.active), refl)
          | inr free ↦
              rw (step, acquire_new p validate fresh missing free)
                (lend_new p.active p.max free, refl, refl)
        ]
      ]
  step-IsBounded p (release_call validate conn) h = elim (Bool-cases (validate conn)) [
    | inl valid ↦
        rw valid (
          take_back p.active p.max (length p.idle) (suc (length p.idle)) h (omega arith),
          refl,
          refl,
        )
    | inr broken ↦
        rw broken
          (take_back p.active p.max (length p.idle) (length p.idle) h (omega arith), refl, refl)
  ]

  -- The connections lent out over a run of calls: those acquired less those released.
  abbrev pub all_lent : ConnectionPool T → List (Call T) → ℤ
  all_lent p [] = pos 0
  all_lent p (call ∷ calls) = lent p call +ℤ all_lent (step p call) calls

  run_keeps-IsBounded :
      (p : ConnectionPool T) (calls : List (Call T))
      → IsBounded p
      → IsBounded (run p calls)
        × ((run p calls).active ≡ p.active +ℤ all_lent p calls)
        × ((run p calls).max ≡ p.max)
  unfolding run
  run_keeps-IsBounded p [] h = (h, sym (add_zero p.active), refl)
  run_keeps-IsBounded p (call ∷ calls) h =
      let (bounded, changed, same) = step-IsBounded p call h in
      let (rest, sum, same') = run_keeps-IsBounded (step p call) calls bounded in
      (
        rest,
        sum
            ∙ ap (λ a. a +ℤ all_lent (step p call) calls) changed
            ∙ add_assoc p.active (lent p call) (all_lent (step p call) calls),
        same' ∙ same,
      )

  new-IsBounded :
      (max : ℤ) (p : ConnectionPool T)
      → new max ≡ some p
      → IsBounded p × (p.active ≡ pos 0) × (p.max ≡ max)
  unfolding new ◌+ℤ◌
  new-IsBounded max p made = ground arith

  -- At no time have more connections been given back than acquired; `n` were lent out before.
  abbrev pub IsFair : ConnectionPool T → ℤ → List (Call T) → Type 0
  IsFair p n [] = pos 0 ≤ℤ n
  IsFair p n (call ∷ calls) = (pos 0 ≤ℤ n) × IsFair (step p call) (n +ℤ lent p call) calls

  IsFair-all_lent :
      (p : ConnectionPool T) (n : ℤ) (calls : List (Call T))
      → IsFair p n calls
      → pos 0 ≤ℤ n +ℤ all_lent p calls
  IsFair-all_lent p n [] h = rw (add_zero n) h
  IsFair-all_lent p n (call ∷ calls) h =
      subst (λ m. pos 0 ≤ℤ m) (add_assoc n (lent p call) (all_lent (step p call) calls))
        (IsFair-all_lent (step p call) (n +ℤ lent p call) calls h.1)

  -- Over any calls that never give back more connections than were acquired, whatever the callbacks
  -- answer, a pool made with a positive bound lends out no negative number of connections, has at
  -- most `max` of them, lent and idle together, and counts as active exactly those it lent.
  pub run-IsBounded :
      (max : ℤ) (p : ConnectionPool T) (calls : List (Call T))
      → new max ≡ some p
      → IsFair p (pos 0) calls
      → (pos 0 ≤ℤ all_lent p calls)
        × (all_lent p calls +ℤ pos (length (run p calls).idle) ≤ℤ max)
        × ((run p calls).active ≡ all_lent p calls)
  run-IsBounded bound p calls made fair =
      let (bounded, none_lent, same) = new-IsBounded bound p made in
      let (still, changed, same') = run_keeps-IsBounded p calls bounded in
      let active =
        changed ∙ ap (λ a. a +ℤ all_lent p calls) none_lent ∙ zero_add (all_lent p calls) in
      (
        subst (λ m. pos 0 ≤ℤ m) (zero_add (all_lent p calls))
            (IsFair-all_lent p (pos 0) calls fair),
        subst (λ a. a +ℤ pos (length (run p calls).idle) ≤ℤ bound) active
            (subst (λ m. (run p calls).active +ℤ pos (length (run p calls).idle) ≤ℤ m)
              (same' ∙ same) still),
        active,
      )

  -- What an acquisition may give.
  abbrev pub Acquired : ConnectionPool T → (T → Bool) → T → ConnectionPool T × Option T → Type 0
  Acquired p validate fresh (p', some conn) =
      (validate conn ≡ true)
      ⊎ ((conn ≡ fresh) × All (λ c. validate c ≡ false) p.idle × (leb_ℤ p.max p.active ≡ false))
  Acquired p validate fresh (p', none) =
      All (λ c. validate c ≡ false) p.idle
      × (leb_ℤ p.max p.active ≡ true)
      × (p' ≡ record p { idle = [] })

  -- `Acquire` gives an idle connection that is valid, or a new one; it fails exactly when no
  -- idle connection is valid and `max` are lent out, and then keeps no idle connection.
  pub acquire_lem :
      (p : ConnectionPool T) (validate : T → Bool) (fresh : T)
      → Acquired p validate fresh (acquire p validate fresh)
  acquire_lem p validate fresh = elim (Option-cases (take_valid validate p.idle).1) [
    | inr (conn, found) ↦
        rw (acquire_idle p validate fresh conn found)
          (inl (take_valid-some validate p.idle conn found).0)
    | inl missing ↦
        let broken = (take_valid-none validate p.idle missing).1 in
        elim (Bool-cases (leb_ℤ p.max p.active)) [
          | inl full ↦ rw (acquire_full p validate fresh missing full) (broken, full, refl)
          | inr free ↦ rw (acquire_new p validate fresh missing free) (inr (refl, broken, free))
        ]
  ]

  acquire_head :
      (p : ConnectionPool T) (validate : T → Bool) (conn fresh : T)
      → validate conn ≡ true
      → acquire (record p { idle = conn ∷ p.idle }) validate fresh
        ≡ (record p { active = p.active +ℤ pos 1 }, some conn)
  unfolding acquire take_valid
  acquire_head p validate conn fresh valid =
      let head : take_valid validate (conn ∷ p.idle) ≡ (p.idle, some conn) =
        ground (arith, valid) in
      acquire_idle (record p { idle = conn ∷ p.idle }) validate fresh conn (ap (λ r. r.1) head)
      ∙ ap (λ idle. (record p { idle = idle; active = p.active +ℤ pos 1 }, some conn))
          (ap (λ r. r.0) head)

  -- A connection that is given back valid and is still valid is the next one acquired, and the pool
  -- keeps its other idle connections as they were.
  pub acquire-release :
      (p : ConnectionPool T) (validate : T → Bool) (conn fresh : T)
      → validate conn ≡ true
      → acquire (release p validate conn) validate fresh
        ≡ (record p { active = (p.active +ℤ negsuc 0) +ℤ pos 1 }, some conn)
  unfolding release
  acquire-release p validate conn fresh valid =
      rw valid (acquire_head (record p { active = p.active +ℤ negsuc 0 }) validate conn fresh valid)
