-- ===== src/BTree/Keys.antt =====
-- 21-B-Tree/main.go: the position of a key, and the keys of a leaf.
use mathlib.Core.Path.{subst}
use design_with_ts_go.Base.{
  ℕ, zero, suc, ◌+◌, ◌-◌, ◌≤◌, ◌≡◌, refl, sym, ◌∙◌, ◌≢◌, ◌↔◌, ◌⊎◌, inl, inr, if_neg, true, false,
  not, ◌&&◌, Option, some, List, [], ◌∷◌, arith, ℕ_discrete, ◌==◌, if◌then◌else◌, Bool-cases,
  length, get_elem?, nat_key, string_key, ℤ, ltb_ℤ, ℤ-discrete, int_key, Among,
}
use design_with_ts_go.BTree.{insert_key, is_at, is_below, slide, insert_at}
use design_with_ts_go.BTree.Bounds.{LoLe, LeHi, InOrder, LoLe-trans, le_of_ltb, le_of_not}

-- The position from the left.
abbrev pub position : List ℤ → ℤ → ℕ
position [] key = 0
position (k ∷ ks) key =
    let rest = position ks key in if rest == 0 then (if ltb_ℤ key k then 0 else 1) else suc rest

slide_cons :
    (k key : ℤ) (ks : List ℤ) (n : ℕ)
    → slide (k ∷ ks) key (suc n)
      ≡ (if slide ks key n == 0 then (if ltb_ℤ key k then 0 else 1) else suc (slide ks key n))
unfolding slide
slide_cons k key ks zero = refl
slide_cons k key ks (suc n) = elim (Bool-cases (is_below key (get_elem? ks n))) [
  | inl below ↦ rw below (slide_cons k key ks n)
  | inr above ↦ rw above (ground arith)
]

pub slide-position : (ks : List ℤ) (key : ℤ) → slide ks key (length ks) ≡ position ks key
unfolding slide
slide-position [] key = refl
slide-position (k ∷ ks) key = slide_cons k key ks (length ks) ∙ rw (slide-position ks key) refl

pub position-le : (ks : List ℤ) (key : ℤ) → position ks key ≤ length ks
position-le [] key = omega arith
position-le (k ∷ ks) key = ground (arith, position-le ks key)

-- Where the position is not the first, some key is at most the one looked for.
pub position-LoLe :
    (lo : Option ℤ) (ks : List ℤ) (hi : Option ℤ) (key : ℤ)
    → InOrder lo ks hi
    → position ks key ≢ 0
    → LoLe lo key
position-LoLe lo [] hi key h ne = absurd (ne refl)
position-LoLe lo (k ∷ ks) hi key h ne = elim (ℕ_discrete (position ks key) 0) [
  | no later ↦ LoLe-trans lo k key h.0 (position-LoLe (some k) ks hi key h.2 later)
  | yes first ↦ elim (Bool-cases (ltb_ℤ key k)) [
    | inl before ↦ absurd (ne (rw (first, before) refl))
    | inr after ↦ LoLe-trans lo k key h.0 (le_of_not key k after)
  ]
]

pub insert_at-InOrder :
    (lo : Option ℤ) (ks : List ℤ) (hi : Option ℤ) (key : ℤ)
    → InOrder lo ks hi
    → LoLe lo key
    → LeHi key hi
    → InOrder lo (insert_at ks (position ks key) key) hi
insert_at-InOrder lo [] hi key h low high = (low, high, tt)
insert_at-InOrder lo (k ∷ ks) hi key h low high = elim (ℕ_discrete (position ks key) 0) [
  | no later ↦
      let here : position (k ∷ ks) key ≡ suc (position ks key) = ground arith in
      rw here (
        h.0,
        h.1,
        insert_at-InOrder (some k) ks hi key h.2 (position-LoLe (some k) ks hi key h.2 later) high,
      )
  | yes first ↦ elim (Bool-cases (ltb_ℤ key k)) [
    | inl before ↦
        let here : position (k ∷ ks) key ≡ 0 = rw (first, before) refl in
        rw here (low, high, (le_of_ltb key k before, h.1, h.2))
    | inr after ↦
        let here : position (k ∷ ks) key ≡ suc (position ks key) = rw (first, after) refl in
        rw here (h.0, h.1, insert_at-InOrder (some k) ks hi key h.2 (le_of_not key k after) high)
  ]
]

pub Among-insert_at :
    (x key : ℤ) (ks : List ℤ) (i : ℕ) → Among x (insert_at ks i key) ↔ (Among x ks ⊎ (key ≡ x))
Among-insert_at x key ks zero =
    (λ h. elim h [ inl e ↦ inr e | inr m ↦ inl m ], λ h. elim h [ inl m ↦ inr m | inr e ↦ inl e ])
Among-insert_at x key [] (suc i) =
    (λ h. elim h [ inl e ↦ inr e | inr m ↦ inl m ], λ h. elim h [ inl m ↦ inr m | inr e ↦ inl e ])
Among-insert_at x key (k ∷ ks) (suc i) = ground (arith, Among-insert_at x key ks i)

pub length-insert_at : (ks : List ℤ) (i : ℕ) (key : ℤ) → length (insert_at ks i key) ≡ length ks + 1
length-insert_at ks zero key = omega arith
length-insert_at [] (suc i) key = omega arith
length-insert_at (k ∷ ks) (suc i) key = omega (arith, length-insert_at ks i key)

Among-get : (ks : List ℤ) (i : ℕ) (key : ℤ) → is_at (get_elem? ks i) key ≡ true → Among key ks
Among-get [] i key e = cc
Among-get (k ∷ ks) zero key e = elim (ℤ-discrete k key) [
  | yes p ↦ inl p
  | no p ↦ absurd (cc (sym (if_neg (ℤ-discrete k key) p true false) ∙ e))
]
Among-get (k ∷ ks) (suc i) key e = inr (Among-get ks i key e)

-- The keys of a leaf stay in order, and hold the new one.
pub insert_key_lem :
    (lo : Option ℤ) (ks : List ℤ) (hi : Option ℤ) (key : ℤ)
    → InOrder lo ks hi
    → LoLe lo key
    → LeHi key hi
    → InOrder lo (insert_key ks key) hi
      × ((length (insert_key ks key) ≤ length ks + 1) × (length ks ≤ length (insert_key ks key)))
      × ((x : ℤ) → Among x (insert_key ks key) ↔ (Among x ks ⊎ (key ≡ x)))
unfolding insert_key
insert_key_lem lo ks hi key h low high =
    let at = slide ks key (length ks) in
    elim (Bool-cases (not (at == 0) && is_at (get_elem? ks (at - 1)) key)) [
      | inl there ↦
          let member : Among key ks = Among-get ks (at - 1) key (ground arith) in
          rw there (
            h,
            (omega arith, omega arith),
            λ x. (
              λ m. inl m,
              λ m. elim m [ inl old ↦ old | inr e ↦ subst (λ k. Among k ks) e member ],
            ),
          )
      | inr absent ↦
          let placed = insert_at-InOrder lo ks hi key h low high in
          rw (absent, slide-position ks key)
            (
              placed,
              omega (arith, length-insert_at ks (position ks key) key),
              λ x. Among-insert_at x key ks (position ks key),
            )
    ]
