-- ===== src/Crdt.antt =====
-- 35-CRDT/main.go: the grow-only counter and the counter that also decrements.
-- A method that changes its receiver returns the new counter; `none` stands for `os.Exit(1)`.
mod Convergence
mod Tests
use design_with_ts_go.Base.{
  ℕ, zero, suc, ◌+◌, ◌-◌, ◌*◌, ◌/◌, ◌%◌, ◌^◌, ◌≤◌, ◌<◌, max, min, ◌≡◌, refl, sym, ap, ◌∙◌, ◌≢◌, ◌↔◌,
  ◌⊎◌, inl, inr, ite, if_pos, if_neg, Bool, true, false, not, ◌&&◌, ◌||◌, Option, none, some, List,
  [], ◌∷◌, ◌++◌, arith, ℕ_discrete, ltb, leb, ◌==◌, if◌then◌else◌, Bool-cases, Option-cases, length,
  get_elem?, set, replicate, length-append, length-set, length-replicate, All, get_or, is_some, Key,
  nat_key, same_key, Map, IsMap, lookup, assign, delete, lookup-assign, lookup-delete, assign-IsMap,
  delete-IsMap, length-assign, GoString, str, GoString-discrete, string_key, total, total-assign,
  total_ext, ℤ, pos, negsuc, pos_part, neg_part, sub_ℕ, ◌≤ℤ◌, leb_ℤ, ltb_ℤ, ℤ-discrete, int_key,
  count_of, raise_all, count_of-raise_all, raise_all-IsMap,
}

pub record GCounter : Type 0 where
  pub counts : Map GoString ℕ

unfoldable pub new : GCounter
new = record { counts = [] }

unfoldable pub increment : GCounter → GoString → ℤ → Option GCounter
increment c node (pos amount) =
    some (record c { counts = assign node (count_of node c.counts + amount) c.counts })
increment c node (negsuc _) = none

unfoldable pub merge : GCounter → GCounter → GCounter
merge c other = record c { counts = raise_all other.counts c.counts }

unfoldable pub value : GCounter → ℕ
value c = total c.counts

pub record PnCounter : Type 0 where
  pub positive : GCounter
  pub negative : GCounter

unfoldable pub pn_new : PnCounter
unfolding new
pn_new = record { positive = new; negative = new }

unfoldable pub pn_increment : PnCounter → GoString → ℤ → Option PnCounter
unfolding increment
pn_increment c node amount = elim (increment c.positive node amount) [
  | none ↦ none
  | some p ↦ some (record c { positive = p })
]

unfoldable pub pn_decrement : PnCounter → GoString → ℤ → Option PnCounter
unfolding increment
pn_decrement c node amount = elim (increment c.negative node amount) [
  | none ↦ none
  | some n ↦ some (record c { negative = n })
]

unfoldable pub pn_merge : PnCounter → PnCounter → PnCounter
pn_merge c other = record {
  positive = merge c.positive other.positive;
  negative = merge c.negative other.negative;
}

unfoldable pub pn_value : PnCounter → ℤ
pn_value c = sub_ℕ (value c.positive) (value c.negative)
