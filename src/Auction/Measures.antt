-- ===== src/Auction/Measures.antt =====
-- What the tie-breaks of exchangesim/core/auction.py leave of the candidate prices.
use exchange_sim.Prelude.{
  ℕ, ◌≡◌, ◌≤◌, Bool, true, false, Option, none, some, List, [], ◌∷◌, arith, ◌==◌, max,
  if◌then◌else◌, if_cases,
}
use exchange_sim.Prelude.Int.{ℤ, lt_test}
use exchange_sim.Auction.{
  TieBreak, max_volume, buy_surplus, sell_surplus, lowest_imbalance, surplus_direction,
  closest_to_reference, higher_price, Reason, Profile, greatest, with_measure, highest_of,
  lowest_of, all_buy_surplus, all_sell_surplus, apply_rule, apply_rules, or_reason,
}

unfoldable pub All : (Profile → Type 0) → List Profile → Type 0
All P [] = Unit {0}
All P (r ∷ rs) = P r × All P rs

pub All-map :
    (P Q : Profile → Type 0) (rs : List Profile) → ((r : Profile) → P r → Q r) → All P rs → All Q rs
unfolding All
All-map P Q [] f h = tt
All-map P Q (r ∷ rs) f (h, hs) = (f r h, All-map P Q rs f hs)

pub All-cons :
    (P : Profile → Type 0) (r : Profile) (rs : List Profile) → P r → All P rs → All P (r ∷ rs)
unfolding All
All-cons P r rs h hs = (h, hs)

-- What the tie-breaks leave has every property that all had before.
module _ (P : Profile → Type 0) where
  with_measure-All :
      (f : Profile → ℕ) (n : ℕ) (rs : List Profile) → All P rs → All P (with_measure f n rs)
  unfolding with_measure All
  with_measure-All f n [] h = tt
  with_measure-All f n (r ∷ rs) (h, hs) =
      if_cases (All P) (f r == n) (r ∷ with_measure f n rs) (with_measure f n rs)
        (λ _. (h, with_measure-All f n rs hs)) (λ _. with_measure-All f n rs hs)

  highest_of-All : (r : Profile) (rs : List Profile) → P r → All P rs → P (highest_of r rs)
  unfolding highest_of All
  highest_of-All r [] h hs = h
  highest_of-All r (s ∷ rs) h (h', hs) =
      if_cases P (lt_test r.price s.price) (highest_of s rs) (highest_of r rs)
        (λ _. highest_of-All s rs h' hs) (λ _. highest_of-All r rs h hs)

  lowest_of-All : (r : Profile) (rs : List Profile) → P r → All P rs → P (lowest_of r rs)
  unfolding lowest_of All
  lowest_of-All r [] h hs = h
  lowest_of-All r (s ∷ rs) h (h', hs) =
      if_cases P (lt_test s.price r.price) (lowest_of s rs) (lowest_of r rs)
        (λ _. lowest_of-All s rs h' hs) (λ _. lowest_of-All r rs h hs)

  head_of : (r : Profile) (rs : List Profile) → All P (r ∷ rs) → P r
  unfolding All
  head_of r rs h = h.0

  tail_of : (r : Profile) (rs : List Profile) → All P (r ∷ rs) → All P rs
  unfolding All
  tail_of r rs h = h.1

  abbrev by_surplus : List Profile → Bool → Bool → Profile → Profile → List Profile × Option Reason
  by_surplus all b c high low =
      if b
      then (high ∷ [], some buy_surplus)
      else if c
      then (low ∷ [], some sell_surplus)
      else (all, none)

  surplus_of_rule :
      (all : List Profile) (b c : Bool) (high low : Profile)
      → All P all
      → P high
      → P low
      → All P (by_surplus all b c high low).0
  unfolding All
  surplus_of_rule all true c high low h p q = (p, tt)
  surplus_of_rule all false true high low h p q = (q, tt)
  surplus_of_rule all false false high low h p q = h

  apply_rule-All :
      (rule : TieBreak) (reference : Option ℤ) (r : Profile) (rs : List Profile)
      → All P (r ∷ rs)
      → All P (apply_rule rule reference r rs).0
  unfolding apply_rule
  apply_rule-All max_volume reference r rs h = with_measure-All _ _ (r ∷ rs) h
  apply_rule-All lowest_imbalance reference r rs h = with_measure-All _ _ (r ∷ rs) h
  apply_rule-All surplus_direction reference r rs h =
      surplus_of_rule (r ∷ rs) (all_buy_surplus (r ∷ rs)) (all_sell_surplus (r ∷ rs))
        (highest_of r rs) (lowest_of r rs) h (highest_of-All r rs (head_of r rs h) (tail_of r rs h))
        (lowest_of-All r rs (head_of r rs h) (tail_of r rs h))
  apply_rule-All closest_to_reference none r rs h = h
  apply_rule-All closest_to_reference (some p) r rs h = with_measure-All _ _ (r ∷ rs) h
  apply_rule-All higher_price none r rs h = unfold All in (highest_of-All r rs h.0 h.1, tt)
  apply_rule-All higher_price (some p) r rs h = unfold All in (highest_of-All r rs h.0 h.1, tt)

  pub apply_rules-All :
      (rules : List TieBreak) (reference : Option ℤ) (rs : List Profile) (reason : Option Reason)
      → All P rs
      → All P (apply_rules rules reference rs reason).0
  unfolding apply_rules
  apply_rules-All [] reference rs reason h = h
  apply_rules-All (rule ∷ rules) reference [] reason h = h
  apply_rules-All (rule ∷ rules) reference (r ∷ []) reason h = h
  apply_rules-All (rule ∷ rules) reference (r ∷ s ∷ rs) reason h =
      apply_rules-All rules reference (apply_rule rule reference r (s ∷ rs)).0
        (or_reason (apply_rule rule reference r (s ∷ rs)).1 reason)
        (apply_rule-All rule reference r (s ∷ rs) h)

greatest-All : (f : Profile → ℕ) (rs : List Profile) → All (λ r. f r ≤ greatest f rs) rs
unfolding greatest All
greatest-All f [] = tt
greatest-All f (r ∷ rs) = (
  omega arith,
  All-map (λ s. f s ≤ greatest f rs) (λ s. f s ≤ max (f r) (greatest f rs)) rs
      (λ s le. omega (arith, le)) (greatest-All f rs),
)

measure-All :
    (f : Profile → ℕ) (n : ℕ) (rs : List Profile) → All (λ r. f r ≡ n) (with_measure f n rs)
unfolding with_measure All
measure-All f n [] = tt
measure-All f n (r ∷ rs) =
    if_cases (All (λ s. f s ≡ n)) (f r == n) (r ∷ with_measure f n rs) (with_measure f n rs)
      (λ e. (ground (arith, e), measure-All f n rs)) (λ _. measure-All f n rs)

-- No profile of the list trades more.
abbrev pub Top : List Profile → Profile → Type 0
Top rs r = All (λ s. s.matchable ≤ r.matchable) rs

max_volume-Top :
    (reference : Option ℤ) (r : Profile) (rs : List Profile)
    → All (Top (r ∷ rs)) (apply_rule max_volume reference r rs).0
unfolding apply_rule
max_volume-Top reference r rs =
    let n = greatest (λ x. x.matchable) (r ∷ rs) in
    All-map (λ x. x.matchable ≡ n) (Top (r ∷ rs)) (with_measure (λ x. x.matchable) n (r ∷ rs))
      (λ x e.
        All-map (λ s. s.matchable ≤ n) (λ s. s.matchable ≤ x.matchable) (r ∷ rs)
          (λ s le. omega (arith, e, le)) (greatest-All (λ y. y.matchable) (r ∷ rs)))
      (measure-All (λ x. x.matchable) n (r ∷ rs))

pub rules-Top :
    (rules : List TieBreak) (reference : Option ℤ) (rs : List Profile)
    → All (Top rs) (apply_rules (max_volume ∷ rules) reference rs none).0
unfolding apply_rules
rules-Top rules reference [] = unfold All in tt
rules-Top rules reference (r ∷ []) = unfold All in ((omega arith, tt), tt)
rules-Top rules reference (r ∷ s ∷ rs) =
    apply_rules-All (Top (r ∷ s ∷ rs)) rules reference
      (apply_rule max_volume reference r (s ∷ rs)).0
      (or_reason (apply_rule max_volume reference r (s ∷ rs)).1 none)
      (max_volume-Top reference r (s ∷ rs))
