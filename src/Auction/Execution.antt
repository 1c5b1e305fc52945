-- ===== src/Auction/Execution.antt =====
-- The execution of an auction (exchangesim/core/auction.py): it ends, and leaves nothing to trade.
use exchange_sim.Prelude.{
  ℕ, zero, suc, ◌+◌, ◌*◌, ◌≤◌, ◌<◌, ◌≡◌, refl, ap, ◌∙◌, ◌⊎◌, inl, inr, true, false, some, List, [],
  ◌∷◌, ◌++◌, arith, ◌==◌, Bool-cases, elem, length, if_cases, ==_iff,
}
use exchange_sim.Prelude.Int.{ℤ}
use exchange_sim.Orders.{Heap, ok, Returns, Returns-then, Returns-map, ◌>>=◌, leaves_qty}
use exchange_sim.Events.{Event}
use exchange_sim.Matching.{MatchingEngine, Desk}
use exchange_sim.Book.Store.{IsValidBook}
use exchange_sim.Auction.{
  execute_pair, execute_loop, execute_fuel, execute_between, execute, executable_side,
}
use exchange_sim.Auction.Pair.{AllAt, AllAt-append, Fills, execute_pair-Fills}
use exchange_sim.Auction.Sides.{Disjoint, sides-Disjoint}
use exchange_sim.Prelude.{elem_head, elem_later}

-- Nothing is left of any of the orders.
abbrev pub AllSpent : Heap → List ℕ → Type 0
AllSpent h [] = Unit {0}
AllSpent h (a ∷ ids) = (leaves_qty (h a) ≡ 0) × AllSpent h ids

-- What an execution between two lists leaves: all of one list is used up, every trade was at the
-- price, and no order outside the lists and none that had nothing left has changed.
pub record Clears (h : Heap) (buyers sellers : List ℕ) (price : ℤ) (out : Desk × List Event)
    : Type 0 where
  pub done : AllSpent out.0.heap buyers ⊎ AllSpent out.0.heap sellers
  pub at_price : AllAt price out.1
  pub outside : (c : ℕ) → elem c buyers ≡ false → elem c sellers ≡ false → out.0.heap c ≡ h c
  pub kept : (c : ℕ) → leaves_qty (h c) ≡ 0 → out.0.heap c ≡ h c

Clears-of_done :
    (buyers sellers : List ℕ) (price : ℤ) (d : Desk)
    → AllSpent d.heap buyers ⊎ AllSpent d.heap sellers
    → Clears d.heap buyers sellers price (d, [])
Clears-of_done buyers sellers price d done = record {
  done = done;
  at_price = tt;
  outside = λ c x y. refl;
  kept = λ c x. refl;
}

elem-tail :
    (c a : ℕ) (ids : List ℕ) → elem c (a ∷ ids) ≡ false → ((a == c) ≡ false) × (elem c ids ≡ false)
unfolding elem
elem-tail c a ids h = (ground arith, ground arith)

-- A buyer, or a seller, with nothing left is passed over.
next_buyer :
    (h : Heap) (a : ℕ) (buyers sellers : List ℕ) (price : ℤ) (out : Desk × List Event)
    → leaves_qty (h a) ≡ 0
    → Clears h buyers sellers price out
    → Clears h (a ∷ buyers) sellers price out
next_buyer h a buyers sellers price out spent k = record {
  done = elim k.done [
    | inl all ↦ inl (ap leaves_qty (k.kept a spent) ∙ spent, all)
    | inr all ↦ inr all
  ];
  at_price = k.at_price;
  outside = λ c x y. k.outside c (elem-tail c a buyers x).1 y;
  kept = k.kept;
}

next_seller :
    (h : Heap) (r : ℕ) (buyers sellers : List ℕ) (price : ℤ) (out : Desk × List Event)
    → leaves_qty (h r) ≡ 0
    → Clears h buyers sellers price out
    → Clears h buyers (r ∷ sellers) price out
next_seller h r buyers sellers price out spent k = record {
  done = elim k.done [
    | inl all ↦ inl all
    | inr all ↦ inr (ap leaves_qty (k.kept r spent) ∙ spent, all)
  ];
  at_price = k.at_price;
  outside = λ c x y. k.outside c x (elem-tail c r sellers y).1;
  kept = k.kept;
}

differs_from_spent :
    (h : Heap) (a c : ℕ) → 0 < leaves_qty (h a) → leaves_qty (h c) ≡ 0 → (a == c) ≡ false
differs_from_spent h a c live spent = elim (Bool-cases (a == c)) [
  | inr other ↦ other
  | inl same ↦ absurd (omega (arith, live, spent, ap (λ x. leaves_qty (h x)) ((==_iff a c).0 same)))
]

after_fill :
    (a r : ℕ) (buyers sellers : List ℕ) (price : ℤ) (d d' d'' : Desk) (events later : List Event)
    → 0 < leaves_qty (d.heap a)
    → 0 < leaves_qty (d.heap r)
    → Fills a r price d (d', events)
    → Clears d'.heap (a ∷ buyers) (r ∷ sellers) price (d'', later)
    → Clears d.heap (a ∷ buyers) (r ∷ sellers) price (d'', events ++ later)
after_fill a r buyers sellers price d d' d'' events later la lr f k = record {
  done = k.done;
  at_price = AllAt-append price events later f.at_price k.at_price;
  outside =
      λ c x y. k.outside c x y ∙ f.others c (elem-tail c a buyers x).0 (elem-tail c r sellers y).0;
  kept = λ c spent.
      let same =
        f.others c (differs_from_spent d.heap a c la spent)
          (differs_from_spent d.heap r c lr spent) in
      k.kept c (ap leaves_qty same ∙ spent) ∙ same;
}

abbrev HeadSpent : Heap → List ℕ → List ℕ → Type 0
HeadSpent h [] sellers = ⊥
HeadSpent h (a ∷ buyers) [] = ⊥
HeadSpent h (a ∷ buyers) (r ∷ sellers) = (leaves_qty (h a) ≡ 0) ⊎ (leaves_qty (h r) ≡ 0)

-- Fuel for two rounds an order, and one; after a trade that one is not needed.
abbrev Suffices : ℕ → Heap → List ℕ → List ℕ → Type 0
Suffices n h buyers sellers =
    (2 * (length buyers + length sellers) < n)
    ⊎ ((2 * (length buyers + length sellers) ≤ n) × HeadSpent h buyers sellers)

Suffices-zero : (h : Heap) (buyers sellers : List ℕ) → Suffices 0 h buyers sellers → ⊥
Suffices-zero h buyers sellers (inl lt) = omega (arith, lt)
Suffices-zero h [] sellers (inr (le, spent)) = spent
Suffices-zero h (a ∷ buyers) [] (inr (le, spent)) = spent
Suffices-zero h (a ∷ buyers) (r ∷ sellers) (inr (le, spent)) = omega (arith, le)

-- What passing a buyer or a seller leaves of the fuel.
Suffices-less :
    (n k m : ℕ) {X : Type 0} → (2 * k < suc n) ⊎ ((2 * k ≤ suc n) × X) → suc m ≡ k → 2 * m < n
Suffices-less n k m (inl lt) e = omega (arith, lt, e)
Suffices-less n k m (inr (le, x)) e = omega (arith, le, e)

is_zero : (n : ℕ) → (n == 0) ≡ true → n ≡ 0
is_zero n h = ground (arith, h)

is_live_qty : (n : ℕ) → (n == 0) ≡ false → 0 < n
is_live_qty n h = ground (arith, h)

live_fuel :
    (n : ℕ) (h : Heap) (a r : ℕ) (buyers sellers : List ℕ)
    → (leaves_qty (h a) == 0) ≡ false
    → (leaves_qty (h r) == 0) ≡ false
    → Suffices (suc n) h (a ∷ buyers) (r ∷ sellers)
    → 2 * (suc (length buyers) + suc (length sellers)) ≤ n
live_fuel n h a r buyers sellers la lr (inl lt) = omega (arith, lt)
live_fuel n h a r buyers sellers la lr (inr (le, inl spent)) =
    absurd (omega (arith, spent, is_live_qty (leaves_qty (h a)) la))
live_fuel n h a r buyers sellers la lr (inr (le, inr spent)) =
    absurd (omega (arith, spent, is_live_qty (leaves_qty (h r)) lr))

execute_loop-Clears :
    (n : ℕ) (e : MatchingEngine) (buyers sellers : List ℕ) (price : ℤ) (d : Desk)
    → Disjoint buyers sellers
    → Suffices n d.heap buyers sellers
    → Returns (Clears d.heap buyers sellers price) (execute_loop n e buyers sellers price d)
unfolding execute_loop
execute_loop-Clears zero e buyers sellers price d apart fuel =
    absurd (Suffices-zero d.heap buyers sellers fuel)
execute_loop-Clears (suc n) e [] sellers price d apart fuel =
    Clears-of_done [] sellers price d (inl tt)
execute_loop-Clears (suc n) e (a ∷ buyers) [] price d apart fuel =
    Clears-of_done (a ∷ buyers) [] price d (inr tt)
execute_loop-Clears (suc n) e (a ∷ buyers) (r ∷ sellers) price d apart fuel =
    if_cases (Returns (Clears d.heap (a ∷ buyers) (r ∷ sellers) price)) (leaves_qty (d.heap a) == 0)
      _ _
      (λ spent.
        Returns-map (Clears d.heap buyers (r ∷ sellers) price)
          (Clears d.heap (a ∷ buyers) (r ∷ sellers) price)
          (execute_loop n e buyers (r ∷ sellers) price d)
          (execute_loop-Clears n e buyers (r ∷ sellers) price d
            (λ x y i j. apart x y (elem_later x a buyers i) j)
            (inl (Suffices-less n _ _ fuel (omega arith))))
          (λ out k. next_buyer d.heap a buyers (r ∷ sellers) price out (is_zero _ spent) k))
      (λ open_a.
        if_cases (Returns (Clears d.heap (a ∷ buyers) (r ∷ sellers) price))
          (leaves_qty (d.heap r) == 0) _ _
          (λ spent.
            Returns-map (Clears d.heap (a ∷ buyers) sellers price)
              (Clears d.heap (a ∷ buyers) (r ∷ sellers) price)
              (execute_loop n e (a ∷ buyers) sellers price d)
              (execute_loop-Clears n e (a ∷ buyers) sellers price d
                (λ x y i j. apart x y i (elem_later y r sellers j))
                (inl (Suffices-less n _ _ fuel (omega arith))))
              (λ out k. next_seller d.heap r (a ∷ buyers) sellers price out (is_zero _ spent) k))
          (λ open_r.
            Returns-then (Fills a r price d) (Clears d.heap (a ∷ buyers) (r ∷ sellers) price)
              (execute_pair e a r price d)
              (λ (d', events).
                execute_loop n e (a ∷ buyers) (r ∷ sellers) price d' >>= λ (d'', later).
                ok (d'', events ++ later))
              (execute_pair-Fills e a r price d
                (apart a r (elem_head a buyers) (elem_head r sellers)) (is_live_qty _ open_a)
                (is_live_qty _ open_r))
              (λ (d', events) f.
                Returns-then (Clears d'.heap (a ∷ buyers) (r ∷ sellers) price)
                  (Clears d.heap (a ∷ buyers) (r ∷ sellers) price)
                  (execute_loop n e (a ∷ buyers) (r ∷ sellers) price d')
                  (λ (d'', later). ok (d'', events ++ later))
                  (execute_loop-Clears n e (a ∷ buyers) (r ∷ sellers) price d' apart
                    (inr (live_fuel n d.heap a r buyers sellers open_a open_r fuel, f.spent)))
                  (λ (d'', later) k.
                    after_fill a r buyers sellers price d d' d'' events later (is_live_qty _ open_a)
                      (is_live_qty _ open_r) f k))))

execute_between-Clears :
    (e : MatchingEngine) (buyers sellers : List ℕ) (price : ℤ) (d : Desk)
    → Disjoint buyers sellers
    → Returns (Clears d.heap buyers sellers price) (execute_between e buyers sellers price d)
execute_between-Clears e buyers sellers price d apart =
    execute_loop-Clears (execute_fuel buyers sellers) e buyers sellers price d apart
      (inl (omega arith))

-- The execution of an auction on a valid book always ends, and no fill is refused. Afterwards all the
-- buyers or all the sellers that its price attracts have nothing left, every trade was at that price,
-- and no other order has changed.
pub execute-Clears :
    (e : MatchingEngine) (price : ℤ) (d : Desk)
    → IsValidBook d.heap d.book
    → Returns
        (Clears d.heap
          (executable_side d.heap d.book.bids price)
          (executable_side d.heap d.book.asks price)
          price)
        (execute e (some price) d)
unfolding execute
execute-Clears e price d v =
    execute_between-Clears e (executable_side d.heap d.book.bids price)
      (executable_side d.heap d.book.asks price) price d (sides-Disjoint d price v)
