-- ===== src/Book/Crossing.antt =====
-- When a book (exchangesim/core/book.py) is crossed: the best prices against all prices, and what
-- removing and adding orders does to it.
use exchange_sim.Prelude.{
  ℕ, ◌≡◌, ◌↔◌, ◌≢◌, refl, ◌⊎◌, inl, inr, Bool, true, false, Option, none, some, List, [], ◌∷◌,
  arith, if◌then◌else◌, Option-cases,
}
use exchange_sim.Prelude.Int.{ℤ, ◌<ℤ◌, ◌≤ℤ◌, lt_test, eq_of_eq_test}
use exchange_sim.Orders.{Heap, buys}
use exchange_sim.Book.Ladder.{
  mem_price, remove_price, first, last, first_least, last_greatest, first_mem, last_mem,
  mem_price-insort,
}
use exchange_sim.Book.{
  BookSide, OrderBook, add, remove, side_of, opposite_of, best_price, is_crossed, add_order,
  remove_order,
}
use exchange_sim.Book.Invariant.{IsValidSide}
use exchange_sim.Book.Store.{IsValidBook}

mem_price_of-remove_price :
    (q p : ℤ) (xs : List ℤ) → mem_price q (remove_price p xs) ≡ true → mem_price q xs ≡ true
unfolding mem_price remove_price
mem_price_of-remove_price q p [] h = h
mem_price_of-remove_price q p (x ∷ xs) h = ground (arith, mem_price_of-remove_price q p xs)

remove-prices :
    (a : ℕ) (p : Option ℤ) (q : ℤ) (s : BookSide)
    → mem_price q (remove a p s).1.prices ≡ true
    → mem_price q s.prices ≡ true
unfolding remove
remove-prices a none q s h = h
remove-prices a (some p) q s h = ground (arith, mem_price_of-remove_price q p s.prices)

-- Every price of the one book is a price of the other, on the same side.
pub record Within (b' b : OrderBook) : Type 0 where
  pub prices :
      (buying : Bool) (p : ℤ)
      → mem_price p (side_of b' buying).prices ≡ true
      → mem_price p (side_of b buying).prices ≡ true

pub Within-refl : (b : OrderBook) → Within b b
Within-refl b = record { prices = λ buying p h. h }

pub Within-trans : {b b' b'' : OrderBook} → Within b'' b' → Within b' b → Within b'' b
Within-trans v w = record { prices = λ buying p h. w.prices buying p (v.prices buying p h) }

pub remove_order-Within : (h : Heap) (a : ℕ) (b : OrderBook) → Within (remove_order h a b).1 b
unfolding remove_order
remove_order-Within h a b = record {
  prices = λ buying p m.
      ground (arith, remove-prices a (h a).price p b.bids, remove-prices a (h a).price p b.asks);
}

-- Every bid is below every offer.
pub record IsUncrossed (b : OrderBook) : Type 0 where
  pub apart :
      (p q : ℤ) → mem_price p b.bids.prices ≡ true → mem_price q b.asks.prices ≡ true → p <ℤ q

pub Within-IsUncrossed : {b b' : OrderBook} → Within b' b → IsUncrossed b → IsUncrossed b'
Within-IsUncrossed w u = record {
  apart = λ p q hp hq. u.apart p q (w.prices true p hp) (w.prices false q hq);
}

pub best_price-none :
    {h : Heap} {buying : Bool} (s : BookSide) (q : ℤ)
    → IsValidSide h buying s
    → best_price s ≡ none
    → mem_price q s.prices ≡ false
unfolding best_price mem_price
best_price-none s q v e = by_list s.prices s.buying e
  where
    by_list :
        (xs : List ℤ) (b : Bool) → (if b then last xs else first xs) ≡ none → mem_price q xs ≡ false
    by_list [] b e = refl
    by_list (x ∷ []) true e = cc
    by_list (x ∷ []) false e = cc
    by_list (x ∷ y ∷ xs) true e = absurd (last_some y xs e)
      where
        last_some : (z : ℤ) (zs : List ℤ) → last (z ∷ zs) ≢ none
        last_some z [] e = cc
        last_some z (w ∷ zs) e = last_some w zs e
    by_list (x ∷ y ∷ xs) false e = cc

-- The best price is a price of the side, and no price of the side is more aggressive.
pub best_bid :
    {h : Heap} (s : BookSide) (m q : ℤ)
    → IsValidSide h true s
    → best_price s ≡ some m
    → (mem_price m s.prices ≡ true) × (mem_price q s.prices ≡ true → q ≤ℤ m)
unfolding best_price
best_bid s m q v e =
    let at_end : last s.prices ≡ some m = ground (arith, v.facing) in
    (last_mem m s.prices at_end, λ k. last_greatest q m s.prices v.ladder.sorted k at_end)

pub best_ask :
    {h : Heap} (s : BookSide) (m q : ℤ)
    → IsValidSide h false s
    → best_price s ≡ some m
    → (mem_price m s.prices ≡ true) × (mem_price q s.prices ≡ true → m ≤ℤ q)
unfolding best_price
best_ask s m q v e =
    let at_end : first s.prices ≡ some m = ground (arith, v.facing) in
    (first_mem m s.prices at_end, λ k. first_least q m s.prices v.ladder.sorted k at_end)

-- The test of the best prices says the same as a comparison of all prices.
pub IsUncrossed-of-is_crossed :
    {h : Heap} (b : OrderBook) → IsValidBook h b → is_crossed b ≡ false → IsUncrossed b
unfolding is_crossed
IsUncrossed-of-is_crossed b v n = record {
  apart = λ p q hp hq. elim (Option-cases (best_price b.bids)) [
    | inl e ↦ absurd (cc (hp, best_price-none b.bids p (v.sides true) e))
    | inr (m, e) ↦ elim (Option-cases (best_price b.asks)) [
      | inl f ↦ absurd (cc (hq, best_price-none b.asks q (v.sides false) f))
      | inr (k, f) ↦ ground (
        arith,
        (best_bid b.bids m p (v.sides true) e).1 hp,
        (best_ask b.asks k q (v.sides false) f).1 hq,
      )
    ]
  ];
}

pub is_crossed_of-IsUncrossed :
    {h : Heap} (b : OrderBook) → IsValidBook h b → IsUncrossed b → is_crossed b ≡ false
unfolding is_crossed
is_crossed_of-IsUncrossed b v u = elim (Option-cases (best_price b.bids)) [
  | inl e ↦ ground arith
  | inr (m, e) ↦ elim (Option-cases (best_price b.asks)) [
    | inl f ↦ ground arith
    | inr (k, f) ↦ ground (
      arith,
      u.apart m k (best_bid b.bids m m (v.sides true) e).0
          (best_ask b.asks k k (v.sides false) f).0,
    )
  ]
]

-- On a valid book the test of the two best prices finds no crossing exactly when every bid price is
-- below every ask price.
pub is_crossed_iff :
    {h : Heap} (b : OrderBook) → IsValidBook h b → (is_crossed b ≡ false) ↔ IsUncrossed b
is_crossed_iff b v = (IsUncrossed-of-is_crossed b v, is_crossed_of-IsUncrossed b v)

add-prices :
    (a : ℕ) (p : Option ℤ) (q : ℤ) (s : BookSide)
    → mem_price q (add a p s).prices ≡ true
    → (mem_price q s.prices ≡ true) ⊎ (p ≡ some q)
unfolding add
add-prices a none q s h = inl h
add-prices a (some p) q s h = ground (arith, mem_price-insort q p s.prices, eq_of_eq_test p q)

-- An order that crosses no price of the other side may go on the book.
pub add_order-IsUncrossed :
    (h : Heap) (a : ℕ) (b : OrderBook)
    → IsUncrossed b
    → ((p q : ℤ)
        → (h a).price ≡ some p
        → mem_price q (opposite_of b (buys (h a))).prices ≡ true
        → (if buys (h a) then lt_test p q else lt_test q p) ≡ true)
    → IsUncrossed (add_order h a b)
unfolding add_order
add_order-IsUncrossed h a b u clear = record {
  apart = λ p q hp hq. ground (
    arith,
    u.apart p q,
    add-prices a (h a).price p b.bids,
    add-prices a (h a).price q b.asks,
    clear p q,
    clear q p,
  );
}
