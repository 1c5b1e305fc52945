-- ===== src/Auction/Sides.antt =====
-- Who may trade in an auction (`_executable_side` of exchangesim/core/auction.py): no order is on
-- both sides.
use exchange_sim.Prelude.{
  ℕ, ◌≡◌, refl, sym, ap, ◌∙◌, ◌⊎◌, inl, inr, Bool, true, false, ◌||◌, List, [], ◌∷◌, arith, ◌==◌,
  Bool-cases, elem, ==_iff, elem-append,
}
use exchange_sim.Prelude.Int.{ℤ}
use exchange_sim.Orders.{Heap, buys}
use exchange_sim.Matching.{Desk}
use exchange_sim.Book.{BookSide, orders_of, prices_in_priority, orders_in_priority}
use exchange_sim.Book.Queue.{queue}
use exchange_sim.Book.Invariant.{IsValidSide}
use exchange_sim.Book.Store.{IsValidBook}
use exchange_sim.Auction.{executable_side, open_orders, willing_orders}

-- No order stands in both lists.
abbrev pub Disjoint : List ℕ → List ℕ → Type 0
Disjoint xs ys = (a r : ℕ) → elem a xs ≡ true → elem r ys ≡ true → (a == r) ≡ false

or_true : (a b : Bool) → (a || b) ≡ true → (a ≡ true) ⊎ (b ≡ true)
or_true true b h = inl refl
or_true false b h = inr h

sides_differ : (h : Heap) (a r : ℕ) → buys (h a) ≡ true → buys (h r) ≡ false → (a == r) ≡ false
sides_differ h a r x y = elim (Bool-cases (a == r)) [
  | inr other ↦ other
  | inl same ↦ absurd (true_ne (sym x ∙ (ap (λ c. buys (h c)) ((==_iff a r).0 same) ∙ y)))
]
  where
    true_ne : true ≡ false → ⊥
    true_ne e = absurd (cc)

elem-open_orders :
    (h : Heap) (a : ℕ) (ids : List ℕ) → elem a (open_orders h ids) ≡ true → elem a ids ≡ true
unfolding open_orders elem
elem-open_orders h a [] m = m
elem-open_orders h a (b ∷ ids) m = ground (arith, elem-open_orders h a ids)

elem-willing_orders :
    (h : Heap) (buying : Bool) (price : ℤ) (a : ℕ) (ids : List ℕ)
    → elem a (willing_orders h buying price ids) ≡ true
    → elem a ids ≡ true
unfolding willing_orders elem
elem-willing_orders h buying price a [] m = m
elem-willing_orders h buying price a (b ∷ ids) m =
    ground (arith, elem-willing_orders h buying price a ids)

elem-orders_of :
    (s : BookSide) (a : ℕ) (ps : List ℤ)
    → elem a (orders_of s ps) ≡ true
    → (p : ℤ) × (elem a (queue p s) ≡ true)
unfolding orders_of
elem-orders_of s a [] m = absurd (unfold elem in (ground arith))
elem-orders_of s a (p ∷ ps) m =
    elim (or_true (elem a (queue p s)) (elem a (orders_of s ps))
      (sym (elem-append a (queue p s) (orders_of s ps)) ∙ m)) [
        | inl here ↦ (p, here)
        | inr later ↦ elem-orders_of s a ps later
      ]

-- Whoever may trade in the auction stands on the side.
executable_side-buys :
    (h : Heap) (buying : Bool) (s : BookSide) (price : ℤ) (a : ℕ)
    → IsValidSide h buying s
    → elem a (executable_side h s price) ≡ true
    → buys (h a) ≡ buying
unfolding executable_side orders_in_priority
executable_side-buys h buying s price a v m =
    elim (or_true _ _ (sym (elem-append a (open_orders h s.at_market) _) ∙ m)) [
      | inl here ↦ (v.waiting a (elem-open_orders h a s.at_market here)).on_side
      | inr later ↦
          let (p, at) =
            elem-orders_of s a (prices_in_priority s)
              (elem-willing_orders h s.buying price a (orders_of s (prices_in_priority s)) later) in
          (v.resting p a at).on_side
    ]

pub sides-Disjoint :
    (d : Desk) (price : ℤ)
    → IsValidBook d.heap d.book
    → Disjoint (executable_side d.heap d.book.bids price) (executable_side d.heap d.book.asks price)
sides-Disjoint d price v a r x y =
    sides_differ d.heap a r (executable_side-buys d.heap true d.book.bids price a (v.sides true) x)
      (executable_side-buys d.heap false d.book.asks price r (v.sides false) y)
