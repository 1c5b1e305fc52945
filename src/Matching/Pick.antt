-- ===== src/Matching/Pick.antt =====
-- Which resting order an incoming order meets (exchangesim/core/matching.py, `_best_match`).
use exchange_sim.Prelude.{
  ℕ, ◌≡◌, ◌≢◌, refl, sym, ap, ◌∙◌, inl, inr, Bool, true, false, not, none, some, List, [], ◌∷◌,
  arith, if◌then◌else◌, elem, is_some, ==_iff, Option-cases, Bool-cases,
}
use exchange_sim.Prelude.Int.{ℤ, lt_test}
use exchange_sim.Orders.{Order, Heap, leaves_qty, buys}
use exchange_sim.Book.{BookSide, OrderBook, best_price, best_level, level_at, opposite_of}
use exchange_sim.Book.Queue.{queue}
use exchange_sim.Book.Invariant.{Rests, IsValidSide}
use exchange_sim.Book.Ladder.{mem_price}
use exchange_sim.Book.Levels.{get_level}
use exchange_sim.Book.Crossing.{best_price-none, best_bid, best_ask}
use exchange_sim.Book.Store.{IsValidBook}
use exchange_sim.Matching.{best_match, first_open, prices_cross}

first_open-elem : (h : Heap) (ids : List ℕ) (r : ℕ) → first_open h ids ≡ some r → elem r ids ≡ true
unfolding first_open elem
first_open-elem h [] r e = absurd (cc)
first_open-elem h (x ∷ ids) r e = ground (arith, first_open-elem h ids r)

-- The order that is picked stands at the best price of the other side, which crosses the incoming
-- order's limit.
pub record Picks (h : Heap) (b : OrderBook) (order : Order) (r : ℕ) : Type 0 where
  pub price : ℤ
  pub best : best_price (opposite_of b (buys order)) ≡ some price
  pub crosses : prices_cross order (some price) ≡ true
  pub queued : elem r (queue price (opposite_of b (buys order))) ≡ true

pub best_match-Picks :
    (h : Heap) (b : OrderBook) (order : Order) (r : ℕ)
    → best_match h b order ≡ some r
    → Picks h b order r
unfolding best_match best_level
best_match-Picks h b order r e = elim (Option-cases (best_price (opposite_of b (buys order)))) [
  | inl n ↦ absurd (ground arith)
  | inr (p, n) ↦ record {
    price = p;
    best = n;
    crosses = ground arith;
    queued = ground (arith, first_open-elem h (queue p (opposite_of b (buys order))) r);
  }
]

-- On a valid book it is a live order of the other side, at that price.
pub Picks-Rests :
    {h : Heap} {b : OrderBook} {order : Order} {r : ℕ}
    → IsValidBook h b
    → (k : Picks h b order r) → Rests h (not (buys order)) (some k.price) r
Picks-Rests {h} {b} {order} {r} v k = elim (Bool-cases (buys order)) [
  | inl e ↦ ground (arith, k.queued, (v.sides false).resting k.price r)
  | inr e ↦ ground (arith, k.queued, (v.sides true).resting k.price r)
]

first_open-none :
    (h : Heap) (ids : List ℕ) (r : ℕ)
    → first_open h ids ≡ none
    → elem r ids ≡ true
    → leaves_qty (h r) ≡ 0
unfolding first_open elem
first_open-none h [] r e m = absurd (cc)
first_open-none h (x ∷ ids) r e m = ground (arith, first_open-none h ids r, ==_iff x r)

-- A level that holds only live orders is passed over only if it is empty.
level_is_empty :
    {h : Heap} {buying : Bool} (s : BookSide) (m : ℤ) (ids : List ℕ)
    → IsValidSide h buying s
    → queue m s ≡ ids
    → first_open h ids ≡ none
    → ids ≡ []
unfolding elem
level_is_empty s m [] v e f = refl
level_is_empty {h} s m (x ∷ ids) v e f =
    let here : elem x (queue m s) ≡ true = rw e (ground arith) in
    absurd
      (omega (arith, (v.resting m x here).open_qty, first_open-none h (x ∷ ids) x f (ground arith)))

priced_queue :
    {h : Heap} {buying : Bool} (s : BookSide) (m : ℤ)
    → IsValidSide h buying s
    → mem_price m s.prices ≡ true
    → queue m s ≢ []
priced_queue s m v p e = elim (Option-cases (get_level m s.levels)) [
  | inl n ↦ cc (p, v.ladder.priced m, ap is_some n)
  | inr (ids, n) ↦ v.ladder.occupied m (n ∙ ap some (sym (queue_of_level s m ids n) ∙ e))
]
  where
    queue_of_level :
        (s : BookSide) (m : ℤ) (ids : List ℕ) → get_level m s.levels ≡ some ids → queue m s ≡ ids
    queue_of_level s m ids n = ground arith

-- An order that can meet nothing is short of every price of the other side.
pub no_match_clear :
    (h : Heap) (b : OrderBook) (o : Order) (p q : ℤ)
    → IsValidBook h b
    → best_match h b o ≡ none
    → o.price ≡ some p
    → mem_price q (opposite_of b (buys o)).prices ≡ true
    → (if buys o then lt_test p q else lt_test q p) ≡ true
unfolding best_match prices_cross
no_match_clear h b o p q v n e m = elim (Bool-cases (buys o)) [
  | inl f ↦ elim (Option-cases (best_price b.asks)) [
    | inl g ↦ ground (arith, best_price-none b.asks q (v.sides false) g)
    | inr (k, g) ↦
        let best = best_ask b.asks k q (v.sides false) g in
        ground (
          arith,
          best.0,
          best.1,
          level_is_empty b.asks k (queue k b.asks) (v.sides false) refl,
          priced_queue b.asks k (v.sides false) best.0,
          best_level_of b.asks k g,
        )
  ]
  | inr f ↦ elim (Option-cases (best_price b.bids)) [
    | inl g ↦ ground (arith, best_price-none b.bids q (v.sides true) g)
    | inr (k, g) ↦
        let best = best_bid b.bids k q (v.sides true) g in
        ground (
          arith,
          best.0,
          best.1,
          level_is_empty b.bids k (queue k b.bids) (v.sides true) refl,
          priced_queue b.bids k (v.sides true) best.0,
          best_level_of b.bids k g,
        )
  ]
]
  where
    best_level_of : (s : BookSide) (k : ℤ) → best_price s ≡ some k → best_level s ≡ queue k s
    best_level_of s k g = unfold best_level in (ap (level_at s) g)
