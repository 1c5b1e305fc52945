-- ===== src/Auction/Pair.antt =====
-- One fill of an auction (`_execute_pair` of exchangesim/core/auction.py).
use exchange_sim.Prelude.{
  ℕ, suc, ◌+◌, ◌<◌, min, ◌≡◌, refl, sym, subst, ◌∙◌, ◌⊎◌, inl, inr, false, List, [], ◌∷◌, ◌++◌,
  arith, ◌==◌, Bool-cases, leb,
}
use exchange_sim.Prelude.Int.{ℤ}
use exchange_sim.Orders.{ok, Returns, leaves_qty, with_fill, apply_fill, write, write_ne, Order}
use exchange_sim.Orders.Lifecycle.{apply_fill_lem, leaves_qty-with_fill}
use exchange_sim.Events.{Event, trade_executed, fill_of}
use exchange_sim.Matching.{MatchingEngine, Desk, put, settle}
use exchange_sim.Matching.Advances.{settle-heap}
use exchange_sim.Auction.{pair_done, execute_pair}

-- Every trade is of something, and at the auction's price.
abbrev pub IsAt : ℤ → Event → Type 0
IsAt price (trade_executed t) = (0 < t.quantity) × (t.price ≡ price)
IsAt price _ = Unit {0}

abbrev pub AllAt : ℤ → List Event → Type 0
AllAt price [] = Unit {0}
AllAt price (x ∷ xs) = IsAt price x × AllAt price xs

pub AllAt-append : (p : ℤ) (xs ys : List Event) → AllAt p xs → AllAt p ys → AllAt p (xs ++ ys)
AllAt-append p [] ys f g = g
AllAt-append p (x ∷ xs) ys f g = (f.0, AllAt-append p xs ys f.1 g)

-- The desk and the events after a fill of two orders.
pub record Fills (a r : ℕ) (price : ℤ) (d : Desk) (out : Desk × List Event) : Type 0 where
  pub others : (c : ℕ) → (a == c) ≡ false → (r == c) ≡ false → out.0.heap c ≡ d.heap c
  pub spent : (leaves_qty (out.0.heap a) ≡ 0) ⊎ (leaves_qty (out.0.heap r) ≡ 0)
  pub at_price : AllAt price out.1

execute_pair_lem :
    (e : MatchingEngine) (a r : ℕ) (price : ℤ) (d : Desk) (o s : Order)
    → let q = min (leaves_qty (d.heap a)) (leaves_qty (d.heap r)) in
      apply_fill (d.heap a) q price e.now ≡ ok o
      → apply_fill (write d.heap a o r) q price e.now ≡ ok s
      → execute_pair e a r price d ≡ ok (pair_done e a r q price (put r s (put a o d)))
unfolding execute_pair
execute_pair_lem e a r price d o s h k = rw (h, k)

pair_done-heap :
    (e : MatchingEngine) (a r q : ℕ) (price : ℤ) (d : Desk) (c : ℕ)
    → (pair_done e a r q price d).0.heap c ≡ d.heap c
pair_done-heap e a r q price d c =
    let numbered = record d { trade_ids = suc d.trade_ids } in
    settle-heap r c (settle a numbered) ∙ settle-heap a c numbered

-- One of the two has nothing left.
one_spent : (x y u v : ℕ) → x + min u v ≡ u → y + min u v ≡ v → (x ≡ 0) ⊎ (y ≡ 0)
one_spent x y u v h k = elim (Bool-cases (leb u v)) [
  | inl le ↦ inl (ground (arith, le, h))
  | inr gt ↦ inr (ground (arith, gt, k))
]

module _ (e : MatchingEngine) (a r : ℕ) (price : ℤ) (d : Desk) (n : (a == r) ≡ false)
    (la : 0 < leaves_qty (d.heap a)) (lr : 0 < leaves_qty (d.heap r)) where
  abbrev quantity : ℕ
  quantity = min (leaves_qty (d.heap a)) (leaves_qty (d.heap r))

  abbrev bought : Order
  bought = with_fill (d.heap a) quantity price e.now

  abbrev sold : Order
  sold = with_fill (d.heap r) quantity price e.now

  abbrev both : Desk
  both = put r sold (put a bought d)

  runs : execute_pair e a r price d ≡ ok (pair_done e a r quantity price both)
  runs =
      execute_pair_lem e a r price d bought sold
        (apply_fill_lem (d.heap a) quantity price e.now (omega arith) (omega arith))
        (subst (λ x. apply_fill x quantity price e.now ≡ ok sold)
          (sym (write_ne d.heap a r bought n))
          (apply_fill_lem (d.heap r) quantity price e.now (omega arith) (omega arith)))

  heap_of :
      (c : ℕ)
      → (pair_done e a r quantity price both).0.heap c ≡ write (write d.heap a bought) r sold c
  heap_of c = pair_done-heap e a r quantity price both c

  at_buyer : (pair_done e a r quantity price both).0.heap a ≡ bought
  at_buyer = heap_of a ∙ ground (arith, n)

  at_seller : (pair_done e a r quantity price both).0.heap r ≡ sold
  at_seller = heap_of r ∙ ground (arith, n)

  done-Fills : Fills a r price d (pair_done e a r quantity price both)
  done-Fills = record {
    others = λ c x y. heap_of c ∙ ground (arith, x, y);
    spent =
        subst
          (λ x.
            (leaves_qty x ≡ 0) ⊎ (leaves_qty ((pair_done e a r quantity price both).0.heap r) ≡ 0))
          (sym at_buyer)
          (subst (λ y. (leaves_qty bought ≡ 0) ⊎ (leaves_qty y ≡ 0)) (sym at_seller)
            (one_spent (leaves_qty bought) (leaves_qty sold) (leaves_qty (d.heap a))
              (leaves_qty (d.heap r))
              (leaves_qty-with_fill (d.heap a) quantity price e.now (omega arith) (omega arith))
              (leaves_qty-with_fill (d.heap r) quantity price e.now (omega arith) (omega arith))));
    at_price = unfold fill_of in (tt, (tt, ((omega arith, refl), tt)));
  }

  pub execute_pair-Fills : Returns (Fills a r price d) (execute_pair e a r price d)
  execute_pair-Fills = subst (Returns (Fills a r price d)) (sym runs) done-Fills
