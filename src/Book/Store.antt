-- ===== src/Book/Store.antt =====
-- A whole book (exchangesim/core/book.py) against the store of orders that it shares with the engine.
use exchange_sim.Prelude.{
  ℕ, String, ◌<◌, ◌≡◌, refl, inl, inr, Bool, true, false, not, Option, none, some, arith, elem,
  Bool-cases, elem-append_key, elem-erase, last_key, last_key-append_key, ◌==◌, ==_iff,
}
use exchange_sim.Prelude.Int.{ℤ, pos, eq_of_eq_test, eq_test_refl}
use exchange_sim.Orders.{Order, Heap, write, leaves_qty, buys}
use exchange_sim.Book.Levels.{count_orders, get_level}
use exchange_sim.Book.{
  OrderBook, BookSide, empty_book, add, remove, side_of, opposite_of, set_side, add_order,
  remove_order,
}
use exchange_sim.Book.Queue.{queue, queue-add, queue-remove}
use exchange_sim.Book.Invariant.{
  Rests, IsValidSide, empty_side-IsValidSide, add-IsValidSide, remove-IsValidSide,
  rewrite-IsValidSide, count_orders-remove,
}

-- Both sides are good ladders, and every order on one is live, of that side and of its level's price.
pub record IsValidBook (h : Heap) (b : OrderBook) : Type 0 where
  pub sides : (buying : Bool) → IsValidSide h buying (side_of b buying)

-- The order stands nowhere on the book.
pub record IsAbsent (a : ℕ) (b : OrderBook) : Type 0 where
  pub off_levels : (buying : Bool) (p : ℤ) → elem a (queue p (side_of b buying)) ≡ false
  pub off_market : (buying : Bool) → elem a (side_of b buying).at_market ≡ false

pub Rests-of_same :
    {h h' : Heap} {buying : Bool} {p : Option ℤ} {a : ℕ}
    → (h' a).price ≡ (h a).price
    → buys (h' a) ≡ buys (h a)
    → 0 < leaves_qty (h' a)
    → Rests h buying p a
    → Rests h' buying p a
Rests-of_same e f k r = record { at_price = ground arith; on_side = ground arith; open_qty = k }

-- A write keeps an order resting if it writes elsewhere or keeps side, price and something open.
pub Rests-write :
    {h : Heap} {buying : Bool} {p : Option ℤ} (a c : ℕ) (o : Order)
    → (a ≡ c → (o.price ≡ p) × (buys o ≡ buying) × (0 < leaves_qty o))
    → Rests h buying p c
    → Rests (write h a o) buying p c
Rests-write a c o k r = record {
  at_price = ground (arith, r.at_price, ==_iff a c);
  on_side = ground (arith, r.on_side, ==_iff a c);
  open_qty = ground (arith, r.open_qty, ==_iff a c);
}

module _ {h : Heap} {b : OrderBook} (v : IsValidBook h b) where
  -- A write to an order that is not on the book.
  pub write_absent-IsValidBook : (a : ℕ) (o : Order) → IsAbsent a b → IsValidBook (write h a o) b
  write_absent-IsValidBook a o n = record {
    sides = λ buying.
        rewrite-IsValidSide (side_of b buying) (v.sides buying) (write h a o)
          (λ p c m r. Rests-write a c o (λ e. cc (e, m, n.off_levels buying p)) r)
          (λ c m r. Rests-write a c o (λ e. cc (e, m, n.off_market buying)) r);
  }

  -- A write that keeps an order's side and price and leaves something open.
  pub write_live-IsValidBook :
      (a : ℕ) (o : Order)
      → o.price ≡ (h a).price
      → buys o ≡ buys (h a)
      → 0 < leaves_qty o
      → IsValidBook (write h a o) b
  write_live-IsValidBook a o ep es el = record {
    sides = λ buying.
        rewrite-IsValidSide (side_of b buying) (v.sides buying) (write h a o)
          (λ p c m r.
            Rests-write a c o (λ e. (cc (e, ep, r.at_price), cc (e, es, r.on_side), el)) r)
          (λ c m r. Rests-write a c o (λ e. (cc (e, ep, r.at_price), cc (e, es, r.on_side), el)) r);
  }

pub set_side-IsValidBook :
    {h : Heap} (b : OrderBook) (buying : Bool) (s : BookSide)
    → IsValidBook h b
    → IsValidSide h buying s
    → IsValidBook h (set_side b buying s)
set_side-IsValidBook b true s v w = record { sides = elim [ true ↦ w | false ↦ v.sides false ] }
set_side-IsValidBook b false s v w = record { sides = elim [ true ↦ v.sides true | false ↦ w ] }

pub remove_order-IsValidBook :
    (h : Heap) (a : ℕ) (b : OrderBook) → IsValidBook h b → IsValidBook h (remove_order h a b).1
unfolding remove_order
remove_order-IsValidBook h a b v =
    let buying = buys (h a) in
    set_side-IsValidBook b buying _ v
      (remove-IsValidSide (side_of b buying) (v.sides buying) a (h a).price)

pub add_order-IsValidBook :
    (h : Heap) (a : ℕ) (b : OrderBook)
    → IsValidBook h b
    → 0 < leaves_qty (h a)
    → IsValidBook h (add_order h a b)
unfolding add_order
add_order-IsValidBook h a b v l =
    let buying = buys (h a) in
    set_side-IsValidBook b buying _ v (
      add-IsValidSide (side_of b buying) (v.sides buying) a (h a).price
        (record { at_price = refl; on_side = refl; open_qty = l }))

-- `remove_order` reads the side and the price of the order, and nothing else of the store.
pub remove_order-congr :
    (h h' : Heap) (a : ℕ) (b : OrderBook)
    → (h' a).price ≡ (h a).price
    → buys (h' a) ≡ buys (h a)
    → remove_order h' a b ≡ remove_order h a b
unfolding remove_order
remove_order-congr h h' a b ep es = cc (ep, es)

queue-none : (a : ℕ) (q : ℤ) (s : BookSide) → queue q (remove a none s).1 ≡ queue q s
unfolding remove
queue-none a q s = refl

module _ {h : Heap} {buying : Bool} (s : BookSide) (v : IsValidSide h buying s) (a : ℕ) where
  -- An order removed at its own price stands at no price of the side.
  absent_levels :
      (p : Option ℤ) (q : ℤ) → (h a).price ≡ p → elem a (queue q (remove a p s).1) ≡ false
  absent_levels none q e = ground (arith, v.resting q a, queue-none a q s)
  absent_levels (some p) q e =
      ground
        (arith, v.resting q a, (queue-remove a p q s).0, eq_test_refl p, elem-erase a a (queue p s))

  absent_market : (p : Option ℤ) → (h a).price ≡ p → elem a (remove a p s).1.at_market ≡ false
  absent_market none e = unfold remove in ground (arith, elem-erase a a s.at_market)
  absent_market (some p) e = ground (arith, v.waiting a, (queue-remove a p p s).2)

  -- An order of the other side stands nowhere on this one.
  foreign_levels : (q : ℤ) → buys (h a) ≡ not buying → elem a (queue q s) ≡ false
  foreign_levels q e = ground (arith, v.resting q a)

  foreign_market : buys (h a) ≡ not buying → elem a s.at_market ≡ false
  foreign_market e = ground (arith, v.waiting a)

pub remove_order-IsAbsent :
    (h : Heap) (a : ℕ) (b : OrderBook) → IsValidBook h b → IsAbsent a (remove_order h a b).1
unfolding remove_order
remove_order-IsAbsent h a b v = record {
  off_levels = elim [
    | true ↦ λ q. ground (
      arith,
      absent_levels b.bids (v.sides true) a (h a).price q refl,
      foreign_levels b.bids (v.sides true) a q,
    )
    | false ↦ λ q. ground (
      arith,
      absent_levels b.asks (v.sides false) a (h a).price q refl,
      foreign_levels b.asks (v.sides false) a q,
    )
  ];
  off_market = elim [
    | true ↦ ground (
      arith,
      absent_market b.bids (v.sides true) a (h a).price refl,
      foreign_market b.bids (v.sides true) a,
    )
    | false ↦ ground (
      arith,
      absent_market b.asks (v.sides false) a (h a).price refl,
      foreign_market b.asks (v.sides false) a,
    )
  ];
}

-- Removing one order puts no other one on the book.
remove_side_keeps :
    (a c : ℕ) (p : Option ℤ) (q : ℤ) (s : BookSide)
    → elem a (queue q s) ≡ false
    → elem a (queue q (remove c p s).1) ≡ false
remove_side_keeps a c none q s n = unfold remove in n
remove_side_keeps a c (some p) q s n =
    ground (arith, (queue-remove c p q s).0, eq_of_eq_test p q, elem-erase a c (queue p s))

remove_side_keeps_market :
    (a c : ℕ) (p : Option ℤ) (s : BookSide)
    → elem a s.at_market ≡ false
    → elem a (remove c p s).1.at_market ≡ false
remove_side_keeps_market a c none s n = unfold remove in ground (arith, elem-erase a c s.at_market)
remove_side_keeps_market a c (some p) s n = ground (arith, (queue-remove c p p s).2)

pub remove_order_keeps_IsAbsent :
    (h : Heap) (a c : ℕ) (b : OrderBook) → IsAbsent a b → IsAbsent a (remove_order h c b).1
unfolding remove_order
remove_order_keeps_IsAbsent h a c b n = record {
  off_levels = λ other q. ground (
    arith,
    n.off_levels other q,
    remove_side_keeps a c (h c).price q b.bids,
    remove_side_keeps a c (h c).price q b.asks,
  );
  off_market = λ other. ground (
    arith,
    n.off_market other,
    remove_side_keeps_market a c (h c).price b.bids,
    remove_side_keeps_market a c (h c).price b.asks,
  );
}

-- A limit order that stands on its side: removing it leaves one order fewer there.
pub count_orders-remove_order :
    (h : Heap) (a : ℕ) (b : OrderBook) (buying : Bool) (p : ℤ)
    → (h a).price ≡ some p
    → buys (h a) ≡ not buying
    → elem a (queue p (opposite_of b buying)) ≡ true
    → count_orders (opposite_of (remove_order h a b).1 buying).levels
      < count_orders (opposite_of b buying).levels
unfolding remove_order
count_orders-remove_order h a b true p e f m = rw (e, f) (count_orders-remove a p b.asks m)
count_orders-remove_order h a b false p e f m = rw (e, f) (count_orders-remove a p b.bids m)

-- A new limit order stands last in the queue of its price.
pub add_order-last :
    (h : Heap) (a : ℕ) (b : OrderBook) (p : ℤ)
    → IsAbsent a b
    → (h a).price ≡ some p
    → last_key (queue p (side_of (add_order h a b) (buys (h a)))) ≡ some a
unfolding add_order
add_order-last h a b p n e = elim (Bool-cases (buys (h a))) [
  | inl f ↦
      rw (f, e, (queue-add a p p b.bids).0, eq_test_refl p)
        (last_key-append_key a (queue p b.bids) (n.off_levels true p))
  | inr f ↦
      rw (f, e, (queue-add a p p b.asks).0, eq_test_refl p)
        (last_key-append_key a (queue p b.asks) (n.off_levels false p))
]

pub empty_book-IsValidBook :
    (h : Heap) (symbol market : String) → IsValidBook h (empty_book symbol market)
empty_book-IsValidBook h symbol market = record {
  sides = elim [ true ↦ empty_side-IsValidSide h true | false ↦ empty_side-IsValidSide h false ];
}

pub empty_book-IsAbsent : (a : ℕ) (symbol market : String) → IsAbsent a (empty_book symbol market)
unfolding elem get_level
empty_book-IsAbsent a symbol market = record {
  off_levels = elim [ true ↦ λ p. refl | false ↦ λ p. refl ];
  off_market = elim [ true ↦ refl | false ↦ refl ];
}

add_side_keeps :
    (a c : ℕ) (p : Option ℤ) (q : ℤ) (s : BookSide)
    → (c == a) ≡ false
    → elem a (queue q s) ≡ false
    → elem a (queue q (add c p s)) ≡ false
add_side_keeps a c none q s n m = rw (queue-add c q q s).2 m
add_side_keeps a c (some p) q s n m =
    ground (arith, (queue-add c p q s).0, eq_of_eq_test p q, elem-append_key a c (queue p s))

add_side_keeps_market :
    (a c : ℕ) (p : Option ℤ) (s : BookSide)
    → (c == a) ≡ false
    → elem a s.at_market ≡ false
    → elem a (add c p s).at_market ≡ false
add_side_keeps_market a c none s n m =
    rw (queue-add c (pos 0) (pos 0) s).3 (ground (arith, elem-append_key a c s.at_market))
add_side_keeps_market a c (some p) s n m = rw (queue-add c p p s).1 m

-- Adding one order puts no other one on the book.
pub add_order_keeps_IsAbsent :
    (h : Heap) (a c : ℕ) (b : OrderBook)
    → (c == a) ≡ false
    → IsAbsent a b
    → IsAbsent a (add_order h c b)
unfolding add_order
add_order_keeps_IsAbsent h a c b ne n = record {
  off_levels = λ other q. ground (
    arith,
    n.off_levels other q,
    add_side_keeps a c (h c).price q b.bids ne,
    add_side_keeps a c (h c).price q b.asks ne,
  );
  off_market = λ other. ground (
    arith,
    n.off_market other,
    add_side_keeps_market a c (h c).price b.bids ne,
    add_side_keeps_market a c (h c).price b.asks ne,
  );
}
