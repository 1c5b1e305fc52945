-- ===== src/Book/Invariant.antt =====
-- The invariants of a book (exchangesim/core/book.py), and that its operations preserve them.
use exchange_sim.Prelude.{
  ℕ, ◌<◌, ◌≡◌, ◌≢◌, refl, inl, inr, Bool, true, Option, none, some, List, [], ◌∷◌, arith, elem,
  erase, append_key, length-erase, Option-cases, is_some, append_key-ne-nil, elem-append_key,
  elem-erase,
}
use exchange_sim.Prelude.Int.{ℤ, pos, eq_of_eq_test}
use exchange_sim.Orders.{Heap, leaves_qty, buys}
use exchange_sim.Book.Ladder.{
  mem_price, IsSorted, insort-IsSorted, mem_price-insort, mem_price-remove_price,
  remove_price-IsSorted,
}
use exchange_sim.Book.Levels.{
  Distinct, put_level-Distinct, del_level-Distinct, get_level, get_level-put_level,
  get_level-del_level, count_orders, count_orders-put_level, count_orders-del_level,
}
use exchange_sim.Book.{BookSide, empty_side, add, remove, keep_level}
use exchange_sim.Book.Queue.{queue, queue-add, queue-remove, elem_nil}

-- The price list is sorted without repetition, lists exactly the prices that have a level, no level
-- is empty, and no price has two.
pub record IsLadder (s : BookSide) : Type 0 where
  pub sorted : IsSorted s.prices
  pub priced : (p : ℤ) → mem_price p s.prices ≡ is_some (get_level p s.levels)
  pub occupied : (p : ℤ) → get_level p s.levels ≢ some []
  pub distinct : Distinct s.levels

pub add-IsLadder : (a : ℕ) (p : Option ℤ) (s : BookSide) → IsLadder s → IsLadder (add a p s)
unfolding add
add-IsLadder a none s v = record {
  sorted = v.sorted;
  priced = v.priced;
  occupied = v.occupied;
  distinct = v.distinct;
}
add-IsLadder a (some p) s v = elim (Option-cases (get_level p s.levels)) [
  | inl e ↦
      rw (e, add)
        (record {
          sorted = insort-IsSorted p s.prices (ground (arith, v.priced p)) v.sorted;
          priced = λ q. ground (
            arith,
            v.priced q,
            mem_price-insort q p s.prices,
            get_level-put_level q p (append_key a []) s.levels,
          );
          distinct = put_level-Distinct p (append_key a []) s.levels v.distinct;
          occupied = λ q. ground (
            arith,
            v.occupied q,
            append_key-ne-nil a [],
            get_level-put_level q p (append_key a []) s.levels,
          );
        })
  | inr (level, e) ↦
      rw (e, add)
        (record {
          sorted = v.sorted;
          priced = λ q. ground (
            arith,
            v.priced q,
            eq_of_eq_test p q,
            get_level-put_level q p (append_key a level) s.levels,
          );
          distinct = put_level-Distinct p (append_key a level) s.levels v.distinct;
          occupied = λ q. ground (
            arith,
            v.occupied q,
            append_key-ne-nil a level,
            get_level-put_level q p (append_key a level) s.levels,
          );
        })
]

keep_level-IsLadder :
    (p : ℤ) (level old : List ℕ) (s : BookSide)
    → get_level p s.levels ≡ some old
    → IsLadder s
    → IsLadder (keep_level p level s)
keep_level-IsLadder p [] old s e v = record {
  sorted = remove_price-IsSorted p s.prices v.sorted;
  priced = λ q. ground (
    arith,
    v.priced q,
    mem_price-remove_price q p s.prices v.sorted,
    get_level-del_level q p s.levels,
  );
  distinct = del_level-Distinct p s.levels v.distinct;
  occupied = λ q. ground (arith, v.occupied q, get_level-del_level q p s.levels);
}
keep_level-IsLadder p (x ∷ level) old s e v = record {
  sorted = v.sorted;
  priced = λ q.
      ground (arith, v.priced q, eq_of_eq_test p q, get_level-put_level q p (x ∷ level) s.levels);
  distinct = put_level-Distinct p (x ∷ level) s.levels v.distinct;
  occupied = λ q. ground (arith, v.occupied q, get_level-put_level q p (x ∷ level) s.levels);
}

pub remove-IsLadder : (a : ℕ) (p : Option ℤ) (s : BookSide) → IsLadder s → IsLadder (remove a p s).1
unfolding remove
remove-IsLadder a none s v = record {
  sorted = v.sorted;
  priced = v.priced;
  occupied = v.occupied;
  distinct = v.distinct;
}
remove-IsLadder a (some p) s v = elim (Option-cases (get_level p s.levels)) [
  | inl e ↦ rw (e, remove) v
  | inr (level, e) ↦
      let kept = keep_level-IsLadder p (erase a level) level s e v in
      rw (e, remove) (ground (arith, kept))
]

-- Removing an order that is there lowers the number of orders on the levels.
pub count_orders-remove :
    (a : ℕ) (p : ℤ) (s : BookSide)
    → elem a (queue p s) ≡ true
    → count_orders (remove a (some p) s).1.levels < count_orders s.levels
unfolding remove
count_orders-remove a p s h = elim (Option-cases (get_level p s.levels)) [
  | inl e ↦ ground (arith, elem_nil a)
  | inr (level, e) ↦ ground (
    arith,
    length-erase a level,
    count_orders-put_level p (erase a level) level s.levels e,
    count_orders-del_level p level s.levels e,
  )
]

facing-add : (a : ℕ) (p : ℤ) (s : BookSide) → (add a (some p) s).buying ≡ s.buying
unfolding add
facing-add a p s = ground arith

facing-remove : (a : ℕ) (p : ℤ) (s : BookSide) → (remove a (some p) s).1.buying ≡ s.buying
unfolding remove
facing-remove a p s = ground arith

elem_of-erase : (a b : ℕ) (xs : List ℕ) → elem b (erase a xs) ≡ true → elem b xs ≡ true
elem_of-erase a b xs m = ground (arith, elem-erase b a xs)

-- An order that stands at a price of a side: a live order of that side and price.
pub record Rests (h : Heap) (buying : Bool) (p : Option ℤ) (a : ℕ) : Type 0 where
  pub at_price : (h a).price ≡ p
  pub on_side : buys (h a) ≡ buying
  pub open_qty : 0 < leaves_qty (h a)

pub record IsValidSide (h : Heap) (buying : Bool) (s : BookSide) : Type 0 where
  pub facing : s.buying ≡ buying
  pub ladder : IsLadder s
  pub resting : (p : ℤ) (a : ℕ) → elem a (queue p s) ≡ true → Rests h buying (some p) a
  pub waiting : (a : ℕ) → elem a s.at_market ≡ true → Rests h buying none a

module _ {h : Heap} {buying : Bool} (s : BookSide) (v : IsValidSide h buying s) where
  pub add-IsValidSide :
      (a : ℕ) (p : Option ℤ) → Rests h buying p a → IsValidSide h buying (add a p s)
  add-IsValidSide a none r = record {
    facing = unfold add in v.facing;
    ladder = add-IsLadder a none s v.ladder;
    resting = λ q b m. v.resting q b (rw (queue-add a q q s).2 at m);
    waiting = λ b m.
        ground
          (arith, v.waiting b, elem-append_key b a s.at_market, (queue-add a (pos 0) (pos 0) s).3);
  }
  add-IsValidSide a (some p) r = record {
    facing = ground (arith, v.facing, facing-add a p s);
    ladder = add-IsLadder a (some p) s v.ladder;
    resting = λ q b m. ground (
      arith,
      v.resting q b,
      (queue-add a p q s).0,
      eq_of_eq_test p q,
      elem-append_key b a (queue p s),
    );
    waiting = λ b m. v.waiting b (rw (queue-add a p p s).1 at m);
  }

  pub remove-IsValidSide : (a : ℕ) (p : Option ℤ) → IsValidSide h buying (remove a p s).1
  remove-IsValidSide a none = record {
    facing = unfold remove in v.facing;
    ladder = remove-IsLadder a none s v.ladder;
    resting = unfold remove in v.resting;
    waiting = unfold remove in (λ b m. v.waiting b (elem_of-erase a b s.at_market m));
  }
  remove-IsValidSide a (some p) = record {
    facing = ground (arith, v.facing, facing-remove a p s);
    ladder = remove-IsLadder a (some p) s v.ladder;
    resting = λ q b m. ground (
      arith,
      v.resting q b,
      (queue-remove a p q s).0,
      eq_of_eq_test p q,
      elem-erase b a (queue p s),
    );
    waiting = λ b m. v.waiting b (rw (queue-remove a p p s).2 at m);
  }

  -- The store may change at orders that are not on this side, and at those that stay good there.
  pub rewrite-IsValidSide :
      (h' : Heap)
      → ((p : ℤ) (a : ℕ)
          → elem a (queue p s) ≡ true
          → Rests h buying (some p) a
          → Rests h' buying (some p) a)
      → ((a : ℕ) → elem a s.at_market ≡ true → Rests h buying none a → Rests h' buying none a)
      → IsValidSide h' buying s
  rewrite-IsValidSide h' keep keep_none = record {
    facing = v.facing;
    ladder = v.ladder;
    resting = λ p a m. keep p a m (v.resting p a m);
    waiting = λ a m. keep_none a m (v.waiting a m);
  }

pub empty_side-IsValidSide : (h : Heap) (buying : Bool) → IsValidSide h buying (empty_side buying)
unfolding mem_price get_level elem
empty_side-IsValidSide h buying = record {
  facing = refl;
  ladder = record { sorted = tt; priced = λ p. refl; occupied = λ p e. cc; distinct = tt };
  resting = λ p a m. absurd (cc);
  waiting = λ a m. absurd (cc);
}
