-- ===== src/Book/Queue.antt =====
-- A `BookSide` (exchangesim/core/book.py) seen as a FIFO queue for each price.
use exchange_sim.Prelude.{
  ℕ, ◌≡◌, refl, false, none, some, List, [], ◌∷◌, arith, if◌then◌else◌, elem, erase, append_key,
}
use exchange_sim.Prelude.Int.{ℤ, eq_test, eq_of_eq_test}
use exchange_sim.Book.Levels.{get_level-put_level, get_level-del_level}
use exchange_sim.Book.{BookSide, add, remove, level_at}

abbrev pub queue : ℤ → BookSide → List ℕ
queue p s = level_at s (some p)

-- Adding an order at a price puts it last in the queue of that price, unless it stands there already,
-- and leaves every other queue, and the at-auction queue, as it was; adding one without a price puts
-- it last in the at-auction queue, unless it stands there, and leaves every price as it was.
pub queue-add :
    (a : ℕ) (p q : ℤ) (s : BookSide)
    → (queue q (add a (some p) s) ≡ (if eq_test p q then append_key a (queue p s) else queue q s))
      × ((add a (some p) s).at_market ≡ s.at_market)
      × (queue q (add a none s) ≡ queue q s)
      × ((add a none s).at_market ≡ append_key a s.at_market)
unfolding add
queue-add a p q s = (
  ground (
    arith,
    get_level-put_level q p (append_key a []) s.levels,
    get_level-put_level q p (append_key a (queue p s)) s.levels,
  ),
  ground arith,
  refl,
  refl,
)

erase_absent : (a : ℕ) (xs : List ℕ) → elem a xs ≡ false → erase a xs ≡ xs
unfolding elem erase
erase_absent a [] h = refl
erase_absent a (x ∷ xs) h = ground (arith, erase_absent a xs)

pub elem_nil : (a : ℕ) → elem a [] ≡ false
unfolding elem
elem_nil a = refl

erase_nil : (a : ℕ) → erase a [] ≡ []
unfolding erase
erase_nil a = refl

-- Removing an order takes it out of the queue of its price, keeps the order of the others, leaves
-- every other queue as it was, and reports whether the order was there.
pub queue-remove :
    (a : ℕ) (p q : ℤ) (s : BookSide)
    → (queue q (remove a (some p) s).1 ≡ (if eq_test p q then erase a (queue p s) else queue q s))
      × ((remove a (some p) s).0 ≡ elem a (queue p s))
      × ((remove a (some p) s).1.at_market ≡ s.at_market)
unfolding remove
queue-remove a p q s = (
  ground (
    arith,
    eq_of_eq_test p q,
    erase_absent a (queue p s),
    get_level-del_level q p s.levels,
    get_level-put_level q p (erase a (queue p s)) s.levels,
    erase_nil a,
  ),
  ground (arith, elem_nil a),
  ground arith,
)
