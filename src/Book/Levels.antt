-- ===== src/Book/Levels.antt =====
-- The dict of a `BookSide` from a price to its level (exchangesim/core/book.py). A level is an
-- `OrderedDict` from an order's id to the order: here the list of its keys in order.
use exchange_sim.Prelude.{
  ℕ, ◌+◌, ◌≤◌, ◌≡◌, refl, Option, none, some, List, [], ◌∷◌, arith, if◌then◌else◌, length,
}
use exchange_sim.Prelude.Int.{ℤ, eq_test, eq_of_eq_test, eq_test_sym}

-- A dict's keys are distinct, so that `del` removes each entry of the key.
abbrev pub LevelMap : Type 0
LevelMap = List (ℤ × List ℕ)

unfoldable pub get_level : ℤ → LevelMap → Option (List ℕ)
get_level p [] = none
get_level p ((q, ids) ∷ ls) = if eq_test q p then some ids else get_level p ls

unfoldable pub put_level : ℤ → List ℕ → LevelMap → LevelMap
put_level p ids [] = (p, ids) ∷ []
put_level p ids ((q, old) ∷ ls) =
    if eq_test q p then (p, ids) ∷ ls else (q, old) ∷ put_level p ids ls

unfoldable pub del_level : ℤ → LevelMap → LevelMap
del_level p [] = []
del_level p ((q, ids) ∷ ls) =
    let rest = del_level p ls in if eq_test q p then rest else (q, ids) ∷ rest

pub get_level-put_level :
    (q p : ℤ) (ids : List ℕ) (ls : LevelMap)
    → get_level q (put_level p ids ls) ≡ (if eq_test p q then some ids else get_level q ls)
unfolding get_level put_level
get_level-put_level q p ids [] = refl
get_level-put_level q p ids ((r, old) ∷ ls) = ground (arith, get_level-put_level q p ids ls)

pub get_level-del_level :
    (q p : ℤ) (ls : LevelMap)
    → get_level q (del_level p ls) ≡ (if eq_test p q then none else get_level q ls)
unfolding get_level del_level
get_level-del_level q p [] = ground arith
get_level-del_level q p ((r, old) ∷ ls) = ground (arith, get_level-del_level q p ls)

-- The number of the orders on the levels.
unfoldable pub count_orders : LevelMap → ℕ
count_orders [] = 0
count_orders ((q, ids) ∷ ls) = length ids + count_orders ls

pub count_orders-put_level :
    (p : ℤ) (ids old : List ℕ) (ls : LevelMap)
    → get_level p ls ≡ some old
    → count_orders (put_level p ids ls) + length old ≡ count_orders ls + length ids
unfolding get_level put_level count_orders
count_orders-put_level p ids old [] h = absurd (cc)
count_orders-put_level p ids old ((q, x) ∷ ls) h =
    ground (arith, count_orders-put_level p ids old ls)

count_orders-del_level-le :
    (p : ℤ) (ls : LevelMap) → count_orders (del_level p ls) ≤ count_orders ls
unfolding del_level count_orders
count_orders-del_level-le p [] = omega arith
count_orders-del_level-le p ((q, x) ∷ ls) = ground (arith, count_orders-del_level-le p ls)

pub count_orders-del_level :
    (p : ℤ) (old : List ℕ) (ls : LevelMap)
    → get_level p ls ≡ some old
    → count_orders (del_level p ls) + length old ≤ count_orders ls
unfolding get_level del_level count_orders
count_orders-del_level p old [] h = absurd (cc)
count_orders-del_level p old ((q, x) ∷ ls) h =
    ground (arith, count_orders-del_level p old ls, count_orders-del_level-le p ls)

-- No key of the dict stands twice.
abbrev pub Distinct : LevelMap → Type 0
Distinct [] = Unit {0}
Distinct ((p, ids) ∷ ls) = (get_level p ls ≡ none) × Distinct ls

pub put_level-Distinct :
    (p : ℤ) (ids : List ℕ) (ls : LevelMap) → Distinct ls → Distinct (put_level p ids ls)
unfolding put_level get_level
put_level-Distinct p ids [] d = (refl, tt)
put_level-Distinct p ids ((q, old) ∷ ls) d = ground (
  arith,
  put_level-Distinct p ids ls d.1,
  get_level-put_level q p ids ls,
  eq_of_eq_test q p,
  eq_test_sym q p,
)

pub del_level-Distinct : (p : ℤ) (ls : LevelMap) → Distinct ls → Distinct (del_level p ls)
unfolding del_level get_level
del_level-Distinct p [] d = tt
del_level-Distinct p ((q, old) ∷ ls) d =
    ground (arith, del_level-Distinct p ls d.1, get_level-del_level q p ls)
