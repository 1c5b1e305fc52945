-- ===== src/Book/Depth.antt =====
-- `depth` of a side and of a book (exchangesim/core/book.py): the aggregated ladder that market data
-- shows.
use mathlib.Core.List.{reverse, reverse-cons}
use mathlib.Core.Option
use exchange_sim.Prelude.{
  ℕ, zero, suc, ◌+◌, ◌-◌, ◌≡◌, refl, true, false, Option, none, some, List, [], ◌∷◌, ◌++◌, arith,
  if◌then◌else◌, length, leb, max, is_some,
}
use exchange_sim.Prelude.Int.{ℤ}
use exchange_sim.Bytes.{take}
use exchange_sim.Orders.{Heap}
use exchange_sim.Book.{
  BookSide, OrderBook, sum_leaves, quantity_at, orders_at, prices_in_priority, orders_of,
  orders_in_priority, level_at,
}
use exchange_sim.Book.Ladder.{mem_price}
use exchange_sim.Book.Levels.{LevelMap, get_level}
use exchange_sim.Book.Invariant.{IsLadder}

pub record Row : Type 0 where
  pub price : ℤ
  pub quantity : ℕ
  pub orders : ℕ

abbrev pub row_of : Heap → ℤ → List ℕ → Row
row_of h p ids = record { price = p; quantity = sum_leaves h ids; orders = length ids }

-- The loop of `depth`, which has `count` rows so far. No rows at all is the KeyError of a listed price
-- that has no level.
unfoldable pub depth_rows : Heap → LevelMap → ℕ → ℕ → List ℤ → Option (List Row)
depth_rows h ls levels count [] = some []
depth_rows h ls levels count (p ∷ ps) = elim (get_level p ls) [
  | none ↦ none
  | some ids ↦ elim (leb (sum_leaves h ids) 0) [
    | true ↦ depth_rows h ls levels count ps
    | false ↦ elim (leb levels (suc count)) [
      | true ↦ some (row_of h p ids ∷ [])
      | false ↦ Option.map (λ rows. row_of h p ids ∷ rows) (depth_rows h ls levels (suc count) ps)
    ]
  ]
]

unfoldable pub depth : Heap → ℕ → BookSide → Option (List Row)
depth h levels s = depth_rows h s.levels levels 0 (prices_in_priority s)

unfoldable pub book_depth : Heap → ℕ → OrderBook → Option (List Row) × Option (List Row)
book_depth h levels b = (depth h levels b.bids, depth h levels b.asks)

-- The rows of a list of prices, of those with an open quantity.
unfoldable pub open_rows : Heap → BookSide → List ℤ → List Row
open_rows h s [] = []
open_rows h s (p ∷ ps) =
    let rest = open_rows h s ps in
    if leb (quantity_at h s p) 0
    then rest
    else record { price = p; quantity = quantity_at h s p; orders = orders_at s p } ∷ rest

unfoldable pub sum_rows : List Row → ℕ
sum_rows [] = 0
sum_rows (row ∷ rows) = row.quantity + sum_rows rows

abbrev AllPriced : LevelMap → List ℤ → Type 0
AllPriced ls [] = Unit {0}
AllPriced ls (p ∷ ps) = (is_some (get_level p ls) ≡ true) × AllPriced ls ps

AllPriced-of_mem :
    (ls : LevelMap) (ps : List ℤ)
    → ((p : ℤ) → mem_price p ps ≡ true → is_some (get_level p ls) ≡ true)
    → AllPriced ls ps
unfolding mem_price
AllPriced-of_mem ls [] h = tt
AllPriced-of_mem ls (p ∷ ps) h =
    (h p (ground arith), AllPriced-of_mem ls ps (λ q m. h q (ground (arith, m))))

AllPriced-append :
    (ls : LevelMap) (ps qs : List ℤ) → AllPriced ls ps → AllPriced ls qs → AllPriced ls (ps ++ qs)
AllPriced-append ls [] qs a b = b
AllPriced-append ls (p ∷ ps) qs a b = (a.0, AllPriced-append ls ps qs a.1 b)

AllPriced-reverse : (ls : LevelMap) (ps : List ℤ) → AllPriced ls ps → AllPriced ls (reverse ps)
AllPriced-reverse ls [] a = tt
AllPriced-reverse ls (p ∷ ps) a =
    rw (reverse-cons p ps)
      (AllPriced-append ls (reverse ps) (p ∷ []) (AllPriced-reverse ls ps a.1) (a.0, tt))

depth_rows-take :
    (h : Heap) (s : BookSide) (levels count room : ℕ) (ps : List ℤ)
    → AllPriced s.levels ps
    → max 1 levels ≡ count + suc room
    → depth_rows h s.levels levels count ps ≡ some (take (suc room) (open_rows h s ps))
unfolding depth_rows open_rows quantity_at orders_at
depth_rows-take h s levels count room [] a e = refl
depth_rows-take h s levels count zero (p ∷ ps) a e =
    ground (arith, a, depth_rows-take h s levels count zero ps)
depth_rows-take h s levels count (suc room) (p ∷ ps) a e = ground (
  arith,
  a,
  depth_rows-take h s levels count (suc room) ps,
  depth_rows-take h s levels (suc count) room ps,
)

sum_leaves-append :
    (h : Heap) (xs ys : List ℕ) → sum_leaves h (xs ++ ys) ≡ sum_leaves h xs + sum_leaves h ys
unfolding sum_leaves
sum_leaves-append h [] ys = omega arith
sum_leaves-append h (x ∷ xs) ys = ground (arith, sum_leaves-append h xs ys)

sum_rows-open_rows :
    (h : Heap) (s : BookSide) (ps : List ℤ)
    → sum_rows (open_rows h s ps) ≡ sum_leaves h (orders_of s ps)
unfolding sum_rows open_rows sum_leaves orders_of quantity_at
sum_rows-open_rows h s [] = refl
sum_rows-open_rows h s (p ∷ ps) =
    ground
      (arith, sum_rows-open_rows h s ps, sum_leaves-append h (level_at s (some p)) (orders_of s ps))

AllPriced-priority : (s : BookSide) → IsLadder s → AllPriced s.levels (prices_in_priority s)
unfolding prices_in_priority
AllPriced-priority s v =
    let priced = AllPriced-of_mem s.levels s.prices (λ p m. cc (v.priced p, m)) in
    let reversed = AllPriced-reverse s.levels s.prices priced in ground (arith, priced, reversed)

-- Where the ladder of a side is well formed, `depth` returns, with the first `levels` rows, one at
-- least, of the prices in priority that have an open quantity; each row has the open quantity and the
-- number of orders at its price, and all such rows add up to the open quantity of the resting orders
-- that have a price.
pub depth_lem :
    (h : Heap) (levels : ℕ) (s : BookSide)
    → IsLadder s
    → let rows = open_rows h s (prices_in_priority s) in
      (depth h levels s ≡ some (take (max 1 levels) rows))
      × (sum_rows rows ≡ sum_leaves h (orders_in_priority s))
unfolding depth orders_in_priority
depth_lem h levels s v =
    let most : max 1 levels ≡ suc (levels - 1) = omega arith in
    let rows = depth_rows-take h s levels 0 (levels - 1) _ (AllPriced-priority s v) (omega arith) in
    (rw most rows, sum_rows-open_rows h s (prices_in_priority s))
