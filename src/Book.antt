-- ===== src/Book.antt =====
-- exchangesim/core/book.py: one side of a book, and the book of one instrument. An order enters by
-- its id and the price that the method reads off it; quantities are read off the store of orders.
pub mod Ladder
pub mod Levels
pub mod Queue
pub mod Invariant
pub mod Store
pub mod Crossing
pub mod Depth
use mathlib.Core.List.{reverse}
use exchange_sim.Prelude.{
  ℕ, ◌+◌, String, Bool, true, false, not, ◌&&◌, ◌||◌, Option, none, some, List, [], ◌∷◌, ◌++◌,
  if◌then◌else◌, length, is_empty, elem, erase, append_key, leb,
}
use exchange_sim.Prelude.Int.{ℤ, ◌-ℤ◌, le_test, lt_test}
use exchange_sim.Enums.{Side, is_buy}
use exchange_sim.Orders.{Order, Heap, leaves_qty}
use Ladder.{insort, remove_price, first, last}
use Levels.{LevelMap, get_level, put_level, del_level, count_orders}

pub record BookSide : Type 0 where
  pub buying : Bool
  pub prices : List ℤ
  pub levels : LevelMap
  pub at_market : List ℕ

abbrev pub empty_side : Bool → BookSide
empty_side buying = record { buying = buying; prices = []; levels = []; at_market = [] }

-- `add` of an order with a price, once its level has been looked up.
abbrev pub add_to_level : ℕ → ℤ → Option (List ℕ) → BookSide → BookSide
add_to_level a p none s = record s {
  levels = put_level p (append_key a []) s.levels;
  prices = insort p s.prices;
}
add_to_level a p (some level) s = record s { levels = put_level p (append_key a level) s.levels }

unfoldable pub add : ℕ → Option ℤ → BookSide → BookSide
add a none s = record s { at_market = append_key a s.at_market }
add a (some p) s = add_to_level a p (get_level p s.levels) s

-- What is left of a side whose level at `p` is now `level`: an empty level goes, and its price.
abbrev pub keep_level : ℤ → List ℕ → BookSide → BookSide
keep_level p level s =
    if is_empty level
    then record s { levels = del_level p s.levels; prices = remove_price p s.prices }
    else record s { levels = put_level p level s.levels }

abbrev pub remove_from_level : ℕ → ℤ → Option (List ℕ) → BookSide → Bool × BookSide
remove_from_level a p none s = (false, s)
remove_from_level a p (some level) s =
    if elem a level then (true, keep_level p (erase a level) s) else (false, s)

-- Whether the order was there, and the side without it.
unfoldable pub remove : ℕ → Option ℤ → BookSide → Bool × BookSide
remove a none s = (elem a s.at_market, record s { at_market = erase a s.at_market })
remove a (some p) s = remove_from_level a p (get_level p s.levels) s

unfoldable pub sum_leaves : Heap → List ℕ → ℕ
sum_leaves h [] = 0
sum_leaves h (a ∷ ids) = leaves_qty (h a) + sum_leaves h ids

unfoldable pub best_price : BookSide → Option ℤ
best_price s = if s.buying then last s.prices else first s.prices

abbrev pub level_at : BookSide → Option ℤ → List ℕ
level_at s none = []
level_at s (some p) = elim (get_level p s.levels) [ none ↦ [] | some ids ↦ ids ]

-- The level at the best price; no level and an empty level are alike to every caller.
unfoldable pub best_level : BookSide → List ℕ
best_level s = level_at s (best_price s)

unfoldable pub prices_in_priority : BookSide → List ℤ
prices_in_priority s = if s.buying then reverse s.prices else s.prices

unfoldable pub orders_of : BookSide → List ℤ → List ℕ
orders_of s [] = []
orders_of s (p ∷ ps) = level_at s (some p) ++ orders_of s ps

unfoldable pub orders_in_priority : BookSide → List ℕ
orders_in_priority s = orders_of s (prices_in_priority s)

unfoldable pub quantity_at : Heap → BookSide → ℤ → ℕ
quantity_at h s p = sum_leaves h (level_at s (some p))

unfoldable pub orders_at : BookSide → ℤ → ℕ
orders_at s p = length (level_at s (some p))

-- `prices[bisect_right(prices, p):]` and `prices[:bisect_left(prices, p)]`.
unfoldable pub prices_above : ℤ → List ℤ → List ℤ
prices_above p [] = []
prices_above p (x ∷ xs) = if le_test x p then prices_above p xs else x ∷ xs

unfoldable pub prices_below : ℤ → List ℤ → List ℤ
prices_below p [] = []
prices_below p (x ∷ xs) = if lt_test x p then x ∷ prices_below p xs else []

unfoldable pub quantity_over : Heap → BookSide → List ℤ → ℕ
quantity_over h s [] = 0
quantity_over h s (p ∷ ps) = quantity_at h s p + quantity_over h s ps

unfoldable pub quantity_above : Heap → BookSide → ℤ → ℕ
quantity_above h s p = quantity_over h s (prices_above p s.prices)

unfoldable pub quantity_below : Heap → BookSide → ℤ → ℕ
quantity_below h s p = quantity_over h s (prices_below p s.prices)

unfoldable pub at_market_quantity : Heap → BookSide → ℕ
at_market_quantity h s = sum_leaves h s.at_market

abbrev pub crosses_best : Bool → Option ℤ → ℤ → Bool
crosses_best buying none p = false
crosses_best buying (some best) p = if buying then le_test p best else le_test best p

unfoldable pub crosses : BookSide → ℤ → Bool
crosses s p = crosses_best s.buying (best_price s) p

unfoldable pub all_levels : LevelMap → List ℕ
all_levels [] = []
all_levels ((p, ids) ∷ ls) = ids ++ all_levels ls

unfoldable pub orders : BookSide → List ℕ
orders s = s.at_market ++ all_levels s.levels

unfoldable pub total_quantity : Heap → BookSide → ℕ
total_quantity h s = sum_leaves h (orders s)

unfoldable pub size : BookSide → ℕ
size s = length s.at_market + count_orders s.levels

unfoldable pub is_occupied : BookSide → Bool
is_occupied s = not (is_empty s.prices) || not (is_empty s.at_market)

pub record OrderBook : Type 0 where
  pub symbol : String
  pub market : String
  pub bids : BookSide
  pub asks : BookSide

abbrev pub empty_book : String → String → OrderBook
empty_book symbol market = record {
  symbol = symbol;
  market = market;
  bids = empty_side true;
  asks = empty_side false;
}

-- `side(order.side)` and `opposite(order.side)`, by whether the order buys.
abbrev pub side_of : OrderBook → Bool → BookSide
side_of b buying = if buying then b.bids else b.asks

abbrev pub opposite_of : OrderBook → Bool → BookSide
opposite_of b buying = if buying then b.asks else b.bids

abbrev pub set_side : OrderBook → Bool → BookSide → OrderBook
set_side b buying s = if buying then record b { bids = s } else record b { asks = s }

unfoldable pub add_order : Heap → ℕ → OrderBook → OrderBook
add_order h a b =
    let buying = is_buy (h a).side in set_side b buying (add a (h a).price (side_of b buying))

unfoldable pub remove_order : Heap → ℕ → OrderBook → Bool × OrderBook
remove_order h a b =
    let buying = is_buy (h a).side in
    let (found, s) = remove a (h a).price (side_of b buying) in (found, set_side b buying s)

abbrev pub spread_of : Option ℤ → Option ℤ → Option ℤ
spread_of (some bid) (some ask) = some (ask -ℤ bid)
spread_of _ _ = none

unfoldable pub spread : OrderBook → Option ℤ
spread b = spread_of (best_price b.bids) (best_price b.asks)

abbrev pub crossed_at : Option ℤ → Option ℤ → Bool
crossed_at (some bid) (some ask) = le_test ask bid
crossed_at _ _ = false

unfoldable pub is_crossed : OrderBook → Bool
is_crossed b = crossed_at (best_price b.bids) (best_price b.asks)

unfoldable pub clear : OrderBook → OrderBook
clear b = record b { bids = empty_side b.bids.buying; asks = empty_side b.asks.buying }

unfoldable pub book_orders : OrderBook → List ℕ
book_orders b = orders b.bids ++ orders b.asks

unfoldable pub book_size : OrderBook → ℕ
book_size b = size b.bids + size b.asks
