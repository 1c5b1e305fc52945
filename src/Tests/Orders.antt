-- ===== src/Tests/Orders.antt =====
-- The theorems about orders and books at concrete inputs.
use exchange_sim.Prelude.{
  max, [], ◌∷◌, ◌≡◌, ◌↔◌, refl, false, none, some, arith, if◌then◌else◌, append_key, erase, elem,
}
use exchange_sim.Prelude.Int.{pos, eq_test}
use exchange_sim.Enums.{sell, cancelled}
use exchange_sim.Orders.{
  Order, leaves_qty, is_live, apply_fill, cancel, reduce_quantity, raised, fill_exceeds_leaves,
}
use exchange_sim.Orders.Lifecycle.{terminal_absorbs}
use exchange_sim.Book.{is_crossed, add, remove, prices_in_priority, orders_in_priority, sum_leaves}
use exchange_sim.Bytes.{take}
use exchange_sim.Book.Depth.{depth, depth_rows, open_rows, sum_rows, depth_lem}
use exchange_sim.Book.Queue.{queue, queue-add, queue-remove}
use exchange_sim.Book.Crossing.{IsUncrossed, is_crossed_iff}
use exchange_sim.Tests.Data.{day_order, orders, offers, offers-IsValidBook, running}

abbrev offer : Order
offer = day_order sell 5 (pos 100) "A"

abbrev closed_offer : Order
closed_offer = record (day_order sell 5 (pos 100) "A") { status = cancelled }

terminal_absorbs_example :
    (leaves_qty closed_offer ≡ 0)
    × (is_live closed_offer ≡ false)
    × (apply_fill closed_offer 2 (pos 100) none ≡ raised fill_exceeds_leaves)
    × (cancel closed_offer none ≡ closed_offer)
    × ((reduce_quantity closed_offer 1 none).status ≡ cancelled)
    × ((reduce_quantity closed_offer 1 none).cum_qty ≡ 0)
terminal_absorbs_example = terminal_absorbs closed_offer 2 1 (pos 100) none refl (omega arith)

is_crossed_iff_example : (is_crossed offers ≡ false) ↔ IsUncrossed offers
is_crossed_iff_example = is_crossed_iff offers offers-IsValidBook

queue-add_example :
    (queue (pos 100) (add 3 (some (pos 100)) offers.asks) ≡ (
      if eq_test (pos 100) (pos 100)
      then append_key 3 (queue (pos 100) offers.asks)
      else queue (pos 100) offers.asks))
    × ((add 3 (some (pos 100)) offers.asks).at_market ≡ offers.asks.at_market)
    × (queue (pos 100) (add 3 none offers.asks) ≡ queue (pos 100) offers.asks)
    × ((add 3 none offers.asks).at_market ≡ append_key 3 offers.asks.at_market)
queue-add_example = queue-add 3 (pos 100) (pos 100) offers.asks

queue-remove_example :
    (queue (pos 100) (remove 1 (some (pos 100)) offers.asks).1 ≡ (
      if eq_test (pos 100) (pos 100)
      then erase 1 (queue (pos 100) offers.asks)
      else queue (pos 100) offers.asks))
    × ((remove 1 (some (pos 100)) offers.asks).0 ≡ elem 1 (queue (pos 100) offers.asks))
    × ((remove 1 (some (pos 100)) offers.asks).1.at_market ≡ offers.asks.at_market)
queue-remove_example = queue-remove 1 (pos 100) (pos 100) offers.asks

depth_lem_example :
    let rows = open_rows orders offers.asks (prices_in_priority offers.asks) in
    (depth orders 3 offers.asks ≡ some (take (max 1 3) rows))
    × (sum_rows rows ≡ sum_leaves orders (orders_in_priority offers.asks))
depth_lem_example = depth_lem orders 3 offers.asks (offers-IsValidBook.sides false).ladder

-- Two offers of one price are one row.
depth_run :
    depth orders 3 offers.asks ≡ some (record { price = pos 100; quantity = 12; orders = 2 } ∷ [])
unfolding running depth depth_rows leaves_qty
depth_run = refl
