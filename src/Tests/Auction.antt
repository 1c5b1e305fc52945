-- ===== src/Tests/Auction.antt =====
-- The theorems about the call auction at concrete inputs, and a run.
use exchange_sim.Prelude.{some}
use exchange_sim.Prelude.Int.{pos}
use exchange_sim.Orders.{Returns}
use exchange_sim.Book.{OrderBook, add_order}
use exchange_sim.Book.Store.{IsValidBook, add_order-IsValidBook}
use exchange_sim.Matching.{Desk}
use exchange_sim.Auction.{execute, executable_side}
use exchange_sim.Auction.Execution.{Clears, execute-Clears}
use exchange_sim.Tests.Data.{orders, offers, offers-IsValidBook, live_three, engine}

abbrev crossed_book : OrderBook
crossed_book = add_order orders 3 offers

abbrev crossed_desk : Desk
crossed_desk = record { heap = orders; book = crossed_book; trade_ids = 1 }

crossed-IsValidBook : IsValidBook orders crossed_book
crossed-IsValidBook = add_order-IsValidBook orders 3 _ offers-IsValidBook live_three

execute-Clears_example :
    Returns
      (Clears orders
        (executable_side orders crossed_book.bids (pos 101))
        (executable_side orders crossed_book.asks (pos 101))
        (pos 101))
      (execute engine (some (pos 101)) crossed_desk)
execute-Clears_example = execute-Clears engine (pos 101) crossed_desk crossed-IsValidBook
