-- ===== src/Tests/Matching.antt =====
-- The theorems about matching at concrete inputs, and runs of the engine.
use exchange_sim.Prelude.{ℕ, true, false, some, none, ◌≡◌, ◌<◌, refl, arith, List}
use exchange_sim.Prelude.Int.{pos}
use exchange_sim.Tests.Data.{day_order}
use exchange_sim.Prelude.{◌==◌, if◌then◌else◌}
use exchange_sim.Enums.{buy, sell, fok, cancel_newest, ioc}
use exchange_sim.Orders.{Order, Returns, ok, raised, Result, leaves_qty}
use exchange_sim.Events.{Event}
use exchange_sim.Orders.{Heap}
use exchange_sim.Book.{add_order, empty_book, is_crossed}
use exchange_sim.Book.Store.{IsValidBook, IsAbsent}
use exchange_sim.Matching.Trades.{traded_quantity, Accounts}
use exchange_sim.Matching.{match_order, submit, Desk, put}
use exchange_sim.Matching.Desks.{IsGood, put_incoming-IsGood}
use exchange_sim.Matching.Loop.{Settled, match_order-Settled}
use exchange_sim.Matching.Submit.{submit_lem, submit-is_crossed, submit-IsAbsent}
use exchange_sim.Matching.Amend.{amend}
use exchange_sim.Matching.Amend.Valid.{amend-IsValidBook}
use exchange_sim.Tests.Data.{
  desk, running, engine, desk-IsGood, live_three, orders, offers-IsValidBook,
}

match_order-Settled_example : Returns (Settled 3 desk) (match_order engine 3 desk)
match_order-Settled_example = match_order-Settled engine 3 desk desk-IsGood

submit_lem_example :
    Returns
      (λ (out : Desk × List Event).
        IsValidBook out.0.heap out.0.book × Accounts (orders 3) (out.0.heap 3) out.1)
      (submit engine 3 true desk)
submit_lem_example = submit_lem engine 3 true desk desk-IsGood live_three

offers-is_crossed : is_crossed desk.book ≡ false
unfolding running
offers-is_crossed = refl

submit-is_crossed_example :
    Returns (λ (out : Desk × List Event). is_crossed out.0.book ≡ false) (submit engine 3 true desk)
submit-is_crossed_example = submit-is_crossed engine 3 desk desk-IsGood live_three offers-is_crossed

abbrev taker : Order
taker = record (orders 3) { time_in_force = ioc; quantity = 20 }

abbrev taking : Desk
taking = put 3 taker desk

taking-IsGood : IsGood 3 taking
taking-IsGood = put_incoming-IsGood 3 taker desk desk-IsGood

taker_live : 0 < leaves_qty (taking.heap 3)
unfolding leaves_qty
taker_live = omega arith

submit-IsAbsent_example :
    Returns
      (λ (out : Desk × List Event). IsAbsent 3 out.0.book × (leaves_qty (out.0.heap 3) ≡ 0))
      (submit engine 3 true taking)
submit-IsAbsent_example = submit-IsAbsent engine 3 taking taking-IsGood taker_live refl

amend-IsValidBook_example :
    let d' = (amend engine 1 (some 3) none desk).1 in IsValidBook d'.heap d'.book
amend-IsValidBook_example = amend-IsValidBook engine 1 (some 3) none desk offers-IsValidBook

abbrev traded_of : Result (Desk × List Event) → ℕ
traded_of (ok (d, events)) = traded_quantity events
traded_of (raised e) = 0

sweeps_two_offers : traded_of (submit engine 3 true desk) ≡ 6
unfolding running
sweeps_two_offers = refl

-- A FOK order of 10 by "C", against 5 of "A", 5 of "C" itself and 5 of "B": the pre-check counts 10,
-- and self-trade prevention stops the order after it has traded 5.
abbrev own_between : Heap
own_between a =
    if a == 1
    then day_order sell 5 (pos 100) "A"
    else if a == 2
    then day_order sell 5 (pos 100) "C"
    else if a == 3
    then day_order sell 5 (pos 100) "B"
    else record (day_order buy 10 (pos 100) "C") { time_in_force = fok }

abbrev three_offers : Desk
three_offers = record {
  heap = own_between;
  book =
      add_order own_between 3
        (add_order own_between 2 (add_order own_between 1 (empty_book "2846" "J")));
  trade_ids = 1;
}

fok_trades_in_part :
    traded_of (submit (record engine { stp_mode = cancel_newest }) 4 true three_offers) ≡ 5
unfolding running
fok_trades_in_part = refl
