-- ===== src/Market.antt =====
-- exchangesim/core/market.py: one market, with its books, its phase and its matching engine. `Floor`
-- is the market with the store of orders and the counter of trade ids, which the venue's markets
-- share. The market-data service, which only listens to the events, is not modelled.
pub mod Amendment
pub mod Expiry
use exchange_sim.Prelude.{
  ℕ, String, Bool, true, false, not, ◌&&◌, Option, none, some, List, [], ◌∷◌, ◌++◌, ltb, str_eq,
  if◌then◌else◌, is_some,
}
use exchange_sim.Prelude.Int.{ℤ}
use exchange_sim.Enums.{
  rejected, refuses_entry, TradingState, RejectReason, CancelReason, market_remainder,
}
use exchange_sim.Orders.{Order, Heap, Result, ok, ◌>>=◌, leaves_qty}
use exchange_sim.Events.{Event, order_accepted, order_rejected, order_cancelled}
use exchange_sim.Book.{OrderBook, BookSide, empty_book, book_orders, orders}
use exchange_sim.Trading.{Machine, state_for, allows_entry, allows_matching}
use exchange_sim.Trading
use exchange_sim.Matching.{MatchingEngine, Desk, set_status, take_off}
use exchange_sim.Matching
use exchange_sim.Matching.Amend.{amend}

abbrev pub Books : Type 0
Books = List (String × OrderBook)

pub record Market : Type 0 where
  pub name : String
  pub state : Machine
  pub matching : MatchingEngine
  pub books : Books

pub record Floor : Type 0 where
  pub heap : Heap
  pub trade_ids : ℕ
  pub market : Market

unfoldable pub get_book : String → Books → Option OrderBook
get_book symbol [] = none
get_book symbol ((s, b) ∷ rest) = if str_eq s symbol then some b else get_book symbol rest

unfoldable pub put_book : String → OrderBook → Books → Books
put_book symbol b [] = (symbol, b) ∷ []
put_book symbol b ((s, c) ∷ rest) =
    if str_eq s symbol then (symbol, b) ∷ rest else (s, c) ∷ put_book symbol b rest

unfoldable pub drop_book : String → Books → Books
drop_book symbol [] = []
drop_book symbol ((s, b) ∷ books) =
    let rest = drop_book symbol books in if str_eq s symbol then rest else (s, b) ∷ rest

-- `book(symbol)`: the book, created empty if there is none yet.
unfoldable pub book_for : Market → String → OrderBook
book_for m symbol = elim (get_book symbol m.books) [ none ↦ empty_book symbol m.name | some b ↦ b ]

unfoldable pub remove_book : String → Market → Bool × Market
remove_book symbol m =
    (is_some (get_book symbol m.books), record m { books = drop_book symbol m.books })

-- The desk of one instrument, and the floor with that desk put back.
abbrev pub desk_of : Floor → String → Desk
desk_of f symbol = record {
  heap = f.heap;
  book = book_for f.market symbol;
  trade_ids = f.trade_ids;
}

abbrev pub put_desk : String → Desk → Floor → Floor
put_desk symbol d f = record f {
  heap = d.heap;
  trade_ids = d.trade_ids;
  market = record f.market { books = put_book symbol d.book f.market.books };
}

abbrev pub on_desk : String → Floor → Result (Desk × List Event) → Result (Floor × List Event)
on_desk symbol f done = done >>= λ (d, events). ok (put_desk symbol d f, events)

unfoldable pub submit : ℕ → Floor → Result (Floor × List Event)
submit a f =
    let symbol = (f.heap a).symbol in
    if not (allows_entry f.market.state symbol)
    then ok (
      record f { heap = (set_status a rejected (desk_of f symbol)).heap },
      order_rejected a RejectReason.market_closed ∷ [],
    )
    else on_desk symbol f (
        Matching.submit f.market.matching a (allows_matching f.market.state symbol)
          (desk_of f symbol))

unfoldable pub cancel : ℕ → CancelReason → Floor → Floor × List Event
cancel a reason f =
    let symbol = (f.heap a).symbol in
    let (d, events) = Matching.cancel f.market.matching a reason (desk_of f symbol) in
    (put_desk symbol d f, events)

unfoldable pub without_acceptances : List Event → List Event
without_acceptances [] = []
without_acceptances (order_accepted x ∷ events) = without_acceptances events
without_acceptances (x ∷ events) = x ∷ without_acceptances events

-- The part of `amend` that matches the amended order anew.
unfoldable pub rematch : ℕ → Bool → MatchingEngine → Desk → Result (Desk × List Event)
rematch a matches engine d =
    if matches && ltb 0 (leaves_qty (d.heap a))
    then (Matching.submit engine a true (take_off a d) >>= λ (d', events).
        ok (d', without_acceptances events))
    else ok (d, [])

-- Whether time priority was kept, and the events.
unfoldable pub amend_order : ℕ → Option ℕ → Option ℤ → Floor → Result (Bool × Floor × List Event)
amend_order a new_quantity new_price f =
    let symbol = (f.heap a).symbol in
    let (kept, d) = amend f.market.matching a new_quantity new_price (desk_of f symbol) in
    rematch a (allows_matching f.market.state symbol) f.market.matching d >>= λ (d', events).
    ok (kept, put_desk symbol d' f, events)

-- The loops of `cancel_all`: the orders that a book holds at its start, then the books.
unfoldable pub cancel_each :
    MatchingEngine → (Order → Bool) → CancelReason → List ℕ → Desk → Desk × List Event
cancel_each engine chosen reason [] d = (d, [])
cancel_each engine chosen reason (a ∷ ids) d =
    let (d1, events) = if chosen (d.heap a) then Matching.cancel engine a reason d else (d, []) in
    let (d2, later) = cancel_each engine chosen reason ids d1 in (d2, events ++ later)

unfoldable pub cancel_books :
    MatchingEngine
    → (Order → Bool)
    → CancelReason
    → Books
    → Heap × ℕ
    → (Books × Heap × ℕ) × List Event
cancel_books engine chosen reason [] (h, n) = (([], h, n), [])
cancel_books engine chosen reason ((s, b) ∷ books) (h, n) =
    let (d, events) =
      cancel_each engine chosen reason (book_orders b)
        (record { heap = h; book = b; trade_ids = n }) in
    let ((rest, h', n'), later) = cancel_books engine chosen reason books (d.heap, d.trade_ids) in
    (((s, d.book) ∷ rest, h', n'), events ++ later)

unfoldable pub cancel_all : (Order → Bool) → CancelReason → Floor → Floor × List Event
cancel_all chosen reason f =
    let ((books, h, n), events) =
      cancel_books f.market.matching chosen reason f.market.books (f.heap, f.trade_ids) in
    (record f { heap = h; trade_ids = n; market = record f.market { books = books } }, events)

abbrev pub concerns : Option String → Order → Bool
concerns none o = true
concerns (some symbol) o = str_eq o.symbol symbol

-- `if symbol:` also takes the empty text for the whole market.
abbrev pub set_phase : TradingState → Option String → Machine → Machine × List Event
set_phase state none s = Trading.set_market_state state s
set_phase state (some symbol) s =
    if str_eq symbol ""
    then Trading.set_market_state state s
    else Trading.set_instrument_state symbol state s

abbrev pub any_event : List Event → Bool
any_event [] = false
any_event (x ∷ xs) = true

-- A closed or halted phase expires what rests.
unfoldable pub set_state : TradingState → Option String → Floor → Floor × List Event
set_state state symbol f =
    let (machine, events) = set_phase state symbol f.market.state in
    let moved = record f { market = record f.market { state = machine } } in
    if any_event events && refuses_entry state
    then (let (f', expired) = cancel_all (concerns symbol) CancelReason.market_closed moved in
        (f', events ++ expired))
    else (moved, events)
