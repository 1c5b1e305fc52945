-- ===== src/Matching.antt =====
-- exchangesim/core/matching.py: continuous matching with self-trade prevention. `Desk` is what the
-- methods read and change: the store of orders, the book that is passed in, and the counter of the
-- trade ids. The clock's reading during one call is the engine's `now`; a counter that has outgrown
-- its identifier's width is not modelled here.
pub mod Pick
pub mod Desks
pub mod Trades
pub mod Advances
pub mod Rounds
pub mod Loop
pub mod Entered
pub mod Submit
pub mod Amend
use exchange_sim.Prelude.{
  ℕ, zero, suc, ◌+◌, min, Bool, true, false, not, ◌&&◌, ◌||◌, Option, none, some, List, [], ◌∷◌,
  ◌++◌, ltb, leb, ◌==◌, if◌then◌else◌, truthy, same_text,
}
use exchange_sim.Prelude.Int.{ℤ, le_test, eq_test}
use exchange_sim.Enums.{
  buy, sell, OrderStatus, StpMode, no_prevention, cancel_newest, cancel_oldest, decrement,
  is_no_prevention, is_fok, is_ioc, is_market, new, filled, partially_filled, rejected, added,
  removed, post_only, is_terminal, CancelReason, self_trade_prevention, market_remainder,
  ioc_remainder, fok_unfilled, min_qty_unmet, post_only_would_cross,
}
use exchange_sim.Orders.{
  Order, Heap, write, Result, ok, raised, no_price, fuel_exhausted, ◌>>=◌, has_inst, leaves_qty,
  buys, is_immediate, apply_fill, reduce_quantity,
}
use exchange_sim.Orders
use exchange_sim.Events.{
  Event, order_rejected, order_cancelled, order_decremented, trade_executed, accepted, fill_of,
}
use exchange_sim.Book.{
  OrderBook, best_price, best_level, orders_in_priority, opposite_of, crosses, is_occupied,
  add_order, remove_order,
}
use exchange_sim.Book.Levels.{count_orders}

pub record MatchingEngine : Type 0 where
  pub stp_mode : StpMode
  pub ack_on_entry : Bool
  pub now : Option ℕ

pub record Desk : Type 0 where
  pub heap : Heap
  pub book : OrderBook
  pub trade_ids : ℕ

abbrev pub put : ℕ → Order → Desk → Desk
put a o d = record d { heap = write d.heap a o }

abbrev pub set_status : ℕ → OrderStatus → Desk → Desk
set_status a status d = put a (record (d.heap a) { status = status }) d

abbrev pub cancel_in : MatchingEngine → ℕ → Desk → Desk
cancel_in e a d = put a (Orders.cancel (d.heap a) e.now) d

abbrev pub take_off : ℕ → Desk → Desk
take_off a d = record d { book = (remove_order d.heap a d.book).1 }

-- Two orders under one self-match key, or else one MPID where the market prevents self-trades.
unfoldable pub is_self_trade : MatchingEngine → Order → Order → Bool
is_self_trade e order resting =
    if truthy order.stp_id && truthy resting.stp_id
    then same_text order.stp_id resting.stp_id
    else if is_no_prevention e.stp_mode
    then false
    else if not (truthy order.mpid) || not (truthy resting.mpid)
    then false
    else same_text order.mpid resting.mpid

unfoldable pub stp_mode_for : MatchingEngine → Order → StpMode
stp_mode_for e incoming =
    if truthy incoming.stp_id
    then elim incoming.stp_instruction [ none ↦ e.stp_mode | some mode ↦ mode ]
    else e.stp_mode

-- A comparison of a limit with a resting price of None would raise; no price level holds such an
-- order.
abbrev pub limit_crosses : Bool → Option ℤ → Option ℤ → Bool
limit_crosses buying none p = true
limit_crosses buying (some limit) none = false
limit_crosses buying (some limit) (some p) = if buying then le_test p limit else le_test limit p

unfoldable pub prices_cross : Order → Option ℤ → Bool
prices_cross order p = limit_crosses (buys order) order.price p

unfoldable pub would_cross : OrderBook → Order → Bool
would_cross b order = elim order.price [
  | none ↦ is_occupied (opposite_of b (buys order))
  | some p ↦ crosses (opposite_of b (buys order)) p
]

-- The loop of `_executable`, from the quantity that is available so far.
unfoldable pub executable_from : MatchingEngine → Heap → Order → List ℕ → ℕ → ℕ
executable_from e h order [] available = available
executable_from e h order (r ∷ ids) available =
    let own = is_self_trade e order (h r) in
    let total = if own then available else available + leaves_qty (h r) in
    let rest = executable_from e h order ids total in
    if not (prices_cross order (h r).price)
    then available
    else if not own && leb order.quantity total
    then total
    else rest

unfoldable pub executable : MatchingEngine → Heap → OrderBook → Order → ℕ
executable e h b order =
    executable_from e h order (orders_in_priority (opposite_of b (buys order))) 0

unfoldable pub first_open : Heap → List ℕ → Option ℕ
first_open h [] = none
first_open h (r ∷ ids) = if ltb 0 (leaves_qty (h r)) then some r else first_open h ids

unfoldable pub best_match : Heap → OrderBook → Order → Option ℕ
best_match h b order =
    let opposite = opposite_of b (buys order) in
    elim (best_price opposite) [
      | none ↦ none
      | some p ↦ if prices_cross order (some p) then first_open h (best_level opposite) else none
    ]

-- The three events of one execution, off the orders as they stand after it.
unfoldable pub execution_events : MatchingEngine → Heap → ℕ → ℕ → ℕ → ℤ → ℕ → List Event
execution_events e h a r quantity price trade_id =
    let order = h a in
    let resting = h r in
    fill_of r resting quantity price trade_id added a order.mpid
    ∷ fill_of a order quantity price trade_id removed r resting.mpid
    ∷ trade_executed (record {
      symbol = order.symbol;
      market = order.market;
      price = price;
      quantity = quantity;
      trade_id = trade_id;
      buy_order_id = if buys order then a else r;
      sell_order_id = if buys order then r else a;
      aggressor_side = some (if buys order then buy else sell);
      timestamp = e.now;
    })
    ∷ []

-- The desk after a fill of both orders: a resting order with nothing left leaves the book.
abbrev pub settle : ℕ → Desk → Desk
settle r d = if leaves_qty (d.heap r) == 0 then take_off r d else d

unfoldable pub execute_at : MatchingEngine → ℕ → ℕ → ℕ → ℤ → Desk → Result (Desk × List Event)
execute_at e a r quantity price d = do
  order ← apply_fill (d.heap a) quantity price e.now
  let d1 = put a order d
  resting ← apply_fill (d1.heap r) quantity price e.now
  let d2 = put r resting d1
  ok (
    record (settle r d2) { trade_ids = suc d.trade_ids },
    execution_events e d2.heap a r quantity price d.trade_ids,
  )

unfoldable pub execute : MatchingEngine → ℕ → ℕ → Desk → Result (Desk × List Event)
execute e a r d =
    let quantity = min (leaves_qty (d.heap a)) (leaves_qty (d.heap r)) in
    elim (d.heap r).price [ none ↦ raised no_price | some p ↦ execute_at e a r quantity p d ]

-- What one round of matching reports: whether matching stops, the desk and the events.
abbrev pub Round : Type 0
Round = record { stop : Bool; desk : Desk; events : List Event }

abbrev pub stp_cancelled : ℕ → Event
stp_cancelled a = order_cancelled a self_trade_prevention

unfoldable pub apply_decrement : MatchingEngine → ℕ → ℕ → Desk → Round
apply_decrement e a r d =
    let incoming_qty = leaves_qty (d.heap a) in
    let resting_qty = leaves_qty (d.heap r) in
    let without = cancel_in e r (take_off r d) in
    let smaller = put a (reduce_quantity (without.heap a) resting_qty e.now) without in
    let reduced = put r (reduce_quantity (d.heap r) incoming_qty e.now) d in
    if incoming_qty == resting_qty
    then record {
      stop = true;
      desk = cancel_in e a without;
      events = stp_cancelled r ∷ stp_cancelled a ∷ [];
    }
    else if ltb resting_qty incoming_qty
    then record {
      stop = leaves_qty (smaller.heap a) == 0;
      desk = smaller;
      events = stp_cancelled r ∷ order_decremented a resting_qty self_trade_prevention ∷ [];
    }
    else record {
      stop = true;
      desk = cancel_in e a (settle r reduced);
      events = order_decremented r incoming_qty self_trade_prevention ∷ stp_cancelled a ∷ [];
    }

-- The incoming order goes back to its owner, the resting one stays.
abbrev pub cancel_incoming : MatchingEngine → ℕ → Desk → Round
cancel_incoming e a d = record {
  stop = true;
  desk = cancel_in e a d;
  events = stp_cancelled a ∷ [];
}

-- A self-match under the mode NONE is only logged as unknown and treated as CANCEL_NEWEST.
unfoldable pub apply_stp : MatchingEngine → ℕ → ℕ → Desk → Round
apply_stp e a r d = elim (stp_mode_for e (d.heap a)) [
  | no_prevention ↦ cancel_incoming e a d
  | cancel_newest ↦ cancel_incoming e a d
  | cancel_oldest ↦ record {
    stop = false;
    desk = cancel_in e r (take_off r d);
    events = stp_cancelled r ∷ [];
  }
  | decrement ↦ apply_decrement e a r d
]

abbrev pub go_on : Desk × List Event → Round
go_on (d, events) = record { stop = false; desk = d; events = events }

-- One pass through the body of the `while` of `_match`, its test included.
unfoldable pub match_round : MatchingEngine → ℕ → Desk → Result Round
match_round e a d =
    if leaves_qty (d.heap a) == 0
    then ok (record { stop = true; desk = d; events = [] })
    else elim (best_match d.heap d.book (d.heap a)) [
      | none ↦ ok (record { stop = true; desk = d; events = [] })
      | some r ↦
          if is_self_trade e (d.heap a) (d.heap r)
          then ok (apply_stp e a r d)
          else (execute e a r d >>= λ done. ok (go_on done))
    ]

abbrev pub prepend : List Event → Desk × List Event → Desk × List Event
prepend events (d, later) = (d, events ++ later)

abbrev pub unless_stopped : Round → Result (Desk × List Event) → Result (Desk × List Event)
unless_stopped round rest =
    if round.stop
    then ok (round.desk, round.events)
    else (rest >>= λ done. ok (prepend round.events done))

-- The loop of `_match`, on fuel.
unfoldable pub match_loop : MatchingEngine → ℕ → ℕ → Desk → Result (Desk × List Event)
match_loop e a zero d = raised fuel_exhausted
match_loop e a (suc fuel) d = match_round e a d >>= λ round.
    let rest = match_loop e a fuel round.desk in unless_stopped round rest

-- Each round but the last takes an order off the opposite side or closes the incoming order.
abbrev pub match_fuel : ℕ → Desk → ℕ
match_fuel a d = suc (suc (count_orders (opposite_of d.book (buys (d.heap a))).levels))

unfoldable pub match_order : MatchingEngine → ℕ → Desk → Result (Desk × List Event)
match_order e a d = match_loop e a (match_fuel a d) d

-- The remainder goes on the book.
unfoldable pub rest_order : ℕ → Bool → Desk → Desk × List Event
rest_order a acknowledged d =
    let traded = ltb 0 (d.heap a).cum_qty in
    let marked = set_status a (if traded then partially_filled else new) d in
    let resting = record marked { book = add_order marked.heap a marked.book } in
    (resting, if not traded && not acknowledged then accepted a (resting.heap a) ∷ [] else [])

-- Why the order may not be matched at all: the all-or-nothing rules.
unfoldable pub precheck : MatchingEngine → Order → Desk → Option CancelReason
precheck e order d =
    if is_fok order.time_in_force
    then (if ltb (executable e d.heap d.book order) order.quantity then some fok_unfilled else none)
    else if is_ioc order.time_in_force && not (order.min_qty == 0)
    then (if ltb (executable e d.heap d.book order) order.min_qty then some min_qty_unmet else none)
    else none

abbrev pub expire : MatchingEngine → ℕ → CancelReason → Desk → Desk × List Event
expire e a reason d = (cancel_in e a d, order_cancelled a reason ∷ [])

-- What `submit` does with an order after it has been matched.
unfoldable pub after_match : MatchingEngine → ℕ → Bool → Desk → Desk × List Event
after_match e a acknowledged d =
    let order = d.heap a in
    if ltb 0 (leaves_qty order)
    then (if is_market order.order_type
        then expire e a market_remainder d
        else if is_immediate order
        then expire e a ioc_remainder d
        else rest_order a acknowledged d)
    else if is_terminal order.status
    then (d, [])
    else (set_status a filled d, [])

-- `_acknowledge`.
unfoldable pub acknowledge : MatchingEngine → ℕ → Desk → Desk × List Event
acknowledge e a d =
    if e.ack_on_entry
    then (set_status a new d, accepted a (record (d.heap a) { status = new }) ∷ [])
    else (d, [])

-- `submit` from the pre-check on.
unfoldable pub enter : MatchingEngine → ℕ → Desk → Result (Desk × List Event)
enter e a d = elim (precheck e (d.heap a) d) [
  | some reason ↦ ok (expire e a reason d)
  | none ↦ do
    (d1, fills) ← match_order e a d
    ok (prepend fills (after_match e a e.ack_on_entry d1))
]

unfoldable pub submit : MatchingEngine → ℕ → Bool → Desk → Result (Desk × List Event)
submit e a allow_matching d =
    if has_inst post_only (d.heap a).exec_inst && would_cross d.book (d.heap a)
    then ok (set_status a rejected d, order_rejected a post_only_would_cross ∷ [])
    else let (d1, events) = acknowledge e a d in
      if allow_matching
      then (enter e a d1 >>= λ done. ok (prepend events done))
      else ok (prepend events (rest_order a e.ack_on_entry d1))

unfoldable pub cancel : MatchingEngine → ℕ → CancelReason → Desk → Desk × List Event
cancel e a reason d = (cancel_in e a (take_off a d), order_cancelled a reason ∷ [])
