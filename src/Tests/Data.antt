-- ===== src/Tests/Data.antt =====
-- The orders, books and engines that the tests share.
use exchange_sim.Prelude.{
  ℕ, String, none, some, [], ◌==◌, if◌then◌else◌, ◌∷◌, refl, ◌<◌, arith, false, elem, erase,
  append_key, true,
}
use exchange_sim.Prelude.Int.{ℤ, pos, ◌+ℤ◌, ◌-ℤ◌, ◌*ℤ◌}
use exchange_sim.Enums.{buy, sell, limit, day, new, Side, no_prevention}
use exchange_sim.Orders.{Order, Heap, leaves_qty, apply_fill, reduce_quantity}
use exchange_sim.Orders
use exchange_sim.Book
use exchange_sim.Book.{
  OrderBook, empty_book, add_order, remove_order, add, remove, sum_leaves, best_price, best_level,
  prices_in_priority, orders_of, orders_in_priority, crosses, is_occupied, is_crossed, all_levels,
}
use exchange_sim.Book.Ladder.{insort, remove_price, mem_price}
use exchange_sim.Book.Levels.{get_level, put_level, del_level, count_orders}
use exchange_sim.Events.{accepted, fill_of}
use exchange_sim.Book.Store.{
  IsValidBook, empty_book-IsValidBook, empty_book-IsAbsent, add_order-IsValidBook,
  add_order_keeps_IsAbsent,
}
use exchange_sim.Matching
use exchange_sim.Matching.{
  MatchingEngine, Desk, is_self_trade, stp_mode_for, prices_cross, would_cross, executable_from,
  executable, first_open, best_match, execution_events, execute_at, execute, apply_decrement,
  apply_stp, match_round, match_loop, match_order, rest_order, precheck, after_match, acknowledge,
  enter, submit,
}
use exchange_sim.Matching.Amend.{
  priced_at, insert_by_sequence, sort_onto, remove_each, add_each, reinsert_keeping_priority,
  replace_in_book, amend,
}
use exchange_sim.Matching.Trades.{traded_quantity, traded_value}
use exchange_sim.Matching.Desks.{IsGood}
use exchange_sim.Instrument.{Rows, Instrument}
use exchange_sim.Auction.{
  uncross, candidate_prices, add_prices, add_price, profiles, demand_at, tradable, apply_rules,
  apply_rule, with_measure, greatest, highest_of,
}
use exchange_sim.Book.{
  quantity_above, quantity_below, quantity_over, quantity_at, at_market_quantity, prices_above,
  prices_below,
}
use exchange_sim.Validation.{StandardValidator}

abbrev pub day_order : Side → ℕ → ℤ → String → Order
day_order side quantity price firm = record {
  cl_ord_id = some "c1";
  orig_cl_ord_id = none;
  session_key = "S1";
  market = "J";
  symbol = "2846";
  side = side;
  order_type = limit;
  time_in_force = day;
  price = some price;
  quantity = quantity;
  min_qty = 0;
  exec_inst = [];
  mpid = some firm;
  stp_id = none;
  stp_instruction = none;
  cum_qty = 0;
  notional_units = pos 0;
  status = new;
  sequence = 0;
  created_at = none;
  updated_at = none;
  chain = some "c1" ∷ [];
}

-- Two offers at 100, and a bid for more than the first.
abbrev pub orders : Heap
orders a =
    if a == 1
    then day_order sell 5 (pos 100) "A"
    else if a == 2
    then record (day_order sell 7 (pos 100) "B") { sequence = 2 }
    else day_order buy 6 (pos 101) "C"

abbrev pub offers : OrderBook
offers = add_order orders 2 (add_order orders 1 (empty_book "2846" "J"))

abbrev pub desk : Desk
desk = record { heap = orders; book = offers; trade_ids = 1 }

abbrev pub engine : MatchingEngine
engine = record { stp_mode = no_prevention; ack_on_entry = false; now = none }

pub live_one : 0 < leaves_qty (orders 1)
unfolding leaves_qty
live_one = omega arith

pub live_two : 0 < leaves_qty (orders 2)
unfolding leaves_qty
live_two = omega arith

pub live_three : 0 < leaves_qty (orders 3)
unfolding leaves_qty
live_three = omega arith

pub offers-IsValidBook : IsValidBook orders offers
offers-IsValidBook =
    add_order-IsValidBook orders 2 _
      (add_order-IsValidBook orders 1 _ (empty_book-IsValidBook orders "2846" "J") live_one)
      live_two

pub desk-IsGood : IsGood 3 desk
desk-IsGood = record {
  book = offers-IsValidBook;
  absent =
      add_order_keeps_IsAbsent orders 3 2 _ refl
        (add_order_keeps_IsAbsent orders 3 1 _ refl (empty_book-IsAbsent 3 "2846" "J"));
}

-- The definitions that a run of the matching engine computes with.
unfoldable pub running : Unit {0}
unfolding leaves_qty Orders.cancel apply_fill reduce_quantity elem erase append_key add remove
    sum_leaves best_price best_level prices_in_priority orders_of orders_in_priority crosses
    is_occupied add_order remove_order is_crossed insort remove_price mem_price get_level put_level
    del_level count_orders is_self_trade stp_mode_for prices_cross would_cross executable_from
    executable first_open best_match execution_events execute_at execute apply_decrement apply_stp
    match_round match_loop match_order rest_order precheck after_match acknowledge enter submit
    Matching.cancel accepted fill_of ◌+ℤ◌ ◌*ℤ◌ all_levels Book.orders priced_at insert_by_sequence
    sort_onto remove_each add_each reinsert_keeping_priority replace_in_book amend traded_quantity
    traded_value
running = tt

abbrev pub bands : Rows ℤ
bands = (pos 100, pos 50) ∷ (pos 0, pos 30) ∷ []

abbrev pub stock : Instrument
stock = record {
  symbol = "2846";
  lot_size = 10;
  shares_outstanding = 10000;
  base_price = some (pos 100);
  tier = none;
  band_table = some (record { rows = (pos 0, pos 30) ∷ (pos 100, pos 50) ∷ [] });
  tick_table = some (record { rows = (pos 0, (none, 5) ∷ []) ∷ [] });
  band_override = none;
  tradable = true;
  signed_price = false;
}

abbrev pub validator : StandardValidator
validator = record {
  codec = record { decimals = 1 };
  limits = record {
    max_order_value = 100000;
    max_quantity = 1000;
    require_round_lot = true;
    require_tick = true;
    enforce_price_band = true;
    allowed_order_types = limit ∷ [];
    allowed_time_in_force = day ∷ [];
    min_qty_requires_ioc = true;
    max_quotation_spreads = none;
    max_aggression_spreads = none;
  };
}

-- The definitions that the price of an auction computes with, beside those of `running`.
unfoldable pub auctioning : Unit {0}
unfolding uncross candidate_prices add_prices add_price profiles demand_at tradable apply_rules
    apply_rule with_measure greatest highest_of quantity_above quantity_below quantity_over
    quantity_at at_market_quantity prices_above prices_below ◌-ℤ◌
auctioning = tt
