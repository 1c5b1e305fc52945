-- ===== src/Auction.antt =====
-- exchangesim/core/auction.py, and `uncross` of exchangesim/core/market.py: the call auction.
pub mod Measures
pub mod Volume
pub mod Pair
pub mod Sides
pub mod Execution
use exchange_sim.Prelude.{
  ℕ, zero, suc, ◌+◌, ◌*◌, min, max, String, Bool, true, false, not, ◌&&◌, Option, none, some, List,
  [], ◌∷◌, ◌++◌, ltb, leb, ◌==◌, if◌then◌else◌, length, or_else, is_empty,
}
use exchange_sim.Prelude.Int.{ℤ, pos, negsuc, ◌+ℤ◌, ◌-ℤ◌, lt_test, le_test, eq_test}
use exchange_sim.Enums.{Side, buy, sell, Liquidity, added, CancelReason, market_remainder}
use exchange_sim.Orders.{
  Order, Heap, Result, ok, raised, fuel_exhausted, ◌>>=◌, leaves_qty, apply_fill,
}
use exchange_sim.Events.{Event, fill_of, trade_executed}
use exchange_sim.Book.{
  BookSide, OrderBook, best_price, quantity_above, quantity_below, at_market_quantity,
  prices_in_priority, orders_in_priority,
}
use exchange_sim.Matching.{Desk, MatchingEngine, put, settle}
use exchange_sim.Matching
use exchange_sim.Market.{Floor, desk_of, put_desk, cancel_each}

pub data TieBreak : Type 0 where
  max_volume lowest_imbalance surplus_direction closest_to_reference higher_price : TieBreak

-- Why the price is the one it is.
pub data Reason : Type 0 where
  does_not_cross nothing_trades decided_by_volume decided_by_imbalance buy_surplus sell_surplus :
      Reason
  closest higher_of_two highest : Reason

pub record AuctionResult : Type 0 where
  pub price : Option ℤ
  pub volume : ℕ
  pub imbalance : ℕ
  pub surplus_side : Option Side
  pub candidates : List ℤ
  pub reason : Reason

abbrev pub crossed : AuctionResult → Bool
crossed r = elim r.price [ none ↦ false | some p ↦ ltb 0 r.volume ]

-- A candidate price, what would trade at it, and demand less supply.
pub record Profile : Type 0 where
  pub price : ℤ
  pub matchable : ℕ
  pub imbalance : ℤ

abbrev pub abs : ℤ → ℕ
abs (pos n) = n
abs (negsuc n) = suc n

abbrev pub distance : ℤ → ℤ → ℕ
distance p q = abs (p -ℤ q)

-- `sorted(set(...))`: ascending, each price once.
unfoldable pub add_price : ℤ → List ℤ → List ℤ
add_price p [] = p ∷ []
add_price p (q ∷ ps) =
    let rest = add_price p ps in
    if eq_test p q then q ∷ ps else if lt_test p q then p ∷ q ∷ ps else q ∷ rest

unfoldable pub add_prices : List ℤ → List ℤ → List ℤ
add_prices [] ps = ps
add_prices (q ∷ qs) ps = add_price q (add_prices qs ps)

unfoldable pub candidate_prices : OrderBook → List ℤ
candidate_prices b =
    add_prices (prices_in_priority b.bids) (add_prices (prices_in_priority b.asks) [])

abbrev pub profile_of : ℤ → ℕ → ℕ → Profile
profile_of price demand supply = record {
  price = price;
  matchable = min demand supply;
  imbalance = pos demand -ℤ pos supply;
}

unfoldable pub demand_at : Heap → OrderBook → ℤ → Profile
demand_at h b price =
    profile_of price (at_market_quantity h b.bids + quantity_above h b.bids (price -ℤ pos 1))
      (at_market_quantity h b.asks + quantity_below h b.asks (price +ℤ pos 1))

unfoldable pub profiles : Heap → OrderBook → List ℤ → List Profile
profiles h b [] = []
profiles h b (p ∷ ps) = demand_at h b p ∷ profiles h b ps

unfoldable pub tradable : List Profile → List Profile
tradable [] = []
tradable (r ∷ rs) = let rest = tradable rs in if ltb 0 r.matchable then r ∷ rest else rest

-- The rows with the greatest, or with the least, measure.
unfoldable pub greatest : (Profile → ℕ) → List Profile → ℕ
greatest f [] = 0
greatest f (r ∷ rs) = max (f r) (greatest f rs)

unfoldable pub least : (Profile → ℕ) → List Profile → ℕ
least f [] = 0
least f (r ∷ []) = f r
least f (r ∷ s ∷ rs) = min (f r) (least f (s ∷ rs))

unfoldable pub with_measure : (Profile → ℕ) → ℕ → List Profile → List Profile
with_measure f n [] = []
with_measure f n (r ∷ rs) = let rest = with_measure f n rs in if f r == n then r ∷ rest else rest

unfoldable pub highest_of : Profile → List Profile → Profile
highest_of best [] = best
highest_of best (r ∷ rs) =
    if lt_test best.price r.price then highest_of r rs else highest_of best rs

unfoldable pub lowest_of : Profile → List Profile → Profile
lowest_of best [] = best
lowest_of best (r ∷ rs) = if lt_test r.price best.price then lowest_of r rs else lowest_of best rs

unfoldable pub all_buy_surplus : List Profile → Bool
all_buy_surplus [] = true
all_buy_surplus (r ∷ rs) = lt_test (pos 0) r.imbalance && all_buy_surplus rs

unfoldable pub all_sell_surplus : List Profile → Bool
all_sell_surplus [] = true
all_sell_surplus (r ∷ rs) = lt_test r.imbalance (pos 0) && all_sell_surplus rs

-- The reason counts only where the rule narrowed the field.
abbrev pub narrowed : List Profile → Reason → List Profile → List Profile × Option Reason
narrowed survivors reason left =
    (left, if ltb (length left) (length survivors) then some reason else none)

-- `_apply` on the survivors, of which there are two at least.
unfoldable pub apply_rule :
    TieBreak → Option ℤ → Profile → List Profile → List Profile × Option Reason
apply_rule max_volume reference r rs = (
  with_measure (λ x. x.matchable) (greatest (λ x. x.matchable) (r ∷ rs)) (r ∷ rs),
  some decided_by_volume,
)
apply_rule lowest_imbalance reference r rs =
    narrowed (r ∷ rs) decided_by_imbalance
      (with_measure (λ x. abs x.imbalance) (least (λ x. abs x.imbalance) (r ∷ rs)) (r ∷ rs))
apply_rule surplus_direction reference r rs =
    if all_buy_surplus (r ∷ rs)
    then (highest_of r rs ∷ [], some buy_surplus)
    else if all_sell_surplus (r ∷ rs)
    then (lowest_of r rs ∷ [], some sell_surplus)
    else (r ∷ rs, none)
apply_rule closest_to_reference none r rs = (r ∷ rs, none)
apply_rule closest_to_reference (some p) r rs =
    narrowed (r ∷ rs) closest
      (with_measure (λ x. distance x.price p) (least (λ x. distance x.price p) (r ∷ rs)) (r ∷ rs))
apply_rule higher_price none r rs = (highest_of r rs ∷ [], some highest)
apply_rule higher_price (some p) r rs = (highest_of r rs ∷ [], some higher_of_two)

abbrev pub or_reason : Option Reason → Option Reason → Option Reason
or_reason none earlier = earlier
or_reason (some reason) earlier = some reason

-- The loop over the rules, which stops at a single survivor.
unfoldable pub apply_rules :
    List TieBreak → Option ℤ → List Profile → Option Reason → List Profile × Option Reason
apply_rules [] reference survivors reason = (survivors, reason)
apply_rules (rule ∷ rules) reference [] reason = ([], reason)
apply_rules (rule ∷ rules) reference (r ∷ []) reason = (r ∷ [], reason)
apply_rules (rule ∷ rules) reference (r ∷ s ∷ rs) reason =
    let (left, applied) = apply_rule rule reference r (s ∷ rs) in
    apply_rules rules reference left (or_reason applied reason)

abbrev pub no_result : List ℤ → Reason → AuctionResult
no_result candidates reason = record {
  price = none;
  volume = 0;
  imbalance = 0;
  surplus_side = none;
  candidates = candidates;
  reason = reason;
}

abbrev pub surplus_of : ℤ → Option Side
surplus_of i = if lt_test (pos 0) i then some buy else if lt_test i (pos 0) then some sell else none

abbrev pub reason_or_volume : Option Reason → Reason
reason_or_volume none = decided_by_volume
reason_or_volume (some reason) = reason

-- The result for the first survivor; there always is one.
abbrev pub result_of : List ℤ → List Profile × Option Reason → AuctionResult
result_of candidates ([], reason) = no_result candidates nothing_trades
result_of candidates (r ∷ rs, reason) = record {
  price = some r.price;
  volume = r.matchable;
  imbalance = abs r.imbalance;
  surplus_side = surplus_of r.imbalance;
  candidates = candidates;
  reason = reason_or_volume reason;
}

abbrev pub overlaps : Option ℤ → Option ℤ → Bool
overlaps (some bid) (some ask) = le_test ask bid
overlaps _ _ = false

unfoldable pub uncross : Heap → OrderBook → Option ℤ → List TieBreak → AuctionResult
uncross h b reference rules =
    let candidates = candidate_prices b in
    if overlaps (best_price b.bids) (best_price b.asks)
    then result_of candidates
        (apply_rules rules reference (tradable (profiles h b candidates)) none)
    else no_result [] does_not_cross

-- `_executable_side`: the orders at the market, then those with a price up to the first that is worse.
unfoldable pub open_orders : Heap → List ℕ → List ℕ
open_orders h [] = []
open_orders h (a ∷ ids) =
    let rest = open_orders h ids in if ltb 0 (leaves_qty (h a)) then a ∷ rest else rest

abbrev pub is_worse : Bool → Option ℤ → ℤ → Bool
is_worse buying none price = false
is_worse buying (some p) price = if buying then lt_test p price else lt_test price p

unfoldable pub willing_orders : Heap → Bool → ℤ → List ℕ → List ℕ
willing_orders h buying price [] = []
willing_orders h buying price (a ∷ ids) =
    let rest = willing_orders h buying price ids in
    if leb (leaves_qty (h a)) 0
    then rest
    else if is_worse buying (h a).price price
    then []
    else a ∷ rest

unfoldable pub executable_side : Heap → BookSide → ℤ → List ℕ
executable_side h s price =
    open_orders h s.at_market ++ willing_orders h s.buying price (orders_in_priority s)

-- The desk and the events once both fills are made: an order with nothing left leaves the book.
abbrev pub pair_done : MatchingEngine → ℕ → ℕ → ℕ → ℤ → Desk → Desk × List Event
pair_done e a r quantity price d = (
  settle r (settle a (record d { trade_ids = suc d.trade_ids })),
  fill_of a (d.heap a) quantity price d.trade_ids added r (d.heap r).mpid
      ∷ fill_of r (d.heap r) quantity price d.trade_ids added a (d.heap a).mpid
      ∷ trade_executed (record {
        symbol = (d.heap a).symbol;
        market = (d.heap a).market;
        price = price;
        quantity = quantity;
        trade_id = d.trade_ids;
        buy_order_id = a;
        sell_order_id = r;
        aggressor_side = none;
        timestamp = e.now;
      })
      ∷ [],
)

-- `_execute_pair`: one fill of both orders.
unfoldable pub execute_pair : MatchingEngine → ℕ → ℕ → ℤ → Desk → Result (Desk × List Event)
execute_pair e a r price d =
    let quantity = min (leaves_qty (d.heap a)) (leaves_qty (d.heap r)) in
    do
      buyer ← apply_fill (d.heap a) quantity price e.now
      let d1 = put a buyer d
      seller ← apply_fill (d1.heap r) quantity price e.now
      ok (pair_done e a r quantity price (put r seller d1))

-- The two loops of `execute` as one: the buyer at hand and those after it, the seller at
-- `sell_index` and those after it.
unfoldable pub execute_loop :
    ℕ → MatchingEngine → List ℕ → List ℕ → ℤ → Desk → Result (Desk × List Event)
execute_loop zero e buyers sellers price d = raised fuel_exhausted
execute_loop (suc n) e [] sellers price d = ok (d, [])
execute_loop (suc n) e (a ∷ buyers) [] price d = ok (d, [])
execute_loop (suc n) e (a ∷ buyers) (r ∷ sellers) price d =
    let next_buyer = execute_loop n e buyers (r ∷ sellers) price d in
    let next_seller = execute_loop n e (a ∷ buyers) sellers price d in
    let traded = execute_pair e a r price d >>= λ (d', events).
    execute_loop n e (a ∷ buyers) (r ∷ sellers) price d' >>= λ (d'', later).
    ok (d'', events ++ later) in
    if leaves_qty (d.heap a) == 0
    then next_buyer
    else if leaves_qty (d.heap r) == 0
    then next_seller
    else traded

-- A trade uses up an order, and each order is passed once.
abbrev pub execute_fuel : List ℕ → List ℕ → ℕ
execute_fuel buyers sellers = suc (2 * (length buyers + length sellers))

abbrev pub execute_between :
    MatchingEngine → List ℕ → List ℕ → ℤ → Desk → Result (Desk × List Event)
execute_between e buyers sellers price d =
    execute_loop (execute_fuel buyers sellers) e buyers sellers price d

unfoldable pub execute : MatchingEngine → Option ℤ → Desk → Result (Desk × List Event)
execute e none d = ok (d, [])
execute e (some price) d =
    execute_between e (executable_side d.heap d.book.bids price)
      (executable_side d.heap d.book.asks price) price d

-- `_expire_at_auction_orders`.
unfoldable pub expire_at_auction_orders : MatchingEngine → Desk → Desk × List Event
expire_at_auction_orders e d =
    let (d1, events) = cancel_each e (λ o. true) market_remainder d.book.bids.at_market d in
    let (d2, later) = cancel_each e (λ o. true) market_remainder d1.book.asks.at_market d1 in
    (d2, events ++ later)

-- `Market.uncross`, under the market's rules.
unfoldable pub uncross_market :
    List TieBreak → String → Option ℤ → Floor → Result (AuctionResult × Floor × List Event)
uncross_market rules symbol reference f =
    let d = desk_of f symbol in
    let result = uncross d.heap d.book reference rules in
    let price = if crossed result then result.price else reference in
    execute f.market.matching price d >>= λ (d1, events).
    let (d2, expired) = expire_at_auction_orders f.market.matching d1 in
    ok (result, put_desk symbol d2 f, events ++ expired)
