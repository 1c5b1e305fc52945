-- ===== src/Engine.antt =====
-- exchangesim/core/engine.py and commands.py: order entry, amendment and cancellation for one venue.
-- An order's id is the address of its object in the store; `order_ids` draws it, from the counter
-- `next_order`. A clock is read once for a request.
pub mod Owner
pub mod Entry
pub mod Replace
use exchange_sim.Prelude.{
  ℕ, suc, String, Bool, true, false, not, ◌&&◌, Option, none, some, List, [], ◌∷◌, ◌++◌, str_eq,
  if◌then◌else◌, or_else,
}
use exchange_sim.Prelude.Int.{ℤ, pos}
use exchange_sim.Enums.{
  Side, OrderType, TimeInForce, ExecInst, StpMode, rejected, RejectReason, duplicate_order,
  price_outside_band, CancelRejectReason, too_late_to_cancel, unknown_order, duplicate_cl_ord_id,
  mismatched_field, CancelReason, user_request, same_side, OrderStatus,
}
use exchange_sim.Orders.{Order, Heap, write, Result, ok, raised, no_market, ◌>>=◌, is_live}
use exchange_sim.Events.{Event, order_rejected, order_replaced, cancel_rejected, CancelRejection}
use exchange_sim.Registry.{OrderRegistry, is_duplicate, resolve, by_order_id, for_session, live_of}
use exchange_sim.Registry
use exchange_sim.Market.{Market, Floor, Books, book_for, put_book, submit, amend_order, cancel_all}
use exchange_sim.Market
use exchange_sim.Trading
use exchange_sim.Behaviour.{BehaviourStore, Rule, reject, take}
use exchange_sim.Instrument.{Instrument}
use exchange_sim.Validation.{StandardValidator, Verdict, validate_new, validate_amend}

-- `capacity`, `account`, `cash_margin` and `margin_type` are only carried along, and left out.
pub record NewOrderRequest : Type 0 where
  pub session_key : String
  pub market : String
  pub cl_ord_id : Option String
  pub symbol : String
  pub side : Side
  pub quantity : ℕ
  pub price : Option ℤ
  pub order_type : OrderType
  pub time_in_force : TimeInForce
  pub min_qty : ℕ
  pub exec_inst : List ExecInst
  pub mpid : Option String
  pub stp_id : Option String
  pub stp_instruction : Option StpMode

pub record CancelRequest : Type 0 where
  pub session_key : String
  pub cl_ord_id : Option String
  pub orig_cl_ord_id : Option String
  pub symbol : Option String
  pub side : Option Side
  pub order_id : Option ℕ

-- A replace names its order by the fields that it shares with a cancel.
pub record ReplaceRequest : Type 0 where
  pub named : CancelRequest
  pub quantity : Option ℕ
  pub price : Option ℤ
  pub time_in_force : Option TimeInForce
  pub min_qty : Option ℕ
  pub exec_inst : List ExecInst

abbrev pub Markets : Type 0
Markets = List (String × Market)

pub record Engine : Type 0 where
  pub instruments : List (String × Instrument)
  pub markets : Markets
  pub validator : StandardValidator
  pub next_order : ℕ
  pub next_sequence : ℕ
  pub trade_ids : ℕ
  pub now : Option ℕ
  pub registry : OrderRegistry
  pub behaviour : BehaviourStore
  pub heap : Heap

abbrev pub default {ℓ} : {A : Type ℓ} → Option A → A → A
default none a = a
default (some b) a = b

unfoldable pub get_named {ℓ} : {A : Type ℓ} → String → List (String × A) → Option A
get_named name [] = none
get_named name ((n, x) ∷ rest) = if str_eq n name then some x else get_named name rest

unfoldable pub put_market : String → Market → Markets → Markets
put_market name m [] = []
put_market name m ((n, x) ∷ rest) =
    if str_eq n name then (n, m) ∷ rest else (n, x) ∷ put_market name m rest

-- A market's floor, and the engine with that floor put back.
abbrev pub floor_of : Engine → Market → Floor
floor_of e m = record { heap = e.heap; trade_ids = e.trade_ids; market = m }

abbrev pub put_floor : String → Floor → Engine → Engine
put_floor name f e = record e {
  heap = f.heap;
  trade_ids = f.trade_ids;
  markets = put_market name f.market e.markets;
}

abbrev pub on_floor : String → Engine → Result (Floor × List Event) → Result (Engine × List Event)
on_floor name e done = done >>= λ (f, events). ok (put_floor name f e, events)

unfoldable pub order_of : Engine → NewOrderRequest → Order
order_of e r = record {
  cl_ord_id = r.cl_ord_id;
  orig_cl_ord_id = none;
  session_key = r.session_key;
  market = r.market;
  symbol = r.symbol;
  side = r.side;
  order_type = r.order_type;
  time_in_force = r.time_in_force;
  price = r.price;
  quantity = r.quantity;
  min_qty = r.min_qty;
  exec_inst = r.exec_inst;
  mpid = r.mpid;
  stp_id = r.stp_id;
  stp_instruction = r.stp_instruction;
  cum_qty = 0;
  notional_units = pos 0;
  status = OrderStatus.new;
  sequence = e.next_sequence;
  created_at = e.now;
  updated_at = e.now;
  chain = r.cl_ord_id ∷ [];
}

-- `_build_order`: the order stands at the address `next_order` of the engine before.
unfoldable pub build_order : NewOrderRequest → Engine → Engine
build_order r e = record e {
  heap = write e.heap e.next_order (order_of e r);
  next_order = suc e.next_order;
  next_sequence = suc e.next_sequence;
}

unfoldable pub refuse : ℕ → RejectReason → Engine → Engine × List Event
refuse a reason e = (
  record e { heap = write e.heap a (record (e.heap a) { status = rejected }) },
  order_rejected a reason ∷ [],
)

-- `market.book(symbol)` leaves an empty book behind where there was none.
abbrev pub open_book : String → Market → Market
open_book symbol m = record m { books = put_book symbol (book_for m symbol) m.books }

abbrev pub with_market : String → Market → Engine → Engine
with_market name m e = record e { markets = put_market name m e.markets }

-- `new_order` after `registry.add`.
abbrev pub after_add :
    NewOrderRequest
    → ℕ
    → Market
    → Engine
    → OrderRegistry × Result (Unit {0})
    → Result (Engine × List Event)
after_add r a m e (registry, ok x) =
    on_floor r.market (record e { registry = registry })
      (submit a (floor_of (record e { registry = registry }) m))
after_add r a m e (registry, raised x) =
    ok (refuse a duplicate_order (record e { registry = registry }))

-- `new_order` after the validation.
abbrev pub after_validation :
    NewOrderRequest → ℕ → Market → Engine → Verdict → Result (Engine × List Event)
after_validation r a m e (ok none) = after_add r a m e (Registry.add e.heap a e.registry)
after_validation r a m e (ok (some reason)) = ok (refuse a reason e)
after_validation r a m e (raised x) = raised x

-- `new_order` after the injected rules: a rejection by one of them comes before the validation.
abbrev pub after_rules :
    NewOrderRequest
    → ℕ
    → Market
    → Engine
    → Option Rule × BehaviourStore
    → Result (Engine × List Event)
after_rules r a m e (none, behaviour) =
    let opened = open_book r.symbol m in
    after_validation r a opened (with_market r.market opened (record e { behaviour = behaviour })) (
      validate_new e.validator (e.heap a) (get_named r.symbol e.instruments) m.state
        (book_for m r.symbol))
after_rules r a m e (some rule, behaviour) =
    ok (refuse a (default rule.reason RejectReason.other) (record e { behaviour = behaviour }))

unfoldable pub new_order : NewOrderRequest → Engine → Result (Engine × List Event)
new_order r e =
    let a = e.next_order in
    let built = build_order r e in
    if is_duplicate r.session_key r.cl_ord_id built.registry
    then ok (refuse a duplicate_order built)
    else elim (get_named r.market built.markets) [
      | none ↦ ok (refuse a RejectReason.other built)
      | some m ↦ after_rules r a m built (take reject (built.heap a) built.behaviour)
    ]

-- The order that a request names, if there is one.
abbrev pub owned_by : Heap → String → Option ℕ → Option ℕ
owned_by h session none = none
owned_by h session (some a) = if str_eq (h a).session_key session then some a else none

abbrev pub named_by_id : CancelRequest → Option ℕ → Engine → Option ℕ
named_by_id r none e = none
named_by_id r (some a) e = owned_by e.heap r.session_key (by_order_id a e.registry)

abbrev pub named_order_by : CancelRequest → Option String → Engine → Option ℕ
named_order_by r (some orig) e = resolve e.heap r.session_key (some orig) e.registry
named_order_by r none e = named_by_id r r.order_id e

unfoldable pub named_order : CancelRequest → Engine → Option ℕ
named_order r e = named_order_by r r.orig_cl_ord_id e

pub data Resolution : Type 0 where
  resolved : ℕ → Resolution
  refused : CancelRejection → Resolution

abbrev pub rejection : CancelRequest → CancelRejectReason → Option ℕ → Bool → CancelRejection
rejection r reason order is_replace = record {
  cl_ord_id = r.cl_ord_id;
  orig_cl_ord_id = r.orig_cl_ord_id;
  reason = reason;
  order = order;
  is_replace = is_replace;
}

abbrev pub differs_side : Option Side → Side → Bool
differs_side none side = false
differs_side (some wanted) side = not (same_side wanted side)

abbrev pub differs_symbol : Option String → String → Bool
differs_symbol none symbol = false
differs_symbol (some wanted) symbol = not (str_eq wanted symbol)

-- The checks of `_resolve` on the order that was found.
unfoldable pub resolve_found : CancelRequest → Bool → Order → ℕ → Resolution
resolve_found r is_replace o a =
    if not (is_live o)
    then refused (rejection r too_late_to_cancel (some a) is_replace)
    else if differs_side r.side o.side
    then refused (rejection r mismatched_field (some a) is_replace)
    else if differs_symbol r.symbol o.symbol
    then refused (rejection r mismatched_field (some a) is_replace)
    else resolved a

unfoldable pub resolve_request : CancelRequest → Bool → Engine → Resolution
resolve_request r is_replace e =
    if is_duplicate r.session_key r.cl_ord_id e.registry
    then refused (rejection r CancelRejectReason.duplicate_cl_ord_id none is_replace)
    else elim (named_order r e) [
      | none ↦ refused (rejection r unknown_order none is_replace)
      | some a ↦ resolve_found r is_replace (e.heap a) a
    ]

-- `registry.rename`.
abbrev pub take_name : ℕ → Option String → Engine → Result Engine
take_name a id e =
    Registry.rename a id (e.heap, e.registry) >>= λ (h, g). ok (record e { heap = h; registry = g })

abbrev pub cancel_resolved : CancelRequest → ℕ → Engine → Result (Engine × List Event)
cancel_resolved r a e = elim (get_named (e.heap a).market e.markets) [
  | none ↦ ok (e, cancel_rejected (rejection r CancelRejectReason.other (some a) false) ∷ [])
  | some m ↦ take_name a r.cl_ord_id e >>= λ renamed.
      let (f, events) = Market.cancel a user_request (floor_of renamed m) in
      ok (put_floor (e.heap a).market f renamed, events)
]

unfoldable pub cancel_order : CancelRequest → Engine → Result (Engine × List Event)
cancel_order r e = elim (resolve_request r false e) [
  | refused why ↦ ok (e, cancel_rejected why ∷ [])
  | resolved a ↦ cancel_resolved r a e
]

abbrev pub cancel_reason_for : RejectReason → CancelRejectReason
cancel_reason_for price_outside_band = CancelRejectReason.price_outside_band
cancel_reason_for _ = CancelRejectReason.other

abbrev pub is_nil : List ExecInst → Bool
is_nil [] = true
is_nil (x ∷ xs) = false

-- The fields that a replace sets besides quantity and price.
unfoldable pub with_request : ReplaceRequest → Order → Order
with_request r o = record o {
  time_in_force = elim r.time_in_force [ none ↦ o.time_in_force | some t ↦ t ];
  min_qty = elim r.min_qty [ none ↦ o.min_qty | some n ↦ n ];
  exec_inst = if is_nil r.exec_inst then o.exec_inst else r.exec_inst;
}

-- `market.amend` on a market that is not there is an AttributeError.
abbrev pub amend_on : Option Market → ℕ → ℕ → Option ℤ → Engine → Result (Bool × Floor × List Event)
amend_on none a quantity price e = raised no_market
amend_on (some m) a quantity price e = amend_order a (some quantity) price (floor_of e m)

abbrev pub replace_valid : ReplaceRequest → ℕ → ℕ → Option ℤ → Engine → Result (Engine × List Event)
replace_valid r a quantity price e =
    let name = (e.heap a).market in
    let previous = (e.heap a).cl_ord_id in
    take_name a r.named.cl_ord_id e >>= λ renamed.
    let set = record renamed { heap = write renamed.heap a (with_request r (renamed.heap a)) } in
    amend_on (get_named name e.markets) a quantity price set >>= λ (kept, f, events).
    ok (put_floor name f set, order_replaced a previous kept ∷ events)

abbrev pub market_state : Option Market → Option Trading.Machine
market_state none = none
market_state (some m) = some m.state

-- `replace_order` after the validation.
abbrev pub after_amend_check :
    ReplaceRequest → ℕ → ℕ → Option ℤ → Engine → Verdict → Result (Engine × List Event)
after_amend_check r a quantity price e (ok none) = replace_valid r a quantity price e
after_amend_check r a quantity price e (ok (some reason)) =
    ok (e, cancel_rejected (rejection r.named (cancel_reason_for reason) (some a) true) ∷ [])
after_amend_check r a quantity price e (raised x) = raised x

abbrev pub replace_resolved : ReplaceRequest → ℕ → Engine → Result (Engine × List Event)
replace_resolved r a e =
    let o = e.heap a in
    let quantity = default r.quantity o.quantity in
    let price = or_else r.price o.price in
    after_amend_check r a quantity price e (
      validate_amend e.validator o (get_named o.symbol e.instruments)
        (market_state (get_named o.market e.markets)) quantity price)

abbrev pub replace_named : ReplaceRequest → Engine → Resolution → Result (Engine × List Event)
replace_named r e (refused why) = ok (e, cancel_rejected why ∷ [])
replace_named r e (resolved a) = replace_resolved r a e

unfoldable pub replace_order : ReplaceRequest → Engine → Result (Engine × List Event)
replace_order r e = replace_named r e (resolve_request r.named true e)

-- The loop of `cancel_session_orders` over the markets.
unfoldable pub cancel_on_each :
    (Order → Bool) → CancelReason → Markets → Heap × ℕ → (Markets × Heap × ℕ) × List Event
cancel_on_each chosen reason [] (h, n) = (([], h, n), [])
cancel_on_each chosen reason ((name, m) ∷ markets) (h, n) =
    let (f, events) = cancel_all chosen reason (record { heap = h; trade_ids = n; market = m }) in
    let ((rest, h', n'), later) = cancel_on_each chosen reason markets (f.heap, f.trade_ids) in
    (((name, f.market) ∷ rest, h', n'), events ++ later)

unfoldable pub cancel_session_orders : String → CancelReason → Engine → Engine × List Event
cancel_session_orders session reason e =
    let ((markets, h, n), events) =
      cancel_on_each (λ o. str_eq o.session_key session) reason e.markets (e.heap, e.trade_ids) in
    (record e { markets = markets; heap = h; trade_ids = n }, events)

unfoldable pub cancel_symbol_orders : String → String → CancelReason → Engine → Engine × List Event
cancel_symbol_orders name symbol reason e = elim (get_named name e.markets) [
  | none ↦ (e, [])
  | some m ↦
      let (f, events) = cancel_all (λ o. str_eq o.symbol symbol) reason (floor_of e m) in
      (put_floor name f e, events)
]
