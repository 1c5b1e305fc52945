-- ===== src/Events.antt =====
-- exchangesim/core/events.py: what the engine reports. An event names an order by its id and carries
-- the running totals that the source snapshots; the texts for people are left out.
use exchange_sim.Prelude.{ℕ, String, Bool, Option}
use exchange_sim.Prelude.Int.{ℤ}
use exchange_sim.Enums.{
  Side, Liquidity, RejectReason, CancelReason, CancelRejectReason, TradingState,
}
use exchange_sim.Orders.{Order, leaves_qty}

pub record Fill : Type 0 where
  pub order : ℕ
  pub quantity : ℕ
  pub price : ℤ
  pub trade_id : ℕ
  pub liquidity : Liquidity
  pub counterparty_order_id : ℕ
  pub counterparty_mpid : Option String
  pub cum_qty : ℕ
  pub leaves_qty : ℕ
  pub notional_units : ℤ
  pub order_qty : ℕ

pub record Trade : Type 0 where
  pub symbol : String
  pub market : String
  pub price : ℤ
  pub quantity : ℕ
  pub trade_id : ℕ
  pub buy_order_id : ℕ
  pub sell_order_id : ℕ
  pub aggressor_side : Option Side
  pub timestamp : Option ℕ

pub record Acceptance : Type 0 where
  pub order : ℕ
  pub cum_qty : ℕ
  pub leaves_qty : ℕ
  pub order_qty : ℕ

pub record CancelRejection : Type 0 where
  pub cl_ord_id : Option String
  pub orig_cl_ord_id : Option String
  pub reason : CancelRejectReason
  pub order : Option ℕ
  pub is_replace : Bool

pub data Event : Type 0 where
  order_accepted : Acceptance → Event
  order_rejected : ℕ → RejectReason → Event
  order_filled : Fill → Event
  order_cancelled : ℕ → CancelReason → Event
  order_decremented : ℕ → ℕ → CancelReason → Event
  order_replaced : ℕ → Option String → Bool → Event
  cancel_rejected : CancelRejection → Event
  trade_executed : Trade → Event
  trading_state_changed : String → Option String → TradingState → TradingState → Event

-- `OrderAccepted(order)`.
unfoldable pub accepted : ℕ → Order → Event
accepted a o =
    order_accepted
      (record { order = a; cum_qty = o.cum_qty; leaves_qty = leaves_qty o; order_qty = o.quantity })

-- `OrderFilled(order, quantity, price, trade_id, liquidity, ...)`.
unfoldable pub fill_of : ℕ → Order → ℕ → ℤ → ℕ → Liquidity → ℕ → Option String → Event
fill_of a o quantity price trade_id liquidity other mpid = order_filled (record {
  order = a;
  quantity = quantity;
  price = price;
  trade_id = trade_id;
  liquidity = liquidity;
  counterparty_order_id = other;
  counterparty_mpid = mpid;
  cum_qty = o.cum_qty;
  leaves_qty = leaves_qty o;
  notional_units = o.notional_units;
  order_qty = o.quantity;
})
