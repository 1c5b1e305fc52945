-- ===== src/Enums.antt =====
-- exchangesim/core/enums.py: the core's vocabulary. A class of string constants is a data type, a
-- frozenset of them a Boolean function.
use exchange_sim.Prelude.{Bool, true, false}

pub data Side : Type 0 where
  buy sell sell_short sell_short_exempt : Side

abbrev pub is_buy : Side → Bool
is_buy buy = true
is_buy _ = false

abbrev pub opposite : Side → Side
opposite buy = sell
opposite _ = buy

abbrev pub same_side : Side → Side → Bool
same_side buy buy = true
same_side sell sell = true
same_side sell_short sell_short = true
same_side sell_short_exempt sell_short_exempt = true
same_side _ _ = false

pub data OrderType : Type 0 where
  limit market : OrderType

abbrev pub is_market : OrderType → Bool
is_market limit = false
is_market market = true

pub data TimeInForce : Type 0 where
  day ioc fok : TimeInForce

abbrev pub is_fok : TimeInForce → Bool
is_fok fok = true
is_fok _ = false

abbrev pub is_ioc : TimeInForce → Bool
is_ioc ioc = true
is_ioc _ = false

-- `TimeInForce.IMMEDIATE`.
abbrev pub never_rests : TimeInForce → Bool
never_rests day = false
never_rests ioc = true
never_rests fok = true

pub data OrderStatus : Type 0 where
  pending_new new partially_filled filled cancelled replaced : OrderStatus
  pending_cancel pending_replace rejected expired : OrderStatus

-- `OrderStatus.LIVE`.
abbrev pub is_live_status : OrderStatus → Bool
is_live_status new = true
is_live_status partially_filled = true
is_live_status pending_cancel = true
is_live_status pending_replace = true
is_live_status _ = false

-- `OrderStatus.TERMINAL`.
abbrev pub is_terminal : OrderStatus → Bool
is_terminal filled = true
is_terminal cancelled = true
is_terminal replaced = true
is_terminal rejected = true
is_terminal expired = true
is_terminal _ = false

pub data ExecInst : Type 0 where
  post_only ignore_notional_check ignore_price_check : ExecInst

abbrev pub same_inst : ExecInst → ExecInst → Bool
same_inst post_only post_only = true
same_inst ignore_notional_check ignore_notional_check = true
same_inst ignore_price_check ignore_price_check = true
same_inst _ _ = false

pub data Liquidity : Type 0 where
  added removed : Liquidity

pub data StpMode : Type 0 where
  no_prevention cancel_newest cancel_oldest decrement : StpMode

abbrev pub is_no_prevention : StpMode → Bool
is_no_prevention no_prevention = true
is_no_prevention _ = false

pub data TradingState : Type 0 where
  pre_open opening_auction open_trading lunch_break closing_auction closed halted : TradingState

-- `TradingState.CONTINUOUS`.
abbrev pub is_continuous : TradingState → Bool
is_continuous open_trading = true
is_continuous _ = false

-- `TradingState.ACCUMULATING`.
abbrev pub accumulates : TradingState → Bool
accumulates pre_open = true
accumulates opening_auction = true
accumulates closing_auction = true
accumulates _ = false

-- `TradingState.NO_ENTRY`.
abbrev pub refuses_entry : TradingState → Bool
refuses_entry closed = true
refuses_entry halted = true
refuses_entry lunch_break = true
refuses_entry _ = false

abbrev pub same_state : TradingState → TradingState → Bool
same_state pre_open pre_open = true
same_state opening_auction opening_auction = true
same_state open_trading open_trading = true
same_state lunch_break lunch_break = true
same_state closing_auction closing_auction = true
same_state closed closed = true
same_state halted halted = true
same_state _ _ = false

pub data RejectReason : Type 0 where
  unknown_symbol market_closed exceeds_quantity_limit exceeds_value_limit : RejectReason
  duplicate_order unsupported_characteristic invalid_quantity invalid_price : RejectReason
  price_outside_band tick_size post_only_would_cross unknown_mpid other : RejectReason

pub data CancelRejectReason : Type 0 where
  too_late_to_cancel unknown_order already_pending duplicate_cl_ord_id : CancelRejectReason
  price_outside_band mismatched_field other : CancelRejectReason

pub data CancelReason : Type 0 where
  user_request ioc_remainder market_remainder fok_unfilled min_qty_unmet : CancelReason
  self_trade_prevention market_closed cancel_on_disconnect administrative : CancelReason
  mass_cancel replaced : CancelReason
