-- ===== src/Engine/Replace.antt =====
-- The replacement of an order (exchangesim/core/engine.py): refused, or validated and amended.
use exchange_sim.Prelude.{ℕ, true, ◌≡◌, Option, some, [], ◌∷◌, List, or_else}
use exchange_sim.Prelude.Int.{ℤ}
use exchange_sim.Orders.{Order, Heap, Result, ok, raised, Error, write, ◌>>=◌}
use exchange_sim.Events.{Event, cancel_rejected, order_replaced, CancelRejection}
use exchange_sim.Orders
use exchange_sim.Trading.{Machine}
use exchange_sim.Registry.{OrderRegistry}
use exchange_sim.Registry
use exchange_sim.Instrument.{Instrument}
use exchange_sim.Validation.{validate_amend, Verdict}
use exchange_sim.Validation.Accepted.{AcceptableAmendment}
use exchange_sim.Engine.{
  Engine, ReplaceRequest, resolved, resolve_request, get_named, take_name, default, market_state,
  amend_on, put_floor, with_request, replace_order,
}
use exchange_sim.Engine.Owner.{Resolves}

-- The quantity and the price that a request asks for, those of the order by default.
abbrev pub wanted_quantity : ReplaceRequest → Order → ℕ
wanted_quantity r o = default r.quantity o.quantity

abbrev pub wanted_price : ReplaceRequest → Order → Option ℤ
wanted_price r o = or_else r.price o.price

-- The engine in which the order has its new ClOrdID and the request's other fields.
abbrev pub prepared : ReplaceRequest → ℕ → Engine → Engine
prepared r a renamed = record renamed {
  heap = write renamed.heap a (with_request r (renamed.heap a));
}

-- What holds of a replacement that reaches the market.
pub record Replaced (r : ReplaceRequest) (e : Engine) : Type 0 where
  pub order : ℕ
  pub instrument : Instrument
  pub renamed : Engine
  pub resolves : Resolves r.named e order
  pub has_instrument : get_named (e.heap order).symbol e.instruments ≡ some instrument
  pub acceptable :
      AcceptableAmendment e.validator
        (e.heap order)
        instrument
        (market_state (get_named (e.heap order).market e.markets))
        (wanted_quantity r (e.heap order))
        (wanted_price r (e.heap order))
  pub named : take_name order r.named.cl_ord_id e ≡ ok renamed
  pub runs : replace_order r e ≡ (
      amend_on
        (get_named (e.heap order).market e.markets)
        order
        (wanted_quantity r (e.heap order))
        (wanted_price r (e.heap order))
        (prepared r order renamed)
      >>= λ (kept, f, events). ok (
        put_floor (e.heap order).market f (prepared r order renamed),
        order_replaced order (e.heap order).cl_ord_id kept ∷ events,
      ))

pub data ReplaceOutcome (r : ReplaceRequest) (e : Engine) : Type 0 where
  refusal :
      (why : CancelRejection)
      → replace_order r e ≡ ok (e, cancel_rejected why ∷ [])
      → ReplaceOutcome r e
  replacement : Replaced r e → ReplaceOutcome r e
  failure :
      (a : ℕ) (i : Instrument) (x : Error)
      → validate_amend e.validator
          (e.heap a)
          (some i)
          (market_state (get_named (e.heap a).market e.markets))
          (wanted_quantity r (e.heap a))
          (wanted_price r (e.heap a))
        ≡ raised x
      → replace_order r e ≡ raised x
      → ReplaceOutcome r e

module _ (r : ReplaceRequest) (e : Engine) (a : ℕ)
    (found : resolve_request r.named true e ≡ resolved a) where
  abbrev quantity : ℕ
  quantity = wanted_quantity r (e.heap a)

  abbrev price : Option ℤ
  price = wanted_price r (e.heap a)

  abbrev phase : Option Machine
  phase = market_state (get_named (e.heap a).market e.markets)

  abbrev verdict : Verdict
  verdict =
      validate_amend e.validator (e.heap a) (get_named (e.heap a).symbol e.instruments) phase
        quantity price

  -- The steps after the order has its new ClOrdID.
  abbrev amend_renamed : Engine → Result (Engine × List Event)
  amend_renamed renamed =
      amend_on (get_named (e.heap a).market e.markets) a quantity price (prepared r a renamed)
      >>= λ (kept, f, events). ok (
        put_floor (e.heap a).market f (prepared r a renamed),
        order_replaced a (e.heap a).cl_ord_id kept ∷ events,
      )
