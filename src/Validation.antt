-- ===== src/Validation.antt =====
-- exchangesim/core/validation.py: `StandardValidator`. A check answers `none` or the reason it
-- rejects with; the texts for people are left out.
pub mod Accepted
pub mod Complete
use exchange_sim.Prelude.{
  ℕ, ◌*◌, String, Bool, true, false, not, ◌&&◌, Option, none, some, List, [], ◌∷◌, ltb, leb, ◌==◌,
  if◌then◌else◌,
}
use exchange_sim.Prelude.Int.{ℤ, pos, ◌-ℤ◌, ◌*ℤ◌, le_test, lt_test}
use exchange_sim.Enums.{
  OrderType, TimeInForce, RejectReason, unknown_symbol, exceeds_quantity_limit, exceeds_value_limit,
  unsupported_characteristic, invalid_quantity, invalid_price, price_outside_band, tick_size,
  ExecInst, post_only, ignore_notional_check, ignore_price_check, is_market, is_fok, is_ioc,
  never_rests,
}
use exchange_sim.Orders.{Order, Result, ok, raised, ◌>>=◌, has_inst, buys}
use exchange_sim.Book.{OrderBook, best_price, side_of, opposite_of}
use exchange_sim.Trading.{Machine, allows_entry, allows_matching}
use exchange_sim.Prices.{PriceCodec, notional}
use exchange_sim.Instrument.{
  Instrument, is_on_tick, is_within_band, is_round_lot, max_quantity, tick_size as tick_of,
}

pub record ValidationLimits : Type 0 where
  pub max_order_value : ℕ
  pub max_quantity : ℕ
  pub require_round_lot : Bool
  pub require_tick : Bool
  pub enforce_price_band : Bool
  pub allowed_order_types : List OrderType
  pub allowed_time_in_force : List TimeInForce
  pub min_qty_requires_ioc : Bool
  pub max_quotation_spreads : Option ℕ
  pub max_aggression_spreads : Option ℕ

-- The codec and the limits. A cap of 0 is a cap of None: the code tests it for truth.
pub record StandardValidator : Type 0 where
  pub codec : PriceCodec
  pub limits : ValidationLimits

abbrev pub Verdict : Type 0
Verdict = Result (Option RejectReason)

-- `if failure is not None: return failure`, then the later checks.
infixr 4 ◌then_check◌
abbrev pub ◌then_check◌ : Verdict → Verdict → Verdict
ok none then_check later = later
ok (some reason) then_check later = ok (some reason)
raised e then_check later = raised e

abbrev pub reject_if : Bool → RejectReason → Verdict
reject_if b reason = if b then ok (some reason) else ok none

unfoldable pub allows_type : OrderType → List OrderType → Bool
allows_type t [] = false
allows_type t (u ∷ us) =
    let rest = allows_type t us in
    if is_market t
    then (if is_market u then true else rest)
    else (if is_market u then rest else true)

abbrev pub same_time : TimeInForce → TimeInForce → Bool
same_time TimeInForce.day TimeInForce.day = true
same_time TimeInForce.ioc TimeInForce.ioc = true
same_time TimeInForce.fok TimeInForce.fok = true
same_time _ _ = false

unfoldable pub allows_time : TimeInForce → List TimeInForce → Bool
allows_time t [] = false
allows_time t (u ∷ us) = let rest = allows_time t us in if same_time t u then true else rest

unfoldable pub check_min_qty : ValidationLimits → Order → Verdict
check_min_qty l o =
    if o.min_qty == 0
    then ok none
    else (reject_if (l.min_qty_requires_ioc && not (is_ioc o.time_in_force))
          unsupported_characteristic
        then_check reject_if (ltb o.quantity o.min_qty) invalid_quantity)

unfoldable pub check_characteristics : ValidationLimits → Order → Verdict
check_characteristics l o =
    reject_if (not (allows_type o.order_type l.allowed_order_types)) unsupported_characteristic
    then_check reject_if (not (allows_time o.time_in_force l.allowed_time_in_force))
        unsupported_characteristic
    then_check check_min_qty l o
    then_check reject_if (has_inst post_only o.exec_inst && never_rests o.time_in_force)
        unsupported_characteristic

-- `cap and quantity > cap`.
abbrev pub over_cap : Option ℕ → ℕ → Bool
over_cap none quantity = false
over_cap (some cap) quantity = not (cap == 0) && ltb cap quantity

unfoldable pub check_quantity : ValidationLimits → Instrument → ℕ → Verdict
check_quantity l i quantity =
    reject_if (leb quantity 0) invalid_quantity
    then_check reject_if (l.require_round_lot && not (is_round_lot i quantity)) invalid_quantity
    then_check reject_if (over_cap (max_quantity i) quantity) exceeds_quantity_limit
    then_check reject_if (over_cap (some l.max_quantity) quantity) exceeds_quantity_limit

unfoldable pub check_tick : ValidationLimits → Instrument → ℤ → Verdict
check_tick l i price =
    if l.require_tick
    then (is_on_tick i price >>= λ fits. reject_if (not fits) tick_size)
    else ok none

unfoldable pub check_price : ValidationLimits → Order → Instrument → ℤ → Verdict
check_price l o i price =
    reject_if (le_test price (pos 0) && not i.signed_price) invalid_price
    then_check check_tick l i price
    then_check reject_if
        (l.enforce_price_band
          && not (has_inst ignore_price_check o.exec_inst)
          && not (is_within_band i price))
        price_outside_band

unfoldable pub check_value : StandardValidator → Order → ℤ → ℕ → Verdict
check_value v o price quantity =
    reject_if
      (not (v.limits.max_order_value == 0)
        && not (has_inst ignore_notional_check o.exec_inst)
        && lt_test (pos v.limits.max_order_value) (notional v.codec price quantity))
      exceeds_value_limit

-- The checks on the price, where the order has one.
abbrev pub check_priced : StandardValidator → Order → Instrument → ℕ → Option ℤ → Verdict
check_priced v o i quantity none = reject_if (not (is_market o.order_type)) invalid_price
check_priced v o i quantity (some price) =
    check_price v.limits o i price then_check check_value v o price quantity

-- `_check_size_and_price`, after the defaults of the order itself.
unfoldable pub check_size_and_price :
    StandardValidator → Order → Instrument → ℕ → Option ℤ → Verdict
check_size_and_price v o i quantity price =
    check_quantity v.limits i quantity then_check check_priced v o i quantity price

abbrev pub behind : Bool → ℤ → ℤ → ℤ
behind buying best price = if buying then best -ℤ price else price -ℤ best

abbrev pub too_far : Option ℕ → Option ℤ → (ℤ → ℤ) → ℕ → Bool
too_far (some spreads) (some best) distance tick = lt_test (pos (spreads * tick)) (distance best)
too_far _ _ distance tick = false

-- `_check_quotation` once its anchor, the tick, is there.
abbrev pub check_spreads : ValidationLimits → Order → OrderBook → ℤ → Option ℕ → Verdict
check_spreads l o b price none = ok none
check_spreads l o b price (some tick) =
    if tick == 0
    then ok none
    else (reject_if
          (too_far l.max_quotation_spreads (best_price (side_of b (buys o)))
            (λ best. behind (buys o) best price) tick)
          price_outside_band
        then_check reject_if
            (too_far l.max_aggression_spreads (best_price (opposite_of b (buys o)))
              (λ best. behind (not (buys o)) best price) tick)
            price_outside_band)

abbrev pub has_quotation_rule : ValidationLimits → Bool
has_quotation_rule l = elim l.max_quotation_spreads [
  | none ↦ elim l.max_aggression_spreads [ none ↦ false | some n ↦ true ]
  | some n ↦ true
]

unfoldable pub check_quotation :
    ValidationLimits → Order → Instrument → Option ℤ → OrderBook → Machine → Verdict
check_quotation l o i none b s = ok none
check_quotation l o i (some price) b s =
    if has_quotation_rule l && allows_matching s o.symbol
    then (tick_of i price >>= λ tick. check_spreads l o b price tick)
    else ok none

abbrev pub phase_allows : Option Machine → String → Bool
phase_allows none symbol = true
phase_allows (some s) symbol = allows_entry s symbol

-- The checks that a new order and an amendment start with.
abbrev pub check_entry : Instrument → Option Machine → Order → Verdict
check_entry i s o =
    reject_if (not i.tradable) unknown_symbol
    then_check reject_if (not (phase_allows s o.symbol)) RejectReason.market_closed

unfoldable pub validate_new :
    StandardValidator → Order → Option Instrument → Machine → OrderBook → Verdict
validate_new v o none s b = ok (some unknown_symbol)
validate_new v o (some i) s b =
    check_entry i (some s) o
    then_check check_characteristics v.limits o
    then_check check_size_and_price v o i o.quantity o.price
    then_check check_quotation v.limits o i o.price b s

unfoldable pub validate_amend :
    StandardValidator → Order → Option Instrument → Option Machine → ℕ → Option ℤ → Verdict
validate_amend v o none s quantity price = ok (some unknown_symbol)
validate_amend v o (some i) s quantity price =
    check_entry i s o
    then_check reject_if (leb quantity o.cum_qty) invalid_quantity
    then_check check_size_and_price v o i quantity price
