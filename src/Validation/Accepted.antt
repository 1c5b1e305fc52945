-- ===== src/Validation/Accepted.antt =====
-- What `StandardValidator` (exchangesim/core/validation.py) lets through.
use exchange_sim.Prelude.{
  ℕ, ◌≡◌, refl, ◌≤◌, ◌<◌, Bool, true, false, not, ◌&&◌, Option, none, some, arith, ltb, leb, ◌==◌,
  Bool-cases, inl, inr,
}
use exchange_sim.Prelude.Int.{ℤ, pos, le_test, lt_test}
use exchange_sim.Enums.{
  RejectReason, post_only, ignore_notional_check, ignore_price_check, is_market, is_ioc,
  never_rests,
}
use exchange_sim.Orders.{Order, Result, ok, raised, ◌>>=◌, has_inst}
use exchange_sim.Book.{OrderBook}
use exchange_sim.Trading.{Machine}
use exchange_sim.Prices.{notional}
use exchange_sim.Instrument.{Instrument, is_on_tick, is_within_band, is_round_lot, max_quantity}
use exchange_sim.Validation.{
  ValidationLimits, StandardValidator, Verdict, ◌then_check◌, reject_if, allows_type, allows_time,
  check_min_qty, check_characteristics, over_cap, check_quantity, check_tick, check_price,
  check_value, check_priced, check_size_and_price, check_entry, phase_allows, validate_new,
  validate_amend,
}

-- Both checks let the order through.
pub then_check-ok : (m k : Verdict) → (m then_check k) ≡ ok none → (m ≡ ok none) × (k ≡ ok none)
then_check-ok (ok none) k h = (refl, h)
then_check-ok (ok (some r)) k h = absurd (cc)
then_check-ok (raised e) k h = absurd (cc)

pub reject_if-ok : (b : Bool) (r : RejectReason) → reject_if b r ≡ ok none → b ≡ false
reject_if-ok true r h = absurd (cc)
reject_if-ok false r h = refl

pub reject_if-not-ok : (b : Bool) (r : RejectReason) → reject_if (not b) r ≡ ok none → b ≡ true
reject_if-not-ok true r h = refl
reject_if-not-ok false r h = absurd (cc)

-- A quantity that every limit on quantities allows.
pub record FitsQuantity (l : ValidationLimits) (i : Instrument) (quantity : ℕ) : Type 0 where
  pub positive : 0 < quantity
  pub round_lot : (l.require_round_lot && not (is_round_lot i quantity)) ≡ false
  pub instrument_cap : over_cap (max_quantity i) quantity ≡ false
  pub venue_cap : over_cap (some l.max_quantity) quantity ≡ false

positive_of : (quantity : ℕ) → leb quantity 0 ≡ false → 0 < quantity
positive_of quantity h = ground (arith, h)

check_quantity-ok :
    (l : ValidationLimits) (i : Instrument) (quantity : ℕ)
    → check_quantity l i quantity ≡ ok none
    → FitsQuantity l i quantity
unfolding check_quantity
check_quantity-ok l i quantity h =
    let (a, h1) = then_check-ok _ _ h in
    let (b, h2) = then_check-ok _ _ h1 in
    let (c, d) = then_check-ok _ _ h2 in
    record {
      positive = positive_of quantity (reject_if-ok (leb quantity 0) _ a);
      round_lot = reject_if-ok _ _ b;
      instrument_cap = reject_if-ok _ _ c;
      venue_cap = reject_if-ok _ _ d;
    }

-- The price that every limit on prices allows.
pub record FitsPrice (v : StandardValidator) (o : Order) (i : Instrument) (quantity : ℕ) (price : ℤ)
    : Type 0 where
  pub positive : (le_test price (pos 0) && not i.signed_price) ≡ false
  pub on_tick : v.limits.require_tick ≡ true → is_on_tick i price ≡ ok true
  pub in_band :
      (v.limits.enforce_price_band
        && not (has_inst ignore_price_check o.exec_inst)
        && not (is_within_band i price))
      ≡ false
  pub value :
      (not (v.limits.max_order_value == 0)
        && not (has_inst ignore_notional_check o.exec_inst)
        && lt_test (pos v.limits.max_order_value) (notional v.codec price quantity))
      ≡ false

on_tick_of :
    (m : Result Bool)
    → (m >>= λ fits. reject_if (not fits) RejectReason.tick_size) ≡ ok none
    → m ≡ ok true
on_tick_of (ok true) h = refl
on_tick_of (ok false) h = absurd (cc)
on_tick_of (raised e) h = absurd (cc)

check_tick-ok :
    (l : ValidationLimits) (i : Instrument) (price : ℤ)
    → check_tick l i price ≡ ok none
    → l.require_tick ≡ true
    → is_on_tick i price ≡ ok true
unfolding check_tick
check_tick-ok l i price h on = on_tick_of (is_on_tick i price) (simp on at h)

check_priced-ok :
    (v : StandardValidator) (o : Order) (i : Instrument) (quantity : ℕ) (price : ℤ)
    → check_priced v o i quantity (some price) ≡ ok none
    → FitsPrice v o i quantity price
unfolding check_price check_value
check_priced-ok v o i quantity price h =
    let (p, w) =
      then_check-ok (check_price v.limits o i price) (check_value v o price quantity) h in
    let (a, p1) = then_check-ok _ _ p in
    let (b, c) = then_check-ok _ _ p1 in
    record {
      positive = reject_if-ok _ _ a;
      on_tick = check_tick-ok v.limits i price b;
      in_band = reject_if-ok _ _ c;
      value = reject_if-ok _ _ w;
    }

-- An order without a price is a market order; another one has a price that fits.
abbrev pub FitsOptionalPrice : StandardValidator → Order → Instrument → ℕ → Option ℤ → Type 0
FitsOptionalPrice v o i quantity none = is_market o.order_type ≡ true
FitsOptionalPrice v o i quantity (some price) = FitsPrice v o i quantity price

pub check_size_and_price-ok :
    (v : StandardValidator) (o : Order) (i : Instrument) (quantity : ℕ) (price : Option ℤ)
    → check_size_and_price v o i quantity price ≡ ok none
    → FitsQuantity v.limits i quantity × FitsOptionalPrice v o i quantity price
unfolding check_size_and_price
check_size_and_price-ok v o i quantity none h =
    let (q, p) = then_check-ok _ _ h in
    (check_quantity-ok v.limits i quantity q, reject_if-not-ok (is_market o.order_type) _ p)
check_size_and_price-ok v o i quantity (some price) h =
    let (q, p) = then_check-ok _ _ h in
    (check_quantity-ok v.limits i quantity q, check_priced-ok v o i quantity price p)

pub record FitsCharacteristics (l : ValidationLimits) (o : Order) : Type 0 where
  pub order_type : allows_type o.order_type l.allowed_order_types ≡ true
  pub time_in_force : allows_time o.time_in_force l.allowed_time_in_force ≡ true
  pub min_qty : o.min_qty ≤ o.quantity
  pub min_qty_time : 0 < o.min_qty → l.min_qty_requires_ioc ≡ true → is_ioc o.time_in_force ≡ true
  pub post_only : (has_inst post_only o.exec_inst && never_rests o.time_in_force) ≡ false

check_min_qty-ok :
    (l : ValidationLimits) (o : Order)
    → check_min_qty l o ≡ ok none
    → (o.min_qty ≤ o.quantity)
      × (0 < o.min_qty → l.min_qty_requires_ioc ≡ true → is_ioc o.time_in_force ≡ true)
unfolding check_min_qty
check_min_qty-ok l o h = elim (Bool-cases (o.min_qty == 0)) [
  | inl zero_qty ↦
      (ground (arith, zero_qty), λ some_qty on. absurd (ground (arith, zero_qty, some_qty)))
  | inr some_qty ↦
      let (a, b) = then_check-ok _ _ (simp some_qty at h) in
      let ioc = reject_if-ok (l.min_qty_requires_ioc && not (is_ioc o.time_in_force)) _ a in
      (
        ground (arith, reject_if-ok (ltb o.quantity o.min_qty) _ b),
        λ positive on. ground (arith, ioc, on),
      )
]

check_characteristics-ok :
    (l : ValidationLimits) (o : Order)
    → check_characteristics l o ≡ ok none
    → FitsCharacteristics l o
unfolding check_characteristics
check_characteristics-ok l o h =
    let (a, h1) = then_check-ok _ _ h in
    let (b, h2) = then_check-ok _ _ h1 in
    let (c, d) = then_check-ok _ _ h2 in
    let m = check_min_qty-ok l o c in
    record {
      order_type = reject_if-not-ok (allows_type o.order_type l.allowed_order_types) _ a;
      time_in_force = reject_if-not-ok (allows_time o.time_in_force l.allowed_time_in_force) _ b;
      min_qty = m.0;
      min_qty_time = m.1;
      post_only = reject_if-ok _ _ d;
    }

pub record Enters (i : Instrument) (s : Option Machine) (o : Order) : Type 0 where
  pub tradable : i.tradable ≡ true
  pub phase : phase_allows s o.symbol ≡ true

check_entry-ok :
    (i : Instrument) (s : Option Machine) (o : Order) → check_entry i s o ≡ ok none → Enters i s o
check_entry-ok i s o h =
    let (a, b) =
      then_check-ok (reject_if (not i.tradable) RejectReason.unknown_symbol)
        (reject_if (not (phase_allows s o.symbol)) RejectReason.market_closed) h in
    record {
      tradable = reject_if-not-ok i.tradable _ a;
      phase = reject_if-not-ok (phase_allows s o.symbol) _ b;
    }

-- What every accepted new order meets.
pub record Acceptable (v : StandardValidator) (o : Order) (i : Instrument) (s : Machine)
    : Type 0 where
  pub enters : Enters i (some s) o
  pub characteristics : FitsCharacteristics v.limits o
  pub quantity : FitsQuantity v.limits i o.quantity
  pub price : FitsOptionalPrice v o i o.quantity o.price

-- A new order that the validator accepts is for an instrument that trades, in a phase that takes
-- entries; its type, its validity and its minimum quantity are allowed, and its quantity, price, tick,
-- band and value are within the limits.
pub validate_new-Acceptable :
    (v : StandardValidator) (o : Order) (i : Instrument) (s : Machine) (b : OrderBook)
    → validate_new v o (some i) s b ≡ ok none
    → Acceptable v o i s
unfolding validate_new
validate_new-Acceptable v o i s b h =
    let (e, h1) = then_check-ok (check_entry i (some s) o) _ h in
    let (c, h2) = then_check-ok (check_characteristics v.limits o) _ h1 in
    let (z, q) = then_check-ok (check_size_and_price v o i o.quantity o.price) _ h2 in
    let sized = check_size_and_price-ok v o i o.quantity o.price z in
    record {
      enters = check_entry-ok i (some s) o e;
      characteristics = check_characteristics-ok v.limits o c;
      quantity = sized.0;
      price = sized.1;
    }

-- What every accepted amendment meets.
pub record AcceptableAmendment (v : StandardValidator) (o : Order) (i : Instrument)
    (s : Option Machine) (quantity : ℕ) (price : Option ℤ) : Type 0 where
  pub enters : Enters i s o
  pub above_executed : o.cum_qty < quantity
  pub quantity_fits : FitsQuantity v.limits i quantity
  pub price_fits : FitsOptionalPrice v o i quantity price

above_of : (quantity cum : ℕ) → leb quantity cum ≡ false → cum < quantity
above_of quantity cum h = ground (arith, h)

-- An amendment that the validator accepts is for an instrument that trades, in a phase that takes
-- entries; its quantity is above what was executed, and quantity, price, tick, band and value are
-- within the limits.
pub validate_amend-Acceptable :
    (v : StandardValidator) (o : Order) (i : Instrument) (s : Option Machine) (quantity : ℕ)
    (price : Option ℤ)
    → validate_amend v o (some i) s quantity price ≡ ok none
    → AcceptableAmendment v o i s quantity price
unfolding validate_amend
validate_amend-Acceptable v o i s quantity price h =
    let (e, h1) = then_check-ok (check_entry i s o) _ h in
    let (c, z) = then_check-ok _ (check_size_and_price v o i quantity price) h1 in
    let sized = check_size_and_price-ok v o i quantity price z in
    record {
      enters = check_entry-ok i s o e;
      above_executed = above_of quantity o.cum_qty (reject_if-ok _ _ c);
      quantity_fits = sized.0;
      price_fits = sized.1;
    }
