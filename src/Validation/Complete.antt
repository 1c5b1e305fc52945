-- ===== src/Validation/Complete.antt =====
-- `StandardValidator` (exchangesim/core/validation.py) refuses no new order that meets its rules.
use exchange_sim.Prelude.{
  ℕ, ◌≡◌, ◌↔◌, ◌≤◌, ◌<◌, refl, Bool, true, false, not, ◌&&◌, Option, none, some, arith, ltb, leb,
  ◌==◌, if_cases,
}
use exchange_sim.Prelude.Int.{ℤ}
use exchange_sim.Enums.{RejectReason, is_market, is_ioc}
use exchange_sim.Orders.{Order, Result, ok, ◌>>=◌}
use exchange_sim.Book.{OrderBook}
use exchange_sim.Trading.{Machine}
use exchange_sim.Instrument.{Instrument, is_on_tick}
use exchange_sim.Validation.{
  ValidationLimits, StandardValidator, Verdict, ◌then_check◌, reject_if, check_min_qty,
  check_characteristics, check_quantity, check_tick, check_price, check_value, check_priced,
  check_size_and_price, check_quotation, check_entry, validate_new,
}
use exchange_sim.Validation.Accepted.{
  FitsQuantity, FitsOptionalPrice, FitsCharacteristics, Enters, Acceptable, validate_new-Acceptable,
  then_check-ok,
}

both_ok : (m k : Verdict) → m ≡ ok none → k ≡ ok none → (m then_check k) ≡ ok none
both_ok m k h j = rw h j

not_rejected : (b : Bool) (r : RejectReason) → b ≡ false → reject_if b r ≡ ok none
not_rejected b r h = rw h refl

not_rejected_unless : (b : Bool) (r : RejectReason) → b ≡ true → reject_if (not b) r ≡ ok none
not_rejected_unless b r h = rw h refl

is_positive : (n : ℕ) → 0 < n → leb n 0 ≡ false
is_positive n h = ground (arith, h)

not_zero : (n : ℕ) → (n == 0) ≡ false → 0 < n
not_zero n h = ground (arith, h)

not_more : (m n : ℕ) → n ≤ m → ltb m n ≡ false
not_more m n h = ground (arith, h)

ioc_or_free : (required ioc : Bool) → (required ≡ true → ioc ≡ true) → (required && not ioc) ≡ false
ioc_or_free true ioc f = rw (f refl) refl
ioc_or_free false ioc f = refl

on_tick_ok :
    (m : Result Bool)
    → m ≡ ok true
    → (m >>= λ fits. reject_if (not fits) RejectReason.tick_size) ≡ ok none
on_tick_ok m h = rw h refl

check_quantity_of :
    (l : ValidationLimits) (i : Instrument) (quantity : ℕ)
    → FitsQuantity l i quantity
    → check_quantity l i quantity ≡ ok none
unfolding check_quantity
check_quantity_of l i quantity f =
    both_ok _ _ (not_rejected (leb quantity 0) _ (is_positive quantity f.positive)) (
      both_ok _ _ (not_rejected _ _ f.round_lot)
        (both_ok _ _ (not_rejected _ _ f.instrument_cap) (not_rejected _ _ f.venue_cap)))

check_tick_of :
    (l : ValidationLimits) (i : Instrument) (price : ℤ)
    → (l.require_tick ≡ true → is_on_tick i price ≡ ok true)
    → check_tick l i price ≡ ok none
unfolding check_tick
check_tick_of l i price f =
    if_cases (λ v. v ≡ ok none) l.require_tick
      (is_on_tick i price >>= λ fits. reject_if (not fits) RejectReason.tick_size) (ok none)
      (λ on. on_tick_ok (is_on_tick i price) (f on)) (λ off. refl)

check_priced_of :
    (v : StandardValidator) (o : Order) (i : Instrument) (quantity : ℕ) (price : Option ℤ)
    → FitsOptionalPrice v o i quantity price
    → check_priced v o i quantity price ≡ ok none
unfolding check_price check_value
check_priced_of v o i quantity none f = not_rejected_unless (is_market o.order_type) _ f
check_priced_of v o i quantity (some price) f =
    both_ok (check_price v.limits o i price) (check_value v o price quantity)
      (both_ok _ _ (not_rejected _ _ f.positive)
        (both_ok _ _ (check_tick_of v.limits i price f.on_tick) (not_rejected _ _ f.in_band)))
      (not_rejected _ _ f.value)

check_min_qty_of :
    (l : ValidationLimits) (o : Order) → FitsCharacteristics l o → check_min_qty l o ≡ ok none
unfolding check_min_qty
check_min_qty_of l o f =
    if_cases (λ v. v ≡ ok none) (o.min_qty == 0) (ok none) _ (λ z. refl)
      (λ some_qty.
        both_ok _ _
          (not_rejected (l.min_qty_requires_ioc && not (is_ioc o.time_in_force)) _ (
            ioc_or_free l.min_qty_requires_ioc (is_ioc o.time_in_force)
              (f.min_qty_time (not_zero o.min_qty some_qty))))
          (not_rejected (ltb o.quantity o.min_qty) _ (not_more o.quantity o.min_qty f.min_qty)))

check_characteristics_of :
    (l : ValidationLimits) (o : Order)
    → FitsCharacteristics l o
    → check_characteristics l o ≡ ok none
unfolding check_characteristics
check_characteristics_of l o f = both_ok _ _ (not_rejected_unless _ _ f.order_type) (
    both_ok _ _ (not_rejected_unless _ _ f.time_in_force)
      (both_ok _ _ (check_min_qty_of l o f) (not_rejected _ _ f.post_only)))

check_entry_of :
    (i : Instrument) (s : Option Machine) (o : Order) → Enters i s o → check_entry i s o ≡ ok none
check_entry_of i s o f =
    both_ok _ _ (not_rejected_unless i.tradable _ f.tradable) (not_rejected_unless _ _ f.phase)

quotation_of :
    (v : StandardValidator) (o : Order) (i : Instrument) (s : Machine) (b : OrderBook)
    → validate_new v o (some i) s b ≡ ok none
    → check_quotation v.limits o i o.price b s ≡ ok none
unfolding validate_new
quotation_of v o i s b h =
    let (e, h1) = then_check-ok (check_entry i (some s) o) _ h in
    let (c, h2) = then_check-ok (check_characteristics v.limits o) _ h1 in
    (then_check-ok (check_size_and_price v o i o.quantity o.price) _ h2).1

-- For a known instrument, a new order is accepted exactly when the instrument trades, its phase takes
-- entries, its type, its validity and its minimum quantity are allowed, its quantity, price, tick,
-- band and value are within the limits, and the quotation rule finds nothing against it.
pub validate_new_iff :
    (v : StandardValidator) (o : Order) (i : Instrument) (s : Machine) (b : OrderBook)
    → (validate_new v o (some i) s b ≡ ok none)
      ↔ (Acceptable v o i s × (check_quotation v.limits o i o.price b s ≡ ok none))
unfolding validate_new check_size_and_price
validate_new_iff v o i s b = (
  (λ h. (validate_new-Acceptable v o i s b h, quotation_of v o i s b h)),
  (λ (f, q). both_ok (check_entry i (some s) o) _ (check_entry_of i (some s) o f.enters) (
      both_ok (check_characteristics v.limits o) _
        (check_characteristics_of v.limits o f.characteristics)
        (both_ok _ (check_quotation v.limits o i o.price b s)
          (both_ok (check_quantity v.limits i o.quantity) (check_priced v o i o.quantity o.price)
            (check_quantity_of v.limits i o.quantity f.quantity)
            (check_priced_of v o i o.quantity o.price f.price))
          q))),
)
