-- ===== src/Tests/Reference.antt =====
-- The theorems about identifiers, phases, prices, instruments and the validator, at concrete inputs.
use exchange_sim.Prelude.{
  ℕ, ◌≡◌, refl, none, some, [], ◌∷◌, List, arith, str_eq, if◌then◌else◌, false,
}
use exchange_sim.Prelude.Int.{ℤ, pos, ◌≤ℤ◌, ◌<ℤ◌, ◌+ℤ◌, ◌-ℤ◌, ◌*ℤ◌, max_int, floor_div}
use exchange_sim.Enums.{halted, open_trading}
use exchange_sim.Orders.{ok, Order}
use exchange_sim.Trading.{
  Machine, state_for, has_override, allows_entry, allows_matching, set_market_state,
  set_instrument_state, clear_instrument_state, clear_all_overrides, get_state,
}
use exchange_sim.Trading.Phases.{state_for_after, clear_all_overrides_lem}
use exchange_sim.Prices.{PriceCodec, scale, notional}
use exchange_sim.Prices.Notional.{notional_bounds}
use exchange_sim.Ids.{IdGenerator, next, padded, decimal, digits_onto, zeros}
use exchange_sim.Ids.Distinct.{draws, draws_lem, NoRepeats, AllFit}
use exchange_sim.Instrument.{BandTable, band_table, sort_rows, insert_row, limits_for}
use exchange_sim.Instrument.Bands.{IsReached, limits_for_lem}
use exchange_sim.Instrument.{
  tick_size, tick_for, row_for, row_after, get_tick, is_on_tick, is_within_band, price_limits,
  band_for, is_round_lot, max_quantity,
}
use exchange_sim.Prices.{is_multiple_of}
use exchange_sim.Validation.{
  validate_new, validate_amend, check_characteristics, check_min_qty, allows_type, allows_time,
  check_size_and_price, check_quantity, check_price, check_tick, check_value, check_quotation,
}
use exchange_sim.Validation.Accepted.{Acceptable, AcceptableAmendment, validate_amend-Acceptable}
use exchange_sim.Validation.Complete.{validate_new_iff}
use exchange_sim.Prelude.{◌↔◌}
use exchange_sim.Tests.Data.{day_order, bands, stock, validator, offers}
use exchange_sim.Enums.{buy}

abbrev codec : PriceCodec
codec = record { decimals = 1 }

notional_bounds_example :
    (pos 1005 *ℤ 3 ≤ℤ notional codec (pos 1005) 3 *ℤ scale codec)
    × (notional codec (pos 1005) 3 *ℤ scale codec <ℤ pos 1005 *ℤ 3 +ℤ pos (scale codec))
notional_bounds_example = notional_bounds codec (pos 1005) 3

abbrev order_ids : IdGenerator
order_ids = record { prefix = 79 ∷ []; date = 50 ∷ []; width = 3; max_length = 6; counter = 9 }

-- The codes of `O2009` and `O2010`.
abbrev drawn : List (List ℕ)
drawn = (79 ∷ 50 ∷ 48 ∷ 48 ∷ 57 ∷ []) ∷ (79 ∷ 50 ∷ 48 ∷ 49 ∷ 48 ∷ []) ∷ []

draws_two : draws 2 order_ids ≡ ok drawn
unfolding draws next padded decimal digits_onto zeros
draws_two = refl

draws_lem_example : NoRepeats drawn × AllFit 6 drawn
draws_lem_example = draws_lem 2 order_ids drawn draws_two

abbrev table : BandTable
table = record { rows = (pos 0, pos 30) ∷ (pos 100, pos 50) ∷ [] }

bands_sorted : band_table bands ≡ ok table
unfolding band_table sort_rows insert_row
bands_sorted = refl

limits_for_lem_example :
    (b band : ℤ) × IsReached (pos 120) bands (b, band)
    × (limits_for table (pos 120) ≡ (max_int (pos 1) (pos 120 -ℤ band), pos 120 +ℤ band))
limits_for_lem_example = limits_for_lem bands table (pos 120) bands_sorted (omega arith)

abbrev machine : Machine
machine = record {
  market = "J";
  market_state = open_trading;
  instrument_states = ("2846", halted) ∷ [];
}

state_for_after_example :
    (state_for (set_market_state halted machine).0 "2846"
      ≡ (if has_override machine "2846" then state_for machine "2846" else halted))
    × (state_for (set_instrument_state "2846" halted machine).0 "2846"
        ≡ (if str_eq "2846" "2846" then halted else state_for machine "2846"))
    × (state_for (clear_instrument_state "2846" machine).0 "2846"
        ≡ (if str_eq "2846" "2846" then open_trading else state_for machine "2846"))
state_for_after_example = state_for_after machine "2846" "2846" halted

clear_all_overrides_lem_example :
    (has_override (clear_all_overrides machine).0 "2846" ≡ false)
    × (state_for (clear_all_overrides machine).0 "2846" ≡ open_trading)
clear_all_overrides_lem_example = clear_all_overrides_lem machine "2846"

abbrev bid : Order
bid = day_order buy 100 (pos 100) "A"

abbrev phase : Machine
phase = record { market = "J"; market_state = open_trading; instrument_states = [] }

-- The definitions that a verdict of the validator computes with.
validating : Unit {0}
unfolding validate_new validate_amend allows_entry allows_matching state_for get_state
    check_characteristics allows_type allows_time check_min_qty check_size_and_price check_quantity
    is_round_lot max_quantity check_price check_tick is_on_tick tick_size tick_for row_for row_after
    get_tick is_multiple_of is_within_band price_limits band_for limits_for check_value notional
    scale floor_div check_quotation ◌*ℤ◌ ◌+ℤ◌ ◌-ℤ◌
validating = tt

validate_new_iff_example : (validate_new validator bid (some stock) phase offers ≡ ok none) ↔ (
    Acceptable validator bid stock phase
    × (check_quotation validator.limits bid stock (some (pos 100)) offers phase ≡ ok none))
validate_new_iff_example = validate_new_iff validator bid stock phase offers

bid_accepted : validate_new validator bid (some stock) phase offers ≡ ok none
unfolding validating
bid_accepted = refl

amendment_accepted :
    validate_amend validator bid (some stock) (some phase) 50 (some (pos 105)) ≡ ok none
unfolding validating
amendment_accepted = refl

validate_amend-Acceptable_example :
    AcceptableAmendment validator bid stock (some phase) 50 (some (pos 105))
validate_amend-Acceptable_example =
    validate_amend-Acceptable validator bid stock (some phase) 50 (some (pos 105))
      amendment_accepted
