-- ===== src/Prices/Notional.antt =====
-- The value of an order (exchangesim/core/prices.py) is rounded up, and by less than one unit.
use exchange_sim.Prelude.{ℕ, zero, suc, ◌^◌, ◌<◌, arith}
use exchange_sim.Prelude.Int.{ℤ, pos, ◌+ℤ◌, ◌-ℤ◌, ◌*ℤ◌, ◌≤ℤ◌, ◌<ℤ◌, floor_div_bounds, int_laws}
use native.Mathlib.Nat.{pow-suc}
use exchange_sim.Prices.{PriceCodec, scale, notional}

pow_pos : (n : ℕ) → 0 < 10 ^ n
pow_pos zero = omega arith
pow_pos (suc n) = simp pow-suc (omega (arith, pow_pos n))

-- The value is the least number of whole units that covers the price times the quantity: it covers it
-- for every price, negative ones included, and one unit less would not.
pub notional_bounds :
    (c : PriceCodec) (units : ℤ) (quantity : ℕ)
    → (units *ℤ quantity ≤ℤ notional c units quantity *ℤ scale c)
      × (notional c units quantity *ℤ scale c <ℤ units *ℤ quantity +ℤ pos (scale c))
unfolding notional scale
notional_bounds c units quantity =
    let s = 10 ^ c.decimals in
    let bounds = floor_div_bounds (units *ℤ quantity +ℤ pos s -ℤ pos 1) s (pow_pos c.decimals) in
    (omega (int_laws, bounds.0, bounds.1), omega (int_laws, bounds.0, pow_pos c.decimals))
