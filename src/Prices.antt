-- ===== src/Prices.antt =====
-- exchangesim/core/prices.py: integer price units. What parses and prints decimal text goes through
-- the `decimal` module and is not modelled.
pub mod Notional
use exchange_sim.Prelude.{ℕ, ◌^◌, ◌==◌, Bool, true, if◌then◌else◌}
use exchange_sim.Prelude.Int.{ℤ, pos, ◌+ℤ◌, ◌-ℤ◌, ◌*ℤ◌, floor_div, is_multiple}

pub record PriceCodec : Type 0 where
  pub decimals : ℕ

unfoldable pub scale : PriceCodec → ℕ
scale c = 10 ^ c.decimals

-- Order value in whole currency units, rounded up.
unfoldable pub notional : PriceCodec → ℤ → ℕ → ℤ
notional c units quantity = floor_div (units *ℤ quantity +ℤ pos (scale c) -ℤ pos 1) (scale c)

unfoldable pub is_multiple_of : ℤ → ℕ → Bool
is_multiple_of units tick = if tick == 0 then true else is_multiple units tick
