-- ===== src/Instrument.antt =====
-- exchangesim/core/instrument.py: instruments, and the tables of price bands and tick sizes. The CSV
-- loaders and `describe` are input and output and are not modelled. A tick is not negative.
pub mod Bands
use exchange_sim.Prelude.{
  ℕ, ◌/◌, ◌%◌, String, Bool, true, false, ◌&&◌, Option, none, some, List, [], ◌∷◌, ◌==◌,
  if◌then◌else◌, is_empty, same_text,
}
use exchange_sim.Prelude.Int.{ℤ, pos, ◌+ℤ◌, ◌-ℤ◌, le_test, lt_test, eq_test, max_int}
use exchange_sim.Orders.{Result, ok, raised, no_reference_data, ◌>>=◌}
use exchange_sim.Prices.{is_multiple_of}

-- The rows of a table, by their lower bounds.
abbrev pub Rows : Type 0 → Type 0
Rows X = List (ℤ × X)

-- `sorted(rows, key=...)`: stable.
unfoldable pub insert_row : {X : Type 0} → ℤ × X → Rows X → Rows X
insert_row (b, x) [] = (b, x) ∷ []
insert_row (b, x) ((c, y) ∷ rows) =
    if le_test b c then (b, x) ∷ (c, y) ∷ rows else (c, y) ∷ insert_row (b, x) rows

unfoldable pub sort_rows : {X : Type 0} → Rows X → Rows X
sort_rows [] = []
sort_rows (row ∷ rows) = insert_row row (sort_rows rows)

-- The entry at `bisect_right(bounds, price) - 1` of sorted rows, after the entry found so far.
unfoldable pub row_after : {X : Type 0} → ℤ → X → Rows X → X
row_after price found [] = found
row_after price found ((b, x) ∷ rows) = if le_test b price then row_after price x rows else found

-- A price below every bound takes the first row.
unfoldable pub row_for : {X : Type 0} → ℤ → Rows X → Option X
row_for price [] = none
row_for price ((b, x) ∷ rows) = some (row_after price x rows)

pub record BandTable : Type 0 where
  pub rows : Rows ℤ

abbrev pub starts_at_zero : Rows ℤ → Bool
starts_at_zero [] = false
starts_at_zero ((b, x) ∷ rows) = eq_test b (pos 0)

unfoldable pub band_table : Rows ℤ → Result BandTable
band_table rows =
    if starts_at_zero (sort_rows rows)
    then ok (record { rows = sort_rows rows })
    else raised no_reference_data

-- The table is not empty, so that the band is there.
unfoldable pub band_for : BandTable → ℤ → ℤ
band_for t base = elim (row_for base t.rows) [ none ↦ pos 0 | some band ↦ band ]

unfoldable pub limits_for : BandTable → ℤ → ℤ × ℤ
limits_for t base = (max_int (pos 1) (base -ℤ band_for t base), base +ℤ band_for t base)

-- A row's dict from a tier to its tick; the tier `none` is the fallback.
abbrev pub Ticks : Type 0
Ticks = List (Option String × ℕ)

abbrev pub same_tier : Option String → Option String → Bool
same_tier none none = true
same_tier t u = same_text t u

unfoldable pub get_tick : Option String → Ticks → Option ℕ
get_tick tier [] = none
get_tick tier ((t, tick) ∷ row) = if same_tier t tier then some tick else get_tick tier row

pub record TickTable : Type 0 where
  pub rows : Rows Ticks

unfoldable pub tick_table : Rows Ticks → Result TickTable
tick_table rows =
    if is_empty (sort_rows rows)
    then raised no_reference_data
    else ok (record { rows = sort_rows rows })

abbrev pub or_default : Option ℕ → Ticks → Result ℕ
or_default (some tick) row = ok tick
or_default none row = elim (get_tick none row) [
  | none ↦ raised no_reference_data
  | some tick ↦ ok tick
]

unfoldable pub tick_for : TickTable → ℤ → Option String → Result ℕ
tick_for t price tier = elim (row_for price t.rows) [
  | none ↦ raised no_reference_data
  | some row ↦ or_default (get_tick tier row) row
]

pub record Instrument : Type 0 where
  pub symbol : String
  pub lot_size : ℕ
  pub shares_outstanding : ℕ
  pub base_price : Option ℤ
  pub tier : Option String
  pub band_table : Option BandTable
  pub tick_table : Option TickTable
  pub band_override : Option (ℤ × ℤ)
  pub tradable : Bool
  pub signed_price : Bool

abbrev pub table_limits : Option ℤ → Option BandTable → Option (ℤ × ℤ)
table_limits (some base) (some t) = some (limits_for t base)
table_limits _ _ = none

abbrev pub limits_or : Option (ℤ × ℤ) → Option (ℤ × ℤ) → Option (ℤ × ℤ)
limits_or (some limits) others = some limits
limits_or none others = others

unfoldable pub price_limits : Instrument → Option (ℤ × ℤ)
price_limits i = limits_or i.band_override (table_limits i.base_price i.band_table)

abbrev pub within : Option (ℤ × ℤ) → ℤ → Bool
within none price = true
within (some (low, high)) price = le_test low price && le_test price high

unfoldable pub is_within_band : Instrument → ℤ → Bool
is_within_band i price = within (price_limits i) price

-- `none` is no table.
unfoldable pub tick_size : Instrument → ℤ → Result (Option ℕ)
tick_size i price = elim i.tick_table [
  | none ↦ ok none
  | some t ↦ tick_for t price i.tier >>= λ tick. ok (some tick)
]

abbrev pub on_tick : Option ℕ → ℤ → Bool
on_tick none price = true
on_tick (some tick) price = is_multiple_of price tick

unfoldable pub is_on_tick : Instrument → ℤ → Result Bool
is_on_tick i price = tick_size i price >>= λ tick. ok (on_tick tick price)

-- The constructor replaces a lot size of 0 by 1.
unfoldable pub is_round_lot : Instrument → ℕ → Bool
is_round_lot i quantity = quantity % i.lot_size == 0

unfoldable pub max_quantity : Instrument → Option ℕ
max_quantity i = if i.shares_outstanding == 0 then none else some (i.shares_outstanding / 20)
