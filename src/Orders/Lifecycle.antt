-- ===== src/Orders/Lifecycle.antt =====
-- The execution state of one order (exchangesim/core/orders.py): what a fill does on each branch,
-- and that a terminal order stays as it is.
use exchange_sim.Prelude.{ℕ, ◌+◌, ◌≤◌, ◌<◌, ◌≡◌, refl, ◌⊎◌, true, false, Option, arith, ==_iff}
use exchange_sim.Prelude.Int.{ℤ, ◌+ℤ◌, ◌*ℤ◌}
use exchange_sim.Enums.{is_terminal, filled}
use exchange_sim.Orders.{
  Order, SameTerms, SameTotals, ok, raised, fill_not_positive, fill_exceeds_leaves, leaves_qty,
  is_live, with_fill, apply_fill, reduce_quantity, cancel,
}

-- An order's books balance: never overfilled, and filled exactly when nothing is left to fill.
pub record IsConsistent (o : Order) : Type 0 where
  pub bounded : o.cum_qty ≤ o.quantity
  pub complete : o.status ≡ filled → o.cum_qty ≡ o.quantity
  pub open_left : is_terminal o.status ≡ false → o.cum_qty < o.quantity

pub apply_fill_lem :
    (o : Order) (q : ℕ) (p : ℤ) (now : Option ℕ)
    → 0 < q
    → q ≤ leaves_qty o
    → apply_fill o q p now ≡ ok (with_fill o q p now)
unfolding apply_fill
apply_fill_lem o q p now h k = ground arith

pub leaves_qty-with_fill :
    (o : Order) (q : ℕ) (p : ℤ) (now : Option ℕ)
    → 0 < q
    → q ≤ leaves_qty o
    → leaves_qty (with_fill o q p now) + q ≡ leaves_qty o
unfolding leaves_qty
leaves_qty-with_fill o q p now h k = ground arith

pub leaves_qty-cancel : (o : Order) (now : Option ℕ) → leaves_qty (cancel o now) ≡ 0
unfolding leaves_qty cancel
leaves_qty-cancel o now = ground arith

pub leaves_qty-reduce_quantity :
    (o : Order) (by : ℕ) (now : Option ℕ)
    → by ≤ leaves_qty o
    → leaves_qty (reduce_quantity o by now) + by ≡ leaves_qty o
unfolding leaves_qty reduce_quantity
leaves_qty-reduce_quantity o by now h = ground (arith, ==_iff o.cum_qty 0)

pub SameTerms-reduce_quantity :
    (o : Order) (by : ℕ) (now : Option ℕ) → SameTerms o (reduce_quantity o by now)
unfolding reduce_quantity
SameTerms-reduce_quantity o by now = ground arith

pub SameTerms-cancel : (o : Order) (now : Option ℕ) → SameTerms o (cancel o now)
unfolding cancel
SameTerms-cancel o now = ground arith

pub SameTotals-reduce_quantity :
    (o : Order) (by : ℕ) (now : Option ℕ) → SameTotals o (reduce_quantity o by now)
unfolding reduce_quantity
SameTotals-reduce_quantity o by now = record { cum_qty = refl; notional = refl }

pub SameTotals-cancel : (o : Order) (now : Option ℕ) → SameTotals o (cancel o now)
unfolding cancel
SameTotals-cancel o now = ground arith

-- Refused as empty, refused as too large, or carried out.
abbrev pub FillOutcome : Order → ℕ → ℤ → Option ℕ → Type 0
FillOutcome o q p now =
    ((apply_fill o q p now ≡ raised fill_not_positive) × (q ≡ 0))
    ⊎ ((apply_fill o q p now ≡ raised fill_exceeds_leaves) × (leaves_qty o < q))
    ⊎ ((o' : Order) × (apply_fill o q p now ≡ ok o')
        × IsConsistent o'
        × (o'.cum_qty ≡ o.cum_qty + q)
        × (leaves_qty o' + q ≡ leaves_qty o)
        × (o'.notional_units ≡ o.notional_units +ℤ p *ℤ q))

-- No fill, cancel or reduction leads out of a terminal status: nothing is open, a fill of
-- anything is refused,
-- a cancel changes nothing and a reduction leaves the status and the executed quantity alone.
pub terminal_absorbs :
    (o : Order) (q by : ℕ) (p : ℤ) (now : Option ℕ)
    → is_terminal o.status ≡ true
    → 0 < q
    → (leaves_qty o ≡ 0)
      × (is_live o ≡ false)
      × (apply_fill o q p now ≡ raised fill_exceeds_leaves)
      × (cancel o now ≡ o)
      × ((reduce_quantity o by now).status ≡ o.status)
      × ((reduce_quantity o by now).cum_qty ≡ o.cum_qty)
unfolding apply_fill leaves_qty is_live cancel reduce_quantity
terminal_absorbs o q by p now h k =
    (ground arith, ground arith, ground arith, ground arith, ground arith, refl)
