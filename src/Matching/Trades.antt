-- ===== src/Matching/Trades.antt =====
-- What the events of matching (exchangesim/core/matching.py) say was traded, and how that accounts
-- for the incoming order's running totals.
use exchange_sim.Prelude.{ℕ, ◌+◌, ◌<◌, ◌≡◌, refl, true, some, List, [], ◌∷◌, ◌++◌, arith}
use exchange_sim.Prelude.Int.{ℤ, pos, ◌+ℤ◌, ◌*ℤ◌, int_laws}
use exchange_sim.Orders.{Order, Heap, SameTotals, buys}
use exchange_sim.Events.{Event, trade_executed, fill_of}
use exchange_sim.Matching.{MatchingEngine, limit_crosses, prices_cross, execution_events}

abbrev pub quantity_of : Event → ℕ
quantity_of (trade_executed t) = t.quantity
quantity_of _ = 0

abbrev pub value_of : Event → ℤ
value_of (trade_executed t) = t.price *ℤ t.quantity
value_of _ = pos 0

unfoldable pub traded_quantity : List Event → ℕ
traded_quantity [] = 0
traded_quantity (x ∷ xs) = quantity_of x + traded_quantity xs

unfoldable pub traded_value : List Event → ℤ
traded_value [] = pos 0
traded_value (x ∷ xs) = value_of x +ℤ traded_value xs

-- A trade of something, at a price that the incoming order's limit allows.
abbrev pub IsFair : Order → Event → Type 0
IsFair o (trade_executed t) =
    (0 < t.quantity) × (limit_crosses (buys o) o.price (some t.price) ≡ true)
IsFair o _ = Unit {0}

abbrev pub AllFair : Order → List Event → Type 0
AllFair o [] = Unit {0}
AllFair o (x ∷ xs) = IsFair o x × AllFair o xs

pub AllFair-append :
    (o : Order) (xs ys : List Event) → AllFair o xs → AllFair o ys → AllFair o (xs ++ ys)
AllFair-append o [] ys f g = g
AllFair-append o (x ∷ xs) ys f g = (f.0, AllFair-append o xs ys f.1 g)

-- Fairness depends on the side and the price of the order alone.
pub AllFair-of_same :
    (o o' : Order) (xs : List Event)
    → o'.price ≡ o.price
    → o'.side ≡ o.side
    → AllFair o' xs
    → AllFair o xs
AllFair-of_same o o' [] ep es f = tt
AllFair-of_same o o' (x ∷ xs) ep es f = (IsFair_of_same x f.0, AllFair-of_same o o' xs ep es f.1)
  where
    IsFair_of_same : (y : Event) → IsFair o' y → IsFair o y
    IsFair_of_same (trade_executed t) g = ground arith
    IsFair_of_same _ g = tt

pub traded_quantity-append :
    (xs ys : List Event) → traded_quantity (xs ++ ys) ≡ traded_quantity xs + traded_quantity ys
unfolding traded_quantity
traded_quantity-append [] ys = omega arith
traded_quantity-append (x ∷ xs) ys = omega (arith, traded_quantity-append xs ys)

pub traded_value-append :
    (xs ys : List Event) → traded_value (xs ++ ys) ≡ traded_value xs +ℤ traded_value ys
unfolding traded_value
traded_value-append [] ys = omega int_laws
traded_value-append (x ∷ xs) ys = rw (traded_value-append xs ys) (omega int_laws)

-- The order's totals grow by what the events report, and every trade is fair to it.
pub record Accounts (o o' : Order) (events : List Event) : Type 0 where
  pub cum_qty : o'.cum_qty ≡ o.cum_qty + traded_quantity events
  pub notional : o'.notional_units ≡ o.notional_units +ℤ traded_value events
  pub fair : AllFair o events

abbrev pub IsQuiet : Event → Type 0
IsQuiet (trade_executed t) = ⊥
IsQuiet _ = Unit {0}

abbrev pub AllQuiet : List Event → Type 0
AllQuiet [] = Unit {0}
AllQuiet (x ∷ xs) = IsQuiet x × AllQuiet xs

+ℤ-zero : (a : ℤ) → a +ℤ pos 0 ≡ a
+ℤ-zero a = omega int_laws

quiet-quantity : (xs : List Event) → AllQuiet xs → traded_quantity xs ≡ 0
unfolding traded_quantity
quiet-quantity [] q = refl
quiet-quantity (trade_executed t ∷ xs) q = absurd q.0
quiet-quantity (x ∷ xs) q = ground (arith, quiet-quantity xs q.1)

quiet-value : (xs : List Event) → AllQuiet xs → traded_value xs ≡ pos 0
unfolding traded_value ◌+ℤ◌
quiet-value [] q = refl
quiet-value (trade_executed t ∷ xs) q = absurd q.0
quiet-value (x ∷ xs) q = rw (quiet-value xs q.1)

quiet-fair : (o : Order) (xs : List Event) → AllQuiet xs → AllFair o xs
quiet-fair o [] q = tt
quiet-fair o (trade_executed t ∷ xs) q = absurd q.0
quiet-fair o (x ∷ xs) q = (tt, quiet-fair o xs q.1)

pub execution_events_lem :
    (e : MatchingEngine) (h : Heap) (a r q : ℕ) (p : ℤ) (id : ℕ) (o : Order)
    → 0 < q
    → prices_cross o (some p) ≡ true
    → (traded_quantity (execution_events e h a r q p id) ≡ q)
      × (traded_value (execution_events e h a r q p id) ≡ p *ℤ q)
      × AllFair o (execution_events e h a r q p id)
unfolding traded_quantity traded_value execution_events fill_of prices_cross
execution_events_lem e h a r q p id o live crosses =
    (omega arith, omega int_laws, (tt, (tt, ((live, crosses), tt))))

-- Events without a trade account for an order whose totals stay.
pub Accounts-of_quiet :
    {o o' : Order} (events : List Event) → SameTotals o o' → AllQuiet events → Accounts o o' events
Accounts-of_quiet {o} {o'} events s q = record {
  cum_qty = omega (arith, s.cum_qty, quiet-quantity events q);
  notional = rw (s.notional, quiet-value events q, +ℤ-zero o.notional_units);
  fair = quiet-fair o events q;
}

pub Accounts-trans :
    {o o' o'' : Order} (xs ys : List Event)
    → o'.price ≡ o.price
    → o'.side ≡ o.side
    → Accounts o o' xs
    → Accounts o' o'' ys
    → Accounts o o'' (xs ++ ys)
Accounts-trans {o} {o'} {o''} xs ys ep es v w = record {
  cum_qty = omega (arith, traded_quantity-append xs ys, v.cum_qty, w.cum_qty);
  notional = rw (w.notional, v.notional, traded_value-append xs ys) (omega int_laws);
  fair = AllFair-append o xs ys v.fair (AllFair-of_same o o' ys ep es w.fair);
}
