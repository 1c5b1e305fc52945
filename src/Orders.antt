-- ===== src/Orders.antt =====
-- exchangesim/core/orders.py: one order and the methods that change it. An order is an object that
-- the book, the registry and the events share; `Heap` is the store of these objects, at the address
-- that is the order's `order_id`, which the engine draws fresh for each order.
-- Times are opaque numbers: a clock reading, or `none` without a clock. Fields that the core only
-- carries along (capacity, account, cash_margin, margin_type, text) are left out.
pub mod Lifecycle
use exchange_sim.Prelude.{
  ◌≡◌, refl, ◌∙◌, arith, ℕ, ◌+◌, ◌-◌, ◌/◌, max, String, Bool, true, false, not, ◌&&◌, ◌||◌, Option,
  none, some, List, [], ◌∷◌, ◌++◌, ltb, leb, ◌==◌, if◌then◌else◌, or_else,
}
use exchange_sim.Prelude.Int.{ℤ, pos, ◌+ℤ◌, ◌*ℤ◌}
use exchange_sim.Enums.{
  Side, OrderType, TimeInForce, OrderStatus, new, filled, partially_filled, cancelled, ExecInst,
  StpMode, is_buy, is_terminal, is_live_status, never_rests, same_inst,
}

pub record Order : Type 0 where
  pub cl_ord_id : Option String
  pub orig_cl_ord_id : Option String
  pub session_key : String
  pub market : String
  pub symbol : String
  pub side : Side
  pub order_type : OrderType
  pub time_in_force : TimeInForce
  pub price : Option ℤ
  pub quantity : ℕ
  pub min_qty : ℕ
  pub exec_inst : List ExecInst
  pub mpid : Option String
  pub stp_id : Option String
  pub stp_instruction : Option StpMode
  pub cum_qty : ℕ
  pub notional_units : ℤ
  pub status : OrderStatus
  pub sequence : ℕ
  pub created_at : Option ℕ
  pub updated_at : Option ℕ
  pub chain : List (Option String)

abbrev pub Heap : Type 0
Heap = ℕ → Order

abbrev pub write : Heap → ℕ → Order → Heap
write h a o b = if a == b then o else h b

pub write_self : (h : Heap) (a : ℕ) (o : Order) → write h a o a ≡ o
write_self h a o = ground arith

pub write_ne : (h : Heap) (a b : ℕ) (o : Order) → (a == b) ≡ false → write h a o b ≡ h b
write_ne h a b o n = rw n

-- The terms of an order that no execution changes.
pub record SameTerms (o o' : Order) : Type 0 where
  pub price : o'.price ≡ o.price
  pub side : o'.side ≡ o.side
  pub order_type : o'.order_type ≡ o.order_type
  pub time_in_force : o'.time_in_force ≡ o.time_in_force

pub SameTerms-refl : (o : Order) → SameTerms o o
SameTerms-refl o = record { price = refl; side = refl; order_type = refl; time_in_force = refl }

pub SameTerms-trans : {o o' o'' : Order} → SameTerms o o' → SameTerms o' o'' → SameTerms o o''
SameTerms-trans s t = record {
  price = t.price ∙ s.price;
  side = t.side ∙ s.side;
  order_type = t.order_type ∙ s.order_type;
  time_in_force = t.time_in_force ∙ s.time_in_force;
}

pub SameTerms-of_eq : {o o' p : Order} → p ≡ o' → SameTerms o o' → SameTerms o p
SameTerms-of_eq e s = record {
  price = cc (e, s.price);
  side = cc (e, s.side);
  order_type = cc (e, s.order_type);
  time_in_force = cc (e, s.time_in_force);
}

-- Nothing was executed of the order in between.
pub record SameTotals (o o' : Order) : Type 0 where
  pub cum_qty : o'.cum_qty ≡ o.cum_qty
  pub notional : o'.notional_units ≡ o.notional_units

pub SameTotals-refl : (o : Order) → SameTotals o o
SameTotals-refl o = record { cum_qty = refl; notional = refl }

pub SameTotals-trans : {o o' o'' : Order} → SameTotals o o' → SameTotals o' o'' → SameTotals o o''
SameTotals-trans s t = record {
  cum_qty = t.cum_qty ∙ s.cum_qty;
  notional = t.notional ∙ s.notional;
}

pub SameTotals-of_eq : {o o' p : Order} → p ≡ o' → SameTotals o o' → SameTotals o p
SameTotals-of_eq e s = record { cum_qty = cc (e, s.cum_qty); notional = cc (e, s.notional) }

-- The exceptions of the core (`no_price` is the TypeError of arithmetic on a price of None), and fuel
-- that ran out.
pub data Error : Type 0 where
  fill_not_positive fill_exceeds_leaves no_price duplicate_cl_ord_id unknown_rule : Error
  no_reference_data no_market id_format_too_long ids_exhausted : Error
  fuel_exhausted : Error

pub data Result {ℓ} (A : Type ℓ) : Type ℓ where
  ok : A → Result A
  raised : Error → Result A

-- The code returns, with a result that has the property.
abbrev pub Returns {ℓ} : {A : Type ℓ} → (A → Type 0) → Result A → Type 0
Returns P (ok a) = P a
Returns P (raised e) = ⊥

infixl 5 ◌>>=◌
abbrev pub ◌>>=◌ {ℓ κ} : {A : Type ℓ} {B : Type κ} → Result A → (A → Result B) → Result B
ok a >>= f = f a
raised e >>= f = raised e

-- What a computation returns may be passed on.
pub Returns-bind {ℓ κ} :
    {A : Type ℓ} {B : Type κ} (P : B → Type 0) (f : A → Result B) (m : Result A)
    → Returns (λ a. Returns P (f a)) m
    → Returns P (m >>= f)
Returns-bind P f (ok a) h = h
Returns-bind P f (raised e) h = h

pub Returns-then {ℓ κ} :
    {A : Type ℓ} {B : Type κ} (P : A → Type 0) (Q : B → Type 0) (m : Result A) (f : A → Result B)
    → Returns P m
    → ((a : A) → P a → Returns Q (f a))
    → Returns Q (m >>= f)
Returns-then P Q (ok a) f h k = k a h
Returns-then P Q (raised e) f h k = h

pub Returns-map {ℓ} :
    {A : Type ℓ} (P Q : A → Type 0) (m : Result A)
    → Returns P m
    → ((a : A) → P a → Q a)
    → Returns Q m
Returns-map P Q (ok a) h k = k a h
Returns-map P Q (raised e) h k = h

abbrev pub has_inst : ExecInst → List ExecInst → Bool
has_inst i [] = false
has_inst i (j ∷ js) = same_inst i j || has_inst i js

unfoldable pub leaves_qty : Order → ℕ
leaves_qty o = if is_terminal o.status then 0 else max 0 (o.quantity - o.cum_qty)

unfoldable pub is_live : Order → Bool
unfolding leaves_qty
is_live o = is_live_status o.status && ltb 0 (leaves_qty o)

abbrev pub is_filled : Order → Bool
is_filled o = leb o.quantity o.cum_qty

abbrev pub is_immediate : Order → Bool
is_immediate o = never_rests o.time_in_force

abbrev pub buys : Order → Bool
buys o = is_buy o.side

-- The order after a fill that the two guards of `apply_fill` let through.
abbrev pub with_fill : Order → ℕ → ℤ → Option ℕ → Order
with_fill o quantity price now =
    let cum = o.cum_qty + quantity in
    record o {
      cum_qty = cum;
      notional_units = o.notional_units +ℤ price *ℤ quantity;
      status = if leb o.quantity cum then filled else partially_filled;
      updated_at = or_else now o.updated_at;
    }

unfoldable pub apply_fill : Order → ℕ → ℤ → Option ℕ → Result Order
unfolding leaves_qty
apply_fill o quantity price now =
    if leb quantity 0
    then raised fill_not_positive
    else if ltb (leaves_qty o) quantity
    then raised fill_exceeds_leaves
    else ok (with_fill o quantity price now)

-- The status that `reduce_quantity` gives an order once its quantity is lowered.
abbrev settle_status : Order → OrderStatus
settle_status o =
    if is_terminal o.status
    then o.status
    else if leb o.quantity o.cum_qty
    then (if o.cum_qty == 0 then cancelled else filled)
    else o.status

unfoldable pub reduce_quantity : Order → ℕ → Option ℕ → Order
reduce_quantity o by now =
    let reduced = record o {
      quantity = max o.cum_qty (o.quantity - by);
      updated_at = or_else now o.updated_at;
    } in
    record reduced { status = settle_status reduced }

unfoldable pub cancel : Order → Option ℕ → Order
cancel o now =
    if is_terminal o.status
    then o
    else record o { status = cancelled; updated_at = or_else now o.updated_at }

unfoldable pub rename : Order → Option String → Option ℕ → Order
rename o cl_ord_id now = record o {
  orig_cl_ord_id = o.cl_ord_id;
  cl_ord_id = cl_ord_id;
  chain = o.chain ++ cl_ord_id ∷ [];
  updated_at = or_else now o.updated_at;
}
