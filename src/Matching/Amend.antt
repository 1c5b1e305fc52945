-- ===== src/Matching/Amend.antt =====
-- `amend` and `_reinsert_keeping_priority` of exchangesim/core/matching.py.
pub mod Valid
use exchange_sim.Prelude.{
  ℕ, zero, Bool, true, false, not, ◌&&◌, ◌||◌, Option, none, some, List, [], ◌∷◌, ltb, leb,
  if◌then◌else◌,
}
use exchange_sim.Prelude.Int.{ℤ, eq_test}
use exchange_sim.Enums.{is_live_status}
use exchange_sim.Orders.{Order, Heap, leaves_qty, buys}
use exchange_sim.Book.{
  BookSide, OrderBook, add, remove, orders, side_of, set_side, add_order, remove_order,
}
use exchange_sim.Matching.{MatchingEngine, Desk, put}

abbrev pub same_price : Option ℤ → Option ℤ → Bool
same_price none none = true
same_price (some p) (some q) = eq_test p q
same_price _ _ = false

-- The orders of a side whose price is `p`, in the order of `side.orders()`.
unfoldable pub priced_at : Heap → Option ℤ → List ℕ → List ℕ
priced_at h p [] = []
priced_at h p (a ∷ ids) =
    let rest = priced_at h p ids in if same_price (h a).price p then a ∷ rest else rest

-- `sorted(..., key=sequence)`, which is stable: each goes behind those that are not later.
unfoldable pub insert_by_sequence : Heap → ℕ → List ℕ → List ℕ
insert_by_sequence h a [] = a ∷ []
insert_by_sequence h a (b ∷ ids) =
    if leb (h b).sequence (h a).sequence then b ∷ insert_by_sequence h a ids else a ∷ b ∷ ids

unfoldable pub sort_onto : Heap → List ℕ → List ℕ → List ℕ
sort_onto h sorted [] = sorted
sort_onto h sorted (a ∷ ids) = sort_onto h (insert_by_sequence h a sorted) ids

unfoldable pub remove_each : Heap → List ℕ → BookSide → BookSide
remove_each h [] s = s
remove_each h (a ∷ ids) s = remove_each h ids (remove a (h a).price s).1

unfoldable pub add_each : Heap → List ℕ → BookSide → BookSide
add_each h [] s = s
add_each h (a ∷ ids) s = add_each h ids (add a (h a).price s)

unfoldable pub reinsert_keeping_priority : ℕ → Desk → Desk
reinsert_keeping_priority a d =
    let order = d.heap a in
    let side = side_of d.book (buys order) in
    let level_orders = priced_at d.heap order.price (orders side) in
    let restored = sort_onto d.heap (sort_onto d.heap [] level_orders) (a ∷ []) in
    let rebuilt = add_each d.heap restored (remove_each d.heap level_orders side) in
    record d { book = set_side d.book (buys order) rebuilt }

abbrev pub or_same {ℓ} : {A : Type ℓ} → Option A → A → A
or_same none a = a
or_same (some b) a = b

abbrev pub amended_order : MatchingEngine → Order → Option ℕ → Option ℤ → Order
amended_order e o new_quantity new_price = record o {
  price = elim new_price [ none ↦ o.price | some p ↦ some p ];
  quantity = or_same new_quantity o.quantity;
  updated_at = e.now;
}

abbrev pub loses_priority : Order → Order → Bool
loses_priority old amended =
    not (same_price amended.price old.price) || ltb old.quantity amended.quantity

-- Where an amended order goes.
unfoldable pub replace_in_book : ℕ → Bool → Bool → Desk → Desk
replace_in_book a was_resting loses d =
    if ltb 0 (leaves_qty (d.heap a))
    then (if was_resting && not loses
        then reinsert_keeping_priority a d
        else if was_resting || is_live_status (d.heap a).status
        then record d { book = add_order d.heap a d.book }
        else d)
    else d

-- Whether time priority was kept, and the desk.
unfoldable pub amend : MatchingEngine → ℕ → Option ℕ → Option ℤ → Desk → Bool × Desk
amend e a new_quantity new_price d =
    let old = d.heap a in
    let amended = amended_order e old new_quantity new_price in
    let loses = loses_priority old amended in
    let (was_resting, off) = remove_order d.heap a d.book in
    (not loses, replace_in_book a was_resting loses (put a amended (record d { book = off })))
