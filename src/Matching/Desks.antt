-- ===== src/Matching/Desks.antt =====
-- What a step of matching (exchangesim/core/matching.py) may do to a desk while an order is being
-- entered: the book stays valid and the incoming order stays off it.
use exchange_sim.Prelude.{
  ℕ, suc, ◌<◌, min, ◌≡◌, sym, subst, ◌∙◌, inl, inr, false, some, arith, ◌==◌, Bool-cases,
}
use exchange_sim.Prelude.Int.{ℤ}
use exchange_sim.Orders.{
  Order, write, write_self, write_ne, leaves_qty, buys, with_fill, ok, apply_fill,
}
use exchange_sim.Orders.Lifecycle.{apply_fill_lem}
use exchange_sim.Book.Store.{
  IsValidBook, IsAbsent, write_absent-IsValidBook, write_live-IsValidBook, remove_order-IsValidBook,
  remove_order-IsAbsent, remove_order_keeps_IsAbsent, remove_order-congr,
}
use exchange_sim.Matching.{
  MatchingEngine, Desk, put, take_off, settle, execute, execute_at, execution_events,
}

pub record IsGood (a : ℕ) (d : Desk) : Type 0 where
  pub book : IsValidBook d.heap d.book
  pub absent : IsAbsent a d.book

pub put_incoming-IsGood : (a : ℕ) (o : Order) (d : Desk) → IsGood a d → IsGood a (put a o d)
put_incoming-IsGood a o d g = record {
  book = write_absent-IsValidBook g.book a o g.absent;
  absent = g.absent;
}

pub take_off-IsGood : (a r : ℕ) (d : Desk) → IsGood a d → IsGood a (take_off r d)
take_off-IsGood a r d g = record {
  book = remove_order-IsValidBook d.heap r d.book g.book;
  absent = remove_order_keeps_IsAbsent d.heap a r d.book g.absent;
}

-- An order taken off the book may then be changed.
pub drop-IsGood : (a r : ℕ) (o : Order) (d : Desk) → IsGood a d → IsGood a (put r o (take_off r d))
drop-IsGood a r o d g =
    let off = take_off-IsGood a r d g in
    record {
      book = write_absent-IsValidBook off.book r o (remove_order-IsAbsent d.heap r d.book g.book);
      absent = off.absent;
    }

pub settle-IsGood :
    (a r : ℕ) (o : Order) (d : Desk)
    → IsGood a d
    → o.price ≡ (d.heap r).price
    → buys o ≡ buys (d.heap r)
    → IsGood a (settle r (put r o d))
settle-IsGood a r o d g ep es = elim (Bool-cases (leaves_qty (write d.heap r o r) == 0)) [
  | inl e ↦
      let same = write_self d.heap r o in
      rw (e, remove_order-congr d.heap (write d.heap r o) r d.book (cc (same, ep)) (cc (same, es)))
        (drop-IsGood a r o d g)
  | inr e ↦
      rw e (record {
        book = write_live-IsValidBook g.book r o ep es (ground arith);
        absent = g.absent;
      })
]

-- The desk after an execution, and its events, where the guards of both fills pass.
abbrev pub executed : MatchingEngine → ℕ → ℕ → ℕ → ℤ → Desk → Desk
executed e a r quantity p d =
    put r (with_fill (d.heap r) quantity p e.now) (put a (with_fill (d.heap a) quantity p e.now) d)

abbrev pub traded : ℕ → ℕ → Desk → ℕ
traded a r d = min (leaves_qty (d.heap a)) (leaves_qty (d.heap r))

execute_at_lem :
    (e : MatchingEngine) (a r q : ℕ) (p : ℤ) (d : Desk) (o s : Order)
    → apply_fill (d.heap a) q p e.now ≡ ok o
    → apply_fill (write d.heap a o r) q p e.now ≡ ok s
    → let d2 = put r s (put a o d) in
      execute_at e a r q p d
      ≡ ok (
        record (settle r d2) { trade_ids = suc d.trade_ids },
        execution_events e d2.heap a r q p d.trade_ids,
      )
unfolding execute_at
execute_at_lem e a r q p d o s h k = rw (h, k)

-- Two live orders of different ids always execute.
pub execute_lem :
    (e : MatchingEngine) (a r : ℕ) (p : ℤ) (d : Desk)
    → (a == r) ≡ false
    → 0 < leaves_qty (d.heap a)
    → 0 < leaves_qty (d.heap r)
    → (d.heap r).price ≡ some p
    → let d2 = executed e a r (traded a r d) p d in
      execute e a r d
      ≡ ok (
        record (settle r d2) { trade_ids = suc d.trade_ids },
        execution_events e d2.heap a r (traded a r d) p d.trade_ids,
      )
execute_lem e a r p d n la lr ep =
    let q = traded a r d in
    let other = write_ne d.heap a r (with_fill (d.heap a) q p e.now) n in
    priced
    ∙ execute_at_lem e a r q p d _ _
        (apply_fill_lem (d.heap a) q p e.now (omega arith) (omega arith))
        (subst (λ x. apply_fill x q p e.now ≡ ok (with_fill (d.heap r) q p e.now)) (sym other)
          (apply_fill_lem (d.heap r) q p e.now (omega arith) (omega arith)))
  where
    priced : execute e a r d ≡ execute_at e a r (traded a r d) p d
    priced = unfold execute in (ground (arith, ep))
