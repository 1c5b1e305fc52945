-- ===== src/Matching/Advances.antt =====
-- What one round of matching in exchangesim/core/matching.py may come to.
use exchange_sim.Prelude.{
  ℕ, ◌<◌, ◌≡◌, ◌⊎◌, inl, inr, true, false, not, none, some, arith, ◌==◌, ==_iff, if_cases,
  Bool-cases,
}
use exchange_sim.Orders.{Order, Heap, write, leaves_qty, buys, SameTerms}
use exchange_sim.Book.{opposite_of, remove_order}
use exchange_sim.Book.Levels.{count_orders}
use exchange_sim.Book.Invariant.{Rests}
use exchange_sim.Book.Store.{count_orders-remove_order}
use exchange_sim.Matching.{Desk, Round, take_off, settle, best_match}
use exchange_sim.Matching.Trades.{Accounts}
use exchange_sim.Book.Crossing.{Within, Within-refl, remove_order-Within}
use exchange_sim.Matching.Pick.{Picks, Picks-Rests}
use exchange_sim.Matching.Desks.{IsGood}

-- The orders on the levels that the incoming order may still meet.
abbrev pub against : ℕ → Desk → ℕ
against a d = count_orders (opposite_of d.book (buys (d.heap a))).levels

pub record Advances (a : ℕ) (d : Desk) (round : Round) : Type 0 where
  pub good : IsGood a round.desk
  pub terms : SameTerms (d.heap a) (round.desk.heap a)
  pub accounts : Accounts (d.heap a) (round.desk.heap a) round.events
  pub within : Within round.desk.book d.book
  pub was_live : round.stop ≡ false → 0 < leaves_qty (d.heap a)
  pub progress :
      round.stop ≡ false
      → (leaves_qty (round.desk.heap a) ≡ 0) ⊎ (against a round.desk < against a d)
  pub done :
      round.stop ≡ true
      → (leaves_qty (round.desk.heap a) ≡ 0)
        ⊎ (best_match round.desk.heap round.desk.book (round.desk.heap a) ≡ none)

-- What a round knows of the resting order that it has picked.
module _ {a r : ℕ} {d : Desk} (g : IsGood a d) (k : Picks d.heap d.book (d.heap a) r) where
  pub picked : Rests d.heap (not (buys (d.heap a))) (some k.price) r
  picked = Picks-Rests g.book k

  pub apart : (a == r) ≡ false
  apart = elim (Bool-cases (buys (d.heap a))) [
    | inl e ↦ ground (arith, k.queued, g.absent.off_levels false k.price, ==_iff a r)
    | inr e ↦ ground (arith, k.queued, g.absent.off_levels true k.price, ==_iff a r)
  ]

  fewer :
      count_orders (opposite_of (remove_order d.heap r d.book).1 (buys (d.heap a))).levels
      < against a d
  fewer =
      count_orders-remove_order d.heap r d.book (buys (d.heap a)) k.price picked.at_price
        picked.on_side k.queued

pub settle-heap : (r c : ℕ) (d : Desk) → (settle r d).heap c ≡ d.heap c
settle-heap r c d = ground arith

pub settle-Within : (r : ℕ) (d d' : Desk) → d.book ≡ d'.book → Within (settle r d).book d'.book
settle-Within r d d' e =
    if_cases (λ (x : Desk). Within x.book d'.book) (leaves_qty (d.heap r) == 0) (take_off r d) d
      (λ _. rw (← e) (remove_order-Within d.heap r d.book)) (λ _. rw (← e) (Within-refl d.book))

-- The incoming order after both orders have been written, and the resting one.
pub both_incoming :
    (h : Heap) (a r : ℕ) (o s : Order) → (a == r) ≡ false → write (write h a o) r s a ≡ o
both_incoming h a r o s n = ground arith

pub against-take_off :
    {a r : ℕ} {d : Desk} (g : IsGood a d) (k : Picks d.heap d.book (d.heap a) r) (d' : Desk)
    → d'.book ≡ (remove_order d.heap r d.book).1
    → buys (d'.heap a) ≡ buys (d.heap a)
    → against a d' < against a d
against-take_off g k d' eb es = rw (eb, es) (fewer g k)
