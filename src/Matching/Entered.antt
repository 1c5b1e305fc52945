-- ===== src/Matching/Entered.antt =====
-- What entering an order in exchangesim/core/matching.py comes to, and what becomes of it after matching.
use exchange_sim.Prelude.{
  ℕ, ◌<◌, ◌≡◌, refl, ap, ◌∙◌, Bool, true, false, ◌||◌, none, some, List, arith, if◌then◌else◌, ltb,
  last_key,
}
use exchange_sim.Prelude.Int.{ℤ}
use exchange_sim.Enums.{is_market, OrderStatus, new, partially_filled, CancelReason}
use exchange_sim.Orders.{
  Order, leaves_qty, buys, is_immediate, has_inst, write_self, Returns, Returns-map, Returns-then,
  SameTerms, SameTerms-refl, SameTerms-trans, SameTerms-of_eq, SameTotals, SameTotals-refl,
  SameTotals-of_eq, ok, ◌>>=◌,
}
use exchange_sim.Orders
use exchange_sim.Orders.Lifecycle.{leaves_qty-cancel, SameTotals-cancel}
use exchange_sim.Events.{Event, accepted}
use exchange_sim.Book.{side_of, add_order}
use exchange_sim.Book.Queue.{queue}
use exchange_sim.Book.Store.{IsValidBook, IsAbsent, add_order-last, add_order-IsValidBook}
use exchange_sim.Book.Crossing.{IsUncrossed, add_order-IsUncrossed}
use exchange_sim.Matching.{MatchingEngine, Desk, set_status, expire, rest_order, best_match}
use exchange_sim.Matching.Pick.{no_match_clear}
use exchange_sim.Matching.Trades.{Accounts, Accounts-of_quiet, AllQuiet}
use exchange_sim.Matching.Desks.{IsGood, put_incoming-IsGood}

-- The order may only be filled now, not rest.
abbrev pub must_not_rest : Order → Bool
must_not_rest o = is_market o.order_type || is_immediate o

-- What matching an order leaves behind: the order last in its queue if it rests, a valid book that is not crossed by it, the reported trades
-- accounted for, and an order that may not rest closed and off the book.
pub record Entered (a : ℕ) (allow_matching : Bool) (d : Desk) (out : Desk × List Event)
    : Type 0 where
  pub book : IsValidBook out.0.heap out.0.book
  pub accounts : Accounts (d.heap a) (out.0.heap a) out.1
  pub uncrossed : allow_matching ≡ true → IsUncrossed d.book → IsUncrossed out.0.book
  pub last :
      (p : ℤ)
      → 0 < leaves_qty (out.0.heap a)
      → (out.0.heap a).price ≡ some p
      → last_key (queue p (side_of out.0.book (buys (out.0.heap a)))) ≡ some a
  pub gone :
      allow_matching ≡ true
      → must_not_rest (d.heap a) ≡ true
      → IsAbsent a out.0.book × (leaves_qty (out.0.heap a) ≡ 0)

module _ (a : ℕ) (d : Desk) (g : IsGood a d) where
  pub status-Accounts :
      (status : OrderStatus) (events : List Event)
      → AllQuiet events
      → Accounts (d.heap a) ((set_status a status d).heap a) events
  status-Accounts status events q =
      Accounts-of_quiet events
        (SameTotals-of_eq (write_self d.heap a _) (record { cum_qty = refl; notional = refl })) q

  pub expire-Entered :
      (e : MatchingEngine) (allow : Bool) (why : CancelReason)
      → Entered a allow d (expire e a why d)
  expire-Entered e allow why =
      let o = Orders.cancel (d.heap a) e.now in
      let same = write_self d.heap a o in
      let good = put_incoming-IsGood a o d g in
      record {
        book = good.book;
        accounts =
            Accounts-of_quiet _ (SameTotals-of_eq same (SameTotals-cancel (d.heap a) e.now))
              (tt, tt);
        uncrossed = λ _ u. u;
        last = λ p live priced.
            absurd (omega (arith, ap leaves_qty same, leaves_qty-cancel (d.heap a) e.now));
        gone = λ _ _. (good.absent, ap leaves_qty same ∙ leaves_qty-cancel (d.heap a) e.now);
      }

  module _ (live : 0 < leaves_qty (d.heap a)) where
    abbrev resting_status : OrderStatus
    resting_status = if ltb 0 (d.heap a).cum_qty then partially_filled else new

    abbrev marked_order : Order
    marked_order = record (d.heap a) { status = resting_status }

    abbrev marked : Desk
    marked = set_status a resting_status d

    same_marked : marked.heap a ≡ marked_order
    same_marked = write_self d.heap a marked_order

    marked_live : 0 < leaves_qty (marked.heap a)
    unfolding leaves_qty
    marked_live = rw same_marked (ground arith)

    rest-book : IsValidBook marked.heap (add_order marked.heap a marked.book)
    rest-book =
        add_order-IsValidBook marked.heap a marked.book
          (put_incoming-IsGood a marked_order d g).book marked_live

    rest-IsUncrossed :
        best_match d.heap d.book (d.heap a) ≡ none
        → IsUncrossed d.book
        → IsUncrossed (add_order marked.heap a marked.book)
    rest-IsUncrossed n u = add_order-IsUncrossed marked.heap a d.book u λ p q ep mq.
        rw same_marked (
          no_match_clear d.heap d.book (d.heap a) p q g.book n (rw same_marked at ep)
            (rw same_marked at mq))

    rest-quiet : (ack : Bool) → AllQuiet (rest_order a ack d).1
    unfolding rest_order accepted
    rest-quiet ack = ground arith

    pub rest-Entered :
        (allow ack : Bool)
        → (allow ≡ true → must_not_rest (d.heap a) ≡ false)
        → (allow ≡ true → best_match d.heap d.book (d.heap a) ≡ none)
        → Entered a allow d (rest_order a ack d)
    rest-Entered allow ack may none_left = record {
      book = unfold rest_order in rest-book;
      accounts = status-Accounts' (rest-quiet ack);
      uncrossed = λ on u. unfold rest_order in (rest-IsUncrossed (none_left on) u);
      last = λ p open_qty priced.
          unfold rest_order in
          (add_order-last marked.heap a d.book p g.absent (unfold rest_order in priced));
      gone = λ on must. cc (must, may on);
    }
      where
        status-Accounts' :
            AllQuiet (rest_order a ack d).1
            → Accounts (d.heap a) ((rest_order a ack d).0.heap a) (rest_order a ack d).1
        status-Accounts' q =
            unfold rest_order in (status-Accounts resting_status (rest_order a ack d).1 q)

pub must_not_rest-congr : (o o' : Order) → SameTerms o o' → must_not_rest o' ≡ must_not_rest o
must_not_rest-congr o o' t = cc (t.order_type, t.time_in_force)
