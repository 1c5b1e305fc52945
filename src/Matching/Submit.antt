-- ===== src/Matching/Submit.antt =====
-- `submit` (exchangesim/core/matching.py) as a whole: what it leaves on the book.
use exchange_sim.Prelude.{
  ℕ, ◌<◌, ◌≡◌, refl, sym, ap, subst, ◌∙◌, ◌⊎◌, inl, inr, Bool, true, false, ◌&&◌, Option, none,
  some, List, [], ◌∷◌, arith, if◌then◌else◌, ltb, ltb→lt, if_cases,
}
use exchange_sim.Enums.{
  is_terminal, is_market, OrderStatus, new, filled, rejected, CancelReason, post_only,
  post_only_would_cross,
}
use exchange_sim.Orders.{
  Order, leaves_qty, is_immediate, has_inst, write_self, Returns, Returns-map, Returns-then,
  SameTerms, SameTerms-refl, SameTerms-of_eq, SameTotals-refl, ok, ◌>>=◌,
}
use exchange_sim.Events.{Event, order_rejected, accepted}
use exchange_sim.Book.{is_crossed}
use exchange_sim.Book.Store.{IsValidBook, IsAbsent}
use exchange_sim.Book.Crossing.{
  IsUncrossed, Within-IsUncrossed, IsUncrossed-of-is_crossed, is_crossed_of-IsUncrossed,
}
use exchange_sim.Matching.{
  MatchingEngine, Desk, set_status, expire, rest_order, after_match, prepend, precheck, acknowledge,
  would_cross, enter, submit, match_order, best_match,
}
use exchange_sim.Matching.Trades.{Accounts, Accounts-of_quiet, Accounts-trans}
use exchange_sim.Matching.Desks.{IsGood, put_incoming-IsGood}
use exchange_sim.Matching.Loop.{Settled, match_order-Settled}
use exchange_sim.Matching.Entered.{
  rest-Entered, Entered, expire-Entered, must_not_rest, must_not_rest-congr, status-Accounts,
}

-- One stretch of entering an order after another that only settled it.
Entered-after :
    {a : ℕ} {allow : Bool} {d d' : Desk} (xs : List Event) (out : Desk × List Event)
    → SameTerms (d.heap a) (d'.heap a)
    → Accounts (d.heap a) (d'.heap a) xs
    → (IsUncrossed d.book → IsUncrossed d'.book)
    → Entered a allow d' out
    → Entered a allow d (prepend xs out)
Entered-after xs out t v u w = record {
  book = w.book;
  accounts = Accounts-trans xs out.1 t.price t.side v w.accounts;
  uncrossed = λ on n. w.uncrossed on (u n);
  last = w.last;
  gone = λ on must. w.gone on (must_not_rest-congr _ _ t ∙ must);
}

module _ (e : MatchingEngine) (a : ℕ) where
  closed-Entered : (d : Desk) → IsGood a d → leaves_qty (d.heap a) ≡ 0 → Entered a true d (d, [])
  closed-Entered d g z = record {
    book = g.book;
    accounts = Accounts-of_quiet [] (SameTotals-refl (d.heap a)) tt;
    uncrossed = λ _ u. u;
    last = λ p live priced. absurd (omega arith);
    gone = λ _ _. (g.absent, z);
  }

  closed_status :
      (d : Desk) (status : OrderStatus)
      → is_terminal status ≡ true
      → leaves_qty (record (d.heap a) { status = status }) ≡ 0
  unfolding leaves_qty
  closed_status d status t = rw t

  filled-Entered : (d : Desk) → IsGood a d → Entered a true d (set_status a filled d, [])
  filled-Entered d g =
      let o = record (d.heap a) { status = filled } in
      let good = put_incoming-IsGood a o d g in
      record {
        book = good.book;
        accounts = status-Accounts a d g filled [] tt;
        uncrossed = λ _ u. u;
        last = λ p live priced.
            absurd
              (omega (arith, ap leaves_qty (write_self d.heap a o), closed_status d filled refl));
        gone = λ _ _.
            (good.absent, ap leaves_qty (write_self d.heap a o) ∙ closed_status d filled refl);
      }

  after_match-Entered :
      (ack : Bool) (d : Desk)
      → IsGood a d
      → (leaves_qty (d.heap a) ≡ 0) ⊎ (best_match d.heap d.book (d.heap a) ≡ none)
      → Entered a true d (after_match e a ack d)
  unfolding after_match
  after_match-Entered ack d g done =
      if_cases (Entered a true d) (ltb 0 (leaves_qty (d.heap a))) _ _
        (λ live.
          if_cases (Entered a true d) (is_market (d.heap a).order_type) _ _
            (λ _. expire-Entered a d g e true _)
            λ priced.
              if_cases (Entered a true d) (is_immediate (d.heap a)) _ _
                (λ _. expire-Entered a d g e true _)
                λ day.
                  rest-Entered a d g (ltb→lt 0 _ live) true ack (λ _. cc (priced, day))
                    (λ _. still_open (ltb→lt 0 _ live) done))
        λ shut.
          if_cases (Entered a true d) (is_terminal (d.heap a).status) _ _
            (λ _. closed-Entered d g (ground arith)) (λ _. filled-Entered d g)
    where
      still_open :
          0 < leaves_qty (d.heap a)
          → (leaves_qty (d.heap a) ≡ 0) ⊎ (best_match d.heap d.book (d.heap a) ≡ none)
          → best_match d.heap d.book (d.heap a) ≡ none
      still_open live (inl z) = absurd (omega arith)
      still_open live (inr n) = n

  enter-Entered : (d : Desk) → IsGood a d → Returns (Entered a true d) (enter e a d)
  unfolding enter
  enter-Entered d g = by_precheck (precheck e (d.heap a) d)
    where
      by_precheck :
          (blocked : Option CancelReason)
          → Returns (Entered a true d) (elim blocked [
            | some reason ↦ ok (expire e a reason d)
            | none ↦ do
              (d1, fills) ← match_order e a d
              ok (prepend fills (after_match e a e.ack_on_entry d1))
          ])
      by_precheck (some reason) = expire-Entered a d g e true reason
      by_precheck none =
          Returns-then (Settled a d) (Entered a true d) (match_order e a d) _
            (match_order-Settled e a d g)
            λ out s.
              Entered-after out.1 _ s.terms s.accounts (Within-IsUncrossed s.within)
                (after_match-Entered e.ack_on_entry out.0 s.good s.done)

  -- What the acknowledgement leaves to the matching.
  record Acked (d : Desk) (out : Desk × List Event) : Type 0 where
    good : IsGood a out.0
    terms : SameTerms (d.heap a) (out.0.heap a)
    accounts : Accounts (d.heap a) (out.0.heap a) out.1
    book : out.0.book ≡ d.book
    live : 0 < leaves_qty (out.0.heap a)

  acknowledge-Acked :
      (d : Desk) → IsGood a d → 0 < leaves_qty (d.heap a) → Acked d (acknowledge e a d)
  unfolding acknowledge accepted leaves_qty
  acknowledge-Acked d g live =
      if_cases (Acked d) e.ack_on_entry _ _
        (λ _. record {
          good = put_incoming-IsGood a acked d g;
          terms =
              SameTerms-of_eq same
                (record { price = refl; side = refl; order_type = refl; time_in_force = refl });
          accounts = status-Accounts a d g new _ (tt, tt);
          book = refl;
          live = rw same (ground arith);
        })
        (λ _. record {
          good = g;
          terms = SameTerms-refl (d.heap a);
          accounts = Accounts-of_quiet [] (SameTotals-refl (d.heap a)) tt;
          book = refl;
          live = live;
        })
    where
      acked : Order
      acked = record (d.heap a) { status = new }

      same : (set_status a new d).heap a ≡ acked
      same = write_self d.heap a acked

  rejected-Entered :
      (allow : Bool) (d : Desk)
      → IsGood a d
      → Entered a allow d (set_status a rejected d, order_rejected a post_only_would_cross ∷ [])
  rejected-Entered allow d g =
      let o = record (d.heap a) { status = rejected } in
      let good = put_incoming-IsGood a o d g in
      record {
        book = good.book;
        accounts = status-Accounts a d g rejected _ (tt, tt);
        uncrossed = λ _ u. u;
        last = λ p live priced.
            absurd
              (omega (arith, ap leaves_qty (write_self d.heap a o), closed_status d rejected refl));
        gone = λ _ _.
            (good.absent, ap leaves_qty (write_self d.heap a o) ∙ closed_status d rejected refl);
      }

  pub submit-Entered :
      (allow : Bool) (d : Desk)
      → IsGood a d
      → 0 < leaves_qty (d.heap a)
      → Returns (Entered a allow d) (submit e a allow d)
  unfolding submit
  submit-Entered allow d g live =
      if_cases (Returns (Entered a allow d))
        (has_inst post_only (d.heap a).exec_inst && would_cross d.book (d.heap a)) _ _
        (λ _. rejected-Entered allow d g) (λ _. by_phase allow)
    where
      ack : Acked d (acknowledge e a d)
      ack = acknowledge-Acked d g live

      d1 : Desk
      d1 = (acknowledge e a d).0

      events : List Event
      events = (acknowledge e a d).1

      uncrossed : IsUncrossed d.book → IsUncrossed d1.book
      uncrossed u = subst IsUncrossed (sym ack.book) u

      by_phase :
          (b : Bool)
          → Returns (Entered a b d) (
              if b
              then (enter e a d1 >>= λ done. ok (prepend events done))
              else ok (prepend events (rest_order a e.ack_on_entry d1)))
      by_phase true =
          Returns-then (Entered a true d1) (Entered a true d) (enter e a d1) _
            (enter-Entered d1 ack.good)
            λ out w. Entered-after events out ack.terms ack.accounts uncrossed w
      by_phase false =
          Entered-after events _ ack.terms ack.accounts uncrossed
            (rest-Entered a d1 ack.good ack.live false e.ack_on_entry (λ s. cc) (λ s. cc))

-- Entering a live order that is not on the book always returns: no fill is refused and the loop ends.
-- It leaves the book valid, and the order's executed quantity and notional grown by exactly what the
-- reported trades add up to, each trade within the order's limit.
pub submit_lem :
    (e : MatchingEngine) (a : ℕ) (allow : Bool) (d : Desk)
    → IsGood a d
    → 0 < leaves_qty (d.heap a)
    → Returns
        (λ out. IsValidBook out.0.heap out.0.book × Accounts (d.heap a) (out.0.heap a) out.1)
        (submit e a allow d)
submit_lem e a allow d g live =
    Returns-map _ _ (submit e a allow d) (submit-Entered e a allow d g live)
      λ out w. (w.book, w.accounts)

-- Where orders match, entering a live order that is not on the book into a book that is not crossed
-- always returns, with a book that is not crossed.
pub submit-is_crossed :
    (e : MatchingEngine) (a : ℕ) (d : Desk)
    → IsGood a d
    → 0 < leaves_qty (d.heap a)
    → is_crossed d.book ≡ false
    → Returns (λ out. is_crossed out.0.book ≡ false) (submit e a true d)
submit-is_crossed e a d g live apart =
    Returns-map _ _ (submit e a true d) (submit-Entered e a true d g live) λ out w.
      is_crossed_of-IsUncrossed out.0.book w.book
        (w.uncrossed refl (IsUncrossed-of-is_crossed d.book g.book apart))

-- Where orders match, entering a live market, IOC or FOK order that is not on the book always
-- returns, with the order closed and nowhere on the book.
pub submit-IsAbsent :
    (e : MatchingEngine) (a : ℕ) (d : Desk)
    → IsGood a d
    → 0 < leaves_qty (d.heap a)
    → must_not_rest (d.heap a) ≡ true
    → Returns (λ out. IsAbsent a out.0.book × (leaves_qty (out.0.heap a) ≡ 0)) (submit e a true d)
submit-IsAbsent e a d g live never =
    Returns-map _ _ (submit e a true d) (submit-Entered e a true d g live)
      λ out w. w.gone refl never
