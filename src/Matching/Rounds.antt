-- ===== src/Matching/Rounds.antt =====
-- One round of `_match` (exchangesim/core/matching.py): it returns, keeps the desk good, and either
-- ends the matching or brings it nearer to its end.
use exchange_sim.Prelude.{
  ℕ, ◌+◌, ◌<◌, ◌≡◌, refl, sym, ap, subst, ◌∙◌, ◌⊎◌, inl, inr, true, false, none, some, List, [],
  ◌∷◌, arith, if◌then◌else◌, ◌==◌, ==_iff, ltb, if_cases, Option-cases,
}
use exchange_sim.Prelude.Int.{◌+ℤ◌, ◌*ℤ◌}
use exchange_sim.Enums.{
  is_buy, no_prevention, cancel_newest, cancel_oldest, decrement, StpMode, self_trade_prevention,
}
use exchange_sim.Orders.{
  Order, Heap, write, write_self, write_ne, leaves_qty, buys, with_fill, ok, ◌>>=◌, apply_fill,
  Returns, Returns-bind, SameTerms, SameTerms-refl, SameTerms-trans, SameTotals, SameTotals-refl,
  SameTotals-trans, SameTotals-of_eq, SameTerms-of_eq, reduce_quantity,
}
use exchange_sim.Orders
use exchange_sim.Orders.Lifecycle.{
  leaves_qty-with_fill, leaves_qty-cancel, SameTerms-reduce_quantity, SameTotals-reduce_quantity,
  SameTotals-cancel, SameTerms-cancel,
}
use exchange_sim.Book.Store.{remove_order-congr}
use exchange_sim.Matching.{
  MatchingEngine, Desk, put, cancel_in, take_off, settle, execute, execution_events, apply_stp,
  apply_decrement, cancel_incoming, stp_cancelled, stp_mode_for, go_on, match_round, best_match,
  is_self_trade,
}
use exchange_sim.Events.{Event, order_decremented}
use exchange_sim.Matching.Trades.{
  Accounts-of_quiet, AllQuiet, AllFair, traded_quantity, traded_value, execution_events_lem,
}
use exchange_sim.Book.Crossing.{Within, Within-refl, remove_order-Within}
use exchange_sim.Matching.Pick.{Picks, best_match-Picks}
use exchange_sim.Matching.Desks.{
  IsGood, put_incoming-IsGood, drop-IsGood, settle-IsGood, traded, execute_lem,
}
use exchange_sim.Matching.Advances.{
  Advances, against, against-take_off, apart, both_incoming, picked, settle-Within, settle-heap,
}

ne_zero : {n : ℕ} → (n == 0) ≡ false → 0 < n
ne_zero h = ground arith

module _ (e : MatchingEngine) {a r : ℕ} {d : Desk} (g : IsGood a d)
    (k : Picks d.heap d.book (d.heap a) r) (live : 0 < leaves_qty (d.heap a)) where
  -- The resting order is changed and leaves the book.
  dropped-Advances :
      (o : Order) (events : List Event)
      → AllQuiet events
      → Advances a d (record { stop = false; desk = put r o (take_off r d); events = events })
  dropped-Advances o events q =
      let same = write_ne d.heap r a o (ground (arith, apart g k)) in
      record {
        good = drop-IsGood a r o d g;
        terms = SameTerms-of_eq same (SameTerms-refl (d.heap a));
        accounts = Accounts-of_quiet events (SameTotals-of_eq same (SameTotals-refl (d.heap a))) q;
        within = remove_order-Within d.heap r d.book;
        was_live = λ _. live;
        progress = λ _. inr (against-take_off g k (put r o (take_off r d)) refl (cc (same)));
        done = λ s. cc;
      }

  -- The incoming order is cancelled on a desk that keeps its terms.
  closed-Advances :
      (d' : Desk) (events : List Event)
      → IsGood a d'
      → SameTerms (d.heap a) (d'.heap a)
      → SameTotals (d.heap a) (d'.heap a)
      → Within d'.book d.book
      → AllQuiet events
      → Advances a d (record { stop = true; desk = cancel_in e a d'; events = events })
  closed-Advances d' events g' t s w q =
      let o = Orders.cancel (d'.heap a) e.now in
      let same = write_self d'.heap a o in
      record {
        good = put_incoming-IsGood a o d' g';
        terms = SameTerms-of_eq same (SameTerms-trans t (SameTerms-cancel (d'.heap a) e.now));
        accounts =
            Accounts-of_quiet events
              (SameTotals-of_eq same (SameTotals-trans s (SameTotals-cancel (d'.heap a) e.now))) q;
        within = w;
        was_live = λ _. live;
        progress = λ s. cc;
        done = λ _. inl (cc (same, leaves_qty-cancel (d'.heap a) e.now));
      }

  apply_decrement-Advances : Advances a d (apply_decrement e a r d)
  unfolding apply_decrement
  apply_decrement-Advances =
      if_cases (Advances a d) (leaves_qty (d.heap a) == leaves_qty (d.heap r)) _ _
        (λ _. closed-Advances without _ dropped keeps keeps_totals off (tt, (tt, tt)))
        λ _.
          if_cases (Advances a d) (ltb (leaves_qty (d.heap r)) (leaves_qty (d.heap a))) _ _
            (λ _. shrunk)
            λ _.
              closed-Advances (settle r reduced) _
                (settle-IsGood a r smaller_resting d g
                  (SameTerms-reduce_quantity (d.heap r) _ e.now).price
                  (ap is_buy (SameTerms-reduce_quantity (d.heap r) _ e.now).side))
                (SameTerms-of_eq untouched (SameTerms-refl (d.heap a)))
                (SameTotals-of_eq untouched (SameTotals-refl (d.heap a)))
                (settle-Within r reduced d refl) (tt, (tt, tt))
    where
      aside : (r == a) ≡ false
      aside = ground (arith, apart g k)

      without : Desk
      without = cancel_in e r (take_off r d)

      dropped : IsGood a without
      dropped = drop-IsGood a r (Orders.cancel (d.heap r) e.now) d g

      keeps : SameTerms (d.heap a) (without.heap a)
      keeps =
          SameTerms-of_eq (write_ne d.heap r a (Orders.cancel (d.heap r) e.now) aside)
            (SameTerms-refl (d.heap a))

      keeps_totals : SameTotals (d.heap a) (without.heap a)
      keeps_totals =
          SameTotals-of_eq (write_ne d.heap r a (Orders.cancel (d.heap r) e.now) aside)
            (SameTotals-refl (d.heap a))

      off : Within without.book d.book
      off = remove_order-Within d.heap r d.book

      smaller_resting : Order
      smaller_resting = reduce_quantity (d.heap r) (leaves_qty (d.heap a)) e.now

      reduced : Desk
      reduced = put r smaller_resting d

      untouched : (settle r reduced).heap a ≡ d.heap a
      untouched = settle-heap r a reduced ∙ write_ne d.heap r a smaller_resting aside

      smaller : Order
      smaller = reduce_quantity (without.heap a) (leaves_qty (d.heap r)) e.now

      shrunk : Advances a d (record {
        stop = leaves_qty (write without.heap a smaller a) == 0;
        desk = put a smaller without;
        events =
            stp_cancelled r
            ∷ order_decremented a (leaves_qty (d.heap r)) self_trade_prevention
            ∷ [];
      })
      shrunk =
          let same = write_self without.heap a smaller in
          let terms =
            SameTerms-of_eq same
              (SameTerms-trans keeps (SameTerms-reduce_quantity (without.heap a) _ e.now)) in
          record {
            good = put_incoming-IsGood a smaller without dropped;
            terms = terms;
            accounts =
                Accounts-of_quiet _
                  (SameTotals-of_eq same (
                    SameTotals-trans keeps_totals
                      (SameTotals-reduce_quantity (without.heap a) _ e.now)))
                  (tt, (tt, tt));
            within = off;
            was_live = λ _. live;
            progress =
                λ _. inr (against-take_off g k (put a smaller without) refl (ap is_buy terms.side));
            done = λ s. inl ((==_iff _ 0).0 s);
          }

  apply_stp-Advances : Advances a d (apply_stp e a r d)
  unfolding apply_stp
  apply_stp-Advances = by_mode (stp_mode_for e (d.heap a))
    where
      incoming : Advances a d (cancel_incoming e a d)
      incoming =
          closed-Advances d _ g (SameTerms-refl (d.heap a)) (SameTotals-refl (d.heap a))
            (Within-refl d.book) (tt, tt)

      by_mode :
          (mode : StpMode)
          → Advances a d (elim mode [
            | no_prevention ↦ cancel_incoming e a d
            | cancel_newest ↦ cancel_incoming e a d
            | cancel_oldest ↦ record {
              stop = false;
              desk = cancel_in e r (take_off r d);
              events = stp_cancelled r ∷ [];
            }
            | decrement ↦ apply_decrement e a r d
          ])
      by_mode no_prevention = incoming
      by_mode cancel_newest = incoming
      by_mode cancel_oldest = dropped-Advances (Orders.cancel (d.heap r) e.now) _ (tt, tt)
      by_mode decrement = apply_decrement-Advances

  execute-Advances : Returns (λ done. Advances a d (go_on done)) (execute e a r d)
  execute-Advances =
      subst (Returns (λ done. Advances a d (go_on done)))
        (sym (
          execute_lem e a r k.price d (apart g k) live (picked g k).open_qty (picked g k).at_price))
        (record {
          good = record { book = good.book; absent = good.absent };
          terms = terms;
          accounts = record {
            cum_qty =
                ap (λ (o : Order). o.cum_qty) whole ∙ ap (λ x. (d.heap a).cum_qty + x) (sym sums.0);
            notional =
                ap (λ (o : Order). o.notional_units) whole
                ∙ ap (λ x. (d.heap a).notional_units +ℤ x) (sym sums.1);
            fair = sums.2;
          };
          within = settle-Within r d2 d refl;
          was_live = λ _. live;
          progress = λ _.
              if_cases (λ (x : Desk). (leaves_qty (x.heap a) ≡ 0) ⊎ (against a x < against a d))
                (leaves_qty (write d1.heap r fill_r r) == 0) (take_off r d2) d2 (λ _. inr gone)
                (λ left. inl (filled_up left));
          done = λ s. cc;
        })
    where
      q : ℕ
      q = traded a r d

      fill_a : Order
      fill_a = with_fill (d.heap a) q k.price e.now

      fill_r : Order
      fill_r = with_fill (d.heap r) q k.price e.now

      d1 : Desk
      d1 = put a fill_a d

      d2 : Desk
      d2 = put r fill_r d1

      other : d1.heap r ≡ d.heap r
      other = write_ne d.heap a r fill_a (apart g k)

      good : IsGood a (settle r d2)
      good =
          settle-IsGood a r fill_r d1 (put_incoming-IsGood a fill_a d g) (cc (other)) (cc (other))

      same : d2.heap a ≡ fill_a
      same = both_incoming d.heap a r fill_a fill_r (apart g k)

      whole : (settle r d2).heap a ≡ fill_a
      whole = settle-heap r a d2 ∙ same

      terms : SameTerms (d.heap a) ((settle r d2).heap a)
      terms =
          SameTerms-of_eq whole
            (record { price = refl; side = refl; order_type = refl; time_in_force = refl })

      sums :
          (traded_quantity (execution_events e d2.heap a r q k.price d.trade_ids) ≡ q)
          × (traded_value (execution_events e d2.heap a r q k.price d.trade_ids) ≡ k.price *ℤ q)
          × AllFair (d.heap a) (execution_events e d2.heap a r q k.price d.trade_ids)
      sums =
          let open_r = (picked g k).open_qty in
          execution_events_lem e d2.heap a r q k.price d.trade_ids (d.heap a) (omega arith)
            k.crosses

      same_r : d2.heap r ≡ fill_r
      same_r = write_self d1.heap r fill_r

      gone : against a (take_off r d2) < against a d
      gone =
          against-take_off g k (take_off r d2)
            (ap (λ x. x.1) (remove_order-congr d.heap d2.heap r d.book (cc (same_r)) (cc (same_r))))
            (cc (same))

      filled_up : (leaves_qty (d2.heap r) == 0) ≡ false → leaves_qty (d2.heap a) ≡ 0
      filled_up left =
          let open_r = (picked g k).open_qty in
          rw (same) (
            omega (
              arith,
              leaves_qty-with_fill (d.heap a) q k.price e.now (omega arith) (omega arith),
              leaves_qty-with_fill (d.heap r) q k.price e.now (omega arith) (omega arith),
              ne_zero left,
              ap leaves_qty same_r,
            ))

-- A round returns, keeps the desk good and the order's terms; a round that stops has closed the
-- incoming order or found nothing that it could meet, any other has closed it or taken an order off
-- the side that it meets.
pub match_round-Advances :
    (e : MatchingEngine) (a : ℕ) (d : Desk)
    → IsGood a d
    → Returns (Advances a d) (match_round e a d)
unfolding match_round
match_round-Advances e a d g =
    if_cases (Returns (Advances a d)) (leaves_qty (d.heap a) == 0) _ _
      (λ closed. idle (inl ((==_iff _ 0).0 closed)))
      λ live. by_pick live (Option-cases (best_match d.heap d.book (d.heap a)))
  where
    idle :
        (leaves_qty (d.heap a) ≡ 0) ⊎ (best_match d.heap d.book (d.heap a) ≡ none)
        → Advances a d (record { stop = true; desk = d; events = [] })
    idle why = record {
      good = g;
      terms = SameTerms-refl (d.heap a);
      accounts = Accounts-of_quiet [] (SameTotals-refl (d.heap a)) tt;
      within = Within-refl d.book;
      was_live = λ s. cc;
      progress = λ s. cc;
      done = λ _. why;
    }

    by_pick :
        (leaves_qty (d.heap a) == 0) ≡ false
        → (best_match d.heap d.book (d.heap a) ≡ none)
          ⊎ ((r : ℕ) × (best_match d.heap d.book (d.heap a) ≡ some r))
        → Returns (Advances a d) (elim (best_match d.heap d.book (d.heap a)) [
          | none ↦ ok (record { stop = true; desk = d; events = [] })
          | some r ↦
              if is_self_trade e (d.heap a) (d.heap r)
              then ok (apply_stp e a r d)
              else (execute e a r d >>= λ done. ok (go_on done))
        ])
    by_pick live (inl n) = rw n (idle (inr n))
    by_pick live (inr (r, n)) =
        let k = best_match-Picks d.heap d.book (d.heap a) r n in
        rw n (
          if_cases (Returns (Advances a d)) (is_self_trade e (d.heap a) (d.heap r)) _ _
            (λ _. apply_stp-Advances e g k (ne_zero live))
            (λ _.
              Returns-bind (Advances a d) (λ done. ok (go_on done)) (execute e a r d)
                (execute-Advances e g k (ne_zero live))))
