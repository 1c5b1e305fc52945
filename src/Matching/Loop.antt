-- ===== src/Matching/Loop.antt =====
-- The loop of `_match` (exchangesim/core/matching.py): it ends, and where it leaves the desk.
use exchange_sim.Prelude.{ℕ, zero, suc, ◌<◌, ◌≡◌, ◌⊎◌, inl, inr, false, none, List, arith, if_cases}
use exchange_sim.Orders.{leaves_qty, Returns, Returns-then, SameTerms, SameTerms-trans}
use exchange_sim.Events.{Event}
use exchange_sim.Matching.{
  MatchingEngine, Desk, Round, match_round, match_loop, match_order, match_fuel, best_match,
  prepend,
}
use exchange_sim.Matching.Trades.{Accounts, Accounts-trans}
use exchange_sim.Book.Crossing.{Within, Within-trans}
use exchange_sim.Matching.Desks.{IsGood}
use exchange_sim.Matching.Rounds.{match_round-Advances}
use exchange_sim.Matching.Advances.{against, Advances}

-- Matching has come to its end: the desk is good, and the incoming order is closed or can meet
-- nothing more.
pub record Settled (a : ℕ) (d : Desk) (out : Desk × List Event) : Type 0 where
  pub good : IsGood a out.0
  pub terms : SameTerms (d.heap a) (out.0.heap a)
  pub accounts : Accounts (d.heap a) (out.0.heap a) out.1
  pub within : Within out.0.book d.book
  pub done :
      (leaves_qty (out.0.heap a) ≡ 0) ⊎ (best_match out.0.heap out.0.book (out.0.heap a) ≡ none)

module _ (e : MatchingEngine) (a : ℕ) where
  after_round :
      (d : Desk) (round : Round) (rest : Desk × List Event)
      → Advances a d round
      → Settled a round.desk rest
      → Settled a d (prepend round.events rest)
  after_round d round rest v s = record {
    good = s.good;
    terms = SameTerms-trans v.terms s.terms;
    accounts = Accounts-trans round.events rest.1 v.terms.price v.terms.side v.accounts s.accounts;
    within = Within-trans s.within v.within;
    done = s.done;
  }

  -- The rounds that are left: none for a closed order, else one more than the orders it may meet.
  abbrev Enough : ℕ → Desk → Type 0
  Enough fuel d = (0 < fuel) × ((leaves_qty (d.heap a) ≡ 0) ⊎ (suc (against a d) < fuel))

  still-Enough :
      (fuel : ℕ) (d : Desk) (round : Round)
      → Advances a d round
      → round.stop ≡ false
      → Enough (suc fuel) d
      → Enough fuel round.desk
  still-Enough fuel d round v s (pos_fuel, inl z) = absurd (omega (arith, v.was_live s))
  still-Enough fuel d round v s (pos_fuel, inr m) = (omega arith, still_enough_for (v.progress s) m)
    where
      still_enough_for :
          (leaves_qty (round.desk.heap a) ≡ 0) ⊎ (against a round.desk < against a d)
          → suc (against a d) < suc fuel
          → (leaves_qty (round.desk.heap a) ≡ 0) ⊎ (suc (against a round.desk) < fuel)
      still_enough_for (inl z) m = inl z
      still_enough_for (inr l) m = inr (omega arith)

  match_loop-Settled :
      (fuel : ℕ) (d : Desk)
      → IsGood a d
      → Enough fuel d
      → Returns (Settled a d) (match_loop e a fuel d)
  unfolding match_loop
  match_loop-Settled zero d g m = absurd (omega arith)
  match_loop-Settled (suc fuel) d g m =
      Returns-then (Advances a d) (Settled a d) (match_round e a d) _ (match_round-Advances e a d g)
        λ round v.
          let later = match_loop-Settled fuel round.desk v.good in
          if_cases (Returns (Settled a d)) round.stop _ _
            (λ s. record {
              good = v.good;
              terms = v.terms;
              accounts = v.accounts;
              within = v.within;
              done = v.done s;
            })
            (λ s.
              Returns-then (Settled a round.desk) (Settled a d) (match_loop e a fuel round.desk) _
                (later (still-Enough fuel d round v s m)) (λ rest h. after_round d round rest v h))

-- Matching an order that is not on the book always returns: no fill is refused, and the fuel of one
-- round for each order on the other side, and two more, is enough. It leaves a valid book without the
-- order, the order's terms as they were, its executed quantity and notional grown by exactly what the
-- reported trades add up to, each trade at a price within the order's limit, and either nothing of
-- the order open or nothing on the book that it could meet.
pub match_order-Settled :
    (e : MatchingEngine) (a : ℕ) (d : Desk) → IsGood a d → Returns (Settled a d) (match_order e a d)
unfolding match_order
match_order-Settled e a d g =
    match_loop-Settled e a (match_fuel a d) d g (omega arith, inr (omega arith))
