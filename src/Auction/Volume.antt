-- ===== src/Auction/Volume.antt =====
-- The price of an auction trades the greatest volume (exchangesim/core/auction.py).
use exchange_sim.Prelude.{◌≡◌, ◌≤◌, ◌<◌, List, IsIn}
use exchange_sim.Prelude.Int.{ℤ}
use exchange_sim.Orders.{Heap}
use exchange_sim.Book.{OrderBook}
use exchange_sim.Auction.{Profile, AuctionResult, candidate_prices, demand_at, profiles, tradable}
use exchange_sim.Auction.Measures.{Top}

module _ (h : Heap) (b : OrderBook) where
  -- What is known of a tradable profile of the candidates.
  record Offers (candidates : List ℤ) (r : Profile) : Type 0 where
    among : IsIn r.price candidates
    profile : r ≡ demand_at h b r.price
    trades : 0 < r.matchable

  -- The first survivor.
  record Chosen (candidates : List ℤ) (r : Profile) : Type 0 where
    offers : Offers candidates r
    top : Top (tradable (profiles h b candidates)) r

-- The price is a candidate, and no candidate trades more.
pub record MaximisesVolume (h : Heap) (b : OrderBook) (result : AuctionResult) (p : ℤ)
    : Type 0 where
  pub candidate : IsIn p (candidate_prices b)
  pub volume : result.volume ≡ (demand_at h b p).matchable
  pub trades : 0 < result.volume
  pub maximal : (q : ℤ) → IsIn q (candidate_prices b) → (demand_at h b q).matchable ≤ result.volume
