-- ===== src/Tests/Venue.antt =====
-- The theorems about a market, its phases and the venue's engine, at concrete inputs.
use exchange_sim.Prelude.{
  ℕ, String, true, false, some, none, ◌≡◌, ◌<◌, ◌⊎◌, refl, arith, eq_iff, [], ◌∷◌, List, Bool,
}
use exchange_sim.Prelude.Int.{pos}
use exchange_sim.Enums.{open_trading, OrderType, TimeInForce, buy}
use exchange_sim.Orders.{Order, Returns, leaves_qty, is_live}
use exchange_sim.Events.{Event}
use exchange_sim.Book.Store.{IsValidBook}
use exchange_sim.Trading.{Machine, allows_matching, state_for, get_state}
use exchange_sim.Registry.{OrderRegistry, get_handle, is_duplicate, find_handle, resolve}
use exchange_sim.Registry.Chain.{IsOwned}
use exchange_sim.Market.{Market, Floor, amend_order, book_for, get_book, desk_of}
use exchange_sim.Market.Amendment.{IsLast, amended_desk, amend_order-IsLast}
use exchange_sim.Behaviour.{BehaviourStore, reject, take, find, exhausted}
use exchange_sim.Behaviour.Rules.{IsKept, Lacks, Taken, take_lem}
use exchange_sim.Engine.{
  Engine, CancelRequest, NewOrderRequest, resolve_request, resolved, cancel_order, named_order,
  resolve_found,
}
use exchange_sim.Engine.Owner.{Resolves, CancelOutcome, resolve_request_lem, cancel_order_lem}
use exchange_sim.Engine.Entry.{EntryOutcome, new_order_lem}
use exchange_sim.Orders
use exchange_sim.Engine.{ReplaceRequest}
use exchange_sim.Prelude.{str_eq}
use exchange_sim.Tests.Data.{orders, offers, engine, offers-IsValidBook, running, stock, validator}

abbrev machine : Machine
machine = record { market = "J"; market_state = open_trading; instrument_states = [] }

abbrev market : Market
market = record { name = "J"; state = machine; matching = engine; books = ("2846", offers) ∷ [] }

abbrev floor : Floor
floor = record { heap = orders; trade_ids = 1; market = market }

floor_valid : IsValidBook orders (book_for market "2846")
unfolding book_for get_book
floor_valid = offers-IsValidBook

floor_matches : allows_matching machine "2846" ≡ true
unfolding allows_matching state_for get_state
floor_matches = refl

stays_open : 0 < leaves_qty ((amended_desk 1 (some 3) none floor).heap 1)
unfolding running book_for get_book
stays_open = omega arith

amend_order-IsLast_example :
    Returns
      (λ (out : Bool × Floor × List Event).
        IsValidBook out.1.heap (book_for out.1.market "2846")
        × ((leaves_qty (out.1.heap 1) ≡ 0) ⊎ IsLast 1 (desk_of out.1 "2846")))
      (amend_order 1 (some 3) none floor)
amend_order-IsLast_example =
    amend_order-IsLast 1 (some 3) none floor floor_valid floor_matches stays_open

abbrev registry : OrderRegistry
registry = record { by_order_id = 1 ∷ []; by_cl_ord_id = ("S1", "c1", 1) ∷ [] }

registry-IsOwned : IsOwned orders registry
registry-IsOwned = record { owner = λ s i a e. owner_of s i a (unfold get_handle in e) }
  where
    owner_of :
        (s i : String) (a : ℕ)
        → get_handle s i (("S1", "c1", 1) ∷ []) ≡ some a
        → (orders a).session_key ≡ s
    owner_of s i a e = unfold get_handle in (ground (arith, eq_iff "S1" s))

abbrev rules : BehaviourStore
rules = record {
  rules =
      record {
        id = 1;
        action = reject;
        count = 1;
        applied = 0;
        session_key = none;
        symbol = some "2846";
        market = none;
        reason = none;
        delay_ms = 0;
      }
      ∷ [];
  next_id = 2;
}

rules-IsKept : IsKept rules.rules
unfolding IsKept Lacks exhausted
rules-IsKept = (refl, tt, tt)

take_lem_example :
    ((find reject (orders 1) rules.rules ≡ none) × (take reject (orders 1) rules ≡ (none, rules)))
    ⊎ Taken reject (orders 1) rules
take_lem_example = take_lem reject (orders 1) rules rules-IsKept

abbrev venue : Engine
venue = record {
  instruments = ("2846", stock) ∷ [];
  markets = ("J", market) ∷ [];
  validator = validator;
  next_order = 4;
  next_sequence = 4;
  trade_ids = 1;
  now = none;
  registry = registry;
  behaviour = record { rules = []; next_id = 1 };
  heap = orders;
}

abbrev cancel_request : CancelRequest
cancel_request = record {
  session_key = "S1";
  cl_ord_id = some "c2";
  orig_cl_ord_id = some "c1";
  symbol = some "2846";
  side = none;
  order_id = none;
}

found_order : resolve_request cancel_request false venue ≡ resolved 1
unfolding running resolve_request is_duplicate find_handle get_handle named_order resolve
    resolve_found is_live
found_order = refl

resolve_request_lem_example : Resolves cancel_request venue 1
resolve_request_lem_example =
    resolve_request_lem cancel_request false venue 1 registry-IsOwned found_order

cancel_order_lem_example :
    Returns (CancelOutcome cancel_request venue) (cancel_order cancel_request venue)
cancel_order_lem_example = cancel_order_lem cancel_request venue registry-IsOwned

abbrev entry : NewOrderRequest
entry = record {
  session_key = "S1";
  market = "J";
  cl_ord_id = some "c3";
  symbol = "2846";
  side = buy;
  quantity = 100;
  price = some (pos 100);
  order_type = OrderType.limit;
  time_in_force = TimeInForce.day;
  min_qty = 0;
  exec_inst = [];
  mpid = none;
  stp_id = none;
  stp_instruction = none;
}

new_order_lem_example : EntryOutcome entry venue
new_order_lem_example = new_order_lem entry venue

abbrev of_session : Order → Bool
of_session o = str_eq o.session_key "S1"

abbrev replace_request : ReplaceRequest
replace_request = record {
  named = cancel_request;
  quantity = some 20;
  price = none;
  time_in_force = none;
  min_qty = none;
  exec_inst = [];
}
