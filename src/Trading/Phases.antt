-- ===== src/Trading/Phases.antt =====
-- How the phase of an instrument (exchangesim/core/trading_state.py) follows from the commands.
use exchange_sim.Prelude.{
  String, true, false, ◌≡◌, ◌↔◌, ◌||◌, refl, ◌∙◌, none, some, [], ◌∷◌, arith, str_eq, eq_iff,
  if◌then◌else◌, ◌&&◌, is_some,
}
use exchange_sim.Enums.{TradingState, same_state}
use exchange_sim.Trading.{
  Machine, States, get_state, put_state, pop_state, state_for, has_override, allows_entry,
  allows_matching, is_accumulating, set_market_state, set_instrument_state, clear_instrument_state,
  clear_each, clear_all_overrides,
}

get_state-put_state :
    (j k : String) (v : TradingState) (m : States)
    → get_state j (put_state k v m) ≡ (if str_eq k j then some v else get_state j m)
unfolding get_state put_state
get_state-put_state j k v [] = refl
get_state-put_state j k v ((i, w) ∷ m) =
    ground (arith, get_state-put_state j k v m, eq_iff i k, eq_iff i j, eq_iff k j)

get_state-pop_state :
    (j k : String) (m : States)
    → get_state j (pop_state k m) ≡ (if str_eq k j then none else get_state j m)
unfolding get_state pop_state
get_state-pop_state j k [] = ground arith
get_state-pop_state j k ((i, w) ∷ m) =
    ground (arith, get_state-pop_state j k m, eq_iff i k, eq_iff i j, eq_iff k j)

pub same_state_iff : (s t : TradingState) → (same_state s t ≡ true) ↔ (s ≡ t)
same_state_iff s t = (ground arith, ground arith)

-- After each command the phase of every instrument is the one that the command asked for: a market
-- command reaches exactly the instruments without an override, an instrument command only its
-- instrument, and clearing an override returns its instrument to the market's phase.
pub state_for_after :
    (s : Machine) (symbol other : String) (state : TradingState)
    → (state_for (set_market_state state s).0 other
        ≡ (if has_override s other then state_for s other else state))
      × (state_for (set_instrument_state symbol state s).0 other
          ≡ (if str_eq symbol other then state else state_for s other))
      × (state_for (clear_instrument_state symbol s).0 other
          ≡ (if str_eq symbol other then s.market_state else state_for s other))
unfolding state_for has_override set_market_state set_instrument_state clear_instrument_state
state_for_after s symbol other state = (
  ground (arith, (same_state_iff s.market_state state).0),
  ground (
    arith,
    get_state-put_state other symbol state s.instrument_states,
    (same_state_iff (state_for s symbol) state).0,
    eq_iff symbol other,
  ),
  ground (arith, get_state-pop_state other symbol s.instrument_states, eq_iff symbol other),
)

get_state-clear :
    (j k : String) (s : Machine)
    → get_state j (clear_instrument_state k s).0.instrument_states
      ≡ (if str_eq k j then none else get_state j s.instrument_states)
unfolding clear_instrument_state
get_state-clear j k s = ground (arith, get_state-pop_state j k s.instrument_states, eq_iff k j)

market_state-clear :
    (k : String) (s : Machine) → (clear_instrument_state k s).0.market_state ≡ s.market_state
unfolding clear_instrument_state
market_state-clear k s = ground arith

get_state-clear_each :
    (j : String) (m : States) (s : Machine)
    → get_state j (clear_each m s).0.instrument_states
      ≡ (if is_some (get_state j m) then none else get_state j s.instrument_states)
unfolding clear_each get_state
get_state-clear_each j [] s = refl
get_state-clear_each j ((k, v) ∷ m) s =
    ground (arith, get_state-clear_each j m (clear_instrument_state k s).0, get_state-clear j k s)

market_state-clear_each :
    (m : States) (s : Machine) → (clear_each m s).0.market_state ≡ s.market_state
unfolding clear_each
market_state-clear_each [] s = refl
market_state-clear_each ((k, v) ∷ m) s =
    market_state-clear_each m (clear_instrument_state k s).0 ∙ market_state-clear k s

-- Clearing all overrides leaves no instrument with one, and every instrument in the market's phase.
pub clear_all_overrides_lem :
    (s : Machine) (symbol : String)
    → (has_override (clear_all_overrides s).0 symbol ≡ false)
      × (state_for (clear_all_overrides s).0 symbol ≡ s.market_state)
unfolding clear_all_overrides has_override state_for
clear_all_overrides_lem s symbol = (
  ground (arith, get_state-clear_each symbol s.instrument_states s),
  ground (
    arith,
    get_state-clear_each symbol s.instrument_states s,
    market_state-clear_each s.instrument_states s,
  ),
)

-- An instrument is in exactly one of three situations: orders match, orders rest without matching, or
-- no order may be entered.
phases_partition :
    (s : Machine) (symbol : String)
    → ((allows_matching s symbol || is_accumulating s symbol) ≡ allows_entry s symbol)
      × ((allows_matching s symbol && is_accumulating s symbol) ≡ false)
unfolding allows_matching is_accumulating allows_entry
phases_partition s symbol = (ground arith, ground arith)
