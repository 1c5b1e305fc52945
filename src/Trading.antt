-- ===== src/Trading.antt =====
-- exchangesim/core/trading_state.py: the phase of a market and of the instruments in it. `_validate`
-- turns a text into a phase, and is the identity on the phases of `TradingState`.
pub mod Phases
use exchange_sim.Prelude.{
  String, Bool, false, true, not, Option, none, some, List, [], ◌∷◌, ◌++◌, str_eq, if◌then◌else◌,
  ◌&&◌,
}
use exchange_sim.Enums.{TradingState, same_state, refuses_entry, is_continuous, accumulates}
use exchange_sim.Events.{Event, trading_state_changed}

-- The dict of the instruments' own phases. Its keys are distinct.
abbrev pub States : Type 0
States = List (String × TradingState)

pub record Machine : Type 0 where
  pub market : String
  pub market_state : TradingState
  pub instrument_states : States

unfoldable pub get_state : String → States → Option TradingState
get_state k [] = none
get_state k ((j, v) ∷ m) = if str_eq j k then some v else get_state k m

unfoldable pub put_state : String → TradingState → States → States
put_state k v [] = (k, v) ∷ []
put_state k v ((j, w) ∷ m) = if str_eq j k then (k, v) ∷ m else (j, w) ∷ put_state k v m

unfoldable pub pop_state : String → States → States
pop_state k [] = []
pop_state k ((j, v) ∷ m) = let rest = pop_state k m in if str_eq j k then rest else (j, v) ∷ rest

unfoldable pub state_for : Machine → String → TradingState
state_for s symbol = elim (get_state symbol s.instrument_states) [
  | none ↦ s.market_state
  | some state ↦ state
]

unfoldable pub has_override : Machine → String → Bool
has_override s symbol = elim (get_state symbol s.instrument_states) [
  | none ↦ false
  | some state ↦ true
]

unfoldable pub allows_entry : Machine → String → Bool
unfolding state_for
allows_entry s symbol = not (refuses_entry (state_for s symbol))

unfoldable pub allows_matching : Machine → String → Bool
unfolding state_for
allows_matching s symbol = is_continuous (state_for s symbol)

unfoldable pub is_accumulating : Machine → String → Bool
unfolding state_for
is_accumulating s symbol = accumulates (state_for s symbol)

unfoldable pub set_market_state : TradingState → Machine → Machine × List Event
set_market_state state s = if same_state s.market_state state then (s, []) else (
  record s { market_state = state },
  trading_state_changed s.market none s.market_state state ∷ [],
)

unfoldable pub set_instrument_state : String → TradingState → Machine → Machine × List Event
unfolding state_for has_override
set_instrument_state symbol state s =
    if same_state (state_for s symbol) state && has_override s symbol then (s, []) else (
      record s { instrument_states = put_state symbol state s.instrument_states },
      trading_state_changed s.market (some symbol) (state_for s symbol) state ∷ [],
    )

unfoldable pub clear_instrument_state : String → Machine → Machine × List Event
clear_instrument_state symbol s = elim (get_state symbol s.instrument_states) [
  | none ↦ (s, [])
  | some previous ↦ (
    record s { instrument_states = pop_state symbol s.instrument_states },
    if same_state previous s.market_state
        then []
        else trading_state_changed s.market (some symbol) previous s.market_state ∷ [],
  )
]

-- The loop of `clear_all_overrides`, over the keys that it has listed.
unfoldable pub clear_each : States → Machine → Machine × List Event
unfolding clear_instrument_state
clear_each [] s = (s, [])
clear_each ((symbol, state) ∷ rest) s =
    let (s', events) = clear_instrument_state symbol s in
    let (s'', later) = clear_each rest s' in (s'', events ++ later)

unfoldable pub clear_all_overrides : Machine → Machine × List Event
unfolding clear_each
clear_all_overrides s = clear_each s.instrument_states s
