-- ===== src/Fix/Store.antt =====
-- exchangesim/fix/store.py: the sequence numbers of a session and the messages it has sent, in memory.
use exchange_sim.Prelude.{
  ℕ, zero, suc, List, [], ◌∷◌, ◌&&◌, Option, none, some, ◌==◌, ltb, if◌then◌else◌,
}
use exchange_sim.Prelude.Int.{ℤ, pos, negsuc, le_test}

-- A dictionary from sequence numbers, read in ascending order only, so kept in it.
abbrev pub Messages : Type 0
Messages = List (ℕ × List ℕ)

unfoldable pub put_message : ℕ → List ℕ → Messages → Messages
put_message seq raw [] = (seq, raw) ∷ []
put_message seq raw ((n, r) ∷ rest) =
    let later = put_message seq raw rest in
    if seq == n
    then (seq, raw) ∷ rest
    else if ltb seq n
    then (seq, raw) ∷ (n, r) ∷ rest
    else (n, r) ∷ later

unfoldable pub lookup : ℕ → Messages → Option (List ℕ)
lookup seq [] = none
lookup seq ((n, r) ∷ rest) = let later = lookup seq rest in if n == seq then some r else later

-- `max(self._messages)`, the end that was asked for where there is none.
unfoldable pub last_seq : ℤ → Messages → ℤ
last_seq end [] = end
last_seq end ((n, r) ∷ []) = pos n
last_seq end ((n, r) ∷ next ∷ rest) = last_seq end (next ∷ rest)

unfoldable pub between : ℤ → ℤ → Messages → Messages
between begin upper [] = []
between begin upper ((n, r) ∷ rest) =
    let later = between begin upper rest in
    if le_test begin (pos n) && le_test (pos n) upper then (n, r) ∷ later else later

pub record MemoryStore : Type 0 where
  pub next_out : ℕ
  pub next_in : ℕ
  pub messages : Messages

unfoldable pub new_store : MemoryStore
new_store = record { next_out = 1; next_in = 1; messages = [] }

unfoldable pub set_next_out : ℕ → MemoryStore → MemoryStore
set_next_out value s = record s { next_out = value }

unfoldable pub set_next_in : ℕ → MemoryStore → MemoryStore
set_next_in value s = record s { next_in = value }

unfoldable pub store_outbound : ℕ → List ℕ → MemoryStore → MemoryStore
store_outbound seq raw s = record s { messages = put_message seq raw s.messages }

-- An end of 0 means through the last message.
unfoldable pub get_outbound : ℤ → ℤ → MemoryStore → Messages
get_outbound begin (pos zero) s = between begin (last_seq (pos 0) s.messages) s.messages
get_outbound begin (pos (suc n)) s = between begin (pos (suc n)) s.messages
get_outbound begin (negsuc n) s = between begin (negsuc n) s.messages

unfoldable pub reset : MemoryStore → MemoryStore
reset s = record { next_out = 1; next_in = 1; messages = [] }
