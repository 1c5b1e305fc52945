-- ===== src/Fix/Message/Fields.antt =====
-- What setting and removing a field of a message (exchangesim/fix/message.py) changes.
use exchange_sim.Prelude.{ℕ, ◌≡◌, List, [], ◌∷◌, false, ◌||◌, some, ◌==◌, if◌then◌else◌, arith}
use exchange_sim.Fix.Message.{Message, get, has, set, replace}

get-replace :
    (key tag : ℕ) (text : List ℕ) (m : Message)
    → get key (replace tag text m) ≡ (if tag == key then some text else get key m)
unfolding get replace
get-replace key tag text [] = ground arith
get-replace key tag text ((t, v) ∷ m) = ground (arith, get-replace key tag text m)

has-replace :
    (key tag : ℕ) (text : List ℕ) (m : Message)
    → has key (replace tag text m) ≡ (tag == key || has key m)
unfolding has replace
has-replace key tag text [] = ground arith
has-replace key tag text ((t, v) ∷ m) = ground (arith, has-replace key tag text m)

-- After a field is set it has the new value and is there, and no other field has changed.
pub set_lem :
    (key tag : ℕ) (text : List ℕ) (m : Message)
    → (get key (set tag (some text) m) ≡ (if tag == key then some text else get key m))
      × (has key (set tag (some text) m) ≡ (tag == key || has key m))
unfolding set
set_lem key tag text m = (get-replace key tag text m, has-replace key tag text m)

pub get-set_same :
    (tag : ℕ) (text : List ℕ) (m : Message) → get tag (set tag (some text) m) ≡ some text
get-set_same tag text m = ground (arith, (set_lem tag tag text m).0)

pub get-set_other :
    (key tag : ℕ) (text : List ℕ) (m : Message)
    → (tag == key) ≡ false
    → get key (set tag (some text) m) ≡ get key m
get-set_other key tag text m other = ground (arith, other, (set_lem key tag text m).0)
