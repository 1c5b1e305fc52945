-- ===== src/Ids.antt =====
-- exchangesim/core/ids.py: identifiers of a prefix, a date and a zero-padded counter.
pub mod Distinct
use exchange_sim.Prelude.{
  ℕ, zero, suc, ◌+◌, ◌-◌, ◌/◌, ◌%◌, List, [], ◌∷◌, ◌++◌, ltb, if◌then◌else◌, length,
}
use exchange_sim.Orders.{Result, ok, raised, ids_exhausted, id_format_too_long}

-- A text is the list of its characters' codes.
pub record IdGenerator : Type 0 where
  pub prefix : List ℕ
  pub date : List ℕ
  pub width : ℕ
  pub max_length : ℕ
  pub counter : ℕ

-- `IdGenerator(prefix, date, width, max_length)`.
unfoldable pub new_generator : List ℕ → List ℕ → ℕ → ℕ → Result IdGenerator
new_generator prefix date width max_length =
    if ltb max_length (length prefix + length date + width)
    then raised id_format_too_long
    else ok (record {
      prefix = prefix;
      date = date;
      width = width;
      max_length = max_length;
      counter = 1;
    })

-- The decimal digits of a number, most significant first, on fuel for its digits.
unfoldable pub digits_onto : ℕ → ℕ → List ℕ → List ℕ
digits_onto zero n acc = acc
digits_onto (suc fuel) n acc =
    let more = digits_onto fuel (n / 10) ((n % 10 + 48) ∷ acc) in
    if ltb n 10 then (n + 48) ∷ acc else more

-- A number has fewer digits than itself and one more.
unfoldable pub decimal : ℕ → List ℕ
decimal n = digits_onto (suc n) n []

unfoldable pub zeros : ℕ → List ℕ
zeros zero = []
zeros (suc n) = 48 ∷ zeros n

-- `"%0*d" % (width, value)`.
unfoldable pub padded : ℕ → ℕ → List ℕ
padded width value = let text = decimal value in zeros (width - length text) ++ text

unfoldable pub next : IdGenerator → Result (List ℕ × IdGenerator)
next g =
    let identifier = g.prefix ++ g.date ++ padded g.width g.counter in
    if ltb g.max_length (length identifier)
    then raised ids_exhausted
    else ok (identifier, record g { counter = suc g.counter })

unfoldable pub peek : IdGenerator → ℕ
peek g = g.counter
