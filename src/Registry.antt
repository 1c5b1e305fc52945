-- ===== src/Registry.antt =====
-- `OrderRegistry` of exchangesim/core/orders.py: every order by its venue id, and by every ClOrdID
-- that its session has used for it. The orders themselves stand in the store.
pub mod Chain
use exchange_sim.Prelude.{
  ℕ, String, Bool, true, false, ◌&&◌, ◌||◌, not, Option, none, some, List, [], ◌∷◌, ◌++◌, str_eq,
  same_text, elem, append_key, if◌then◌else◌, length, is_some,
}
use exchange_sim.Orders.{
  Order, Heap, write, Error, Result, ok, raised, duplicate_cl_ord_id, is_live,
}
use exchange_sim.Orders

-- The dict from a session and a ClOrdID to an order.
abbrev pub Handles : Type 0
Handles = List (String × String × ℕ)

pub record OrderRegistry : Type 0 where
  pub by_order_id : List ℕ
  pub by_cl_ord_id : Handles

abbrev pub empty : OrderRegistry
empty = record { by_order_id = []; by_cl_ord_id = [] }

unfoldable pub get_handle : String → String → Handles → Option ℕ
get_handle session id [] = none
get_handle session id ((s, c, a) ∷ rest) =
    if str_eq s session && str_eq c id then some a else get_handle session id rest

unfoldable pub find_handle : String → Option String → OrderRegistry → Option ℕ
find_handle session none g = none
find_handle session (some id) g = get_handle session id g.by_cl_ord_id

unfoldable pub is_duplicate : String → Option String → OrderRegistry → Bool
unfolding find_handle
is_duplicate session id g = is_some (find_handle session id g)

-- A new key goes to the end of the dict.
abbrev pub bind_handle : String → Option String → ℕ → OrderRegistry → OrderRegistry
bind_handle session none a g = g
bind_handle session (some id) a g = record g {
  by_cl_ord_id = g.by_cl_ord_id ++ (session, id, a) ∷ [];
}

-- `add`: the order is known by its venue id also when its ClOrdID is refused.
unfoldable pub add : Heap → ℕ → OrderRegistry → OrderRegistry × Result (Unit {0})
unfolding is_duplicate
add h a g =
    let known = record g { by_order_id = append_key a g.by_order_id } in
    if is_duplicate (h a).session_key (h a).cl_ord_id g
    then (known, raised duplicate_cl_ord_id)
    else (bind_handle (h a).session_key (h a).cl_ord_id a known, ok tt)

-- `rename`: the order's current ClOrdID advances, the old one stays bound to it.
unfoldable pub rename : ℕ → Option String → Heap × OrderRegistry → Result (Heap × OrderRegistry)
unfolding is_duplicate Orders.rename
rename a none (h, g) = ok (h, g)
rename a (some id) (h, g) =
    if is_duplicate (h a).session_key (some id) g
    then raised duplicate_cl_ord_id
    else ok (
      write h a (Orders.rename (h a) (some id) none),
      bind_handle (h a).session_key (some id) a g,
    )

unfoldable pub by_order_id : ℕ → OrderRegistry → Option ℕ
by_order_id a g = if elem a g.by_order_id then some a else none

-- `resolve`: only the order's current ClOrdID names it.
unfoldable pub resolve : Heap → String → Option String → OrderRegistry → Option ℕ
unfolding find_handle
resolve h session id g = elim (find_handle session id g) [
  | none ↦ none
  | some a ↦ if same_text (h a).cl_ord_id id then some a else none
]

unfoldable pub live_of : Heap → List ℕ → List ℕ
unfolding is_live
live_of h [] = []
live_of h (a ∷ ids) = let rest = live_of h ids in if is_live (h a) then a ∷ rest else rest

unfoldable pub for_session_of : Heap → String → Bool → List ℕ → List ℕ
unfolding is_live
for_session_of h session live_only [] = []
for_session_of h session live_only (a ∷ ids) =
    let rest = for_session_of h session live_only ids in
    if str_eq (h a).session_key session && (is_live (h a) || not live_only) then a ∷ rest else rest

abbrev pub for_session : Heap → String → Bool → OrderRegistry → List ℕ
for_session h session live_only g = for_session_of h session live_only g.by_order_id
