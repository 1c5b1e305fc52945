-- ===== src/Registry/Chain.antt =====
-- The ClOrdID chain (exchangesim/core/orders.py): which identifier names an order.
use exchange_sim.Prelude.{
  ℕ, String, true, ◌&&◌, ◌≡◌, ◌≢◌, none, some, [], ◌∷◌, ◌++◌, arith, str_eq, eq_iff, if◌then◌else◌,
}
use exchange_sim.Orders.{Order, Heap, write, write_self, ok, raised, duplicate_cl_ord_id, Returns}
use exchange_sim.Orders
use exchange_sim.Registry.{
  OrderRegistry, Handles, get_handle, find_handle, is_duplicate, bind_handle, rename, resolve,
}

get_handle-bind :
    (s i t j : String) (a : ℕ) (m : Handles)
    → get_handle t j (m ++ (s, i, a) ∷ []) ≡ (elim (get_handle t j m) [
      | some b ↦ some b
      | none ↦ if str_eq s t && str_eq i j then some a else none
    ])
unfolding get_handle
get_handle-bind s i t j a [] = ground arith
get_handle-bind s i t j a ((u, k, b) ∷ m) = ground (arith, get_handle-bind s i t j a m)

-- Every handle's order belongs to the handle's session.
pub record IsOwned (h : Heap) (g : OrderRegistry) : Type 0 where
  pub owner :
      (s i : String) (a : ℕ) → get_handle s i g.by_cl_ord_id ≡ some a → (h a).session_key ≡ s

-- The store and the registry after a ClOrdID that is new to the session has been taken up.
module _ (h : Heap) (g : OrderRegistry) (a : ℕ) (id : String) where
  abbrev pub renamed : Heap
  renamed = write h a (Orders.rename (h a) (some id) none)

  abbrev pub bound : OrderRegistry
  bound = bind_handle (h a).session_key (some id) a g

  renamed_session : (b : ℕ) → (renamed b).session_key ≡ (h b).session_key
  unfolding Orders.rename
  renamed_session b = ground arith

  handle_bound :
      (t j : String)
      → get_handle t j bound.by_cl_ord_id ≡ (elim (get_handle t j g.by_cl_ord_id) [
        | some b ↦ some b
        | none ↦ if str_eq (h a).session_key t && str_eq id j then some a else none
      ])
  handle_bound t j = get_handle-bind (h a).session_key id t j a g.by_cl_ord_id

  module _ (fresh : get_handle (h a).session_key id g.by_cl_ord_id ≡ none) where
    pub IsOwned-bound : IsOwned h g → IsOwned renamed bound
    IsOwned-bound owned = record {
      owner = λ s i b e. ground (
        arith,
        owned.owner s i b,
        handle_bound s i,
        renamed_session b,
        eq_iff (h a).session_key s,
      );
    }

abbrev pub RenameRefused : Heap → OrderRegistry → ℕ → String → Type 0
RenameRefused h g a id =
    (rename a (some id) (h, g) ≡ raised duplicate_cl_ord_id)
    × (is_duplicate (h a).session_key (some id) g ≡ true)

abbrev pub RenameDone : Heap → OrderRegistry → ℕ → String → Type 0
RenameDone h g a id =
    (h' : Heap) × (g' : OrderRegistry) × (rename a (some id) (h, g) ≡ ok (h', g'))
    × (resolve h' (h a).session_key (some id) g' ≡ some a)
    × ((old : String)
        → (h a).cl_ord_id ≡ some old
        → find_handle (h a).session_key (some old) g ≡ some a
        → (find_handle (h a).session_key (some old) g' ≡ some a)
          × (resolve h' (h a).session_key (some old) g' ≡ none))
    × ((b : ℕ) (session other : String)
        → b ≢ a
        → resolve h session (some other) g ≡ some b
        → resolve h' session (some other) g' ≡ some b)
    × IsOwned h' g'
