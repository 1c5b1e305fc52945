-- ===== src/Engine/Owner.antt =====
-- Who may touch an order: the resolution of cancels and replaces (exchangesim/core/engine.py).
use exchange_sim.Prelude.{
  ℕ, String, Bool, true, false, ◌≡◌, ◌≢◌, refl, ◌⊎◌, inl, inr, ◌∙◌, ap, Option, none, some, [], ◌∷◌,
  arith, eq_iff, Option-cases, Bool-cases, List,
}
use exchange_sim.Enums.{cancelled, user_request, CancelRejectReason, is_terminal}
use exchange_sim.Orders.{
  Order, Heap, Result, ok, raised, Returns, Returns-then, ◌>>=◌, write, is_live,
}
use exchange_sim.Orders
use exchange_sim.Events.{Event, CancelRejection, cancel_rejected, order_cancelled}
use exchange_sim.Registry.{
  OrderRegistry, is_duplicate, resolve, by_order_id, find_handle, get_handle,
}
use exchange_sim.Registry
use exchange_sim.Registry.Chain.{IsOwned, IsOwned-bound}
use exchange_sim.Matching
use exchange_sim.Market.{Market}
use exchange_sim.Market
use exchange_sim.Engine.{
  Engine, CancelRequest, Resolution, resolved, refused, named_order, resolve_found, resolve_request,
  cancel_order, cancel_resolved, differs_side, differs_symbol, get_named, owned_by, take_name,
  floor_of, put_floor, rejection,
}

resolve-owner :
    (h : Heap) (g : OrderRegistry) (session id : String) (a : ℕ)
    → IsOwned h g
    → resolve h session (some id) g ≡ some a
    → (h a).session_key ≡ session
unfolding resolve find_handle
resolve-owner h g session id a owned e =
    elim (Option-cases (get_handle session id g.by_cl_ord_id)) [
      | inl f ↦ absurd (ground arith)
      | inr (c, f) ↦ ground (arith, owned.owner session id c f)
    ]

owned_by-owner :
    (h : Heap) (session : String) (o : Option ℕ) (a : ℕ)
    → owned_by h session o ≡ some a
    → (h a).session_key ≡ session
owned_by-owner h session none a e = absurd (cc)
owned_by-owner h session (some b) a e = ground (arith, eq_iff (h b).session_key session)

named_order-owner :
    (r : CancelRequest) (e : Engine) (a : ℕ)
    → IsOwned e.heap e.registry
    → named_order r e ≡ some a
    → (e.heap a).session_key ≡ r.session_key
unfolding named_order
named_order-owner r e a owned h = elim (Option-cases r.orig_cl_ord_id) [
  | inr (id, o) ↦ resolve-owner e.heap e.registry r.session_key id a owned (simp o at h)
  | inl n ↦ elim (Option-cases r.order_id) [
    | inl o ↦ absurd (ground arith)
    | inr (b, o) ↦
        owned_by-owner e.heap r.session_key (by_order_id b e.registry) a (simp (n, o) at h)
  ]
]

-- What a request may ask of the order that it resolves to.
pub record Resolves (r : CancelRequest) (e : Engine) (a : ℕ) : Type 0 where
  pub owner : (e.heap a).session_key ≡ r.session_key
  pub live : is_live (e.heap a) ≡ true
  pub side : differs_side r.side (e.heap a).side ≡ false
  pub symbol : differs_symbol r.symbol (e.heap a).symbol ≡ false
  pub new_name : is_duplicate r.session_key r.cl_ord_id e.registry ≡ false

found-eq :
    (r : CancelRequest) (b : Bool) (o : Order) (c a : ℕ)
    → resolve_found r b o c ≡ resolved a
    → (c ≡ a)
      × (is_live o ≡ true)
      × (differs_side r.side o.side ≡ false)
      × (differs_symbol r.symbol o.symbol ≡ false)
unfolding resolve_found
found-eq r b o c a h = ground arith

-- A cancel or a replace finds no order but a live one of the session that sent it, of the side and
-- the symbol that it names, and only under a ClOrdID that the session has not used. That holds for
-- both ways of naming an order, the venue's own identifier included.
pub resolve_request_lem :
    (r : CancelRequest) (is_replace : Bool) (e : Engine) (a : ℕ)
    → IsOwned e.heap e.registry
    → resolve_request r is_replace e ≡ resolved a
    → Resolves r e a
unfolding resolve_request
resolve_request_lem r is_replace e a owned h =
    elim (Bool-cases (is_duplicate r.session_key r.cl_ord_id e.registry)) [
      | inl dup ↦ absurd (ground arith)
      | inr fresh ↦ elim (Option-cases (named_order r e)) [
        | inl n ↦ absurd (ground arith)
        | inr (c, n) ↦
            let found = found-eq r is_replace (e.heap c) c a (simp (fresh, n) at h) in
            record {
              owner = named_order-owner r e a owned (n ∙ ap some found.0);
              live = cc (found.0, found.1);
              side = cc (found.0, found.2);
              symbol = cc (found.0, found.3);
              new_name = fresh;
            }
      ]
    ]

-- What taking up a ClOrdID that is new to the session leaves as it was.
record Renames (h : Heap) (a : ℕ) (after : Heap × OrderRegistry) : Type 0 where
  others : (b : ℕ) → b ≢ a → after.0 b ≡ h b
  status : (after.0 a).status ≡ (h a).status
  owned : IsOwned after.0 after.1

not_bound :
    (g : OrderRegistry) (session id : String)
    → is_duplicate session (some id) g ≡ false
    → get_handle session id g.by_cl_ord_id ≡ none
unfolding is_duplicate find_handle
not_bound g session id fresh = elim (Option-cases (get_handle session id g.by_cl_ord_id)) [
  | inl n ↦ n
  | inr (b, h) ↦ absurd (ground (arith, h, fresh))
]

IsOwned-of_same :
    (h h' : Heap) (g : OrderRegistry)
    → ((b : ℕ) → (h' b).session_key ≡ (h b).session_key)
    → IsOwned h g
    → IsOwned h' g
IsOwned-of_same h h' g same owned = record { owner = λ s i b e. same b ∙ owned.owner s i b e }

rename-Renames :
    (h : Heap) (g : OrderRegistry) (a : ℕ) (id : Option String)
    → IsOwned h g
    → is_duplicate (h a).session_key id g ≡ false
    → Returns (Renames h a) (Registry.rename a id (h, g))
unfolding Registry.rename Orders.rename
rename-Renames h g a none owned fresh = record {
  others = λ b n. refl;
  status = refl;
  owned = owned;
}
rename-Renames h g a (some id) owned fresh = simp fresh (record {
  others = λ b n. ground arith;
  status = ground arith;
  owned = IsOwned-bound h g a id (not_bound g (h a).session_key id fresh) owned;
})

live-not-terminal : (o : Order) → is_live o ≡ true → is_terminal o.status ≡ false
unfolding is_live
live-not-terminal o h = ground arith

-- The engine after a cancel that it has carried out on the order `a`.
pub record Cancelled (e : Engine) (a : ℕ) (after : Engine × List Event) : Type 0 where
  pub status : (after.0.heap a).status ≡ cancelled
  pub others : (b : ℕ) → b ≢ a → after.0.heap b ≡ e.heap b
  pub events : after.1 ≡ order_cancelled a user_request ∷ []
  pub owned : IsOwned after.0.heap after.0.registry

-- A refusal changes nothing, and says why.
pub record Unchanged (e : Engine) (after : Engine × List Event) : Type 0 where
  pub engine : after.0 ≡ e
  pub why : CancelRejection
  pub events : after.1 ≡ cancel_rejected why ∷ []

abbrev pub CancelOutcome : CancelRequest → Engine → Engine × List Event → Type 0
CancelOutcome r e after = Unchanged e after ⊎ ((a : ℕ) × Resolves r e a × Cancelled e a after)

-- The steps after a ClOrdID was taken up: the market cancels the order.
cancel_keeps_session :
    (a b : ℕ) (renamed : Engine) (m : Market)
    → ((Market.cancel a user_request (floor_of renamed m)).0.heap b).session_key
      ≡ (renamed.heap b).session_key
unfolding Market.cancel Matching.cancel Orders.cancel
cancel_keeps_session a b renamed m = ground arith

Cancelled-after :
    (e renamed : Engine) (a : ℕ) (m : Market) (name : String)
    → is_live (e.heap a) ≡ true
    → Renames e.heap a (renamed.heap, renamed.registry)
    → let (f, events) = Market.cancel a user_request (floor_of renamed m) in
      Cancelled e a (put_floor name f renamed, events)
unfolding Market.cancel Matching.cancel Orders.cancel
Cancelled-after e renamed a m name live same = record {
  status = ground (arith, same.status, live-not-terminal (e.heap a) live);
  others = λ b n. ground (arith, same.others b n);
  events = refl;
  owned =
      IsOwned-of_same renamed.heap _ renamed.registry (λ b. cancel_keeps_session a b renamed m)
        same.owned;
}

cancel_in_market :
    (r : CancelRequest) (e : Engine) (a : ℕ) (m : Market)
    → IsOwned e.heap e.registry
    → Resolves r e a
    → Returns (CancelOutcome r e) (
        take_name a r.cl_ord_id e >>= λ renamed.
        let (f, events) = Market.cancel a user_request (floor_of renamed m) in
        ok (put_floor (e.heap a).market f renamed, events))
cancel_in_market r e a m owned found =
    Returns-then (λ renamed. Renames e.heap a (renamed.heap, renamed.registry)) (CancelOutcome r e)
      (take_name a r.cl_ord_id e)
      (λ renamed.
        let (f, events) = Market.cancel a user_request (floor_of renamed m) in
        ok (put_floor (e.heap a).market f renamed, events))
      (Returns-then (Renames e.heap a)
        (λ renamed. Renames e.heap a (renamed.heap, renamed.registry))
        (Registry.rename a r.cl_ord_id (e.heap, e.registry))
        (λ (h, g). ok (record e { heap = h; registry = g }))
        (rename-Renames e.heap e.registry a r.cl_ord_id owned (cc (found.owner, found.new_name)))
        (λ after same. same))
      (λ renamed same.
        inr (a, found, Cancelled-after e renamed a m (e.heap a).market found.live same))

cancel_resolved-Returns :
    (r : CancelRequest) (e : Engine) (a : ℕ)
    → IsOwned e.heap e.registry
    → Resolves r e a
    → Returns (CancelOutcome r e) (cancel_resolved r a e)
cancel_resolved-Returns r e a owned found = from_market (get_named (e.heap a).market e.markets)
  where
    from_market :
        (x : Option Market)
        → Returns (CancelOutcome r e) (elim x [
          | none ↦
              ok (e, cancel_rejected (rejection r CancelRejectReason.other (some a) false) ∷ [])
          | some m ↦ take_name a r.cl_ord_id e >>= λ renamed.
              let (f, events) = Market.cancel a user_request (floor_of renamed m) in
              ok (put_floor (e.heap a).market f renamed, events)
        ])
    from_market none = inl (record {
      engine = refl;
      why = rejection r CancelRejectReason.other (some a) false;
      events = refl;
    })
    from_market (some m) = cancel_in_market r e a m owned found

-- A cancel is always answered. Either it is refused, with one rejection and no change at all, or it
-- names a live order of the session that sent it, and afterwards that order is cancelled, no other
-- order has changed, the one event says so, and every ClOrdID still belongs to its session.
pub cancel_order_lem :
    (r : CancelRequest) (e : Engine)
    → IsOwned e.heap e.registry
    → Returns (CancelOutcome r e) (cancel_order r e)
unfolding cancel_order
cancel_order_lem r e owned = from_resolution (resolve_request r false e) refl
  where
    from_resolution :
        (x : Resolution)
        → resolve_request r false e ≡ x
        → Returns (CancelOutcome r e) (elim x [
          | refused why ↦ ok (e, cancel_rejected why ∷ [])
          | resolved a ↦ cancel_resolved r a e
        ])
    from_resolution (refused why) h = inl (record { engine = refl; why = why; events = refl })
    from_resolution (resolved a) h =
        cancel_resolved-Returns r e a owned (resolve_request_lem r false e a owned h)
