-- ===== src/Engine/Entry.antt =====
-- The entry of a new order (exchangesim/core/engine.py): refused, or validated and submitted.
use exchange_sim.Prelude.{
  ℕ, true, false, ◌≡◌, ◌≢◌, refl, inl, inr, ◌∙◌, ap, none, some, [], ◌∷◌, arith, Option-cases,
  Bool-cases, List, append_key, ◌==◌,
}
use exchange_sim.Enums.{rejected, RejectReason, duplicate_order}
use exchange_sim.Orders.{ok, raised, Error}
use exchange_sim.Events.{Event, order_rejected}
use exchange_sim.Registry.{OrderRegistry, Handles, is_duplicate, bind_handle}
use exchange_sim.Registry
use exchange_sim.Market.{Market, book_for, submit}
use exchange_sim.Behaviour.{fire, find, reject, take, Rule}
use exchange_sim.Behaviour.Rules.{take-none, take-some}
use exchange_sim.Instrument.{Instrument}
use exchange_sim.Validation.{validate_new, Verdict}
use exchange_sim.Validation.Accepted.{Acceptable, validate_new-Acceptable}
use exchange_sim.Engine.{
  Engine, NewOrderRequest, get_named, order_of, build_order, refuse, open_book, with_market,
  after_add, after_validation, after_rules, default, new_order, on_floor, floor_of,
}

-- A refused order is marked so, and its one report says why. No other order has changed, no ClOrdID
-- was bound and no trade was numbered.
pub record Refused (e : Engine) (a : ℕ) (after : Engine × List Event) : Type 0 where
  pub reason : RejectReason
  pub events : after.1 ≡ order_rejected a reason ∷ []
  pub status : (after.0.heap a).status ≡ rejected
  pub others : (b : ℕ) → b ≢ a → after.0.heap b ≡ e.heap b
  pub handles : after.0.registry.by_cl_ord_id ≡ e.registry.by_cl_ord_id
  pub trade_ids : after.0.trade_ids ≡ e.trade_ids

-- The engine that submits an order to a market: the order and its ClOrdID are registered.
abbrev pub registered : NewOrderRequest → Market → Engine → Engine
registered r m e =
    let built = build_order r e in
    record (with_market r.market (open_book r.symbol m) built) {
      registry =
          bind_handle r.session_key r.cl_ord_id e.next_order
            (record e.registry { by_order_id = append_key e.next_order e.registry.by_order_id });
    }

-- What holds of an order that reaches its market.
pub record Admitted (r : NewOrderRequest) (e : Engine) : Type 0 where
  pub market : Market
  pub instrument : Instrument
  pub has_market : get_named r.market e.markets ≡ some market
  pub has_instrument : get_named r.symbol e.instruments ≡ some instrument
  pub new_name : is_duplicate r.session_key r.cl_ord_id e.registry ≡ false
  pub not_forced : find reject (order_of e r) e.behaviour.rules ≡ none
  pub acceptable : Acceptable e.validator (order_of e r) instrument market.state
  pub runs :
      new_order r e
      ≡ on_floor r.market
          (registered r market e)
          (submit e.next_order (floor_of (registered r market e) (open_book r.symbol market)))

pub data EntryOutcome (r : NewOrderRequest) (e : Engine) : Type 0 where
  refusal :
      (after : Engine × List Event)
      → new_order r e ≡ ok after
      → Refused e e.next_order after
      → EntryOutcome r e
  admission : Admitted r e → EntryOutcome r e
  failure :
      (m : Market) (i : Instrument) (x : Error)
      → validate_new e.validator (order_of e r) (some i) m.state (book_for m r.symbol) ≡ raised x
      → new_order r e ≡ raised x
      → EntryOutcome r e

refuse-Refused :
    (e now : Engine) (a : ℕ) (reason : RejectReason)
    → ((b : ℕ) → b ≢ a → now.heap b ≡ e.heap b)
    → now.registry.by_cl_ord_id ≡ e.registry.by_cl_ord_id
    → now.trade_ids ≡ e.trade_ids
    → Refused e a (refuse a reason now)
unfolding refuse
refuse-Refused e now a reason others handles ids = record {
  reason = reason;
  events = refl;
  status = ground arith;
  others = λ b n. ground (arith, others b n);
  handles = handles;
  trade_ids = ids;
}

built_other :
    (r : NewOrderRequest) (e : Engine) (b : ℕ)
    → b ≢ e.next_order
    → (build_order r e).heap b ≡ e.heap b
unfolding build_order
built_other r e b n = ground arith

built_self : (r : NewOrderRequest) (e : Engine) → (build_order r e).heap e.next_order ≡ order_of e r
unfolding build_order
built_self r e = ground arith

self_eq : (a : ℕ) → (a == a) ≡ true
self_eq a = ground arith

module _ (r : NewOrderRequest) (e : Engine)
    (new_name : is_duplicate r.session_key r.cl_ord_id e.registry ≡ false) (m : Market)
    (has_market : get_named r.market e.markets ≡ some m) where
  abbrev a : ℕ
  a = e.next_order

  abbrev built : Engine
  built = build_order r e

  abbrev opened : Market
  opened = open_book r.symbol m

  abbrev verdict : Verdict
  verdict =
      validate_new e.validator (order_of e r) (get_named r.symbol e.instruments) m.state
        (book_for m r.symbol)

  abbrev Refusal : Type 0
  Refusal = (after : Engine × List Event) × (new_order r e ≡ ok after) × Refused e a after

  enters : new_order r e ≡ after_rules r a m built (take reject (order_of e r) e.behaviour)
  unfolding new_order build_order
  enters = simp (new_name, has_market, self_eq) refl

  taken_some :
      (x : Rule)
      → find reject (order_of e r) e.behaviour.rules ≡ some x
      → (take reject (order_of e r) e.behaviour).0 ≡ some (fire x)
  taken_some x h = ap (λ t. t.0) (take-some reject (order_of e r) e.behaviour x h)

  taken_none :
      find reject (order_of e r) e.behaviour.rules ≡ none
      → take reject (order_of e r) e.behaviour ≡ (none, e.behaviour)
  taken_none h = take-none reject (order_of e r) e.behaviour h

  forced : (x : Rule) → find reject (order_of e r) e.behaviour.rules ≡ some x → Refusal
  unfolding build_order
  forced x h =
      let now = record built { behaviour = (take reject (order_of e r) e.behaviour).1 } in
      let reason = default (fire x).reason RejectReason.other in
      (
        refuse a reason now,
        enters ∙ ap (λ t. after_rules r a m built (t, now.behaviour)) (taken_some x h),
        refuse-Refused e now a reason (built_other r e) refl refl,
      )

  module _ (not_forced : find reject (order_of e r) e.behaviour.rules ≡ none) where
    validates :
        new_order r e ≡ after_validation r a opened (with_market r.market opened built) verdict
    unfolding build_order
    validates = enters ∙ (ap (after_rules r a m built) (taken_none not_forced) ∙ simp self_eq refl)

    rejects : (reason : RejectReason) → verdict ≡ ok (some reason) → Refusal
    unfolding build_order
    rejects reason h =
        let now = with_market r.market opened built in
        (
          refuse a reason now,
          validates ∙ ap (after_validation r a opened now) h,
          refuse-Refused e now a reason (built_other r e) refl refl,
        )

    fails : (x : Error) → verdict ≡ raised x → new_order r e ≡ raised x
    fails x h = validates ∙ ap (after_validation r a opened (with_market r.market opened built)) h

    adds : Registry.add built.heap a e.registry ≡ ((registered r m e).registry, ok tt)
    unfolding Registry.add build_order order_of
    adds = simp (self_eq, new_name) refl

    runs_of :
        verdict ≡ ok none
        → new_order r e
          ≡ on_floor r.market (registered r m e) (submit a (floor_of (registered r m e) opened))
    unfolding build_order
    runs_of h =
        validates
        ∙ (ap (after_validation r a opened (with_market r.market opened built)) h
            ∙ ap (after_add r a opened (with_market r.market opened built)) adds)

Refused-built :
    (r : NewOrderRequest) (e : Engine) (reason : RejectReason)
    → Refused e e.next_order (refuse e.next_order reason (build_order r e))
unfolding build_order
Refused-built r e reason =
    refuse-Refused e (build_order r e) e.next_order reason (built_other r e) refl refl

-- The three verdicts of the validator.
module _ (r : NewOrderRequest) (e : Engine)
    (new_name : is_duplicate r.session_key r.cl_ord_id e.registry ≡ false) (m : Market)
    (has_market : get_named r.market e.markets ≡ some m)
    (not_forced : find reject (order_of e r) e.behaviour.rules ≡ none) where
  listed :
      (i : Instrument)
      → get_named r.symbol e.instruments ≡ some i
      → (v : Verdict)
      → validate_new e.validator (order_of e r) (some i) m.state (book_for m r.symbol) ≡ v
      → verdict r e new_name m has_market ≡ v
      → EntryOutcome r e
  listed i has (ok none) h h' = admission (record {
    market = m;
    instrument = i;
    has_market = has_market;
    has_instrument = has;
    new_name = new_name;
    not_forced = not_forced;
    acceptable =
        validate_new-Acceptable e.validator (order_of e r) i m.state (book_for m r.symbol) h;
    runs = runs_of r e new_name m has_market not_forced h';
  })
  listed i has (ok (some reason)) h h' =
      let (after, eq, done) = rejects r e new_name m has_market not_forced reason h' in
      refusal after eq done
  listed i has (raised x) h h' = failure m i x h (fails r e new_name m has_market not_forced x h')

  outcome : EntryOutcome r e
  outcome = elim (Option-cases (get_named r.symbol e.instruments)) [
    | inl missing ↦
        let (after, eq, done) =
          rejects r e new_name m has_market not_forced RejectReason.unknown_symbol
            (unfold validate_new in (simp missing refl)) in
        refusal after eq done
    | inr (i, has) ↦ listed i has _ refl (simp has refl)
  ]

-- Every new order is refused, or it is admitted, or the validator raises and so does the engine. One
-- is refused with one report that says why and its status rejected, and no other order changes, no
-- ClOrdID is bound and no trade is numbered. One is admitted only under a ClOrdID that is new to its
-- session, to a market and an instrument that exist, against no injected rejection, and if it meets
-- the limits of the validator; what is left to do is then its submission to the market.
pub new_order_lem : (r : NewOrderRequest) (e : Engine) → EntryOutcome r e
new_order_lem r e = elim (Bool-cases (is_duplicate r.session_key r.cl_ord_id e.registry)) [
  | inl dup ↦
      refusal (refuse e.next_order duplicate_order (build_order r e))
        (unfold new_order build_order in (simp dup refl)) (Refused-built r e duplicate_order)
  | inr new_name ↦ elim (Option-cases (get_named r.market e.markets)) [
    | inl missing ↦
        refusal (refuse e.next_order RejectReason.other (build_order r e))
          (unfold new_order build_order in (simp (new_name, missing) refl))
          (Refused-built r e RejectReason.other)
    | inr (m, has_market) ↦ elim (Option-cases (find reject (order_of e r) e.behaviour.rules)) [
      | inr (x, h) ↦
          let (after, eq, done) = forced r e new_name m has_market x h in refusal after eq done
      | inl not_forced ↦ outcome r e new_name m has_market not_forced
    ]
  ]
]
