-- ===== src/Fix/Session/Timers.antt =====
-- The policing of a silent peer by `tick` of exchangesim/fix/session.py.
use exchange_sim.Prelude.{
  ℕ, ◌-◌, ◌*◌, ◌≤◌, ◌≡◌, ◌≢◌, refl, sym, ap, subst, ◌∙◌, List, [], ◌∷◌, ◌++◌, true, false, none,
  some, ◌==◌, leb, if_cases, ◌⊎◌, inl, inr, arith,
}
use exchange_sim.Fix.Session.{
  Clock, Session, active, disconnected, Application, logout_and_disconnect,
}
use exchange_sim.Fix.Session.Logon.{is_active}
use exchange_sim.Fix.Session.Transport.{
  Dialect, beat, ask, police, tick, next_test_request_id, test_request_of,
}
use exchange_sim.Fix.Session.Stays.{Stays, beat-Stays, logout-off, send-Stays}

-- A session that is logged on and polices its peer.
record IsPolicing (s : Session) : Type 0 where
  logged_on : s.state ≡ active
  connected : s.connected ≡ true
  interval : (s.heartbeat_interval == 0) ≡ false

tick-police :
    (dialect : Dialect) (app : Application) (clock : Clock) (s : Session)
    → IsPolicing s
    → tick dialect app clock s
      ≡ police dialect app clock s.test_request_sent (beat dialect app clock s)
unfolding tick
tick-police dialect app clock s p =
    rw p.logged_on (rw p.connected (rw p.interval (unfold is_active in refl)))

leb-true : (a b : ℕ) → a ≤ b → leb a b ≡ true
leb-true a b l = ground (arith, l)

-- A session without a connection, after its peer did not answer.
record IsOff (s : Session) : Type 0 where
  connected : s.connected ≡ false
  state : s.state ≡ disconnected

-- The peer was asked at a time and has not been heard of since, or the session is off.
unfoldable IsAsked : ℕ → ℕ → Session → Type 0
IsAsked time interval s =
    (IsPolicing s × (s.test_request_sent ≡ some time) × (s.heartbeat_interval ≡ interval)) ⊎ IsOff s

Stays-IsPolicing : (s t : Session) → Stays s t → IsPolicing s → IsPolicing t
Stays-IsPolicing s t k p = record {
  logged_on = k.state ∙ p.logged_on;
  connected = k.connected ∙ p.connected;
  interval = ap (λ i. i == 0) k.interval ∙ p.interval;
}

ask-IsAsked :
    (dialect : Dialect) (app : Application) (clock : Clock) (id : ℕ) (s : Session)
    → IsPolicing s
    → IsAsked clock.monotonic s.heartbeat_interval (ask dialect app clock id s)
unfolding ask IsAsked
ask-IsAsked dialect app clock id s p =
    let k = send-Stays clock (test_request_of id) (record s { test_request_id = id }) in
    inl (
      record {
        logged_on = k.state ∙ p.logged_on;
        connected = k.connected ∙ p.connected;
        interval = ap (λ i. i == 0) k.interval ∙ p.interval;
      },
      refl,
      k.interval,
    )

module _ (dialect : Dialect) (app : Application) where
  tick-off : (clock : Clock) (s : Session) → IsOff s → tick dialect app clock s ≡ s
  unfolding tick is_active
  tick-off clock s o = rw o.state refl

  police-asks :
      (clock : Clock) (t : Session)
      → IsPolicing t
      → t.heartbeat_interval * 1200 ≤ clock.monotonic - t.last_received
      → IsAsked clock.monotonic t.heartbeat_interval (police dialect app clock none t)
  unfolding police
  police-asks clock t p silent =
      rw (leb-true (t.heartbeat_interval * 1200) (clock.monotonic - t.last_received) silent)
        (ask-IsAsked dialect app clock (next_test_request_id t.test_request_id) t p)

  -- The first tick after a long silence.
  tick-asks :
      (clock : Clock) (s : Session)
      → IsPolicing s
      → s.test_request_sent ≡ none
      → s.heartbeat_interval * 1200 ≤ clock.monotonic - s.last_received
      → IsAsked clock.monotonic s.heartbeat_interval (tick dialect app clock s)
  tick-asks clock s p e silent =
      let t = beat dialect app clock s in
      let k = beat-Stays dialect app clock s in
      let silent' : t.heartbeat_interval * 1200 ≤ clock.monotonic - t.last_received =
        rw (k.interval, k.heard) silent in
      subst (IsAsked clock.monotonic s.heartbeat_interval)
        (sym (tick-police dialect app clock s p ∙ ap (λ a. police dialect app clock a t) e))
        (subst (λ i. IsAsked clock.monotonic i (police dialect app clock none t)) k.interval
          (police-asks clock t (Stays-IsPolicing s t k p) silent'))

  IsOff-logout :
      (clock : Clock) (text : List ℕ) (t : Session) → IsOff (logout_and_disconnect app clock text t)
  IsOff-logout clock text t =
      let (c, s) = logout-off app clock text t in record { connected = c; state = s }

  -- A later tick, before the peer has had its interval or after.
  police-IsAsked :
      (clock : Clock) (time interval : ℕ) (t : Session)
      → IsPolicing t
      → t.test_request_sent ≡ some time
      → t.heartbeat_interval ≡ interval
      → IsAsked time interval (police dialect app clock (some time) t)
  unfolding police IsAsked
  police-IsAsked clock time interval t p e i =
      if_cases (λ r. IsAsked time interval r)
        (leb (t.heartbeat_interval * 1000) (clock.monotonic - time)) _ _
        (λ _. inr (IsOff-logout clock _ t)) (λ _. inl (p, e, i))

  police-IsOff :
      (clock : Clock) (time : ℕ) (t : Session)
      → t.heartbeat_interval * 1000 ≤ clock.monotonic - time
      → IsOff (police dialect app clock (some time) t)
  unfolding police
  police-IsOff clock time t due =
      rw (leb-true (t.heartbeat_interval * 1000) (clock.monotonic - time) due)
        (IsOff-logout clock _ t)

  -- A tick that polices a peer that was asked.
  tick-asked :
      (clock : Clock) (time : ℕ) (s : Session)
      → IsPolicing s
      → s.test_request_sent ≡ some time
      → tick dialect app clock s ≡ police dialect app clock (some time) (beat dialect app clock s)
  tick-asked clock time s p e =
      tick-police dialect app clock s p
      ∙ ap (λ a. police dialect app clock a (beat dialect app clock s)) e

  tick-IsAsked :
      (clock : Clock) (time interval : ℕ) (s : Session)
      → IsAsked time interval s
      → IsAsked time interval (tick dialect app clock s)
  unfolding IsAsked
  tick-IsAsked clock time interval s (inl (p, e, i)) =
      let k = beat-Stays dialect app clock s in
      subst (IsAsked time interval) (sym (tick-asked clock time s p e)) (
        police-IsAsked clock time interval _ (Stays-IsPolicing s _ k p) (k.asked ∙ e)
          (k.interval ∙ i))
  tick-IsAsked clock time interval s (inr off) =
      subst (IsAsked time interval) (sym (tick-off clock s off)) (inr off)

  tick-IsOff :
      (clock : Clock) (time interval : ℕ) (s : Session)
      → IsAsked time interval s
      → interval * 1000 ≤ clock.monotonic - time
      → IsOff (tick dialect app clock s)
  unfolding IsAsked
  tick-IsOff clock time interval s (inl (p, e, i)) due =
      let k = beat-Stays dialect app clock s in
      subst IsOff (sym (tick-asked clock time s p e))
        (police-IsOff clock time _ (rw (k.interval ∙ i) due))
  tick-IsOff clock time interval s (inr off) due = subst IsOff (sym (tick-off clock s off)) off

  -- Ticks one after the other.
  unfoldable pub ticks : List Clock → Session → Session
  ticks [] s = s
  ticks (clock ∷ clocks) s = ticks clocks (tick dialect app clock s)

  ticks-IsOff :
      (clocks : List Clock) (last : Clock) (time interval : ℕ) (s : Session)
      → IsAsked time interval s
      → interval * 1000 ≤ last.monotonic - time
      → IsOff (ticks (clocks ++ last ∷ []) s)
  unfolding ticks
  ticks-IsOff [] last time interval s a due = tick-IsOff last time interval s a due
  ticks-IsOff (clock ∷ clocks) last time interval s a due =
      ticks-IsOff clocks last time interval (tick dialect app clock s)
        (tick-IsAsked clock time interval s a) due

  -- A peer that stays silent is dropped: with a session that is logged on, that polices and has not
  -- asked yet, a tick after the interval and a fifth of it and, any number of ticks later, one after
  -- another interval leave the session disconnected, if nothing arrives in between.
  pub ticks-disconnected :
      (first : Clock) (clocks : List Clock) (last : Clock) (s : Session)
      → s.state ≡ active
      → s.connected ≡ true
      → s.heartbeat_interval ≢ 0
      → s.test_request_sent ≡ none
      → s.heartbeat_interval * 1200 ≤ first.monotonic - s.last_received
      → s.heartbeat_interval * 1000 ≤ last.monotonic - first.monotonic
      → ((ticks (first ∷ clocks ++ last ∷ []) s).state ≡ disconnected)
        × ((ticks (first ∷ clocks ++ last ∷ []) s).connected ≡ false)
  unfolding ticks
  ticks-disconnected first clocks last s a c i n silent due =
      let p : IsPolicing s = record {
        logged_on = a;
        connected = c;
        interval = ground (arith, i);
      } in
      let off =
        ticks-IsOff clocks last first.monotonic s.heartbeat_interval (tick dialect app first s)
          (tick-asks first s p n silent) due in
      (off.state, off.connected)
