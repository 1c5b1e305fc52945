-- ===== src/Fix/Session/Keeps.antt =====
-- What sending and replaying leave as it was in a session of exchangesim/fix/session.py.
use exchange_sim.Prelude.{
  ℕ, zero, suc, ◌≤◌, ◌≡◌, refl, sym, subst, ◌∙◌, List, [], ◌∷◌, ◌++◌, Bool, true, false, Option,
  none, some, if_cases, length, arith,
}
use exchange_sim.Prelude.Int.{ℤ, pos, negsuc, ◌+ℤ◌}
use exchange_sim.Fix.Message.{Message, get_int, Parsed, parsed, incomplete, malformed}
use exchange_sim.Fix.Wire.{decode}
use exchange_sim.Fix.Store.{MemoryStore, Messages}
use exchange_sim.Fix.Store
use exchange_sim.Fix.Tag
use exchange_sim.Fix.Session.{
  Clock, Session, Application, transmit, deliver, send, send_all, send_logout, with_state,
  put_store, dropped, detach, disconnect, logout_and_disconnect, keep_sent, numbered,
}
use exchange_sim.Fix.Session.Replay.{
  replay, replay_each, replay_found, resend, resend_decoded, fill_before, send_gap_fill, replayable,
  stored_at,
}

-- The messages carry sequence numbers from the first bound on, each larger than the one before, and
-- all below the second bound.
unfoldable pub Ascends : ℕ → List Message → ℕ → Type 0
Ascends from [] below = from ≤ below
Ascends from (m ∷ ms) below =
    (n : ℕ) × (get_int Tag.msg_seq_num none m ≡ some (pos n))
    × (from ≤ n)
    × Ascends (suc n) ms below

Ascends-le : (from : ℕ) (ms : List Message) (below : ℕ) → Ascends from ms below → from ≤ below
unfolding Ascends
Ascends-le from [] below a = a
Ascends-le from (m ∷ ms) below (n, e, l, a) = omega (arith, l, Ascends-le (suc n) ms below a)

pub Ascends-longer :
    (from : ℕ) (ms : List Message) (b c : ℕ) → b ≤ c → Ascends from ms b → Ascends from ms c
unfolding Ascends
Ascends-longer from [] b c l a = omega (arith, l, a)
Ascends-longer from (m ∷ ms) b c l (n, e, k, a) = (n, e, k, Ascends-longer (suc n) ms b c l a)

pub Ascends-snoc :
    (from : ℕ) (ms : List Message) (m : Message) (n : ℕ)
    → get_int Tag.msg_seq_num none m ≡ some (pos n)
    → Ascends from ms n
    → Ascends from (ms ++ m ∷ []) (suc n)
unfolding Ascends
Ascends-snoc from [] m n e l = (n, e, l, omega arith)
Ascends-snoc from (x ∷ ms) m n e (k, f, l, a) = (k, f, l, Ascends-snoc (suc k) ms m n e a)

-- Every queued message waits under its own number.
unfoldable pub AllKeyed : List (ℤ × Message) → Type 0
AllKeyed [] = Unit {0}
AllKeyed ((n, m) ∷ rest) = (get_int Tag.msg_seq_num none m ≡ some n) × AllKeyed rest

-- What was handed to the application came in order, and the queue is keyed.
pub record InOrder (s : Session) : Type 0 where
  pub ascends : Ascends 0 s.delivered s.store.next_in
  pub keyed : AllKeyed s.pending

-- A step that hands nothing over and moves no expectation.
pub record Keeps (s t : Session) : Type 0 where
  pub same : t.delivered ≡ s.delivered
  pub expects : t.store.next_in ≡ s.store.next_in
  pub queue : AllKeyed s.pending → AllKeyed t.pending
  pub shorter : length t.pending ≤ length s.pending

Keeps-refl : (s : Session) → Keeps s s
Keeps-refl s = record { same = refl; expects = refl; queue = λ a. a; shorter = omega arith }

pub Keeps-trans : (s t u : Session) → Keeps s t → Keeps t u → Keeps s u
Keeps-trans s t u k l = record {
  same = l.same ∙ k.same;
  expects = l.expects ∙ k.expects;
  queue = λ a. l.queue (k.queue a);
  shorter = omega (arith, k.shorter, l.shorter);
}

pub Keeps-InOrder : (s t : Session) → Keeps s t → InOrder s → InOrder t
Keeps-InOrder s t k o = record {
  ascends =
      subst (λ n. Ascends 0 t.delivered n) (sym k.expects)
        (subst (λ d. Ascends 0 d s.store.next_in) (sym k.same) o.ascends);
  keyed = k.queue o.keyed;
}

keep_sent-next_in :
    (n : Option ℤ) (raw : List ℕ) (st : MemoryStore) → (keep_sent n raw st).next_in ≡ st.next_in
unfolding keep_sent Store.set_next_out Store.store_outbound
keep_sent-next_in none raw st = refl
keep_sent-next_in (some (pos n)) raw st = refl
keep_sent-next_in (some (negsuc n)) raw st = refl

deliver-Keeps : (clock : Clock) (raw : List ℕ) (s : Session) → Keeps s (deliver clock raw s)
unfolding deliver
deliver-Keeps clock raw s =
    if_cases (Keeps s) s.connected _ _
      (λ _. record { same = refl; expects = refl; queue = λ a. a; shorter = omega arith })
      (λ _. Keeps-refl s)

stored-Keeps :
    (n : Option ℤ) (raw : List ℕ) (s : Session) → Keeps s (put_store (keep_sent n raw s.store) s)
unfolding put_store
stored-Keeps n raw s = record {
  same = refl;
  expects = keep_sent-next_in n raw s.store;
  queue = λ a. a;
  shorter = omega arith;
}

transmit-Keeps :
    (clock : Clock) (stores : Bool) (m : Message) (s : Session)
    → Keeps s (transmit clock stores m s)
unfolding transmit
transmit-Keeps clock true m s = Keeps-trans s _ _ (stored-Keeps _ _ s) (deliver-Keeps clock _ _)
transmit-Keeps clock false m s = deliver-Keeps clock _ s

pub send-Keeps : (clock : Clock) (m : Message) (s : Session) → Keeps s (send clock m s)
unfolding send
send-Keeps clock m s = transmit-Keeps clock true (numbered s.store.next_out m) s

pub send_all-Keeps :
    (clock : Clock) (ms : List Message) (s : Session) → Keeps s (send_all clock ms s)
unfolding send_all
send_all-Keeps clock [] s = Keeps-refl s
send_all-Keeps clock (m ∷ ms) s =
    Keeps-trans s (send clock m s) _ (send-Keeps clock m s)
      (send_all-Keeps clock ms (send clock m s))

dropped-Keeps : (s : Session) → Keeps s (dropped s)
unfolding dropped AllKeyed
dropped-Keeps s = record { same = refl; expects = refl; queue = λ a. tt; shorter = omega arith }

module _ (app : Application) (clock : Clock) where
  pub disconnect-Keeps : (s : Session) → Keeps s (disconnect app clock s)
  unfolding disconnect detach
  disconnect-Keeps s =
      Keeps-trans s (dropped s) _ (dropped-Keeps s)
        (send_all-Keeps clock (app.on_logout s.delivered) (dropped s))

  send_logout-Keeps : (text : Option (List ℕ)) (s : Session) → Keeps s (send_logout clock text s)
  unfolding send_logout with_state
  send_logout-Keeps text s =
      let k = send-Keeps clock _ s in
      record { same = k.same; expects = k.expects; queue = k.queue; shorter = k.shorter }

  pub logout-Keeps :
      (text : List ℕ) (s : Session) → Keeps s (logout_and_disconnect app clock text s)
  unfolding logout_and_disconnect
  logout-Keeps text s =
      Keeps-trans s (send_logout clock (some text) s) _ (send_logout-Keeps (some text) s)
        (disconnect-Keeps (send_logout clock (some text) s))

fill_before-Keeps :
    (clock : Clock) (start : Option ℤ) (seq : ℤ) (s : Session)
    → Keeps s (fill_before clock start seq s)
unfolding fill_before send_gap_fill
fill_before-Keeps clock none seq s = Keeps-refl s
fill_before-Keeps clock (some start) seq s = transmit-Keeps clock false _ s

resend_decoded-Keeps :
    (clock : Clock) (seq : ℤ) (m : Parsed Message) (s : Session)
    → Keeps s (resend_decoded clock seq m s)
unfolding resend_decoded send_gap_fill
resend_decoded-Keeps clock seq (parsed m) s = transmit-Keeps clock false _ s
resend_decoded-Keeps clock seq incomplete s = transmit-Keeps clock false _ s
resend_decoded-Keeps clock seq (malformed e) s = transmit-Keeps clock false _ s

resend-Keeps :
    (clock : Clock) (seq : ℤ) (raw : List ℕ) (s : Session) → Keeps s (resend clock seq raw s)
unfolding resend
resend-Keeps clock seq raw s = resend_decoded-Keeps clock seq (decode false raw) s

replay_found-Keeps :
    (clock : Clock) (found : Option (List ℕ)) (seq : ℤ) (start : Option ℤ)
    (go_on : Option ℤ → Session → Session)
    → ((i : Option ℤ) (t : Session) → Keeps t (go_on i t))
    → (s : Session) → Keeps s (replay_found clock found seq start go_on s)
unfolding replay_found
replay_found-Keeps clock none seq start go_on k s = k _ s
replay_found-Keeps clock (some raw) seq start go_on k s =
    let filled = fill_before clock start seq s in
    let again = resend clock seq raw filled in
    Keeps-trans s again _
      (Keeps-trans s filled again (fill_before-Keeps clock start seq s)
        (resend-Keeps clock seq raw filled))
      (k none again)

replay_each-Keeps :
    (clock : Clock) (stored : Messages) (n : ℕ) (seq : ℤ) (start : Option ℤ) (s : Session)
    → Keeps s (replay_each clock stored n seq start s)
unfolding replay_each
replay_each-Keeps clock stored zero seq start s =
    fill_before-Keeps clock start (pos s.store.next_out) s
replay_each-Keeps clock stored (suc n) seq start s =
    replay_found-Keeps clock (replayable (stored_at seq stored)) seq start _
      (λ i t. replay_each-Keeps clock stored n (seq +ℤ pos 1) i t) s

pub replay-Keeps :
    (clock : Clock) (begin end : ℤ) (s : Session) → Keeps s (replay clock begin end s)
unfolding replay
replay-Keeps clock begin end s = replay_each-Keeps clock _ _ begin none s
