-- ===== src/Fix/Session/Numbers.antt =====
-- What exchangesim/fix/session.py sends is numbered without gaps and kept under its number.
use exchange_sim.Prelude.{
  ℕ, suc, ◌<◌, ◌≡◌, refl, sym, ap, subst, ◌∙◌, List, [], ◌∷◌, ◌++◌, Option, none, some, ◌==◌, ltb,
  if◌then◌else◌, if_cases, arith,
}
use exchange_sim.Prelude.Int.{pos}
use exchange_sim.Ids.{decimal}
use exchange_sim.Bytes.Numbers.{parse_int-decimal}
use exchange_sim.Fix.Message.{Message, get, get_int, int_of, has, set, encode}
use exchange_sim.Fix.Message.Fields.{get-set_same, get-set_other}
use exchange_sim.Fix.Store.{MemoryStore, Messages, put_message, lookup, store_outbound}
use exchange_sim.Fix.Store
use exchange_sim.Fix.Tag
use exchange_sim.Fix.Session.{
  Clock, Session, SessionConfig, stamped, with_appl_ver, keep_sent, deliver, transmit, numbered,
  send, put_store,
}

get-with_appl_ver :
    (v : Option (List ℕ)) (m : Message)
    → get Tag.msg_seq_num (with_appl_ver v m) ≡ get Tag.msg_seq_num m
unfolding with_appl_ver
get-with_appl_ver none m = refl
get-with_appl_ver (some []) m = refl
get-with_appl_ver (some (c ∷ cs)) m =
    if_cases (λ r. get Tag.msg_seq_num r ≡ get Tag.msg_seq_num m) (has Tag.appl_ver_id m) _ _
      (λ _. refl) (λ _. get-set_other Tag.msg_seq_num Tag.appl_ver_id (c ∷ cs) m refl)

-- What `_transmit` fills in leaves the sequence number.
get-stamped :
    (clock : Clock) (config : SessionConfig) (m : Message)
    → get Tag.msg_seq_num (stamped clock config m) ≡ get Tag.msg_seq_num m
unfolding stamped
get-stamped clock config m =
    let sender = set Tag.sender_comp_id (some config.sender_comp_id) m in
    let addressed = set Tag.target_comp_id (some config.target_comp_id) sender in
    let same : get Tag.msg_seq_num addressed ≡ get Tag.msg_seq_num m =
      get-set_other Tag.msg_seq_num Tag.target_comp_id config.target_comp_id sender refl
      ∙ get-set_other Tag.msg_seq_num Tag.sender_comp_id config.sender_comp_id m refl in
    get-with_appl_ver config.appl_ver_id _
    ∙ if_cases (λ r. get Tag.msg_seq_num r ≡ get Tag.msg_seq_num m) (has Tag.sending_time addressed)
        _ _ (λ _. same)
        (λ _. get-set_other Tag.msg_seq_num Tag.sending_time clock.timestamp addressed refl ∙ same)

pub stamped_number :
    (clock : Clock) (config : SessionConfig) (m : Message) (n : ℕ)
    → get_int Tag.msg_seq_num none (stamped clock config (numbered n m)) ≡ some (pos n)
unfolding get_int numbered int_of
stamped_number clock config m n =
    let same =
      get-stamped clock config (set Tag.msg_seq_num (some (decimal n)) m)
      ∙ get-set_same Tag.msg_seq_num (decimal n) m in
    ap (int_of none) same ∙ (rw (int_of, parse_int-decimal n) refl)

-- The bytes of the next message.
unfoldable pub next_raw : Clock → Message → Session → List ℕ
next_raw clock m s =
    encode (stamped clock s.config (numbered s.store.next_out m)) s.config.begin_string

-- What `send` leaves.
pub send-deliver :
    (clock : Clock) (m : Message) (s : Session)
    → send clock m s
      ≡ deliver clock (next_raw clock m s) (
          put_store
            (Store.set_next_out
              (suc s.store.next_out)
              (store_outbound s.store.next_out (next_raw clock m s) s.store))
            s)
unfolding send transmit next_raw
send-deliver clock m s =
    rw (stamped_number clock s.config m s.store.next_out) (unfold keep_sent in refl)

-- The messages that are kept have numbers below the next one.
unfoldable pub AllBelow : ℕ → Messages → Type 0
AllBelow n [] = Unit {0}
AllBelow n ((seq, raw) ∷ rest) = (seq < n) × AllBelow n rest

AllBelow-put_message :
    (n : ℕ) (raw : List ℕ) (kept : Messages)
    → AllBelow n kept
    → AllBelow (suc n) (put_message n raw kept)
unfolding AllBelow put_message
AllBelow-put_message n raw [] all = (omega arith, tt)
AllBelow-put_message n raw ((seq, r) ∷ rest) (here, all) =
    if_cases (AllBelow (suc n)) (n == seq) _ _ (λ same. absurd (ground (arith, same, here)))
      (λ _.
        if_cases (AllBelow (suc n)) (ltb n seq) _ _ (λ less. absurd (ground (arith, less, here)))
          (λ _. (omega (arith, here), AllBelow-put_message n raw rest all)))

lookup-put_message :
    (key n : ℕ) (raw : List ℕ) (kept : Messages)
    → AllBelow n kept
    → lookup key (put_message n raw kept) ≡ (if n == key then some raw else lookup key kept)
unfolding AllBelow put_message lookup
lookup-put_message key n raw [] all = refl
lookup-put_message key n raw ((seq, r) ∷ rest) (here, all) =
    ground (arith, here, lookup-put_message key n raw rest all)

pub record Sends (m : Message) (clock : Clock) (s t : Session) : Type 0 where
  -- The new message is kept under the number that was next, and no other message has changed.
  pub keeps :
      (key : ℕ)
      → lookup key t.store.messages ≡ (
          if s.store.next_out == key
          then some (next_raw clock m s)
          else lookup key s.store.messages)
  pub advances : t.store.next_out ≡ suc s.store.next_out
  pub below : AllBelow t.store.next_out t.store.messages
  pub goes_out : t.sent ≡ (if s.connected then s.sent ++ next_raw clock m s ∷ [] else s.sent)
  pub expects : t.store.next_in ≡ s.store.next_in

pub deliver-store :
    (clock : Clock) (raw : List ℕ) (s : Session) → (deliver clock raw s).store ≡ s.store
unfolding deliver
deliver-store clock raw s =
    if_cases (λ (t : Session). t.store ≡ s.store) s.connected _ _ (λ _. refl) (λ _. refl)

pub deliver-sent :
    (clock : Clock) (raw : List ℕ) (s : Session)
    → (deliver clock raw s).sent ≡ (if s.connected then s.sent ++ raw ∷ [] else s.sent)
unfolding deliver
deliver-sent clock raw s = ground arith

-- The session with the message kept, before it goes out.
abbrev kept : Clock → Message → Session → Session
kept clock m s =
    put_store
      (Store.set_next_out (suc s.store.next_out)
        (store_outbound s.store.next_out (next_raw clock m s) s.store))
      s

deliver-Sends :
    (clock : Clock) (m : Message) (s : Session)
    → AllBelow s.store.next_out s.store.messages
    → Sends m clock s (deliver clock (next_raw clock m s) (kept clock m s))
unfolding put_store Store.set_next_out store_outbound
deliver-Sends clock m s all =
    let n = s.store.next_out in
    let raw = next_raw clock m s in
    let same = deliver-store clock raw (kept clock m s) in
    record {
      keeps = λ key.
          ap (λ st. lookup key st.messages) same
          ∙ lookup-put_message key n raw s.store.messages all;
      advances = ap (λ st. st.next_out) same;
      below =
          subst (λ st. AllBelow st.next_out st.messages) (sym same)
            (AllBelow-put_message n raw s.store.messages all);
      goes_out = deliver-sent clock raw (kept clock m s);
      expects = ap (λ st. st.next_in) same;
    }

-- Sending, with a transport or without one, keeps the message under the number that was next, counts
-- on by one, leaves what was kept before and the number that is expected, and hands the bytes to the
-- transport exactly when there is one, where every message that is kept has a number below the next.
pub send-Sends :
    (clock : Clock) (m : Message) (s : Session)
    → AllBelow s.store.next_out s.store.messages
    → Sends m clock s (send clock m s)
send-Sends clock m s all =
    subst (Sends m clock s) (sym (send-deliver clock m s)) (deliver-Sends clock m s all)
