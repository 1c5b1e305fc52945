-- ===== src/Fix/Session/Logon.antt =====
-- exchangesim/fix/session.py: the logon handshake, and the queue of messages beyond a gap.
use exchange_sim.Prelude.{
  ℕ, suc, ◌+◌, List, [], ◌∷◌, ◌++◌, Bool, true, false, ◌&&◌, ◌||◌, not, Option, none, some,
  if◌then◌else◌,
}
use exchange_sim.Prelude.Int.{ℤ, pos, pos_part, lt_test, eq_test}
use exchange_sim.Ids.{decimal}
use exchange_sim.Bytes.{codes, same}
use exchange_sim.Fix.Message.{Message, get, get_int, set, set_if, create}
use exchange_sim.Fix.Store.{reset}
use exchange_sim.Fix.MsgType
use exchange_sim.Fix.Tag
use exchange_sim.Fix.Session.{
  Clock, Session, SessionState, active, Application, set_flag, with_state, put_store, expect, send,
  send_all, logout_and_disconnect, integer_text,
}
use exchange_sim.Fix.Session.Replay.{replay}

unfoldable pub is_active : SessionState → Bool
is_active active = true
is_active _ = false

-- Whether a field is there with this value.
unfoldable pub is_value : List ℕ → Option (List ℕ) → Bool
is_value text none = false
is_value text (some value) = same value text

-- `self._pending[received] = message`
unfoldable pub put_pending : ℤ → Message → List (ℤ × Message) → List (ℤ × Message)
put_pending seq m [] = (seq, m) ∷ []
put_pending seq m ((n, other) ∷ rest) =
    let later = put_pending seq m rest in
    if eq_test n seq then (seq, m) ∷ rest else (n, other) ∷ later

unfoldable pub resend_from : ℕ → Message
resend_from expected =
    set Tag.end_seq_no (some (decimal 0))
      (set Tag.begin_seq_no (some (decimal expected)) (create MsgType.resend_request))

-- The first gap asks for a resend, unless the peer recovers by itself.
unfoldable pub queue_and_request_resend : Clock → Message → ℕ → ℤ → Bool → Session → Session
queue_and_request_resend clock m expected received request s =
    let queued = record s { pending = put_pending received m s.pending } in
    if s.resend_requested
    then queued
    else if request
    then send clock (resend_from expected) (record queued { resend_requested = true })
    else record queued { resend_requested = true }

unfoldable pub text_or_none : Option (List ℕ) → List ℕ
text_or_none none = codes "None"
text_or_none (some text) = text

unfoldable pub too_low : ℕ → ℤ → List ℕ
too_low expected received =
    codes "MsgSeqNum too low, expecting "
    ++ decimal expected
    ++ codes " but received "
    ++ integer_text received

unfoldable pub is_below : Option ℤ → ℕ → Bool
is_below none expected = false
is_below (some received) expected = lt_test received (pos expected)

unfoldable pub is_above : Option ℤ → ℕ → Bool
is_above none expected = false
is_above (some received) expected = lt_test (pos expected) received

unfoldable pub number_or_zero : Option ℤ → ℤ
number_or_zero none = pos 0
number_or_zero (some n) = n

-- What is next expected from the client: one past its logon if that was in sequence.
unfoldable pub next_wanted : Option ℤ → ℕ → ℕ
next_wanted none expected = expected
next_wanted (some received) expected =
    if eq_test received (pos expected) then suc expected else expected

unfoldable pub logon_response : Bool → Option ℤ → Session → Message
logon_response resets received s =
    let basic =
      set Tag.heart_bt_int (some (decimal s.heartbeat_interval))
        (set Tag.encrypt_method (some (codes "0")) (create MsgType.logon)) in
    let flagged = if resets then set Tag.reset_seq_num_flag (some set_flag) basic else basic in
    let versioned = set_if Tag.default_appl_ver_id s.config.default_appl_ver_id flagged in
    if s.config.next_expected_seq_num
    then set Tag.session_status (some (codes "0")) (
        set Tag.next_expected_msg_seq_num (some (decimal (next_wanted received s.store.next_in)))
          versioned)
    else versioned

-- A logon beyond a gap is queued, one in sequence is consumed.
unfoldable pub consume_logon : Clock → Message → ℕ → Option ℤ → Session → Session
consume_logon clock m expected received s =
    if is_above received expected
    then queue_and_request_resend clock m expected (number_or_zero received)
        (not s.config.next_expected_seq_num) s
    else expect (pos_part (number_or_zero received) + 1) s

-- A client that says it is behind gets what it has missed, up to the logon.
unfoldable pub replay_missed : Clock → Option ℤ → ℕ → Session → Session
replay_missed clock none logon_seq s = s
replay_missed clock (some next_expected) logon_seq s =
    if lt_test next_expected (pos logon_seq)
    then replay clock next_expected (pos logon_seq) s
    else s

module _ (app : Application) (clock : Clock) where
  -- `send` gives the response the next outbound number, which is the number of the logon.
  unfoldable pub welcome : Message → Bool → Option ℤ → Session → Session
  welcome m resets next_expected s =
      let received = get_int Tag.msg_seq_num none m in
      let answered = send clock (logon_response resets received s) (with_state active s) in
      let consumed = consume_logon clock m s.store.next_in received answered in
      let recovered = replay_missed clock next_expected s.store.next_out consumed in
      send_all clock (app.on_logon recovered.delivered) recovered

  unfoldable pub logon_in_order : Message → Bool → Option ℤ → Session → Session
  logon_in_order m resets next_expected s =
      let received = get_int Tag.msg_seq_num none m in
      if is_below received s.store.next_in
      then logout_and_disconnect app clock (too_low s.store.next_in (number_or_zero received)) s
      else welcome m resets next_expected s

  unfoldable pub logon_expecting : Message → Bool → Option ℤ → Session → Session
  logon_expecting m resets none s =
      logout_and_disconnect app clock (codes "NextExpectedMsgSeqNum (789) is required on Logon") s
  logon_expecting m resets (some next_expected) s =
      if lt_test (pos s.store.next_out) next_expected
      then logout_and_disconnect app clock
          (codes "NextExpectedMsgSeqNum (789) "
            ++ integer_text next_expected
            ++ codes " is above the next outbound sequence number "
            ++ decimal s.store.next_out)
          s
      else logon_in_order m resets (some next_expected) s

  unfoldable pub logon_reset : Message → Session → Session
  logon_reset m s =
      let asked = is_value set_flag (get Tag.reset_seq_num_flag m) in
      let resets = asked || s.config.reset_on_logon in
      let fresh = if resets then put_store (reset s.store) s else s in
      if asked && not s.config.allow_logon_reset
      then logout_and_disconnect app clock
          (codes "ResetSeqNumFlag (141) is not supported on this session") s
      else if s.config.next_expected_seq_num
      then logon_expecting m resets (get_int Tag.next_expected_msg_seq_num none m) fresh
      else logon_in_order m resets none fresh

  unfoldable pub logon_interval : Message → Option ℤ → Session → Session
  logon_interval m (some (pos interval)) s =
      logon_reset m (record s { heartbeat_interval = interval })
  logon_interval m _ s = logout_and_disconnect app clock (codes "invalid HeartBtInt (108)") s

  unfoldable pub on_logon : Message → Session → Session
  on_logon m s =
      let encrypt = get Tag.encrypt_method m in
      if is_active s.state
      then logout_and_disconnect app clock (codes "already logged on") s
      else if s.config.requires_encrypt_method && not (is_value (codes "0") encrypt)
      then logout_and_disconnect app clock
          (codes "EncryptMethod (98) " ++ text_or_none encrypt ++ codes " is not supported") s
      else if s.config.requires_heart_bt_int
      then logon_interval m (get_int Tag.heart_bt_int none m) s
      else logon_reset m s
