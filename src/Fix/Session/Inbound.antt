-- ===== src/Fix/Session/Inbound.antt =====
-- exchangesim/fix/session.py: sequencing, the administrative handlers, the bytes that come in and the
-- timers.
use exchange_sim.Prelude.{
  ℕ, zero, suc, List, [], ◌∷◌, ◌++◌, Bool, true, false, ◌&&◌, ◌||◌, not, Option, none, some,
  if◌then◌else◌, length, is_empty as is_empty_list,
}
use exchange_sim.Prelude.Int.{ℤ, pos, pos_part, ◌+ℤ◌, lt_test, eq_test}
use exchange_sim.Ids.{decimal}
use exchange_sim.Bytes.{codes}
use exchange_sim.Fix.Message.{Message, get, get_int, set, set_if, create}
use exchange_sim.Fix.MsgType
use exchange_sim.Fix.Tag
use exchange_sim.Fix.Session.{
  Clock, Session, SessionState, awaiting_logon, awaiting_logout, Application, Failure,
  required_tag_missing, value_incorrect, set_flag, expect, send, send_all, send_reject, disconnect,
  logout_and_disconnect, integer_text,
}
use exchange_sim.Fix.Session.Replay.{replay}
use exchange_sim.Fix.Session.Logon.{is_value, queue_and_request_resend, too_low, on_logon}

unfoldable pub is_awaiting_logon : SessionState → Bool
is_awaiting_logon awaiting_logon = true
is_awaiting_logon _ = false

unfoldable pub is_awaiting_logout : SessionState → Bool
is_awaiting_logout awaiting_logout = true
is_awaiting_logout _ = false

-- `self._pending.pop(expected, None)`
unfoldable pub pending_at : ℕ → List (ℤ × Message) → Option Message
pending_at seq [] = none
pending_at seq ((n, m) ∷ rest) =
    let later = pending_at seq rest in if eq_test n (pos seq) then some m else later

unfoldable pub drop_pending : ℕ → List (ℤ × Message) → List (ℤ × Message)
drop_pending seq [] = []
drop_pending seq ((n, m) ∷ rest) =
    let later = drop_pending seq rest in if eq_test n (pos seq) then later else (n, m) ∷ later

-- The number of a message that is dispatched is consumed.
unfoldable pub consumed : Option ℤ → Session → Session
consumed none s = s
consumed (some seq) s = expect (pos_part (seq +ℤ pos 1)) s

unfoldable pub is_type : List ℕ → Message → Bool
is_type t m = is_value t (get Tag.msg_type m)

-- `SequenceReset` in gap-fill mode.
unfoldable pub fills_gap : Message → Bool
fills_gap m = is_value set_flag (get Tag.gap_fill_flag m)

unfoldable pub int_or : ℤ → Option ℤ → ℤ
int_or default none = default
int_or default (some n) = n

unfoldable pub heartbeat_reply : Message → Message
heartbeat_reply m = set_if Tag.test_req_id (get Tag.test_req_id m) (create MsgType.heartbeat)

module _ (app : Application) (clock : Clock) where
  unfoldable pub on_logout : Message → Session → Session
  on_logout m s =
      if is_awaiting_logout s.state
      then disconnect app clock s
      else disconnect app clock
          (send clock (set Tag.text (some (codes "logout acknowledged")) (create MsgType.logout)) s)

  -- `_on_sequence_reset`, with what drains the queue.
  unfoldable pub on_new_seq_no : (Session → Session) → Message → Option ℤ → Session → Session
  on_new_seq_no drain m none s =
      send_reject clock m
        (record {
          reason = required_tag_missing;
          tag = some Tag.new_seq_no;
          text = codes "NewSeqNo (36) is required";
        })
        s
  on_new_seq_no drain m (some new_seq_no) s =
      if lt_test new_seq_no (pos s.store.next_in)
      then send_reject clock m
          (record {
            reason = value_incorrect;
            tag = some Tag.new_seq_no;
            text =
                codes "NewSeqNo (36) "
                ++ integer_text new_seq_no
                ++ codes " is below the expected sequence number "
                ++ decimal s.store.next_in;
          })
          s
      else drain (expect (pos_part new_seq_no) s)

  unfoldable pub after_application : Message → List Message × Option Failure → Session → Session
  after_application m (replies, none) s = send_all clock replies s
  after_application m (replies, some failure) s =
      send_reject clock m failure (send_all clock replies s)

  unfoldable pub hand_over : Message → Session → Session
  hand_over m s =
      after_application m (app.on_message s.delivered m)
        (record s { delivered = s.delivered ++ m ∷ [] })

  unfoldable pub handle : (Session → Session) → Message → Session → Session
  handle drain m s =
      if is_type MsgType.logon m || is_type MsgType.heartbeat m || is_type MsgType.reject m
      then s
      else if is_type MsgType.test_request m
      then send clock (heartbeat_reply m) s
      else if is_type MsgType.resend_request m
      then replay clock (int_or (pos 1) (get_int Tag.begin_seq_no none m))
          (int_or (pos 0) (get_int Tag.end_seq_no none m)) s
      else if is_type MsgType.sequence_reset m
      then on_new_seq_no drain m (get_int Tag.new_seq_no none m) s
      else if is_type MsgType.logout m
      then on_logout m s
      else hand_over m s

  unfoldable pub dispatch : (Session → Session) → Message → Session → Session
  dispatch drain m s =
      handle drain m (
        if is_type MsgType.sequence_reset m then s else consumed (get_int Tag.msg_seq_num none m) s)

  -- With the queue empty, a new gap asks for a resend again.
  unfoldable pub settle_queue : Session → Session
  settle_queue s = if is_empty_list s.pending then record s { resend_requested = false } else s

  unfoldable pub drain_found : Option Message → (Session → Session) → Session → Session
  drain_found none go_on s = settle_queue s
  drain_found (some m) go_on s =
      go_on (dispatch go_on m (record s { pending = drop_pending s.store.next_in s.pending }))

  -- `_drain_pending`, on fuel for the queue.
  unfoldable pub drain_on : ℕ → Session → Session
  drain_on zero s = settle_queue s
  drain_on (suc n) s = drain_found (pending_at s.store.next_in s.pending) (λ t. drain_on n t) s

  unfoldable pub drain_pending : Session → Session
  drain_pending s = drain_on (length s.pending) s

  -- `_check_sequence`: whether to process the message now.
  unfoldable pub check_received : Message → Option ℤ → Session → Bool × Session
  check_received m none s = (
    false,
    send_reject clock m
        (record {
          reason = required_tag_missing;
          tag = some Tag.msg_seq_num;
          text = codes "MsgSeqNum (34) is missing or not an integer";
        })
        s,
  )
  check_received m (some received) s =
      if eq_test received (pos s.store.next_in)
      then (true, s)
      else if lt_test (pos s.store.next_in) received
      then if is_type MsgType.sequence_reset m && not (fills_gap m)
        then (true, s)
        else (false, queue_and_request_resend clock m s.store.next_in received true s)
      else if is_value set_flag (get Tag.poss_dup_flag m)
      then (false, s)
      else if is_type MsgType.logout m
      then (false, disconnect app clock s)
      else (false, logout_and_disconnect app clock (too_low s.store.next_in received) s)

  unfoldable pub check_sequence : Message → Session → Bool × Session
  check_sequence m s = check_received m (get_int Tag.msg_seq_num none m) s

  unfoldable pub after_check : Message → Bool × Session → Session
  after_check m (false, s) = s
  after_check m (true, s) = drain_pending (dispatch drain_pending m s)

  unfoldable pub on_message : Message → Session → Session
  on_message m s =
      if is_awaiting_logon s.state && not (is_type MsgType.logon m)
      then logout_and_disconnect app clock (codes "first message must be a Logon") s
      else if is_type MsgType.logon m
      then on_logon app clock m s
      else after_check m (check_sequence m s)
