-- ===== src/Fix/Session/Transport.antt =====
-- exchangesim/fix/session.py: the bytes that come in, the checks before sequencing, and the timers.
use exchange_sim.Prelude.{
  ℕ, ◌+◌, ◌-◌, ◌*◌, ◌%◌, List, [], ◌∷◌, ◌++◌, Bool, true, false, ◌||◌, not, Option, none, some,
  if◌then◌else◌, leb, ◌==◌,
}
use exchange_sim.Prelude.Int.{ℤ, pos, eq_test}
use exchange_sim.Ids.{decimal}
use exchange_sim.Bytes.{codes, same}
use exchange_sim.Fix.Message.{
  Message, get, get_int, set, create, MalformedMessage, Parsed, parsed, incomplete, malformed,
}
use exchange_sim.Fix.Wire.{decode, feed}
use exchange_sim.Fix.MsgType
use exchange_sim.Fix.Tag
use exchange_sim.Fix.Session.{
  Clock, Session, SessionConfig, Application, Failure, required_tag_missing, comp_id_problem,
  expect, send, send_reject, logout_and_disconnect,
}
use exchange_sim.Fix.Session.Logon.{is_active}
use exchange_sim.Fix.Session.Inbound.{on_message, is_awaiting_logon}

-- What a venue's dialect brings: its dictionary's check, by whether unknown tags count, and the
-- wording of the codec's exceptions.
pub record Dialect : Type 0 where
  pub validate : Bool → Message → Option Failure
  pub wording : MalformedMessage → List ℕ

unfoldable pub comp_ids_required : ℕ → Failure
comp_ids_required tag = record {
  reason = required_tag_missing;
  tag = some tag;
  text = codes "SenderCompID (49) and TargetCompID (56) are required";
}

unfoldable pub unexpected_comp_ids : List ℕ → List ℕ → Failure
unexpected_comp_ids sender target = record {
  reason = comp_id_problem;
  tag = none;
  text =
      codes "unexpected CompIDs: sender '" ++ sender ++ codes "', target '" ++ target ++ codes "'";
}

unfoldable pub compare_comp_ids : SessionConfig → Option (List ℕ) → Option (List ℕ) → Option Failure
compare_comp_ids config none target = some (comp_ids_required Tag.sender_comp_id)
compare_comp_ids config (some sender) none = some (comp_ids_required Tag.target_comp_id)
compare_comp_ids config (some sender) (some target) =
    if not (same sender config.target_comp_id) || not (same target config.sender_comp_id)
    then some (unexpected_comp_ids sender target)
    else none

unfoldable pub check_comp_ids : SessionConfig → Message → Option Failure
check_comp_ids config m =
    compare_comp_ids config (get Tag.sender_comp_id m) (get Tag.target_comp_id m)

unfoldable pub is_seq_num : ℕ → Option ℤ → Bool
is_seq_num expected none = false
is_seq_num expected (some received) = eq_test received (pos expected)

-- A short number that wraps within a UInt16.
unfoldable pub next_test_request_id : ℕ → ℕ
next_test_request_id id = id % 65535 + 1

unfoldable pub test_request_of : ℕ → Message
test_request_of id = set Tag.test_req_id (some (decimal id)) (create MsgType.test_request)

module _ (dialect : Dialect) (app : Application) (clock : Clock) where
  unfoldable pub handle_comp_id_failure : Message → Failure → Session → Session
  handle_comp_id_failure m failure s =
      logout_and_disconnect app clock failure.text
        (if is_active s.state then send_reject clock m failure s else s)

  -- The number of a message that is rejected is consumed all the same.
  unfoldable pub handle_validation_failure : Message → Failure → Session → Session
  handle_validation_failure m failure s =
      if is_awaiting_logon s.state
      then logout_and_disconnect app clock failure.text s
      else send_reject clock m failure (
          if is_seq_num s.store.next_in (get_int Tag.msg_seq_num none m)
          then expect (s.store.next_in + 1) s
          else s)

  unfoldable pub after_dictionary : Message → Option Failure → Session → Session
  after_dictionary m none s = on_message app clock m s
  after_dictionary m (some failure) s = handle_validation_failure m failure s

  unfoldable pub after_comp_ids : Message → Option Failure → Session → Session
  after_comp_ids m none s = after_dictionary m (dialect.validate s.config.validate_unknown_tags m) s
  after_comp_ids m (some failure) s = handle_comp_id_failure m failure s

  unfoldable pub after_decode : Parsed Message → Session → Session
  after_decode (parsed m) s =
      let heard = record s { last_received = clock.monotonic; test_request_sent = none } in
      after_comp_ids m (check_comp_ids s.config m) heard
  after_decode incomplete s = s
  after_decode (malformed e) s =
      logout_and_disconnect app clock (codes "malformed message: " ++ dialect.wording e) s

  unfoldable pub on_raw_message : List ℕ → Session → Session
  on_raw_message raw s = after_decode (decode true raw) s

  -- The messages of a chunk, as long as the connection stands.
  unfoldable pub on_raw_messages : List (List ℕ) → Session → Session
  on_raw_messages [] s = s
  on_raw_messages (raw ∷ raws) s =
      if not s.connected then s else on_raw_messages raws (on_raw_message raw s)

  unfoldable pub after_feed : Parsed (List (List ℕ)) → Session → Session
  after_feed (parsed raws) s = on_raw_messages raws s
  after_feed incomplete s = s
  after_feed (malformed e) s =
      logout_and_disconnect app clock (codes "framing error: " ++ dialect.wording e) s

  unfoldable pub on_data : List ℕ → Session → Session
  on_data chunk s =
      let fed = feed s.buffer chunk in after_feed fed.messages (record s { buffer = fed.buffer })

  -- Timers.

  unfoldable pub beat : Session → Session
  beat s =
      if leb (s.heartbeat_interval * 1000) (clock.monotonic - s.last_sent)
      then send clock (create MsgType.heartbeat) s
      else s

  unfoldable pub ask : ℕ → Session → Session
  ask id s =
      let asked = send clock (test_request_of id) (record s { test_request_id = id }) in
      record asked { test_request_sent = some clock.monotonic }

  -- A peer is asked after its interval and a fifth of it, and has an interval to answer.
  unfoldable pub police : Option ℕ → Session → Session
  police (some asked) s =
      if leb (s.heartbeat_interval * 1000) (clock.monotonic - asked)
      then logout_and_disconnect app clock (codes "no response to TestRequest (1)") s
      else s
  police none s =
      if leb (s.heartbeat_interval * 1200) (clock.monotonic - s.last_received)
      then ask (next_test_request_id s.test_request_id) s
      else s

  unfoldable pub tick : Session → Session
  tick s =
      if not (is_active s.state) || not s.connected || s.heartbeat_interval == 0
      then s
      else police s.test_request_sent (beat s)
