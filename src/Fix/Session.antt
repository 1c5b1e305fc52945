-- ===== src/Fix/Session.antt =====
-- exchangesim/fix/session.py: the state of a session, and what it sends. A handler reads its clock
-- once, and what goes to the peer is kept in `sent`, in order.
pub mod Replay
pub mod Logon
pub mod Inbound
pub mod Transport
pub mod Numbers
pub mod Keeps
pub mod Order
pub mod Stays
pub mod Timers
pub mod Pieces
pub mod Recovery
pub mod Drain
use exchange_sim.Prelude.{
  ℕ, suc, ◌+◌, ◌%◌, List, [], ◌∷◌, ◌++◌, Bool, true, false, Option, none, some, if◌then◌else◌,
  is_some,
}
use exchange_sim.Prelude.Int.{ℤ, pos, negsuc}
use exchange_sim.Ids.{decimal}
use exchange_sim.Bytes.{codes, take, same, find}
use exchange_sim.Fix.Message.{Message, get, get_int, has, set, set_if, create, encode}
use exchange_sim.Fix.Store.{MemoryStore, set_next_in, store_outbound, reset}
use exchange_sim.Fix.Store
use exchange_sim.Fix.MsgType
use exchange_sim.Fix.Tag

pub data SessionState : Type 0 where
  disconnected awaiting_logon active awaiting_logout : SessionState

-- `SessionRejectReason`, as far as the session gives one itself, and the others by their code.
pub record Failure : Type 0 where
  pub reason : ℕ
  pub tag : Option ℕ
  pub text : List ℕ

abbrev pub required_tag_missing : ℕ
required_tag_missing = 1

abbrev pub value_incorrect : ℕ
value_incorrect = 5

abbrev pub comp_id_problem : ℕ
comp_id_problem = 9

-- "Y", which flags are compared with.
abbrev pub set_flag : List ℕ
set_flag = codes "Y"

pub record SessionConfig : Type 0 where
  pub sender_comp_id : List ℕ
  pub target_comp_id : List ℕ
  pub interval : ℕ
  pub begin_string : List ℕ
  pub reset_on_logon : Bool
  pub validate_unknown_tags : Bool
  pub next_expected_seq_num : Bool
  pub allow_logon_reset : Bool
  pub appl_ver_id : Option (List ℕ)
  pub default_appl_ver_id : Option (List ℕ)
  pub requires_encrypt_method : Bool
  pub requires_heart_bt_int : Bool

-- `Application`: what it sends on a message, a logon and a logout, by the messages it was handed
-- before. A failure makes the session emit a reject.
pub record Application : Type 0 where
  pub on_message : List Message → Message → List Message × Option Failure
  pub on_logon : List Message → List Message
  pub on_logout : List Message → List Message

-- What a handler reads from the clock: the monotonic time in milliseconds and the timestamp.
pub record Clock : Type 0 where
  pub monotonic : ℕ
  pub timestamp : List ℕ

pub record Session : Type 0 where
  pub config : SessionConfig
  pub store : MemoryStore
  pub state : SessionState
  pub connected : Bool
  pub heartbeat_interval : ℕ
  pub buffer : List ℕ
  pub pending : List (ℤ × Message)
  pub resend_requested : Bool
  pub last_sent : ℕ
  pub last_received : ℕ
  pub test_request_sent : Option ℕ
  pub test_request_id : ℕ
  pub sent : List (List ℕ)
  pub delivered : List Message

unfoldable pub new_session : SessionConfig → MemoryStore → Session
new_session config store = record {
  config = config;
  store = store;
  state = disconnected;
  connected = false;
  heartbeat_interval = config.interval;
  buffer = [];
  pending = [];
  resend_requested = false;
  last_sent = 0;
  last_received = 0;
  test_request_sent = none;
  test_request_id = 0;
  sent = [];
  delivered = [];
}

unfoldable pub with_state : SessionState → Session → Session
with_state state s = record s { state = state }

unfoldable pub put_store : MemoryStore → Session → Session
put_store store s = record s { store = store }

unfoldable pub expect : ℕ → Session → Session
expect value s = put_store (set_next_in value s.store) s

-- Transport.

unfoldable pub attach : Clock → Session → Session
attach clock s = record s {
  connected = true;
  state = awaiting_logon;
  buffer = [];
  pending = [];
  resend_requested = false;
  test_request_sent = none;
  last_sent = clock.monotonic;
  last_received = clock.monotonic;
}

-- Outbound.

unfoldable pub with_appl_ver : Option (List ℕ) → Message → Message
with_appl_ver none m = m
with_appl_ver (some []) m = m
with_appl_ver (some (c ∷ cs)) m =
    if has Tag.appl_ver_id m then m else set Tag.appl_ver_id (some (c ∷ cs)) m

-- The fields that `_transmit` fills in.
unfoldable pub stamped : Clock → SessionConfig → Message → Message
stamped clock config m =
    let addressed =
      set Tag.target_comp_id (some config.target_comp_id)
        (set Tag.sender_comp_id (some config.sender_comp_id) m) in
    with_appl_ver config.appl_ver_id (
      if has Tag.sending_time addressed
      then addressed
      else set Tag.sending_time (some clock.timestamp) addressed)

-- A message is kept under its own sequence number, and the next one is one more.
unfoldable pub keep_sent : Option ℤ → List ℕ → MemoryStore → MemoryStore
keep_sent (some (pos seq)) raw store = Store.set_next_out (suc seq) (store_outbound seq raw store)
keep_sent _ raw store = store

unfoldable pub deliver : Clock → List ℕ → Session → Session
deliver clock raw s =
    if s.connected then record s { sent = s.sent ++ raw ∷ []; last_sent = clock.monotonic } else s

unfoldable pub transmit : Clock → Bool → Message → Session → Session
transmit clock stores m s =
    let full = stamped clock s.config m in
    let raw = encode full s.config.begin_string in
    deliver clock raw (
      if stores then put_store (keep_sent (get_int Tag.msg_seq_num none full) raw s.store) s else s)

unfoldable pub numbered : ℕ → Message → Message
numbered seq m = set Tag.msg_seq_num (some (decimal seq)) m

unfoldable pub send : Clock → Message → Session → Session
send clock m s = transmit clock true (numbered s.store.next_out m) s

-- The decimal text of an integer, and 0 for one that is absent.
unfoldable pub integer_text : ℤ → List ℕ
integer_text (pos n) = decimal n
integer_text (negsuc n) = 45 ∷ decimal (suc n)

unfoldable pub seq_or_zero : Option ℤ → List ℕ
seq_or_zero none = decimal 0
seq_or_zero (some n) = integer_text n

unfoldable pub with_text : List ℕ → Message → Message
with_text [] m = m
with_text (c ∷ cs) m = set Tag.text (some (take 255 (c ∷ cs))) m

unfoldable pub tag_text : Option ℕ → Option (List ℕ)
tag_text none = none
tag_text (some tag) = some (decimal tag)

unfoldable pub reject_of : Message → Failure → Message
reject_of m failure =
    let referring = set_if Tag.ref_msg_type (get Tag.msg_type m) (
      set Tag.ref_seq_num (some (seq_or_zero (get_int Tag.msg_seq_num none m)))
        (create MsgType.reject)) in
    with_text failure.text (
      set Tag.session_reject_reason (some (decimal failure.reason))
        (set_if Tag.ref_tag_id (tag_text failure.tag) referring))

unfoldable pub send_reject : Clock → Message → Failure → Session → Session
send_reject clock m failure s = send clock (reject_of m failure) s

unfoldable pub send_logout : Clock → Option (List ℕ) → Session → Session
send_logout clock text s =
    with_state awaiting_logout (send clock (set_if Tag.text text (create MsgType.logout)) s)

-- The messages that the application sends.
unfoldable pub send_all : Clock → List Message → Session → Session
send_all clock [] s = s
send_all clock (m ∷ ms) s = send_all clock ms (send clock m s)

-- The transport is dropped and the numbers are untouched. The closing of the connection is the fall of
-- `connected`.
unfoldable pub dropped : Session → Session
dropped s = record s { connected = false; state = disconnected; buffer = []; pending = [] }

unfoldable pub detach : Application → Clock → Session → Session
detach app clock s = send_all clock (app.on_logout s.delivered) (dropped s)

unfoldable pub disconnect : Application → Clock → Session → Session
disconnect app clock s = detach app clock s

unfoldable pub logout_and_disconnect : Application → Clock → List ℕ → Session → Session
logout_and_disconnect app clock text s = disconnect app clock (send_logout clock (some text) s)
