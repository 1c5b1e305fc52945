-- ===== src/Tests/Fix.antt =====
-- The theorems about the FIX layer at concrete inputs, and runs of it.
use exchange_sim.Prelude.{
  ℕ, ◌*◌, ◌^◌, ◌≤◌, ◌≡◌, refl, List, [], ◌∷◌, ◌++◌, true, false, none, some, length, elem, arith,
}
use exchange_sim.Prelude.Int.{ℤ, pos, ◌+ℤ◌, ◌-ℤ◌}
use exchange_sim.Ids.{decimal, padded, zeros, digits_onto}
use exchange_sim.Bytes.{
  codes, slice, starts_with, find, find_from, total, is_digit, is_space, all_space, digits_from,
  negated, parse_int, same,
}
use exchange_sim.Fix.Message.{
  Message, parsed, get, get_int, int_of, has, encode, sort_fields, fields_text, field_text,
  head_text, sort_by_rank, insert_by_rank, header_fields, body_fields, header_rank, header_order,
  rank_in, is_structural, rank_or_zero,
}
use exchange_sim.Fix.Wire.{
  extract, extract_from, extract_body, after_body_length, after_length_end, after_length_start,
  after_start, decode, drain, after_extract, with_message, feed,
}
use exchange_sim.Fix.Wire.Encoded.{extract-encode}
use exchange_sim.Fix.Wire.RoundTrip.{decode-encode}
use exchange_sim.Fix.Wire.Checksum.{transmitted, checksum}
use exchange_sim.Fix.Wire.Fields.{IsClean}
use exchange_sim.Fix.Wire.Chunks.{feed-append, with_messages}
use exchange_sim.Fix.Store.{
  Messages, MemoryStore, new_store, put_message, lookup, last_seq, between, get_outbound,
}
use exchange_sim.Fix.Store
use exchange_sim.Fix.MsgType
use exchange_sim.Fix.Session.{
  Session, SessionConfig, Application, Clock, put_store, expect, active, disconnected, send,
}
use exchange_sim.Fix.Session.Replay.{
  replay, replay_each, replay_found, fill_before, send_gap_fill, replayable, stored_at, gap_opened,
  is_admin, admin_at, value_end, upper_of, count_to,
}
use exchange_sim.Fix.Session.Inbound.{
  on_message, is_type, drain_pending, check_sequence, check_received, after_check, dispatch, handle,
  on_new_seq_no, drain_on, drain_found, settle_queue, pending_at, consumed, is_awaiting_logon,
  fills_gap,
}
use exchange_sim.Fix.Session.Logon.{is_value, queue_and_request_resend, put_pending}
use exchange_sim.Fix.Session.Numbers.{send-Sends, Sends, AllBelow}
use exchange_sim.Fix.Session.Order.{on_message-InOrder}
use exchange_sim.Fix.Session.Keeps.{InOrder, Ascends, AllKeyed}
use exchange_sim.Fix.Session.Transport.{Dialect}
use exchange_sim.Fix.Session.Timers.{ticks-disconnected, ticks}
use exchange_sim.Fix.FileStore.{FileStore, open_store, on_directory}
use exchange_sim.Fix.FileStore
use exchange_sim.Fix.FileStore.Refinement.{
  run_file-run_memory, run_file, run_memory, StoreOp, keep, restart, put_out,
}
use exchange_sim.Fix.FileStore.Contents.{keyed}

abbrev begin_string : List ℕ
begin_string = codes "FIX.4.2"

abbrev heartbeat : Message
heartbeat = (112, codes "7") ∷ (35, codes "0") ∷ (34, codes "5") ∷ []

abbrev new_order_single : Message
new_order_single = (35, codes "D") ∷ (34, codes "1") ∷ (11, codes "A1") ∷ []

-- Unfolds what encoding and decoding compute with.
unfoldable coding : Unit {0}
unfolding encode head_text fields_text field_text sort_fields sort_by_rank insert_by_rank
    header_fields body_fields header_rank header_order rank_in is_structural rank_or_zero decimal
    padded zeros digits_onto total extract extract_from extract_body after_body_length
    after_length_end after_length_start after_start starts_with find find_from slice is_digit
    is_space all_space digits_from negated parse_int same drain after_extract with_message feed has
    elem
coding = tt

heartbeat-IsClean : IsClean heartbeat
unfolding IsClean elem
heartbeat-IsClean = (omega arith, refl, (omega arith, refl, (omega arith, refl, tt)))

heartbeat-has : has 35 heartbeat ≡ true
unfolding has
heartbeat-has = refl

begin_string-elem : elem 1 begin_string ≡ false
unfolding elem
begin_string-elem = refl

heartbeat-short : length (fields_text (sort_fields heartbeat)) ≤ 2 ^ 24
unfolding coding
heartbeat-short = omega arith

decode-encode_example :
    decode true (encode heartbeat begin_string)
    ≡ parsed (transmitted heartbeat begin_string ++ (10, checksum heartbeat begin_string) ∷ [])
decode-encode_example =
    decode-encode heartbeat begin_string heartbeat-has heartbeat-IsClean begin_string-elem

extract-encode_example :
    extract (encode heartbeat begin_string ++ codes "8=F")
    ≡ parsed (encode heartbeat begin_string, codes "8=F")
extract-encode_example =
    extract-encode heartbeat begin_string (codes "8=F") begin_string-elem heartbeat-short

-- The bytes of a heartbeat, with its header fields in front.
encode_run :
    encode heartbeat begin_string
    ≡ codes "8=FIX.4.2"
      ++ 1 ∷ codes "9=16"
      ++ 1 ∷ codes "35=0"
      ++ 1 ∷ codes "34=5"
      ++ 1 ∷ codes "112=7"
      ++ 1 ∷ codes "10=182"
      ++ 1 ∷ []
unfolding coding
encode_run = refl

abbrev first_half : List ℕ
first_half = codes "8=FIX.4.2" ++ 1 ∷ codes "9=16" ++ 1 ∷ codes "35=0"

abbrev second_half : List ℕ
second_half = 1 ∷ codes "34=5" ++ 1 ∷ codes "112=7" ++ 1 ∷ codes "10=182" ++ 1 ∷ codes "8="

first_half-feed : (feed [] first_half).messages ≡ parsed []
unfolding coding
first_half-feed = refl

feed-append_example :
    feed [] (first_half ++ second_half)
    ≡ with_messages [] (feed (feed [] first_half).buffer second_half)
feed-append_example = feed-append [] first_half second_half [] first_half-feed

-- Two messages in two chunks.
feed_run : (feed (feed [] first_half).buffer second_half).buffer ≡ codes "8="
unfolding coding
feed_run = refl

abbrev config : SessionConfig
config = record {
  sender_comp_id = codes "VENUE";
  target_comp_id = codes "CLIENT";
  interval = 30;
  begin_string = begin_string;
  reset_on_logon = false;
  validate_unknown_tags = true;
  next_expected_seq_num = false;
  allow_logon_reset = true;
  appl_ver_id = none;
  default_appl_ver_id = none;
  requires_encrypt_method = true;
  requires_heart_bt_int = true;
}

-- An application that sends nothing.
abbrev quiet : Application
quiet = record {
  on_message = λ before m. ([], none);
  on_logon = λ before. [];
  on_logout = λ before. [];
}

abbrev at_second : ℕ → Clock
at_second n = record { monotonic = n * 1000; timestamp = codes "20260101-00:00:00" }

-- A session that is logged on, with an administrative and an application message sent.
abbrev running_session : Session
running_session = record {
  config = config;
  store = record {
    next_out = 3;
    next_in = 1;
    messages =
        (1, codes "8=F|9=1" ++ 1 ∷ codes "35=0" ++ 1 ∷ [])
        ∷ (2, codes "8=F" ++ 1 ∷ codes "35=8" ++ 1 ∷ [])
        ∷ [];
  };
  state = active;
  connected = true;
  heartbeat_interval = 30;
  buffer = [];
  pending = [];
  resend_requested = false;
  last_sent = 0;
  last_received = 0;
  test_request_sent = none;
  test_request_id = 0;
  sent = [];
  delivered = [];
}

running_session-AllBelow : AllBelow running_session.store.next_out running_session.store.messages
unfolding AllBelow
running_session-AllBelow = (omega arith, (omega arith, tt))

send-Sends_example :
    Sends heartbeat (at_second 1) running_session (send (at_second 1) heartbeat running_session)
send-Sends_example = send-Sends (at_second 1) heartbeat running_session running_session-AllBelow

running_session-InOrder : InOrder running_session
unfolding Ascends AllKeyed
running_session-InOrder = record { ascends = omega arith; keyed = tt }

new_order_single-is_type : is_type MsgType.logon new_order_single ≡ false
unfolding is_type is_value get same
new_order_single-is_type = refl

on_message-InOrder_example :
    InOrder (on_message quiet (at_second 1) new_order_single running_session)
on_message-InOrder_example =
    on_message-InOrder quiet (at_second 1) new_order_single running_session new_order_single-is_type
      running_session-InOrder

-- A request for the first number alone, which was administrative, is answered with a gap fill that
-- goes past the application message that follows it.
bounded_replay_skips :
    replay (at_second 1) (pos 1) (pos 1) running_session
    ≡ send_gap_fill (at_second 1) (pos 1) (pos 3) running_session
unfolding coding replay replay_each replay_found fill_before replayable stored_at gap_opened
    is_admin admin_at value_end upper_of count_to get_outbound between last_seq lookup
    MsgType.is_admin_type ◌+ℤ◌ ◌-ℤ◌
bounded_replay_skips = refl

abbrev dialect : Dialect
dialect = record { validate = λ unknown m. none; wording = λ e. [] }

ticks-disconnected_example :
    ((ticks dialect quiet
        (at_second 40 ∷ at_second 50 ∷ [] ++ at_second 80 ∷ [])
        running_session).state
      ≡ disconnected)
    × ((ticks dialect quiet
          (at_second 40 ∷ at_second 50 ∷ [] ++ at_second 80 ∷ [])
          running_session).connected
        ≡ false)
ticks-disconnected_example =
    ticks-disconnected dialect quiet (at_second 40) (at_second 50 ∷ []) (at_second 80)
      running_session refl refl (λ h. omega (arith, h)) refl (omega arith) (omega arith)

abbrev store_ops : List StoreOp
store_ops = keep 1 (codes "8=F") ∷ put_out 2 ∷ restart ∷ keep 2 (codes "35=") ∷ []

run_file-run_memory_example :
    (g : FileStore) × (run_file store_ops (open_store (on_directory none none)) ≡ some g)
    × (g.next_out ≡ (run_memory store_ops new_store).next_out)
    × (g.next_in ≡ (run_memory store_ops new_store).next_in)
    × ((begin end : ℤ)
        → FileStore.get_outbound begin end g
          ≡ keyed (Store.get_outbound begin end (run_memory store_ops new_store)))
run_file-run_memory_example = run_file-run_memory store_ops

-- A message beyond a gap waits in the queue, and the gap fill that follows goes past it.
abbrev waiting_session : Session
waiting_session = record running_session {
  store = record running_session.store { next_in = 2 };
  pending = (pos 5, (35, codes "0") ∷ (34, codes "5") ∷ []) ∷ [];
  resend_requested = true;
}

abbrev fill_past_queue : Message
fill_past_queue = (35, codes "4") ∷ (34, codes "2") ∷ (123, codes "Y") ∷ (36, codes "6") ∷ []

abbrev beyond_new_gap : Message
beyond_new_gap = (35, codes "0") ∷ (34, codes "9") ∷ []

-- Then the message stays in the queue, and the next gap asks for no resend.
stale_queue_silences :
    (on_message quiet
      (at_second 2)
      beyond_new_gap
      (on_message quiet (at_second 1) fill_past_queue waiting_session)).sent
    ≡ []
unfolding coding on_message check_sequence check_received after_check dispatch handle on_new_seq_no
    drain_pending drain_on drain_found settle_queue pending_at consumed expect put_store
    Store.set_next_in queue_and_request_resend put_pending is_awaiting_logon is_type is_value
    fills_gap get get_int int_of ◌+ℤ◌
stale_queue_silences = refl
