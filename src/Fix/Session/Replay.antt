-- ===== src/Fix/Session/Replay.antt =====
-- exchangesim/fix/session.py, `replay`, and `is_admin` of exchangesim/fix/codec.py.
use exchange_sim.Prelude.{
  ℕ, zero, suc, ◌+◌, ◌-◌, List, [], ◌∷◌, Bool, false, ◌||◌, Option, none, some, if◌then◌else◌,
  length,
}
use exchange_sim.Prelude.Int.{ℤ, pos, negsuc, pos_part, ◌+ℤ◌, ◌-ℤ◌, le_test, eq_test}
use exchange_sim.Bytes.{slice, find, find_from}
use exchange_sim.Fix.Message.{
  Message, soh, equals, get, set, create, Parsed, parsed, incomplete, malformed,
}
use exchange_sim.Fix.Wire.{decode}
use exchange_sim.Fix.Store.{Messages, get_outbound, lookup}
use exchange_sim.Fix.MsgType
use exchange_sim.Fix.Tag
use exchange_sim.Fix.Session.{Clock, Session, transmit, set_flag, integer_text}

-- The end of a value, where there is no delimiter behind it the last character is cut off.
unfoldable pub value_end : Option ℕ → List ℕ → ℕ
value_end none raw = length raw - 1
value_end (some end) raw = end

unfoldable pub admin_at : Option ℕ → List ℕ → Bool
admin_at none raw = false
admin_at (some marker) raw =
    MsgType.is_admin_type
      (slice (marker + 4) (value_end (find_from (soh ∷ []) (marker + 1) raw) raw) raw)

-- A stored message that may be gap-filled.
unfoldable pub is_admin : List ℕ → Bool
is_admin raw = admin_at (find (soh ∷ 51 ∷ 53 ∷ equals ∷ []) raw) raw

unfoldable pub gap_fill : Clock → ℤ → ℤ → Message
gap_fill clock seq new_seq_no = set Tag.orig_sending_time (some clock.timestamp) (
    set Tag.poss_dup_flag (some set_flag) (
      set Tag.new_seq_no (some (integer_text new_seq_no)) (
        set Tag.gap_fill_flag (some set_flag)
          (set Tag.msg_seq_num (some (integer_text seq)) (create MsgType.sequence_reset)))))

unfoldable pub send_gap_fill : Clock → ℤ → ℤ → Session → Session
send_gap_fill clock seq new_seq_no s = transmit clock false (gap_fill clock seq new_seq_no) s

-- A sending time that is there and not empty.
unfoldable pub with_original : Option (List ℕ) → Message → Message
with_original none m = m
with_original (some []) m = m
with_original (some (c ∷ cs)) m = set Tag.orig_sending_time (some (c ∷ cs)) m

unfoldable pub possible_duplicate : Clock → Message → Message
possible_duplicate clock m =
    set Tag.sending_time (some clock.timestamp)
      (with_original (get Tag.sending_time m) (set Tag.poss_dup_flag (some set_flag) m))

unfoldable pub resend_decoded : Clock → ℤ → Parsed Message → Session → Session
resend_decoded clock seq (parsed m) s = transmit clock false (possible_duplicate clock m) s
resend_decoded clock seq incomplete s = send_gap_fill clock seq (seq +ℤ pos 1) s
resend_decoded clock seq (malformed e) s = send_gap_fill clock seq (seq +ℤ pos 1) s

unfoldable pub resend : Clock → ℤ → List ℕ → Session → Session
resend clock seq raw s = resend_decoded clock seq (decode false raw) s

unfoldable pub fill_before : Clock → Option ℤ → ℤ → Session → Session
fill_before clock none seq s = s
fill_before clock (some start) seq s = send_gap_fill clock start seq s

unfoldable pub stored_at : ℤ → Messages → Option (List ℕ)
stored_at (pos n) stored = lookup n stored
stored_at (negsuc n) stored = none

-- A stored message that is not administrative.
unfoldable pub replayable : Option (List ℕ) → Option (List ℕ)
replayable none = none
replayable (some raw) = if is_admin raw then none else some raw

unfoldable pub gap_opened : Option ℤ → ℤ → Option ℤ
gap_opened none seq = some seq
gap_opened (some start) seq = some start

-- One number of the loop, and how the loop goes on: a gap opens or stays open, or it is filled before
-- the message is sent again.
unfoldable pub replay_found :
    Clock → Option (List ℕ) → ℤ → Option ℤ → (Option ℤ → Session → Session) → Session → Session
replay_found clock none seq gap_start go_on s = go_on (gap_opened gap_start seq) s
replay_found clock (some raw) seq gap_start go_on s =
    go_on none (resend clock seq raw (fill_before clock gap_start seq s))

-- The loop over so many sequence numbers from one on.
unfoldable pub replay_each : Clock → Messages → ℕ → ℤ → Option ℤ → Session → Session
replay_each clock stored zero seq gap_start s = fill_before clock gap_start (pos s.store.next_out) s
replay_each clock stored (suc n) seq gap_start s =
    replay_found clock (replayable (stored_at seq stored)) seq gap_start
      (λ start t. replay_each clock stored n (seq +ℤ pos 1) start t) s

-- The ends 0 and 999999 mean the last message, and no end is beyond it.
unfoldable pub upper_of : ℤ → Session → ℤ
upper_of end s =
    let last = pos s.store.next_out -ℤ pos 1 in
    let upper = if eq_test end (pos 0) || eq_test end (pos 999999) then last else end in
    if le_test (pos s.store.next_out) upper then last else upper

-- `len(range(begin, upper + 1))`
unfoldable pub count_to : ℤ → ℤ → ℕ
count_to begin upper = pos_part (upper +ℤ pos 1 -ℤ begin)

unfoldable pub replay : Clock → ℤ → ℤ → Session → Session
replay clock begin end s =
    let upper = upper_of end s in
    replay_each clock (get_outbound begin upper s.store) (count_to begin upper) begin none s
