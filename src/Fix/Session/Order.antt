-- ===== src/Fix/Session/Order.antt =====
-- The order in which exchangesim/fix/session.py hands messages to the application.
use exchange_sim.Prelude.{
  ℕ, zero, suc, ◌≤◌, ◌≡◌, refl, sym, ap, subst, ◌∙◌, List, [], ◌∷◌, ◌++◌, Bool, true, false, not,
  ◌&&◌, ◌||◌, Option, none, some, if_cases, Bool-cases, is_empty, inl, inr, arith,
}
use exchange_sim.Prelude.Int.{ℤ, pos, pos_part, ◌+ℤ◌, eq_test, lt_test, eq_of_eq_test}
use exchange_sim.Fix.Message.{Message, get, get_int}
use exchange_sim.Fix.Store.{MemoryStore, Messages}
use exchange_sim.Fix.Store
use exchange_sim.Fix.MsgType
use exchange_sim.Fix.Tag
use exchange_sim.Fix.Session.{
  Clock, Session, Application, Failure, send_all, send_reject, put_store, expect, set_flag,
}
use exchange_sim.Fix.Session.Logon.{put_pending, queue_and_request_resend, is_value}
use exchange_sim.Fix.Session.Inbound.{
  pending_at, drop_pending, consumed, is_type, on_logout, on_new_seq_no, after_application,
  hand_over, handle, dispatch, settle_queue, drain_on, drain_found, drain_pending, check_received,
  check_sequence, after_check, on_message, is_awaiting_logon, is_awaiting_logout, fills_gap,
}
use exchange_sim.Fix.Session.Keeps.{
  AllKeyed, Ascends, Ascends-longer, Ascends-snoc, InOrder, Keeps, Keeps-InOrder, Keeps-trans,
  disconnect-Keeps, logout-Keeps, replay-Keeps, send-Keeps, send_all-Keeps,
}

put_pending-AllKeyed :
    (n : ℤ) (m : Message) (queue : List (ℤ × Message))
    → get_int Tag.msg_seq_num none m ≡ some n
    → AllKeyed queue
    → AllKeyed (put_pending n m queue)
unfolding AllKeyed put_pending
put_pending-AllKeyed n m [] e all = (e, tt)
put_pending-AllKeyed n m ((k, other) ∷ rest) e (here, all) =
    if_cases AllKeyed (eq_test k n) _ _ (λ _. (e, all))
      (λ _. (here, put_pending-AllKeyed n m rest e all))

drop_pending-AllKeyed :
    (seq : ℕ) (queue : List (ℤ × Message)) → AllKeyed queue → AllKeyed (drop_pending seq queue)
unfolding AllKeyed drop_pending
drop_pending-AllKeyed seq [] all = tt
drop_pending-AllKeyed seq ((n, m) ∷ rest) (here, all) =
    if_cases AllKeyed (eq_test n (pos seq)) _ _ (λ _. drop_pending-AllKeyed seq rest all)
      (λ _. (here, drop_pending-AllKeyed seq rest all))

pending_at-number :
    (seq : ℕ) (queue : List (ℤ × Message)) (m : Message)
    → AllKeyed queue
    → pending_at seq queue ≡ some m
    → get_int Tag.msg_seq_num none m ≡ some (pos seq)
unfolding AllKeyed pending_at
pending_at-number seq [] m all e = absurd (ground (arith, e))
pending_at-number seq ((n, other) ∷ rest) m (here, all) e =
    elim (Bool-cases (eq_test n (pos seq))) [
      | inl same ↦
          let is_m : other ≡ m = ground (arith, e, same) in
          ap (get_int Tag.msg_seq_num none) (sym is_m)
          ∙ here
          ∙ ap some (eq_of_eq_test n (pos seq) same)
      | inr differs ↦ pending_at-number seq rest m all (ground (arith, e, differs))
    ]

queue-InOrder :
    (clock : Clock) (m : Message) (expected : ℕ) (n : ℤ) (request : Bool) (s : Session)
    → get_int Tag.msg_seq_num none m ≡ some n
    → InOrder s
    → InOrder (queue_and_request_resend clock m expected n request s)
unfolding queue_and_request_resend
queue-InOrder clock m expected n request s e o =
    let all = put_pending-AllKeyed n m s.pending e o.keyed in
    let flagged : InOrder
        (record s { pending = put_pending n m s.pending; resend_requested = true }) =
      record { ascends = o.ascends; keyed = all } in
    if_cases InOrder s.resend_requested _ _ (λ _. record { ascends = o.ascends; keyed = all })
      (λ _.
        if_cases InOrder request _ _ (λ _. Keeps-InOrder _ _ (send-Keeps clock _ _) flagged)
          (λ _. flagged))

-- What a message that is about to be handed over has to be: the one before the next.
record IsNext (m : Message) (s : Session) : Type 0 where
  number : ℕ
  is_number : get_int Tag.msg_seq_num none m ≡ some (pos number)
  next : s.store.next_in ≡ suc number
  before : Ascends 0 s.delivered number

pub after_application-Keeps :
    (app : Application) (clock : Clock) (m : Message) (answer : List Message × Option Failure)
    (s : Session)
    → Keeps s (after_application app clock m answer s)
unfolding after_application send_reject
after_application-Keeps app clock m (replies, none) s = send_all-Keeps clock replies s
after_application-Keeps app clock m (replies, some failure) s =
    Keeps-trans s (send_all clock replies s) _ (send_all-Keeps clock replies s)
      (send-Keeps clock _ _)

hand_over-InOrder :
    (app : Application) (clock : Clock) (m : Message) (s : Session)
    → IsNext m s
    → AllKeyed s.pending
    → InOrder (hand_over app clock m s)
unfolding hand_over
hand_over-InOrder app clock m s i all =
    let given : Session = record s { delivered = s.delivered ++ m ∷ [] } in
    Keeps-InOrder given _ (after_application-Keeps app clock m (app.on_message s.delivered m) given)
      (record {
        ascends =
            subst (λ n. Ascends 0 (s.delivered ++ m ∷ []) n) (sym i.next)
              (Ascends-snoc 0 s.delivered m i.number i.is_number i.before);
        keyed = all;
      })

expect-InOrder : (n : ℕ) (s : Session) → s.store.next_in ≤ n → InOrder s → InOrder (expect n s)
unfolding expect put_store Store.set_next_in
expect-InOrder n s l o = record {
  ascends = Ascends-longer 0 s.delivered s.store.next_in n l o.ascends;
  keyed = o.keyed;
}

pos_part-suc : (n : ℕ) → pos_part (pos n +ℤ pos 1) ≡ suc n
unfolding ◌+ℤ◌
pos_part-suc n = ground arith

not_below : (n : ℤ) (m : ℕ) → lt_test n (pos m) ≡ false → m ≤ pos_part n
not_below n m h = ground (arith, h)

pub on_logout-Keeps :
    (app : Application) (clock : Clock) (m : Message) (s : Session)
    → Keeps s (on_logout app clock m s)
unfolding on_logout
on_logout-Keeps app clock m s =
    if_cases (Keeps s) (is_awaiting_logout s.state) _ _ (λ _. disconnect-Keeps app clock s)
      (λ _. Keeps-trans s _ _ (send-Keeps clock _ s) (disconnect-Keeps app clock _))

module _ (app : Application) (clock : Clock) (drain : Session → Session)
    (keeps_order : (t : Session) → InOrder t → InOrder (drain t)) where
  on_new_seq_no-InOrder :
      (m : Message) (n : Option ℤ) (s : Session)
      → InOrder s
      → InOrder (on_new_seq_no app clock drain m n s)
  unfolding on_new_seq_no send_reject
  on_new_seq_no-InOrder m none s o = Keeps-InOrder s _ (send-Keeps clock _ s) o
  on_new_seq_no-InOrder m (some n) s o =
      if_cases InOrder (lt_test n (pos s.store.next_in)) _ _
        (λ _. Keeps-InOrder s _ (send-Keeps clock _ s) o)
        (λ enough.
          keeps_order _ (expect-InOrder (pos_part n) s (not_below n s.store.next_in enough) o))

  handle-InOrder :
      (m : Message) (s : Session)
      → InOrder s
      → (is_type MsgType.sequence_reset m ≡ false → IsNext m s)
      → InOrder (handle app clock drain m s)
  unfolding handle
  handle-InOrder m s o next =
      if_cases InOrder
        (is_type MsgType.logon m || is_type MsgType.heartbeat m || is_type MsgType.reject m) _ _
        (λ _. o)
        (λ _.
          if_cases InOrder (is_type MsgType.test_request m) _ _
            (λ _. Keeps-InOrder s _ (send-Keeps clock _ s) o)
            (λ _.
              if_cases InOrder (is_type MsgType.resend_request m) _ _
                (λ _. Keeps-InOrder s _ (replay-Keeps clock _ _ s) o)
                (λ _.
                  if_cases InOrder (is_type MsgType.sequence_reset m) _ _
                    (λ _. on_new_seq_no-InOrder m _ s o)
                    (λ other.
                      if_cases InOrder (is_type MsgType.logout m) _ _
                        (λ _. Keeps-InOrder s _ (on_logout-Keeps app clock m s) o)
                        (λ _. hand_over-InOrder app clock m s (next other) o.keyed)))))

  -- A message that is expected, and a reset whatever its number, keep the order.
  dispatch-InOrder :
      (m : Message) (s : Session)
      → InOrder s
      → (is_type MsgType.sequence_reset m ≡ false
          → get_int Tag.msg_seq_num none m ≡ some (pos s.store.next_in))
      → InOrder (dispatch app clock drain m s)
  unfolding dispatch expect put_store
  dispatch-InOrder m s o number = elim (Bool-cases (is_type MsgType.sequence_reset m)) [
    | inl is_reset ↦
        rw is_reset (handle-InOrder m s o (λ other. absurd (ground (arith, is_reset, other))))
    | inr other ↦
        let seq = s.store.next_in in
        let one_more : pos_part (pos seq +ℤ pos 1) ≡ suc seq = pos_part-suc seq in
        let taken : consumed (get_int Tag.msg_seq_num none m) s ≡ expect (suc seq) s =
          ap (λ n. consumed n s) (number other)
          ∙ (unfold consumed in ap (λ n. expect n s) one_more) in
        rw other (
          subst (λ t. InOrder (handle app clock drain m t)) (sym taken)
            (handle-InOrder m (expect (suc seq) s) (expect-InOrder (suc seq) s (omega arith) o)
              (λ _. record {
                number = seq;
                is_number = number other;
                next = unfold expect put_store Store.set_next_in in refl;
                before = o.ascends;
              })))
  ]

settle_queue-InOrder :
    (app : Application) (clock : Clock) (s : Session)
    → InOrder s
    → InOrder (settle_queue app clock s)
unfolding settle_queue
settle_queue-InOrder app clock s o =
    if_cases InOrder (is_empty s.pending) (record s { resend_requested = false }) s
      (λ _. record { ascends = o.ascends; keyed = o.keyed }) (λ _. o)

drain_found-InOrder :
    (app : Application) (clock : Clock) (found : Option Message) (go_on : Session → Session)
    → ((t : Session) → InOrder t → InOrder (go_on t))
    → (s : Session) → InOrder s
    → pending_at s.store.next_in s.pending ≡ found
    → InOrder (drain_found app clock found go_on s)
unfolding drain_found
drain_found-InOrder app clock none go_on k s o e = settle_queue-InOrder app clock s o
drain_found-InOrder app clock (some m) go_on k s o e =
    let taken : InOrder (record s { pending = drop_pending s.store.next_in s.pending }) = record {
      ascends = o.ascends;
      keyed = drop_pending-AllKeyed s.store.next_in s.pending o.keyed;
    } in
    k _ (
      dispatch-InOrder app clock go_on k m _ taken
        (λ _. pending_at-number s.store.next_in s.pending m o.keyed e))

drain_on-InOrder :
    (app : Application) (clock : Clock) (n : ℕ) (s : Session)
    → InOrder s
    → InOrder (drain_on app clock n s)
unfolding drain_on
drain_on-InOrder app clock zero s o = settle_queue-InOrder app clock s o
drain_on-InOrder app clock (suc n) s o =
    drain_found-InOrder app clock (pending_at s.store.next_in s.pending) _
      (λ t p. drain_on-InOrder app clock n t p) s o refl

-- What the check of the sequence lets through.
record Passes (m : Message) (checked : Bool × Session) : Type 0 where
  order : InOrder checked.1
  number :
      checked.0 ≡ true
      → is_type MsgType.sequence_reset m ≡ false
      → get_int Tag.msg_seq_num none m ≡ some (pos checked.1.store.next_in)

stopped : (m : Message) (s : Session) → InOrder s → Passes m (false, s)
stopped m s o = record { order = o; number = λ h _. absurd (ground (arith, h)) }

module _ (app : Application) (clock : Clock) where
  check_received-Passes :
      (m : Message) (received : Option ℤ) (s : Session)
      → InOrder s
      → get_int Tag.msg_seq_num none m ≡ received
      → Passes m (check_received app clock m received s)
  unfolding check_received send_reject
  check_received-Passes m none s o e = stopped m _ (Keeps-InOrder s _ (send-Keeps clock _ s) o)
  check_received-Passes m (some n) s o e =
      if_cases (Passes m) (eq_test n (pos s.store.next_in)) _ _
        (λ same. record {
          order = o;
          number = λ _ _. e ∙ ap some (eq_of_eq_test n (pos s.store.next_in) same);
        })
        (λ _.
          if_cases (Passes m) (lt_test (pos s.store.next_in) n) _ _
            (λ _.
              if_cases (Passes m) (is_type MsgType.sequence_reset m && not (fills_gap m)) _ _
                (λ resets. record {
                  order = o;
                  number = λ _ other. absurd (ground (arith, resets, other));
                })
                (λ _. stopped m _ (queue-InOrder clock m s.store.next_in n true s e o)))
            (λ _.
              if_cases (Passes m) (is_value set_flag (get Tag.poss_dup_flag m)) _ _
                (λ _. stopped m s o)
                (λ _.
                  if_cases (Passes m) (is_type MsgType.logout m) _ _
                    (λ _. stopped m _ (Keeps-InOrder s _ (disconnect-Keeps app clock s) o))
                    (λ _. stopped m _ (Keeps-InOrder s _ (logout-Keeps app clock _ s) o)))))

  after_check-InOrder :
      (m : Message) (checked : Bool × Session)
      → Passes m checked
      → InOrder (after_check app clock m checked)
  unfolding after_check drain_pending
  after_check-InOrder m (false, s) p = p.order
  after_check-InOrder m (true, s) p = drain_on-InOrder app clock _ _ (
      dispatch-InOrder app clock _ (λ t o. drain_on-InOrder app clock _ t o) m s p.order
        (p.number refl))

-- Whatever arrives but a logon, in any order, with gaps, repetitions and resets: where what was handed
-- to the application before came with ascending sequence numbers below the expected one and the queue
-- is keyed by them, so it is after the message and after all that the message releases from the queue.
-- So nothing is handed over twice or out of order.
pub on_message-InOrder :
    (app : Application) (clock : Clock) (m : Message) (s : Session)
    → is_type MsgType.logon m ≡ false
    → InOrder s
    → InOrder (on_message app clock m s)
unfolding on_message check_sequence
on_message-InOrder app clock m s other o =
    if_cases InOrder (is_awaiting_logon s.state && not (is_type MsgType.logon m)) _ _
      (λ _. Keeps-InOrder s _ (logout-Keeps app clock _ s) o)
      (λ _. rw other (
        after_check-InOrder app clock m _
          (check_received-Passes app clock m (get_int Tag.msg_seq_num none m) s o refl)))
