-- ===== src/Fix/Session/Pieces.antt =====
-- The messages that a replay of exchangesim/fix/session.py is made of.
use exchange_sim.Prelude.{
  ℕ, suc, ◌≤◌, ◌<◌, ◌≡◌, refl, ap, subst, List, [], ◌∷◌, false, Option, none, some, ◌⊎◌, inl, inr,
  if_cases, Bool-cases, arith,
}
use exchange_sim.Prelude.Int.{ℤ, pos, ◌+ℤ◌}
use exchange_sim.Fix.Message.{Message, Parsed, parsed, incomplete, malformed}
use exchange_sim.Fix.Wire.{decode}
use exchange_sim.Fix.Store.{Messages, lookup}
use exchange_sim.Fix.Session.{Clock, Session, transmit, deliver}
use exchange_sim.Fix.Session.Replay.{
  resend, resend_decoded, fill_before, send_gap_fill, replayable, gap_opened, is_admin,
}

-- What one message of a replay stands for: numbers from the first up to the second left out, or a
-- stored message sent again.
pub data Piece : Type 0 where
  fills : ℕ → ℕ → Piece
  repeats : ℕ → List ℕ → Piece

unfoldable pub send_piece : Clock → Piece → Session → Session
send_piece clock (fills from to) s = send_gap_fill clock (pos from) (pos to) s
send_piece clock (repeats seq raw) s = resend clock (pos seq) raw s

unfoldable pub send_pieces : Clock → List Piece → Session → Session
send_pieces clock [] s = s
send_pieces clock (piece ∷ pieces) s = send_pieces clock pieces (send_piece clock piece s)

-- The pieces follow each other from the first number to the last, without a gap or an overlap, and
-- what is repeated is stored under its number and not administrative.
unfoldable pub Tiles : Messages → ℕ → List Piece → ℕ → Type 0
Tiles stored from [] to = from ≡ to
Tiles stored from (fills a b ∷ pieces) to = (a ≡ from) × (a < b) × Tiles stored b pieces to
Tiles stored from (repeats n raw ∷ pieces) to =
    (n ≡ from)
    × (lookup n stored ≡ some raw)
    × (is_admin raw ≡ false)
    × Tiles stored (suc n) pieces to

-- A gap that is open begins before the number at hand.
unfoldable pub gap_from : Option ℕ → ℕ → ℕ
gap_from none seq = seq
gap_from (some start) seq = start

unfoldable pub as_int : Option ℕ → Option ℤ
as_int none = none
as_int (some start) = some (pos start)

unfoldable pub IsOpen : Option ℕ → ℕ → Type 0
IsOpen none seq = Unit {0}
IsOpen (some start) seq = start < seq

-- The result of the loop from a number on.
pub record Replays (clock : Clock) (stored : Messages) (from last out : ℕ) (s t : Session)
    : Type 0 where
  pub pieces : List Piece
  pub to : ℕ
  pub sends : t ≡ send_pieces clock pieces s
  pub tiles : Tiles stored from pieces to
  pub ends : (to ≡ last) ⊎ (to ≡ out)

pub pos-suc : (n : ℕ) → pos n +ℤ pos 1 ≡ pos (suc n)
unfolding ◌+ℤ◌
pos-suc n = ground arith

transmit-next_out :
    (clock : Clock) (m : Message) (s : Session) → (transmit clock false m s).store ≡ s.store
unfolding transmit deliver
transmit-next_out clock m s =
    if_cases (λ (t : Session). t.store ≡ s.store) s.connected _ _ (λ _. refl) (λ _. refl)

resend_decoded-store :
    (clock : Clock) (seq : ℤ) (m : Parsed Message) (s : Session)
    → (resend_decoded clock seq m s).store ≡ s.store
unfolding resend_decoded send_gap_fill
resend_decoded-store clock seq (parsed m) s = transmit-next_out clock _ s
resend_decoded-store clock seq incomplete s = transmit-next_out clock _ s
resend_decoded-store clock seq (malformed e) s = transmit-next_out clock _ s

pub resend-store :
    (clock : Clock) (seq : ℤ) (raw : List ℕ) (s : Session)
    → (resend clock seq raw s).store ≡ s.store
unfolding resend
resend-store clock seq raw s = resend_decoded-store clock seq (decode false raw) s

pub fill_before-store :
    (clock : Clock) (start : Option ℤ) (seq : ℤ) (s : Session)
    → (fill_before clock start seq s).store ≡ s.store
unfolding fill_before send_gap_fill
fill_before-store clock none seq s = refl
fill_before-store clock (some start) seq s = transmit-next_out clock _ s

-- The stored messages that are sent again.
pub replayable-some :
    (found : Option (List ℕ)) (raw : List ℕ)
    → replayable found ≡ some raw
    → (found ≡ some raw) × (is_admin raw ≡ false)
unfolding replayable
replayable-some none raw e = absurd (ground (arith, e))
replayable-some (some r) raw e = elim (Bool-cases (is_admin r)) [
  | inl admin ↦ absurd (ground (arith, admin, e))
  | inr other ↦
      let same : r ≡ raw = ground (arith, other, e) in
      (ap some same, subst (λ x. is_admin x ≡ false) same other)
]

pub open-Replays :
    (clock : Clock) (stored : Messages) (gap : Option ℕ) (seq out : ℕ) (s : Session)
    → IsOpen gap seq
    → seq ≤ out
    → s.store.next_out ≡ out
    → Replays clock stored
        (gap_from gap seq)
        seq
        out
        s
        (fill_before clock (as_int gap) (pos s.store.next_out) s)
unfolding gap_from as_int IsOpen fill_before send_pieces send_piece Tiles
open-Replays clock stored none seq out s o l e = record {
  pieces = [];
  to = seq;
  sends = refl;
  tiles = refl;
  ends = inl refl;
}
open-Replays clock stored (some start) seq out s o l e = record {
  pieces = fills start s.store.next_out ∷ [];
  to = s.store.next_out;
  sends = refl;
  tiles = (refl, omega (arith, o, l, e), refl);
  ends = inr e;
}

-- A message sent again after the gap before it.
unfoldable pub with_gap : Option ℕ → ℕ → List Piece → List Piece
with_gap none seq pieces = pieces
with_gap (some start) seq pieces = fills start seq ∷ pieces

pub with_gap-Tiles :
    (stored : Messages) (gap : Option ℕ) (seq to : ℕ) (pieces : List Piece)
    → IsOpen gap seq
    → Tiles stored seq pieces to
    → Tiles stored (gap_from gap seq) (with_gap gap seq pieces) to
unfolding IsOpen gap_from with_gap Tiles
with_gap-Tiles stored none seq to pieces o t = t
with_gap-Tiles stored (some start) seq to pieces o t = (refl, o, t)

pub send-with_gap :
    (clock : Clock) (gap : Option ℕ) (seq : ℕ) (pieces : List Piece) (s : Session)
    → send_pieces clock (with_gap gap seq pieces) s
      ≡ send_pieces clock pieces (fill_before clock (as_int gap) (pos seq) s)
unfolding with_gap fill_before as_int send_pieces send_piece
send-with_gap clock none seq pieces s = refl
send-with_gap clock (some start) seq pieces s = refl

pub gap_opened-as_int :
    (gap : Option ℕ) (seq : ℕ)
    → gap_opened (as_int gap) (pos seq) ≡ as_int (some (gap_from gap seq))
unfolding gap_opened as_int gap_from
gap_opened-as_int none seq = refl
gap_opened-as_int (some start) seq = refl
