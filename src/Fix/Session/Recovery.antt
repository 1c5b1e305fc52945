-- ===== src/Fix/Session/Recovery.antt =====
-- What `replay` of exchangesim/fix/session.py sends for a range of sequence numbers.
use exchange_sim.Prelude.{ℕ, ◌+◌, ◌-◌, ◌≤◌, ◌≡◌, ◌||◌, Option, if◌then◌else◌, ◌==◌, leb}
use exchange_sim.Prelude.Int.{pos}
use exchange_sim.Fix.Store.{Messages}
use exchange_sim.Fix.Session.{Clock, Session}
use exchange_sim.Fix.Session.Replay.{replay_each}
use exchange_sim.Fix.Session.Pieces.{IsOpen, Replays, as_int, gap_from}

-- The rest of the loop, from the next number on.
Goes : Clock → Messages → ℕ → ℕ → Type 0
Goes clock stored n out =
    (seq : ℕ) (gap : Option ℕ) (s : Session)
    → IsOpen gap seq
    → seq + n ≤ out
    → s.store.next_out ≡ out
    → Replays clock stored (gap_from gap seq) (seq + n) out s
        (replay_each clock stored n (pos seq) (as_int gap) s)

-- The last number of a range that is asked for, by its end: the last that was sent, where the end is
-- 0, 999999 or beyond it.
unfoldable pub last_of : ℕ → ℕ → ℕ
last_of end next_out = if (end == 0 || end == 999999) || leb next_out end then next_out - 1 else end
