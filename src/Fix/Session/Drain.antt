-- ===== src/Fix/Session/Drain.antt =====
-- The queue of exchangesim/fix/session.py is drained as far as the expected numbers reach.
use exchange_sim.Prelude.{◌≤◌, ◌≡◌, [], false, none, length}
use exchange_sim.Fix.Message.{Message}
use exchange_sim.Fix.MsgType
use exchange_sim.Fix.Tag
use exchange_sim.Fix.Session.{Session}
use exchange_sim.Fix.Session.Inbound.{pending_at}

-- The queue grows by nothing.
abbrev IsShorter : Session → Session → Type 0
IsShorter s t = length t.pending ≤ length s.pending

-- Nothing that waits is what is expected, and with nothing waiting no resend is outstanding.
pub record IsDrained (s : Session) : Type 0 where
  pub none_current : pending_at s.store.next_in s.pending ≡ none
  pub flag : s.pending ≡ [] → s.resend_requested ≡ false
