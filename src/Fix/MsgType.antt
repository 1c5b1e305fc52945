-- ===== src/Fix/MsgType.antt =====
-- exchangesim/fix/constants.py: the types of the administrative messages.
use exchange_sim.Prelude.{ℕ, List, Bool, ◌||◌}
use exchange_sim.Bytes.{same, codes}

abbrev pub heartbeat : List ℕ
heartbeat = codes "0"

abbrev pub test_request : List ℕ
test_request = codes "1"

abbrev pub resend_request : List ℕ
resend_request = codes "2"

abbrev pub reject : List ℕ
reject = codes "3"

abbrev pub sequence_reset : List ℕ
sequence_reset = codes "4"

abbrev pub logout : List ℕ
logout = codes "5"

abbrev pub logon : List ℕ
logon = codes "A"

-- Membership of `ADMIN_MSG_TYPES`.
unfoldable pub is_admin_type : List ℕ → Bool
is_admin_type t =
    same t heartbeat
    || same t test_request
    || same t resend_request
    || same t reject
    || same t sequence_reset
    || same t logout
    || same t logon
