-- ===== src/Fix/Session/Stays.antt =====
-- What sending leaves as it was in a session of exchangesim/fix/session.py, for its timers.
use exchange_sim.Prelude.{ℕ, ◌-◌, ◌*◌, ◌≡◌, refl, ◌∙◌, List, [], ◌∷◌, ◌++◌, false, leb, if_cases}
use exchange_sim.Fix.Message.{Message}
use exchange_sim.Fix.Session.{
  Clock, Session, disconnected, Application, transmit, deliver, send, send_all, put_store, dropped,
  detach, disconnect, logout_and_disconnect,
}
use exchange_sim.Fix.Session.Transport.{Dialect, beat}

-- What sending does not touch.
pub record Stays (s t : Session) : Type 0 where
  pub state : t.state ≡ s.state
  pub connected : t.connected ≡ s.connected
  pub interval : t.heartbeat_interval ≡ s.heartbeat_interval
  pub asked : t.test_request_sent ≡ s.test_request_sent
  pub heard : t.last_received ≡ s.last_received

Stays-refl : (s : Session) → Stays s s
Stays-refl s = record {
  state = refl;
  connected = refl;
  interval = refl;
  asked = refl;
  heard = refl;
}

Stays-trans : (s t u : Session) → Stays s t → Stays t u → Stays s u
Stays-trans s t u k l = record {
  state = l.state ∙ k.state;
  connected = l.connected ∙ k.connected;
  interval = l.interval ∙ k.interval;
  asked = l.asked ∙ k.asked;
  heard = l.heard ∙ k.heard;
}

deliver-Stays : (clock : Clock) (raw : List ℕ) (s : Session) → Stays s (deliver clock raw s)
unfolding deliver
deliver-Stays clock raw s =
    if_cases (Stays s) s.connected
      (record s { sent = s.sent ++ raw ∷ []; last_sent = clock.monotonic }) s
      (λ _. record { state = refl; connected = refl; interval = refl; asked = refl; heard = refl })
      (λ _. Stays-refl s)

pub send-Stays : (clock : Clock) (m : Message) (s : Session) → Stays s (send clock m s)
unfolding send transmit put_store
send-Stays clock m s =
    let k = deliver-Stays clock _ _ in
    record {
      state = k.state;
      connected = k.connected;
      interval = k.interval;
      asked = k.asked;
      heard = k.heard;
    }

send_all-Stays : (clock : Clock) (ms : List Message) (s : Session) → Stays s (send_all clock ms s)
unfolding send_all
send_all-Stays clock [] s = Stays-refl s
send_all-Stays clock (m ∷ ms) s =
    Stays-trans s (send clock m s) _ (send-Stays clock m s)
      (send_all-Stays clock ms (send clock m s))

pub logout-off :
    (app : Application) (clock : Clock) (text : List ℕ) (s : Session)
    → ((logout_and_disconnect app clock text s).connected ≡ false)
      × ((logout_and_disconnect app clock text s).state ≡ disconnected)
unfolding logout_and_disconnect disconnect detach dropped
logout-off app clock text s = let k = send_all-Stays clock _ _ in (k.connected, k.state)

pub beat-Stays :
    (dialect : Dialect) (app : Application) (clock : Clock) (s : Session)
    → Stays s (beat dialect app clock s)
unfolding beat
beat-Stays dialect app clock s =
    if_cases (Stays s) (leb (s.heartbeat_interval * 1000) (clock.monotonic - s.last_sent)) _ _
      (λ _. send-Stays clock _ s) (λ _. Stays-refl s)
