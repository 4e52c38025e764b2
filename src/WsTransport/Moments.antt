-- ===== src/WsTransport/Moments.antt =====
-- transport-ws/src/transport.ts: histories of a transport. The heart beat is the one that
-- `heartBeatCheck` is by default, without a wait for a pong.
use lp_clients.Base.{ℕ, Bool, false, Option, none, some, List, [], ◌∷◌, ◌++◌, String, Result}
use lp_clients.Platform.Values.{Value}
use lp_clients.Platform.Timers.{fire_timer}
use lp_clients.Client.Services.{UserSession}
use lp_clients.WsTransport.Config.{WsConfig}
use lp_clients.WsTransport.State.{AsyncQueue}
use lp_clients.WsTransport.Handlers.{Ws, drain_handler, heart_beat_check}
use lp_clients.WsTransport.Connection.{
  SocketEvent, disconnect, connect_begin, connect_open, socket_event, drained,
}
use lp_clients.WsTransport.Waiting.{ℤ}
use lp_clients.WsTransport.Sending.{send_messages, transmit, poll_socket, poll_fires}

-- What happens to a transport: calls of its methods, up to their waits, the events of its sockets,
-- the worker's messages and its polls of the socket, the queue that has run empty, and its timers
-- that fire.
pub data Moment (SendType : Type 0) : Type 0 where
  connects : WsConfig → Moment SendType
  opens_socket : WsConfig → UserSession → String → Moment SendType
  disconnects : Bool → Moment SendType
  reports : ℕ → ℕ → SocketEvent → Moment SendType
  sends_messages : List SendType → Moment SendType
  transmits : SendType × Option ℕ → Moment SendType
  polls : SendType × Option ℕ → ℕ → ℕ → ℤ → Moment SendType
  retry_fires : ℕ → SendType × Option ℕ → ℕ → ℕ → ℤ → Moment SendType
  drains : Moment SendType
  drain_fires heart_beat_fires : ℕ → Moment SendType
  checks_heart_beat : Moment SendType

-- The handle of the timer that a poll sets.
abbrev pub set_by : Option (ℕ × ℤ) → List ℕ
set_by none = []
set_by (some (handle, m)) = handle ∷ []

module _ {SendType : Type 0} (lib : AsyncQueue SendType) (parse : String → Result Value) where
  abbrev pub moment : Moment SendType → Ws lib → Ws lib
  moment (connects config) w = (connect_begin lib config w).0
  moment (opens_socket config session domain) w = (connect_open lib config session domain w).0
  moment (disconnects flushes) w = (disconnect lib flushes w).0
  moment (reports s n event) w = socket_event lib parse s n event w
  moment (sends_messages ms) w = (send_messages lib ms w).0
  moment (transmits task) w = (transmit lib task w).0
  moment (polls task s interval m) w = (poll_socket lib task s interval m w).0
  moment (retry_fires h task s interval m) w = (poll_fires lib h task s interval m w).0
  moment drains w = drain_handler lib w
  moment (drain_fires h) w = (drained lib h w).0
  moment (heart_beat_fires h) w =
      heart_beat_check lib false 100 (record w { timers = fire_timer h w.timers })
  moment checks_heart_beat w = heart_beat_check lib false 100 w

  unfoldable pub moments : List (Moment SendType) → Ws lib → Ws lib
  moments [] w = w
  moments (m ∷ ms) w = moments ms (moment m w)

  -- The handle of the retry timer that is set at a moment, if one is.
  abbrev pub retry_set : Moment SendType → Ws lib → List ℕ
  retry_set (polls task s interval m) w = set_by (poll_socket lib task s interval m w).1
  retry_set (retry_fires h task s interval m) w = set_by (poll_fires lib h task s interval m w).1
  retry_set _ w = []

  -- The handles of all retry timers that a history sets.
  unfoldable pub retries_set : List (Moment SendType) → Ws lib → List ℕ
  retries_set [] w = []
  retries_set (m ∷ ms) w = retry_set m w ++ retries_set ms (moment m w)
