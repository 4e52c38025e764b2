-- ===== src/WsTransport/State.antt =====
-- transport-ws/src/transport.ts: the fields of a WsTransport object, and what the module takes from
-- the libraries `async` (the queue) and `ws` (the sockets).
use lp_clients.Base.{ℕ, ◌≡◌, Option, List, [], ◌∷◌, ◌++◌, String, Result}
use lp_clients.Platform.Values.{Value, Fields}
use lp_clients.Platform.Timers.{Timers}
use lp_clients.Platform.Emitter.{Emitter}
use lp_clients.WsTransport.Config.{WsConfig}

-- `TransportEvent`
abbrev pub on_connecting : String
on_connecting = "transport.ON_CONNECTING"

abbrev pub on_message_event : String
on_message_event = "transport.ON_MESSAGE"

abbrev pub on_error_event : String
on_error_event = "transport.ON_ERROR"

abbrev pub on_closed_event : String
on_closed_event = "transport.ON_CLOSED"

abbrev pub on_connected_event : String
on_connected_event = "transport.ON_CONNECTED"

-- The `readyState` of a socket.
pub data ReadyState : Type 0 where
  connecting open_ closing closed : ReadyState

-- What listens to the transport's events: callbacks of the users, and the two handlers of a call of
-- `disconnect`, known by the number of the promise that they settle.
pub data Listener : Type 0 where
  message_callback error_callback resolves rejects : ℕ → Listener

-- What the transport does to its sockets and callbacks.
pub data Action (SendType : Type 0) : Type 0 where
  opens : ℕ → String → Fields → Action SendType
  closes : ℕ → Action SendType
  sends : ℕ → SendType → Action SendType
  pings : ℕ → Action SendType
  calls_back : ℕ → Result Value → Action SendType

-- The queue of the library `async`, of messages, each with the promise that its callback settles, if it has one.
-- `waiting` is what the documentation calls the items that wait to be processed.
pub record AsyncQueue (SendType : Type 0) : Type 1 where
  pub Queue : Type 0
  pub empty : Queue
  pub push : List (SendType × Option ℕ) → Queue → Queue
  pub unshift : SendType × Option ℕ → Queue → Queue
  pub pause : Queue → Queue
  pub resume : Queue → Queue
  pub kill : Queue → Queue
  pub waiting : Queue → List (SendType × Option ℕ)
  pub waiting-empty : waiting empty ≡ []
  pub waiting-push :
      (xs : List (SendType × Option ℕ)) (q : Queue) → waiting (push xs q) ≡ waiting q ++ xs
  pub waiting-unshift :
      (x : SendType × Option ℕ) (q : Queue) → waiting (unshift x q) ≡ x ∷ waiting q
  pub waiting-pause : (q : Queue) → waiting (pause q) ≡ waiting q
  pub waiting-resume : (q : Queue) → waiting (resume q) ≡ waiting q
  pub waiting-kill : (q : Queue) → waiting (kill q) ≡ []

-- Beside the fields of the object: the timers, the state of each socket, which the library and the
-- network change, the pongs that are listened for, each by its socket and the timer that waits for
-- it, the promises that were returned, and what was done, the latest first.
pub record WsTransport (SendType Queue : Type 0) : Type 0 where
  pub ws : Option ℕ
  pub sending_queue : Option Queue
  pub conf : Option WsConfig
  pub drain_timeout_handle : Option ℕ
  pub heart_beat_handle : Option ℕ
  pub timers : Timers
  pub emitter : Emitter Listener
  pub ready : ℕ → ReadyState
  pub next_socket : ℕ
  pub pong_waits : List (ℕ × ℕ)
  pub promises : ℕ → Option (Result (Unit {0}))
  pub next_promise : ℕ
  pub actions : List (Action SendType)
