-- ===== src/Tests/Sockets.antt =====
-- Runs of transport-ws. What is sent is a number, and the queue is a list.
use lp_clients.Base.{
  ℕ, ◌+◌, ◌<◌, ◌≤◌, ltb, ◌≡◌, refl, ◌≢◌, ◌⊎◌, true, false, Option, none, some, is_some, List, [],
  ◌∷◌, ◌++◌, String, Result, ok, err, error, All, if◌then◌else◌,
}
use lp_clients.Platform.Values.{Value, str, end}
use lp_clients.Platform.Emitter.{listeners}
use lp_clients.Platform.Emitter.Laws.{lasting}
use lp_clients.WsTransport.Config.{leave_open, ConnectionFactory, WsConfigBase, default_ws_config}
use lp_clients.WsTransport.State.{
  ReadyState, connecting, open_, resolves, message_callback, AsyncQueue, on_closed_event,
}
use lp_clients.WsTransport.Handlers.{Ws, pong_received, is_connected, is_open}
use lp_clients.WsTransport.Connection.{
  connect_begin, connect_open, disconnect, SocketEvent, opened, closed_by_peer,
}
use lp_clients.WsTransport.Connection.Again.{connect_again-rejects, socket_events, rejected}
use lp_clients.WsTransport.Connection.Leaks.{disconnect-leaks}
use lp_clients.WsTransport.Waiting.{pos, wait_for_socket, wait_for_socket_lem}
use lp_clients.WsTransport.Sending.{send_messages, on_message}
use lp_clients.WsTransport.Delivery.{
  Sender, Happening, pushes, takes, waited, called_back, socket_closes, socket_opens, leaves, idle,
}
use lp_clients.WsTransport.Callbacks.{message_callbacks, on_message_again}
use lp_clients.WsTransport.Pongs.{checks, waits_on, pong_received_multiplies}
use lp_clients.WsTransport.Clocks.{AllHeld}
use lp_clients.WsTransport.Moments.{
  Moment, disconnects, connects, opens_socket, reports, sends_messages, transmits, polls, drains,
  heart_beat_fires, checks_heart_beat, moments, retries_set,
}
use lp_clients.WsTransport.Silence.Handles.{Among}
use lp_clients.WsTransport.Silence.{moments_silenced}

abbrev Queue : Type 0
Queue = List (ℕ × Option ℕ)

abbrev list_queue : AsyncQueue ℕ
list_queue = record {
  Queue = Queue;
  empty = [];
  push = λ xs q. q ++ xs;
  unshift = λ x q. x ∷ q;
  pause = λ q. q;
  resume = λ q. q;
  kill = λ q. [];
  waiting = λ q. q;
  waiting-empty = refl;
  waiting-push = λ xs q. refl;
  waiting-unshift = λ x q. refl;
  waiting-pause = λ q. refl;
  waiting-resume = λ q. refl;
  waiting-kill = λ q. refl;
}

abbrev factory : ConnectionFactory
factory = record {
  endpoint = λ domain session. "wss://ws.example.com";
  headers = λ domain session. end;
}

abbrev base : WsConfigBase
base = record {
  connection_factory = factory;
  ping_interval = none;
  queue_worker = none;
  drain_timeout_ms = some 0;
  messaging_retry_interval_ms = none;
  messaging_max_retries = some 0;
  connection_strategy = some leave_open;
}

-- A transport with an open socket and a queue that a message waits in.
abbrev connected : Ws list_queue
connected = record {
  ws = some 0;
  sending_queue = some ((5, some 0) ∷ []);
  conf = some (default_ws_config base);
  drain_timeout_handle = none;
  heart_beat_handle = none;
  timers = record { fresh = 0; armed = [] };
  emitter = record { event = on_closed_event; listener = message_callback 0; is_once = false } ∷ [];
  ready = λ s. open_;
  next_socket = 1;
  pong_waits = [];
  promises = λ n. none;
  next_promise = 1;
  actions = [];
}

abbrev unconnected : Ws list_queue
unconnected = record connected { ws = none }

abbrev parse : String → Result Value
parse raw = ok (str raw)

connected-is_connected : is_connected list_queue connected ≡ true
unfolding is_connected
connected-is_connected = refl

-- Before the new connection opens, the old socket reports that it is closed.
abbrev old_closed : List (ℕ × ℕ × SocketEvent)
old_closed = (0, 0, closed_by_peer) ∷ []

abbrev new_opened : List (ℕ × ℕ × SocketEvent)
new_opened = (1, 2, opened) ∷ []

connect_again-rejects_example :
    let (left, waits) = connect_begin list_queue (default_ws_config base) connected in
    let (open_anew, s, n) =
      connect_open list_queue
        (default_ws_config base)
        end
        "ws.example.com"
        (socket_events list_queue parse old_closed left) in
    let later = socket_events list_queue parse new_opened open_anew in
    (waits ≡ some 1) × (send_messages list_queue (6 ∷ []) later ≡ rejected list_queue later)
connect_again-rejects_example =
    connect_again-rejects list_queue parse (default_ws_config base) end "ws.example.com" old_closed
      new_opened (6 ∷ []) connected connected-is_connected

disconnect-leaks_example :
    let (w', n) = disconnect list_queue true unconnected in
    (is_some (w'.promises n) ≡ true)
    × (listeners on_closed_event w'.emitter
        ≡ lasting on_closed_event unconnected.emitter ++ resolves n ∷ [])
disconnect-leaks_example = disconnect-leaks list_queue true unconnected refl

-- A socket that is open from the third poll on.
abbrev third_open : ℕ → ReadyState
third_open k = if ltb k 2 then connecting else open_

wait_for_socket_lem_example :
    let (result, at) = wait_for_socket third_open (pos 10) 0 in
    ((result ≡ none)
      × (0 ≤ at)
      × (at < 11 + 0)
      × (is_open (third_open at) ≡ true)
      × ((i : ℕ) → 0 ≤ i → i < at → is_open (third_open i) ≡ false))
    ⊎ ((result ≢ none)
        × (at ≡ 11 + 0)
        × ((i : ℕ) → 0 ≤ i → i < 11 + 0 → is_open (third_open i) ≡ false))
wait_for_socket_lem_example = wait_for_socket_lem third_open (pos 10) 0

abbrev take_first : Queue → Option ((ℕ × Option ℕ) × Queue)
take_first [] = none
take_first (x ∷ q) = some (x, q)

abbrev sender : Sender list_queue
sender = record { transport = connected; worker = idle }

-- A message waits in vain while the connection is lost, and is sent behind the new connection, but
-- the socket reports a failure; another one is waiting at the disconnect, and a last one comes after.
abbrev interrupted : List (Happening ℕ)
interrupted =
    pushes (8 ∷ 9 ∷ [])
    ∷ socket_closes
    ∷ takes
    ∷ waited (some "timeout")
    ∷ socket_opens
    ∷ takes
    ∷ waited none
    ∷ called_back (err (error "closed"))
    ∷ takes
    ∷ leaves true
    ∷ pushes (10 ∷ [])
    ∷ []

-- Two heart beats, an empty queue, and a new connection, which a message waits for.
abbrev beating : List (Moment ℕ)
beating =
    checks_heart_beat
    ∷ drains
    ∷ heart_beat_fires 0
    ∷ reports 0 0 closed_by_peer
    ∷ connects (default_ws_config base)
    ∷ opens_socket (default_ws_config base) end "ws.example.com"
    ∷ sends_messages (6 ∷ [])
    ∷ transmits (6, some 3)
    ∷ polls (6, some 3) 1 100 (pos 10)
    ∷ checks_heart_beat
    ∷ []

moments_silenced_example :
    AllHeld list_queue
      (Among (retries_set list_queue parse beating connected))
      (moments list_queue parse beating connected)
    × All
        (λ e. Among (retries_set list_queue parse beating connected) e.0)
        (disconnect list_queue true (moments list_queue parse beating connected)).0.timers.armed
moments_silenced_example = moments_silenced list_queue parse [] beating true connected tt

-- A stop and a start between two registrations.
abbrev restart : List (Moment ℕ)
restart =
    disconnects true
    ∷ reports 0 0 closed_by_peer
    ∷ connects (default_ws_config base)
    ∷ opens_socket (default_ws_config base) end "ws.example.com"
    ∷ reports 1 3 opened
    ∷ []

on_message_again_example :
    message_callbacks list_queue (
      on_message list_queue 7
        (moments list_queue parse restart (on_message list_queue 7 connected)))
    ≡ message_callbacks list_queue connected ++ message_callback 7 ∷ message_callback 7 ∷ []
on_message_again_example = on_message_again list_queue parse 7 restart connected

pong_received_multiplies_example :
    (pong_received list_queue 0 (checks list_queue 100 2 connected)).timers.fresh
    ≡ (checks list_queue 100 2 connected).timers.fresh + (2 + waits_on 0 [])
pong_received_multiplies_example = pong_received_multiplies list_queue 100 0 2 connected refl
