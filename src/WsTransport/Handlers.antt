-- ===== src/WsTransport/Handlers.antt =====
-- transport-ws/src/transport.ts: the handlers of the socket's events, the drain handler and the
-- heart beat. The argument of `ON_CLOSED`, a code and a reason, is left out: no listener of the
-- package reads it.
use Prim.Native.String.{◌++◌ as ◌+++◌}
use lp_clients.Base.{
  ℕ, Bool, true, false, Option, none, some, is_some, List, [], ◌∷◌, ◌++◌, String, Result, ok, err,
  Failure, error, if◌then◌else◌, ◌==◌, update,
}
use lp_clients.Platform.Values.{Value, null}
use lp_clients.Platform.Timers.{set_timeout, clear_if_set, clear_timeout, fire_timer}
use lp_clients.Platform.Emitter.{Emitter, emit, remove_listener}
use lp_clients.WsTransport.Config.{
  WsConfig, ConnectionStrategy, strategy_truthy, default_drain_timeout_ms,
  default_connection_strategy, default_ping_interval,
}
use lp_clients.WsTransport.State.{
  WsTransport, AsyncQueue, Listener, message_callback, error_callback, resolves, rejects,
  calls_back, pings, ReadyState, open_, closed, on_message_event, on_error_event, on_closed_event,
  on_connected_event,
}

abbrev pub is_open : ReadyState → Bool
is_open open_ = true
is_open _ = false

abbrev pub is_closed : ReadyState → Bool
is_closed closed = true
is_closed _ = false

-- Two handlers are the same function object.
abbrev pub same_listener : Listener → Listener → Bool
same_listener (message_callback m) (message_callback n) = m == n
same_listener (error_callback m) (error_callback n) = m == n
same_listener (resolves m) (resolves n) = m == n
same_listener (rejects m) (rejects n) = m == n
same_listener _ _ = false

module _ {SendType : Type 0} (lib : AsyncQueue SendType) where
  open lib use {Queue, pause, resume}

  -- A state of the transport.
  abbrev pub Ws : Type 0
  Ws = WsTransport SendType Queue

  unfoldable pub is_connected : Ws → Bool
  is_connected w = connected w.ws
    where
      connected : Option ℕ → Bool
      connected none = false
      connected (some s) = is_open (w.ready s)

  abbrev pub settle_promise : ℕ → Result (Unit {0}) → Ws → Ws
  settle_promise n r w =
      if is_some (w.promises n) then w else record w { promises = update n (some r) w.promises }

  -- The function `cleanup` of a call of `disconnect`.
  unfoldable pub cleanup : ℕ → Ws → Ws
  unfolding remove_listener
  cleanup n w = record w {
    emitter =
        remove_listener same_listener on_error_event (rejects n)
          (remove_listener same_listener on_connected_event (resolves n) w.emitter);
  }

  -- What a listener does with the argument of an event.
  unfoldable pub run_listener : Result Value → Listener → Ws → Ws
  unfolding cleanup
  run_listener arg (message_callback k) w = record w { actions = calls_back k arg ∷ w.actions }
  run_listener arg (error_callback k) w = record w { actions = calls_back k arg ∷ w.actions }
  run_listener arg (resolves n) w = settle_promise n (ok tt) (cleanup n w)
  run_listener (ok v) (rejects n) w = settle_promise n (err (error "")) (cleanup n w)
  run_listener (err e) (rejects n) w = settle_promise n (err e) (cleanup n w)

  unfoldable pub run_listeners : Result Value → List Listener → Ws → Ws
  unfolding run_listener
  run_listeners arg [] w = w
  run_listeners arg (l ∷ ls) w = run_listeners arg ls (run_listener arg l w)

  abbrev pub emitted : Result Value → Result (List Listener × Bool) × Emitter Listener → Ws → Ws
  emitted arg (ok (called, heard), em) w = run_listeners arg called (record w { emitter = em })
  emitted arg (err e, em) w = w

  -- `super.emit(event, arg)`: the names of the events are other than "error", so it does not throw.
  unfoldable pub emit_event : String → Result Value → Ws → Ws
  unfolding emit run_listeners
  emit_event event arg w = emitted arg (emit event w.emitter) w

  abbrev pub map_queue : (Queue → Queue) → Option Queue → Option Queue
  map_queue f none = none
  map_queue f (some q) = some (f q)

  unfoldable pub pause_queue : Ws → Ws
  pause_queue w = record w { sending_queue = map_queue pause w.sending_queue }

  unfoldable pub resume_queue : Ws → Ws
  resume_queue w = record w { sending_queue = map_queue resume w.sending_queue }

  unfoldable pub stop_heart_beat : Ws → Ws
  stop_heart_beat w = record w {
    timers = clear_if_set w.heart_beat_handle w.timers;
    heart_beat_handle = none;
  }

  unfoldable pub on_connected_handler : Ws → Ws
  unfolding emit_event resume_queue
  on_connected_handler w = resume_queue (emit_event on_connected_event (ok null) w)

  unfoldable pub on_closed_handler : Ws → Ws
  unfolding emit_event pause_queue stop_heart_beat
  on_closed_handler w = emit_event on_closed_event (ok null) (pause_queue (stop_heart_beat w))

  unfoldable pub on_error_handler : Failure → Ws → Ws
  unfolding emit_event pause_queue stop_heart_beat
  on_error_handler e w = emit_event on_error_event (err e) (pause_queue (stop_heart_beat w))

  -- `JSON.parse` is the parameter `parse`; where it throws, no listener is called.
  abbrev pub parsed : Result Value → Ws → Ws
  parsed (ok v) w = emit_event on_message_event (ok v) w
  parsed (err e) w = w

  unfoldable pub on_message_handler : (String → Result Value) → String → Ws → Ws
  unfolding emit_event
  on_message_handler parse raw w = parsed (parse raw) w

  abbrev pub strategy_of : Option WsConfig → ConnectionStrategy
  strategy_of none = default_connection_strategy
  strategy_of (some c) = c.connection_strategy

  abbrev pub drain_timeout_of : Option WsConfig → ℕ
  drain_timeout_of none = default_drain_timeout_ms
  drain_timeout_of (some c) = c.drain_timeout_ms

  abbrev pub ping_interval_of : Option WsConfig → ℕ
  ping_interval_of none = default_ping_interval
  ping_interval_of (some c) = c.ping_interval

  -- A strategy other than `LEAVE_OPEN`, which is the falsy one, arms the drain timer anew.
  unfoldable pub drain_handler : Ws → Ws
  unfolding set_timeout
  drain_handler w =
      let cleared : Ws = record w {
        timers = clear_if_set w.drain_timeout_handle w.timers;
        drain_timeout_handle = none;
      } in
      if strategy_truthy (strategy_of w.conf)
      then (let (handle, timers) = set_timeout (drain_timeout_of w.conf) cleared.timers in
          record cleared { timers = timers; drain_timeout_handle = some handle })
      else cleared

  -- `proceed` of the heart beat.
  unfoldable pub next_heart_beat : Ws → Ws
  unfolding set_timeout
  next_heart_beat w =
      let (handle, timers) = set_timeout (ping_interval_of w.conf) w.timers in
      record w { timers = timers; heart_beat_handle = some handle }

  abbrev pub ping : Option ℕ → Ws → Ws
  ping none w = w
  ping (some s) w = record w { actions = pings s ∷ w.actions }

  -- The timer that waits for a pong, and the listener for it on the socket.
  unfoldable pub wait_for_pong : ℕ → ℕ → Ws → Ws
  unfolding set_timeout
  wait_for_pong timeout s w =
      let (handle, timers) = set_timeout timeout w.timers in
      record w { timers = timers; pong_waits = w.pong_waits ++ (s, handle) ∷ [] }

  abbrev pub beat : Bool → ℕ → Option ℕ → Ws → Ws
  beat false timeout o w = next_heart_beat (ping o w)
  beat true timeout none w = next_heart_beat w
  beat true timeout (some s) w = ping (some s) (wait_for_pong timeout s w)

  unfoldable pub heart_beat_check : Bool → ℕ → Ws → Ws
  unfolding next_heart_beat stop_heart_beat wait_for_pong
  heart_beat_check verify timeout w = beat verify timeout w.ws (stop_heart_beat w)

  -- The listeners for a pong stay on the socket: each that was ever added clears its own timer and
  -- goes on.
  unfoldable pub hear_pong : ℕ → List (ℕ × ℕ) → Ws → Ws
  unfolding next_heart_beat clear_timeout
  hear_pong s [] w = w
  hear_pong s ((k, handle) ∷ waits) w =
      if k == s
      then hear_pong s waits (next_heart_beat (record w { timers = clear_timeout handle w.timers }))
      else hear_pong s waits w

  unfoldable pub pong_received : ℕ → Ws → Ws
  unfolding hear_pong
  pong_received s w = hear_pong s w.pong_waits w

  -- The timer that waits for a pong fires. The text names the time waited, which `text` spells.
  unfoldable pub pong_missed : (ℕ → String) → ℕ → ℕ → Ws → Ws
  unfolding fire_timer on_error_handler
  pong_missed text timeout handle w =
      on_error_handler (error ("No pong received after waiting " +++ text timeout +++ "ms!"))
        (record w { timers = fire_timer handle w.timers })
