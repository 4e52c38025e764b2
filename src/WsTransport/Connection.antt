-- ===== src/WsTransport/Connection.antt =====
-- transport-ws/src/transport.ts: `connect`, `disconnect` and the events of a socket. `connect` is
-- two functions, before and after its wait for `disconnect`; `parse` is `JSON.parse`.
pub mod Again
pub mod Leaks
use lp_clients.Base.{
  ℕ, suc, ◌≡◌, Bool, true, false, ◌&&◌, not, Option, none, some, is_some, List, [], ◌∷◌, String,
  Result, ok, err, Failure, if◌then◌else◌, ◌==◌, update, length,
}
use lp_clients.Platform.Values.{Value, null}
use lp_clients.Platform.Timers.{Timers, clear_if_set, fire_timer}
use lp_clients.Platform.Emitter.{Emitter, on}
use lp_clients.Client.Services.{UserSession}
use lp_clients.WsTransport.Config.{WsConfig, adjust_conf}
use lp_clients.WsTransport.State.{
  WsTransport, AsyncQueue, resolves, rejects, Action, opens, closes, ReadyState, connecting, open_,
  closing, closed, on_error_event, on_closed_event, on_connecting,
}
use lp_clients.WsTransport.Handlers.{
  Ws, is_connected, is_closed, settle_promise, emit_event, on_connected_handler, on_closed_handler,
  on_error_handler, on_message_handler, drain_handler,
}

-- What the library `ws` reports of a socket.
pub data SocketEvent : Type 0 where
  opened closed_by_peer : SocketEvent
  failed : Failure → SocketEvent
  received : String → SocketEvent

module _ {SendType : Type 0} (lib : AsyncQueue SendType) where
  open lib use {Queue, empty, kill, waiting}

  -- The timer that runs the drain handler's `disconnect` and the one of the heart beat.
  abbrev pub clear_timers : Ws lib → Ws lib
  clear_timers w = record w {
    timers = clear_if_set w.drain_timeout_handle (clear_if_set w.heart_beat_handle w.timers);
    heart_beat_handle = none;
    drain_timeout_handle = none;
  }

  -- The first lines of `disconnect`; the killed queue has lost its items.
  unfoldable pub flush : Bool → Ws lib → Ws lib
  unfolding drain_handler
  flush flush_queue w = flushed w.sending_queue
    where
      flushed : Option Queue → Ws lib
      flushed none = w
      flushed (some q) =
          if flush_queue && not (length (waiting q) == 0)
          then record (drain_handler lib w) { sending_queue = some (kill q) }
          else w

  -- A socket that is not closed is asked to close and reports that later; else the transport is
  -- closed at once.
  unfoldable pub close_socket : Option ℕ → Ws lib → Ws lib
  unfolding on_closed_handler
  close_socket none w = on_closed_handler lib w
  close_socket (some s) w =
      if is_closed (w.ready s)
      then on_closed_handler lib w
      else record w { actions = closes s ∷ w.actions }

  -- The listeners that settle the promise of a `disconnect`.
  unfoldable pub await_closed : ℕ → Ws lib → Ws lib
  unfolding on
  await_closed n w = record w {
    emitter = on on_error_event (rejects n) (on on_closed_event (resolves n) w.emitter);
    next_promise = suc n;
  }

  abbrev pub forget : Ws lib → Ws lib
  forget w = record w { ws = none; sending_queue = none; conf = none }

  -- `disconnect`, with the number of the promise that it returns.
  unfoldable pub disconnect : Bool → Ws lib → Ws lib × ℕ
  unfolding flush close_socket await_closed
  disconnect flush_queue w =
      let flushed : Ws lib = clear_timers (flush flush_queue w) in
      (close_socket w.ws (await_closed w.next_promise (forget flushed)), w.next_promise)

  -- `connect` up to its `await`: the promise that it waits for, if it does.
  unfoldable pub connect_begin : WsConfig → Ws lib → Ws lib × Option ℕ
  unfolding adjust_conf is_connected disconnect
  connect_begin config w =
      let fresh : Ws lib = record w {
        conf = some (adjust_conf config);
        sending_queue = some empty;
      } in
      if is_connected lib fresh
      then (let (left, n) = disconnect true fresh in (left, some n))
      else (fresh, none)

  abbrev pub opening : WsConfig → UserSession → String → Ws lib → Ws lib
  opening config session domain w = record w {
    ws = some w.next_socket;
    ready = update w.next_socket connecting w.ready;
    next_socket = suc w.next_socket;
    next_promise = suc w.next_promise;
    actions =
        opens w.next_socket (config.connection_factory.endpoint domain session)
          (config.connection_factory.headers domain session)
        ∷ w.actions;
  }

  -- The rest of `connect`: a new socket, and the promise that its first event settles.
  unfoldable pub connect_open : WsConfig → UserSession → String → Ws lib → Ws lib × ℕ × ℕ
  unfolding emit_event
  connect_open config session domain w = (
    emit_event lib on_connecting (ok null) (opening config session domain w),
    w.next_socket,
    w.next_promise,
  )

  abbrev pub become : ℕ → ReadyState → Ws lib → Ws lib
  become s r w = record w { ready = update s r w.ready }

  -- The hooks that `connect` puts on socket `s`; `n` is the promise of that call. A promise settles
  -- once, so the flag `opened` of the source is whether the promise has been resolved.
  unfoldable pub socket_event : (String → Result Value) → ℕ → ℕ → SocketEvent → Ws lib → Ws lib
  unfolding on_connected_handler on_closed_handler on_error_handler on_message_handler
  socket_event parse s n opened w =
      settle_promise lib n (ok tt) (on_connected_handler lib (become s open_ w))
  socket_event parse s n closed_by_peer w = on_closed_handler lib (become s closed w)
  socket_event parse s n (failed e) w = settle_promise lib n (err e) (on_error_handler lib e w)
  socket_event parse s n (received raw) w = on_message_handler lib parse raw w

  -- The drain timer's function.
  unfoldable pub drained : ℕ → Ws lib → Ws lib × ℕ
  unfolding disconnect
  drained h w = disconnect true (record w { timers = fire_timer h w.timers })
