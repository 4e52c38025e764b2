-- ===== src/WsTransport/Connection/Again.antt =====
-- transport-ws/src/transport.ts: `connect` of a transport that is connected already.
use lp_clients.Base.{
  ℕ, suc, ◌≡◌, refl, Bool, true, Option, none, some, List, [], ◌∷◌, String, Result, ok, err, error,
  arith, inl, inr, Bool-cases, ap,
}
use lp_clients.Platform.Values.{Value, null}
use lp_clients.Platform.Emitter.{Emitter, emit}
use lp_clients.Client.Services.{UserSession}
use lp_clients.WsTransport.Config.{WsConfig, adjust_conf}
use lp_clients.WsTransport.State.{
  AsyncQueue, Listener, message_callback, error_callback, resolves, rejects, open_, closed,
  on_error_event, on_closed_event, on_connecting, on_connected_event, on_message_event,
}
use lp_clients.WsTransport.Handlers.{
  Ws, is_connected, is_closed, settle_promise, cleanup, run_listener, run_listeners, emitted,
  parsed, emit_event, pause_queue, resume_queue, stop_heart_beat, map_queue, on_connected_handler,
  on_closed_handler, on_error_handler, on_message_handler,
}
use lp_clients.WsTransport.Connection.{
  connect_begin, connect_open, disconnect, SocketEvent, opened, closed_by_peer, failed, received,
  socket_event, become, opening, forget, clear_timers, flush, close_socket, await_closed,
}
use lp_clients.WsTransport.Sending.{send_messages, send_with_cb}

module _ {SendType : Type 0} (lib : AsyncQueue SendType) where
  open lib use {pause, resume, empty}

  -- The transport has neither a queue nor a configuration.
  abbrev Bare : Ws lib → Type 0
  Bare w = (w.sending_queue ≡ none) × (w.conf ≡ none)

  settle-Bare :
      (n : ℕ) (r : Result (Unit {0})) (w : Ws lib) → Bare w → Bare (settle_promise lib n r w)
  settle-Bare n r w b = ground arith

  run_listener-Bare :
      (arg : Result Value) (l : Listener) (w : Ws lib) → Bare w → Bare (run_listener lib arg l w)
  unfolding run_listener cleanup
  run_listener-Bare arg (message_callback k) w b = b
  run_listener-Bare arg (error_callback k) w b = b
  run_listener-Bare arg (resolves n) w b = settle-Bare n (ok tt) (cleanup lib n w) b
  run_listener-Bare (ok v) (rejects n) w b = settle-Bare n (err (error "")) (cleanup lib n w) b
  run_listener-Bare (err e) (rejects n) w b = settle-Bare n (err e) (cleanup lib n w) b

  run_listeners-Bare :
      (arg : Result Value) (ls : List Listener) (w : Ws lib)
      → Bare w
      → Bare (run_listeners lib arg ls w)
  unfolding run_listeners
  run_listeners-Bare arg [] w b = b
  run_listeners-Bare arg (l ∷ ls) w b =
      run_listeners-Bare arg ls (run_listener lib arg l w) (run_listener-Bare arg l w b)

  emitted-Bare :
      (arg : Result Value) (r : Result (List Listener × Bool) × Emitter Listener) (w : Ws lib)
      → Bare w
      → Bare (emitted lib arg r w)
  emitted-Bare arg (ok (called, heard), em) w b =
      run_listeners-Bare arg called (record w { emitter = em }) b
  emitted-Bare arg (err e, em) w b = b

  emit_event-Bare :
      (event : String) (arg : Result Value) (w : Ws lib)
      → Bare w
      → Bare (emit_event lib event arg w)
  unfolding emit_event
  emit_event-Bare event arg w b = emitted-Bare arg (emit event w.emitter) w b

  handled-Bare : (w : Ws lib) → Bare w → Bare (pause_queue lib (stop_heart_beat lib w))
  unfolding pause_queue stop_heart_beat
  handled-Bare w b = (ap (map_queue lib pause) b.0, b.1)

  closed-Bare : (w : Ws lib) → Bare w → Bare (on_closed_handler lib w)
  unfolding on_closed_handler
  closed-Bare w b =
      emit_event-Bare on_closed_event (ok null) (pause_queue lib (stop_heart_beat lib w))
        (handled-Bare w b)

  parsed-Bare : (r : Result Value) (w : Ws lib) → Bare w → Bare (parsed lib r w)
  parsed-Bare (ok v) w b = emit_event-Bare on_message_event (ok v) w b
  parsed-Bare (err e) w b = b

  socket_event-Bare :
      (parse : String → Result Value) (s n : ℕ) (e : SocketEvent) (w : Ws lib)
      → Bare w
      → Bare (socket_event lib parse s n e w)
  unfolding socket_event on_connected_handler on_closed_handler on_error_handler on_message_handler
      resume_queue
  socket_event-Bare parse s n opened w b =
      let emitted : Bare (emit_event lib on_connected_event (ok null) (become lib s open_ w)) =
        emit_event-Bare on_connected_event (ok null) (become lib s open_ w) b in
      settle-Bare n (ok tt) (on_connected_handler lib (become lib s open_ w))
        (ap (map_queue lib resume) emitted.0, emitted.1)
  socket_event-Bare parse s n closed_by_peer w b = closed-Bare (become lib s closed w) b
  socket_event-Bare parse s n (failed e) w b = settle-Bare n (err e) (on_error_handler lib e w) (
      emit_event-Bare on_error_event (err e) (pause_queue lib (stop_heart_beat lib w))
        (handled-Bare w b))
  socket_event-Bare parse s n (received raw) w b = parsed-Bare (parse raw) w b

  -- The socket `s` of event `(s, n, e)` was opened by the call whose promise is `n`.
  pub socket_events : (String → Result Value) → List (ℕ × ℕ × SocketEvent) → Ws lib → Ws lib
  socket_events parse [] w = w
  socket_events parse ((s, n, e) ∷ es) w = socket_events parse es (socket_event lib parse s n e w)

  socket_events-Bare :
      (parse : String → Result Value) (es : List (ℕ × ℕ × SocketEvent)) (w : Ws lib)
      → Bare w
      → Bare (socket_events parse es w)
  unfolding socket_events
  socket_events-Bare parse [] w b = b
  socket_events-Bare parse ((s, n, e) ∷ es) w b =
      socket_events-Bare parse es (socket_event lib parse s n e w)
        (socket_event-Bare parse s n e w b)

  close_socket-Bare : (o : Option ℕ) (w : Ws lib) → Bare w → Bare (close_socket lib o w)
  unfolding close_socket
  close_socket-Bare none w b = closed-Bare w b
  close_socket-Bare (some s) w b = elim (Bool-cases (is_closed (w.ready s))) [
    | inl e ↦ rw e (closed-Bare w b)
    | inr e ↦ rw e b
  ]

  disconnect-Bare : (flush_queue : Bool) (w : Ws lib) → Bare (disconnect lib flush_queue w).0
  unfolding disconnect await_closed
  disconnect-Bare flush_queue w =
      close_socket-Bare w.ws
        (await_closed lib w.next_promise (forget lib (clear_timers lib (flush lib flush_queue w))))
        (refl, refl)

  begin-Bare :
      (config : WsConfig) (w : Ws lib)
      → is_connected lib w ≡ true
      → Bare (connect_begin lib config w).0 × ((connect_begin lib config w).1 ≡ some w.next_promise)
  unfolding connect_begin is_connected
  begin-Bare config w h = rw h (
    disconnect-Bare true
        (record w { sending_queue = some empty; conf = some (adjust_conf config) }),
    refl,
  )

  open-Bare :
      (config : WsConfig) (session : UserSession) (domain : String) (w : Ws lib)
      → Bare w
      → Bare (connect_open lib config session domain w).0
  unfolding connect_open
  open-Bare config session domain w b =
      emit_event-Bare on_connecting (ok null) (opening lib config session domain w) b

  -- The promise of the next call is rejected, with nothing put into a queue.
  abbrev pub rejected : Ws lib → Ws lib × ℕ
  rejected w = (
    settle_promise lib w.next_promise (err (error "Cannot send message; queue not ready/available"))
        (record w { next_promise = suc w.next_promise }),
    w.next_promise,
  )

  send-Bare :
      (messages : List SendType) (w : Ws lib) → Bare w → send_messages lib messages w ≡ rejected w
  unfolding send_messages send_with_cb
  send-Bare messages w b = rw b.0 refl

  -- `connect` of a connected transport waits for the old connection to close and then opens a
  -- socket without ever making a queue again: whatever the sockets report meanwhile and after, a
  -- call of `send_messages` does no more than reject its promise, where that is unsettled.
  pub connect_again-rejects :
      (parse : String → Result Value) (config : WsConfig) (session : UserSession) (domain : String)
      (before after : List (ℕ × ℕ × SocketEvent)) (messages : List SendType) (w : Ws lib)
      → is_connected lib w ≡ true
      → let (left, waits) = connect_begin lib config w in
        let (open_anew, s, n) =
          connect_open lib config session domain (socket_events parse before left) in
        let later = socket_events parse after open_anew in
        (waits ≡ some w.next_promise) × (send_messages lib messages later ≡ rejected later)
  connect_again-rejects parse config session domain before after messages w h =
      let (b, waits) = begin-Bare config w h in
      let between : Ws lib = socket_events parse before (connect_begin lib config w).0 in
      (
        waits,
        send-Bare messages
            (socket_events parse after (connect_open lib config session domain between).0)
            (socket_events-Bare parse after (connect_open lib config session domain between).0
              (open-Bare config session domain between (socket_events-Bare parse before _ b))),
      )
