-- ===== src/WsTransport/Callbacks.antt =====
-- transport-ws/src/transport.ts: the users' callbacks of messages, over histories of the transport.
use lp_clients.Base.{
  false, ℕ, ◌≡◌, refl, ap, ◌∙◌, inl, inr, Bool, true, not, ◌&&◌, ◌==◌, Option, none, some, List, [],
  ◌∷◌, ◌++◌, String, Result, ok, err, Bool-cases, Option-cases, length,
}
use mathlib.Core.List.{append_assoc}
use lp_clients.Platform.Values.{Value, null}
use lp_clients.Platform.Timers.{fire_timer}
use lp_clients.Platform.Emitter.{on, remove_listener}
use lp_clients.Platform.Emitter.Laws.{lasting, lasting-on, lasting-emit, lasting-remove_other}
use lp_clients.WsTransport.Config.{adjust_conf, strategy_truthy, WsConfig}
use lp_clients.WsTransport.State.{
  AsyncQueue, Listener, message_callback, resolves, rejects, on_message_event, on_error_event,
  on_closed_event, on_connected_event, on_connecting, open_, closed,
}
use lp_clients.WsTransport.Handlers.{
  Ws, same_listener, cleanup, emit_event, parsed, settle_promise, strategy_of, ping, drain_handler,
  heart_beat_check, next_heart_beat, stop_heart_beat, pause_queue, resume_queue,
  on_connected_handler, on_closed_handler, on_error_handler, on_message_handler, is_connected,
  is_closed,
}
use lp_clients.WsTransport.Connection.{
  SocketEvent, opened, closed_by_peer, failed, received, clear_timers, flush, close_socket,
  await_closed, forget, disconnect, connect_begin, connect_open, opening, become, socket_event,
  drained,
}
use lp_clients.WsTransport.Sending.{on_message}
use lp_clients.WsTransport.Emission.{settle_promise-part, emit_event-part}
use lp_clients.WsTransport.Listening.{
  send_messages-emitter, transmit-emitter, poll_socket-emitter, poll_fires-emitter,
}
use lp_clients.WsTransport.Moments.{
  Moment, connects, opens_socket, disconnects, reports, sends_messages, transmits, polls,
  retry_fires, drains, drain_fires, heart_beat_fires, checks_heart_beat, moment, moments,
}

module _ {SendType : Type 0} (lib : AsyncQueue SendType) where
  -- The lasting callbacks of messages.
  abbrev pub message_callbacks : Ws lib → List Listener
  message_callbacks w = lasting on_message_event w.emitter

  cleanup-callbacks :
      (n : ℕ) (w : Ws lib) → message_callbacks (cleanup lib n w) ≡ message_callbacks w
  unfolding cleanup
  cleanup-callbacks n w =
      lasting-remove_other same_listener on_message_event on_error_event (rejects n)
        (remove_listener same_listener on_connected_event (resolves n) w.emitter) refl
      ∙ lasting-remove_other same_listener on_message_event on_connected_event (resolves n)
          w.emitter refl

  settle-callbacks :
      (n : ℕ) (r : Result (Unit {0})) (w : Ws lib)
      → message_callbacks (settle_promise lib n r w) ≡ message_callbacks w
  settle-callbacks n r w =
      settle_promise-part lib message_callbacks cleanup-callbacks
        (λ event v. lasting-emit on_message_event event v.emitter) (λ v ps. refl) (λ v k arg. refl)
        n r w

  emit_event-callbacks :
      (event : String) (arg : Result Value) (w : Ws lib)
      → message_callbacks (emit_event lib event arg w) ≡ message_callbacks w
  emit_event-callbacks event arg w =
      emit_event-part lib message_callbacks cleanup-callbacks
        (λ event v. lasting-emit on_message_event event v.emitter) (λ v ps. refl) (λ v k arg. refl)
        event arg w

  on_closed_handler-callbacks :
      (w : Ws lib) → message_callbacks (on_closed_handler lib w) ≡ message_callbacks w
  unfolding on_closed_handler pause_queue stop_heart_beat
  on_closed_handler-callbacks w = emit_event-callbacks _ _ (pause_queue lib (stop_heart_beat lib w))

  drain_handler-emitter : (w : Ws lib) → (drain_handler lib w).emitter ≡ w.emitter
  unfolding drain_handler
  drain_handler-emitter w = elim (Bool-cases (strategy_truthy (strategy_of lib w.conf))) [
    | inl e ↦ rw e refl
    | inr e ↦ rw e refl
  ]

  ping-emitter : (o : Option ℕ) (w : Ws lib) → (ping lib o w).emitter ≡ w.emitter
  ping-emitter none w = refl
  ping-emitter (some s) w = refl

  heart_beat_check-emitter : (w : Ws lib) → (heart_beat_check lib false 100 w).emitter ≡ w.emitter
  unfolding heart_beat_check next_heart_beat stop_heart_beat
  heart_beat_check-emitter w = ping-emitter w.ws (stop_heart_beat lib w)

  flush-emitter : (flushes : Bool) (w : Ws lib) → (flush lib flushes w).emitter ≡ w.emitter
  unfolding flush
  flush-emitter flushes w = elim (Option-cases w.sending_queue) [
    | inl n ↦ rw n refl
    | inr (q, o) ↦ elim (Bool-cases (flushes && not (length (lib.waiting q) == 0))) [
      | inl e ↦ rw (o, e) (drain_handler-emitter (record w { sending_queue = some q }))
      | inr e ↦ rw (o, e) refl
    ]
  ]

  close_socket-callbacks :
      (o : Option ℕ) (w : Ws lib) → message_callbacks (close_socket lib o w) ≡ message_callbacks w
  unfolding close_socket
  close_socket-callbacks none w = on_closed_handler-callbacks w
  close_socket-callbacks (some s) w = elim (Bool-cases (is_closed (w.ready s))) [
    | inl e ↦ rw e (on_closed_handler-callbacks w)
    | inr e ↦ rw e refl
  ]

  await_closed-callbacks :
      (n : ℕ) (w : Ws lib) → message_callbacks (await_closed lib n w) ≡ message_callbacks w
  unfolding await_closed
  await_closed-callbacks n w =
      lasting-on on_message_event on_error_event (rejects n)
        (on on_closed_event (resolves n) w.emitter)
      ∙ lasting-on on_message_event on_closed_event (resolves n) w.emitter

  disconnect-callbacks :
      (flushes : Bool) (w : Ws lib)
      → message_callbacks (disconnect lib flushes w).0 ≡ message_callbacks w
  unfolding disconnect
  disconnect-callbacks flushes w =
      let left : Ws lib = forget lib (clear_timers lib (flush lib flushes w)) in
      close_socket-callbacks w.ws (await_closed lib w.next_promise left)
      ∙ await_closed-callbacks w.next_promise left
      ∙ ap (lasting on_message_event) (flush-emitter flushes w)

  connect_begin-callbacks :
      (config : WsConfig) (w : Ws lib)
      → message_callbacks (connect_begin lib config w).0 ≡ message_callbacks w
  unfolding connect_begin
  connect_begin-callbacks config w =
      let fresh : Ws lib = record w {
        conf = some (adjust_conf config);
        sending_queue = some lib.empty;
      } in
      elim (Bool-cases (is_connected lib fresh)) [
        | inl e ↦ rw e (disconnect-callbacks true fresh)
        | inr e ↦ rw e refl
      ]

  module _ (parse : String → Result Value) where
    on_message_handler-callbacks :
        (r : Result Value) (w : Ws lib) → message_callbacks (parsed lib r w) ≡ message_callbacks w
    on_message_handler-callbacks (ok v) w = emit_event-callbacks _ _ w
    on_message_handler-callbacks (err e) w = refl

    socket_event-callbacks :
        (s n : ℕ) (event : SocketEvent) (w : Ws lib)
        → message_callbacks (socket_event lib parse s n event w) ≡ message_callbacks w
    unfolding socket_event on_connected_handler on_error_handler on_message_handler pause_queue
        stop_heart_beat resume_queue
    socket_event-callbacks s n opened w =
        settle-callbacks n (ok tt) (on_connected_handler lib (become lib s open_ w))
        ∙ emit_event-callbacks _ _ (become lib s open_ w)
    socket_event-callbacks s n closed_by_peer w =
        on_closed_handler-callbacks (become lib s closed w)
    socket_event-callbacks s n (failed e) w =
        settle-callbacks n (err e) (on_error_handler lib e w)
        ∙ emit_event-callbacks _ _ (pause_queue lib (stop_heart_beat lib w))
    socket_event-callbacks s n (received raw) w = on_message_handler-callbacks (parse raw) w

    moment-callbacks :
        (m : Moment SendType) (w : Ws lib)
        → message_callbacks (moment lib parse m w) ≡ message_callbacks w
    unfolding connect_open drained
    moment-callbacks (connects config) w = connect_begin-callbacks config w
    moment-callbacks (opens_socket config session domain) w =
        emit_event-callbacks on_connecting (ok null) (opening lib config session domain w)
    moment-callbacks (disconnects flushes) w = disconnect-callbacks flushes w
    moment-callbacks (reports s n event) w = socket_event-callbacks s n event w
    moment-callbacks (sends_messages ms) w =
        ap (lasting on_message_event) (send_messages-emitter lib ms w)
    moment-callbacks (transmits task) w =
        ap (lasting on_message_event) (transmit-emitter lib task w)
    moment-callbacks (polls task s interval m) w =
        ap (lasting on_message_event) (poll_socket-emitter lib task s interval m w)
    moment-callbacks (retry_fires k task s interval m) w =
        ap (lasting on_message_event) (poll_fires-emitter lib k task s interval m w)
    moment-callbacks drains w = ap (lasting on_message_event) (drain_handler-emitter w)
    moment-callbacks (drain_fires k) w =
        disconnect-callbacks true (record w { timers = fire_timer k w.timers })
    moment-callbacks (heart_beat_fires k) w =
        ap (lasting on_message_event)
          (heart_beat_check-emitter (record w { timers = fire_timer k w.timers }))
    moment-callbacks checks_heart_beat w =
        ap (lasting on_message_event) (heart_beat_check-emitter w)

    moments-callbacks :
        (ms : List (Moment SendType)) (w : Ws lib)
        → message_callbacks (moments lib parse ms w) ≡ message_callbacks w
    unfolding moments
    moments-callbacks [] w = refl
    moments-callbacks (m ∷ ms) w =
        moments-callbacks ms (moment lib parse m w) ∙ moment-callbacks m w

    -- A callback of messages that is registered, and registered again behind any history of the
    -- transport, its disconnects included, is registered twice: behind the earlier callbacks stand
    -- two of it.
    pub on_message_again :
        (cb : ℕ) (ms : List (Moment SendType)) (w : Ws lib)
        → message_callbacks (on_message lib cb (moments lib parse ms (on_message lib cb w)))
          ≡ message_callbacks w ++ message_callback cb ∷ message_callback cb ∷ []
    unfolding on_message
    on_message_again cb ms w =
        lasting-on on_message_event on_message_event (message_callback cb)
          (moments lib parse ms (on_message lib cb w)).emitter
        ∙ ap (λ ls. ls ++ message_callback cb ∷ [])
            (moments-callbacks ms (on_message lib cb w)
              ∙ lasting-on on_message_event on_message_event (message_callback cb) w.emitter)
        ∙ append_assoc (message_callbacks w) (message_callback cb ∷ []) (message_callback cb ∷ [])
