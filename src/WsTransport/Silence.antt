-- ===== src/WsTransport/Silence.antt =====
-- transport-ws/src/transport.ts: the timers of a transport over histories of its calls and events,
-- and behind a disconnect.
pub mod Handles
use lp_clients.Base.{
  ℕ, ◌≡◌, refl, sym, ap, ◌∙◌, subst, inl, inr, Bool, true, not, ◌&&◌, Option, none, some, List, [],
  ◌∷◌, ◌++◌, String, Result, ok, err, Bool-cases, Option-cases, All, All-keep, All-map, arith,
  member, length, ◌==◌,
}
use lp_clients.Platform.Values.{Value, null}
use lp_clients.Platform.Timers.{clear_if_set, fire_timer, other_than}
use lp_clients.WsTransport.Config.{WsConfig, adjust_conf}
use lp_clients.WsTransport.State.{AsyncQueue, open_, closed, on_connecting}
use lp_clients.WsTransport.Handlers.{
  cleanup, Ws, on_closed_handler, on_connected_handler, on_error_handler, pause_queue, is_connected,
  is_closed, stop_heart_beat,
}
use lp_clients.WsTransport.Connection.{
  SocketEvent, opened, closed_by_peer, failed, received, clear_timers, flush, close_socket,
  await_closed, forget, disconnect, connect_begin, connect_open, opening, become, socket_event,
  drained,
}
use lp_clients.WsTransport.Waiting.{ℤ}
use lp_clients.WsTransport.Sending.{poll_fires}
use lp_clients.WsTransport.Moments.{
  Moment, connects, opens_socket, disconnects, reports, sends_messages, transmits, polls,
  retry_fires, drains, drain_fires, heart_beat_fires, checks_heart_beat, set_by, moment, moments,
  retry_set, retries_set,
}
use lp_clients.WsTransport.Polls.{send_messages-AllHeld, transmit-AllHeld, poll_socket-AllHeld}
use lp_clients.WsTransport.Silence.Handles.{Among, All-split, earlier_one, later_ones}
use lp_clients.WsTransport.Emission.{emit_event-part}
use lp_clients.WsTransport.Clocks.{
  Held, no_timer_left, clear_first, clear_second, AllHeld, settle_promise-AllHeld,
  emit_event-AllHeld, on_closed_handler-AllHeld, on_error_handler-AllHeld,
  on_connected_handler-AllHeld, on_message_handler-AllHeld, drain_handler-AllHeld,
  heart_beat_check-AllHeld,
}

module _ {SendType : Type 0} (lib : AsyncQueue SendType) (R : ℕ → Type 0)
    (parse : String → Result Value) where
  flush-AllHeld :
      (flushes : Bool) (w : Ws lib) → AllHeld lib R w → AllHeld lib R (flush lib flushes w)
  unfolding flush
  flush-AllHeld flushes w h = elim (Option-cases w.sending_queue) [
    | inl n ↦ rw n h
    | inr (q, o) ↦ elim (Bool-cases (flushes && not (length (lib.waiting q) == 0))) [
      | inl e ↦ rw (o, e) (drain_handler-AllHeld lib R (record w { sending_queue = some q }) h)
      | inr e ↦ rw (o, e) h
    ]
  ]

  cleared : (w : Ws lib) → AllHeld lib R w → All (λ e. R e.0) (clear_timers lib w).timers.armed
  cleared w h = no_timer_left R _ (
      clear_second R none w.drain_timeout_handle (clear_if_set w.heart_beat_handle w.timers)
        (clear_first R w.heart_beat_handle w.drain_timeout_handle w.timers h))

  on_closed_handler_silent :
      (w : Ws lib)
      → w.heart_beat_handle ≡ none
      → (on_closed_handler lib w).timers.armed ≡ w.timers.armed
  unfolding on_closed_handler pause_queue stop_heart_beat clear_if_set cleanup
  on_closed_handler_silent w a =
      emit_event-part lib (λ v. v.timers.armed) (λ n v. refl) (λ event v. refl) (λ v ps. refl)
        (λ v k arg. refl) _ _ (pause_queue lib (stop_heart_beat lib w))
      ∙ ap (λ o. (clear_if_set o w.timers).armed) a

  close_socket_silent :
      (o : Option ℕ) (w : Ws lib)
      → w.heart_beat_handle ≡ none
      → (close_socket lib o w).timers.armed ≡ w.timers.armed
  unfolding close_socket
  close_socket_silent none w a = on_closed_handler_silent w a
  close_socket_silent (some s) w a = elim (Bool-cases (is_closed (w.ready s))) [
    | inl e ↦ rw e (on_closed_handler_silent w a)
    | inr e ↦ rw e refl
  ]

  disconnect_silent :
      (flushes : Bool) (w : Ws lib)
      → AllHeld lib R w
      → All (λ e. R e.0) (disconnect lib flushes w).0.timers.armed
  unfolding disconnect await_closed
  disconnect_silent flushes w h =
      subst (All (λ e. R e.0))
        (sym (
          close_socket_silent w.ws
            (await_closed lib w.next_promise (forget lib (clear_timers lib (flush lib flushes w))))
            refl))
        (cleared (flush lib flushes w) (flush-AllHeld flushes w h))

  disconnect-AllHeld :
      (flushes : Bool) (w : Ws lib) → AllHeld lib R w → AllHeld lib R (disconnect lib flushes w).0
  disconnect-AllHeld flushes w h =
      All-map (λ e r. inr r) (disconnect lib flushes w).0.timers.armed
        (disconnect_silent flushes w h)

  connect_begin-AllHeld :
      (config : WsConfig) (w : Ws lib)
      → AllHeld lib R w
      → AllHeld lib R (connect_begin lib config w).0
  unfolding connect_begin
  connect_begin-AllHeld config w h =
      let fresh : Ws lib = record w {
        conf = some (adjust_conf config);
        sending_queue = some lib.empty;
      } in
      elim (Bool-cases (is_connected lib fresh)) [
        | inl e ↦ rw e (disconnect-AllHeld true fresh h)
        | inr e ↦ rw e h
      ]

  socket_event-AllHeld :
      (s n : ℕ) (event : SocketEvent) (w : Ws lib)
      → AllHeld lib R w
      → AllHeld lib R (socket_event lib parse s n event w)
  unfolding socket_event
  socket_event-AllHeld s n opened w h =
      settle_promise-AllHeld lib R n (ok tt) (on_connected_handler lib (become lib s open_ w))
        (on_connected_handler-AllHeld lib R (become lib s open_ w) h)
  socket_event-AllHeld s n closed_by_peer w h =
      on_closed_handler-AllHeld lib R (become lib s closed w) h
  socket_event-AllHeld s n (failed e) w h =
      settle_promise-AllHeld lib R n (err e) (on_error_handler lib e w)
        (on_error_handler-AllHeld lib R e w h)
  socket_event-AllHeld s n (received raw) w h = on_message_handler-AllHeld lib R parse raw w h

  fired-AllHeld :
      (h : ℕ) (w : Ws lib)
      → AllHeld lib R w
      → AllHeld lib R (record w { timers = fire_timer h w.timers })
  unfolding fire_timer
  fired-AllHeld h w held =
      All-keep (Held R w.heart_beat_handle w.drain_timeout_handle) (other_than h) w.timers.armed
        held

  retry_set-AllHeld :
      (task : SendType × Option ℕ) (h s interval : ℕ) (m : ℤ) (w : Ws lib)
      → All R (set_by (poll_fires lib h task s interval m w).1)
      → AllHeld lib R w
      → AllHeld lib R (poll_fires lib h task s interval m w).0
  unfolding poll_fires
  retry_set-AllHeld task h s interval m w r held =
      poll_socket-AllHeld lib R task s interval m (record w { timers = fire_timer h w.timers }) r
        (fired-AllHeld h w held)

  moment-AllHeld :
      (m : Moment SendType) (w : Ws lib)
      → All R (retry_set lib parse m w)
      → AllHeld lib R w
      → AllHeld lib R (moment lib parse m w)
  unfolding connect_open drained
  moment-AllHeld (connects config) w r h = connect_begin-AllHeld config w h
  moment-AllHeld (opens_socket config session domain) w r h =
      emit_event-AllHeld lib R on_connecting (ok null) (opening lib config session domain w) h
  moment-AllHeld (disconnects flushes) w r h = disconnect-AllHeld flushes w h
  moment-AllHeld (reports s n event) w r h = socket_event-AllHeld s n event w h
  moment-AllHeld (sends_messages ms) w r h = send_messages-AllHeld lib R ms w h
  moment-AllHeld (transmits task) w r h = transmit-AllHeld lib R task w h
  moment-AllHeld (polls task s interval m) w r h = poll_socket-AllHeld lib R task s interval m w r h
  moment-AllHeld (retry_fires k task s interval m) w r h =
      retry_set-AllHeld task k s interval m w r h
  moment-AllHeld drains w r h = drain_handler-AllHeld lib R w h
  moment-AllHeld (drain_fires k) w r h =
      disconnect-AllHeld true (record w { timers = fire_timer k w.timers }) (fired-AllHeld k w h)
  moment-AllHeld (heart_beat_fires k) w r h =
      heart_beat_check-AllHeld lib R (record w { timers = fire_timer k w.timers })
        (fired-AllHeld k w h)
  moment-AllHeld checks_heart_beat w r h = heart_beat_check-AllHeld lib R w h

  moments-AllHeld :
      (ms : List (Moment SendType)) (w : Ws lib)
      → All R (retries_set lib parse ms w)
      → AllHeld lib R w
      → AllHeld lib R (moments lib parse ms w)
  unfolding moments retries_set
  moments-AllHeld [] w r h = h
  moments-AllHeld (m ∷ ms) w r h =
      let (now, after) =
        All-split R (retry_set lib parse m w) (retries_set lib parse ms (moment lib parse m w)) r in
      moments-AllHeld ms (moment lib parse m w) after (moment-AllHeld m w now h)

Held-map :
    (R S : ℕ → Type 0)
    → ((k : ℕ) → R k → S k)
    → (a b : Option ℕ) (e : ℕ × ℕ) → Held R a b e
    → Held S a b e
Held-map R S f a b e (inl h) = inl h
Held-map R S f a b e (inr r) = inr (f e.0 r)

module _ {SendType : Type 0} (lib : AsyncQueue SendType) (parse : String → Result Value) where
  -- Of a transport whose armed timers are the heart beat's and the drain handler's, with their
  -- handles kept, and retry timers of the wait for a socket, this stays so over any history of
  -- connects, disconnects, events of sockets, messages, polls of sockets, empty queues and timers
  -- that fire, the heart beats without waits for pongs. A disconnect behind it leaves no timer armed
  -- but those retry timers: the given ones, and the ones that the history set.
  pub moments_silenced :
      (before : List ℕ) (ms : List (Moment SendType)) (flushes : Bool) (w : Ws lib)
      → AllHeld lib (Among before) w
      → AllHeld lib (Among (before ++ retries_set lib parse ms w)) (moments lib parse ms w)
        × All
            (λ e. Among (before ++ retries_set lib parse ms w) e.0)
            (disconnect lib flushes (moments lib parse ms w)).0.timers.armed
  moments_silenced before ms flushes w h =
      let set : List ℕ = retries_set lib parse ms w in
      let retry : ℕ → Type 0 = Among (before ++ set) in
      let held : AllHeld lib retry (moments lib parse ms w) =
        moments-AllHeld lib retry parse ms w (later_ones before set) (
          All-map
            (Held-map (Among before) retry (earlier_one before set) w.heart_beat_handle
              w.drain_timeout_handle)
            w.timers.armed h) in
      (held, disconnect_silent lib retry parse flushes (moments lib parse ms w) held)
