-- ===== src/WsTransport/Listening.antt =====
-- transport-ws/src/transport.ts: sending and waiting leave the listeners of the transport as they are.
use lp_clients.Base.{
  ℕ, suc, ◌≡◌, refl, inl, inr, Bool-cases, Option-cases, Option, none, some, is_some, List, String,
  Result,
}
use lp_clients.Platform.Timers.{fire_timer}
use lp_clients.WsTransport.State.{AsyncQueue}
use lp_clients.WsTransport.Handlers.{Ws, settle_promise}
use lp_clients.WsTransport.Waiting.{ℤ, Poll, calls, later, poll}
use lp_clients.WsTransport.Sending.{
  call_back, send_with_cb, send_messages, transmit, transmit_waited, poll_socket, poll_fires,
}

module _ {SendType : Type 0} (lib : AsyncQueue SendType) where
  settle_promise-emitter :
      (n : ℕ) (r : Result (Unit {0})) (w : Ws lib) → (settle_promise lib n r w).emitter ≡ w.emitter
  settle_promise-emitter n r w = elim (Bool-cases (is_some (w.promises n))) [
    | inl e ↦ rw e refl
    | inr e ↦ rw e refl
  ]

  call_back-emitter :
      (o : Option ℕ) (r : Result (Unit {0})) (w : Ws lib)
      → (call_back lib o r w).emitter ≡ w.emitter
  call_back-emitter none r w = refl
  call_back-emitter (some n) r w = settle_promise-emitter n r w

  pub send_messages-emitter :
      (ms : List SendType) (w : Ws lib) → (send_messages lib ms w).0.emitter ≡ w.emitter
  unfolding send_messages send_with_cb
  send_messages-emitter ms w = elim (Option-cases w.sending_queue) [
    | inl e ↦ rw e (
        settle_promise-emitter w.next_promise _
          (record w { sending_queue = none; next_promise = suc w.next_promise }))
    | inr (q, e) ↦ rw e refl
  ]

  pub transmit-emitter :
      (task : SendType × Option ℕ) (w : Ws lib) → (transmit lib task w).0.emitter ≡ w.emitter
  unfolding transmit
  transmit-emitter task w = elim (Option-cases w.ws) [
    | inl e ↦ rw e (call_back-emitter task.1 _ (record w { ws = none }))
    | inr (s, e) ↦ rw e refl
  ]

  transmit_waited-emitter :
      (task : SendType × Option ℕ) (r : Option String) (w : Ws lib)
      → (transmit_waited lib task r w).emitter ≡ w.emitter
  unfolding transmit_waited
  transmit_waited-emitter task none w = elim (Option-cases w.ws) [
    | inl e ↦ rw e (call_back-emitter task.1 _ (record w { ws = none }))
    | inr (s, e) ↦ rw e refl
  ]
  transmit_waited-emitter task (some r) w = elim (Option-cases w.sending_queue) [
    | inl e ↦ rw e (call_back-emitter task.1 _ (record w { sending_queue = none }))
    | inr (q, e) ↦ rw e (
        call_back-emitter task.1 _
          (record w { sending_queue = some (lib.unshift (task.0, none) q) }))
  ]

  pub poll_socket-emitter :
      (task : SendType × Option ℕ) (s interval : ℕ) (m : ℤ) (w : Ws lib)
      → (poll_socket lib task s interval m w).0.emitter ≡ w.emitter
  unfolding poll_socket
  poll_socket-emitter task s interval m w = by_poll (poll (w.ready s) m) refl
    where
      by_poll :
          (p : Poll)
          → poll (w.ready s) m ≡ p
          → (poll_socket lib task s interval m w).0.emitter ≡ w.emitter
      by_poll (calls o) e = rw e (transmit_waited-emitter task o w)
      by_poll (later k) e = rw e refl

  pub poll_fires-emitter :
      (k : ℕ) (task : SendType × Option ℕ) (s interval : ℕ) (m : ℤ) (w : Ws lib)
      → (poll_fires lib k task s interval m w).0.emitter ≡ w.emitter
  unfolding poll_fires
  poll_fires-emitter k task s interval m w =
      poll_socket-emitter task s interval m (record w { timers = fire_timer k w.timers })
