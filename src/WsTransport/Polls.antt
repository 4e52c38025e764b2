-- ===== src/WsTransport/Polls.antt =====
-- transport-ws/src/transport.ts: the timers where messages are given to the transport, and where the
-- worker waits for the socket.
use lp_clients.Base.{ℕ, suc, ◌≡◌, refl, inr, Option, none, some, List, String, Result, All}
use lp_clients.Platform.Timers.{set_timeout}
use lp_clients.WsTransport.State.{AsyncQueue}
use lp_clients.WsTransport.Handlers.{Ws}
use lp_clients.WsTransport.Waiting.{ℤ, Poll, calls, later, poll}
use lp_clients.WsTransport.Moments.{set_by}
use lp_clients.WsTransport.Sending.{
  call_back, send_with_cb, send_messages, transmit, transmit_waited, poll_socket,
}
use lp_clients.WsTransport.Clocks.{AllHeld, settle_promise-AllHeld}

module _ {SendType : Type 0} (lib : AsyncQueue SendType) (R : ℕ → Type 0) where
  call_back-AllHeld :
      (o : Option ℕ) (r : Result (Unit {0})) (w : Ws lib)
      → AllHeld lib R w
      → AllHeld lib R (call_back lib o r w)
  call_back-AllHeld none r w h = h
  call_back-AllHeld (some n) r w h = settle_promise-AllHeld lib R n r w h

  pub send_messages-AllHeld :
      (ms : List SendType) (w : Ws lib) → AllHeld lib R w → AllHeld lib R (send_messages lib ms w).0
  unfolding send_messages send_with_cb
  send_messages-AllHeld ms w h = by_queue w.sending_queue refl h
    where
      by_queue :
          (o : Option lib.Queue)
          → w.sending_queue ≡ o
          → AllHeld lib R w
          → AllHeld lib R (send_messages lib ms w).0
      by_queue none e h = rw e (
          settle_promise-AllHeld lib R w.next_promise _
            (record w { sending_queue = none; next_promise = suc w.next_promise }) h)
      by_queue (some q) e h = rw e h

  pub transmit-AllHeld :
      (task : SendType × Option ℕ) (w : Ws lib)
      → AllHeld lib R w
      → AllHeld lib R (transmit lib task w).0
  unfolding transmit
  transmit-AllHeld task w h = by_socket w.ws refl
    where
      by_socket : (o : Option ℕ) → w.ws ≡ o → AllHeld lib R (transmit lib task w).0
      by_socket none e = rw e (call_back-AllHeld task.1 _ (record w { ws = none }) h)
      by_socket (some s) e = rw e h

  transmit_waited-AllHeld :
      (task : SendType × Option ℕ) (r : Option String) (w : Ws lib)
      → AllHeld lib R w
      → AllHeld lib R (transmit_waited lib task r w)
  unfolding transmit_waited
  transmit_waited-AllHeld task none w h = by_socket w.ws refl
    where
      by_socket : (o : Option ℕ) → w.ws ≡ o → AllHeld lib R (transmit_waited lib task none w)
      by_socket none e = rw e (call_back-AllHeld task.1 _ (record w { ws = none }) h)
      by_socket (some s) e = rw e h
  transmit_waited-AllHeld task (some r) w h = by_queue w.sending_queue refl
    where
      by_queue :
          (o : Option lib.Queue)
          → w.sending_queue ≡ o
          → AllHeld lib R (transmit_waited lib task (some r) w)
      by_queue none e = rw e (call_back-AllHeld task.1 _ (record w { sending_queue = none }) h)
      by_queue (some q) e = rw e (
          call_back-AllHeld task.1 _
            (record w { sending_queue = some (lib.unshift (task.0, none) q) }) h)

  pub poll_socket-AllHeld :
      (task : SendType × Option ℕ) (s interval : ℕ) (m : ℤ) (w : Ws lib)
      → All R (set_by (poll_socket lib task s interval m w).1)
      → AllHeld lib R w
      → AllHeld lib R (poll_socket lib task s interval m w).0
  unfolding poll_socket set_timeout
  poll_socket-AllHeld task s interval m w r h = by_poll (poll (w.ready s) m) refl r
    where
      by_poll :
          (p : Poll)
          → poll (w.ready s) m ≡ p
          → All R (set_by (poll_socket lib task s interval m w).1)
          → AllHeld lib R (poll_socket lib task s interval m w).0
      by_poll (calls o) e r = rw e (transmit_waited-AllHeld task o w h)
      by_poll (later k) e r = rw e (inr (rw e at r).0, h)
