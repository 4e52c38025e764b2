-- ===== src/WsTransport/Sending.antt =====
-- transport-ws/src/transport.ts: the queue of messages, and its worker.
use lp_clients.Base.{ℕ, suc, Option, none, some, List, [], ◌∷◌, map, String, Result, err, error}
use lp_clients.Platform.Timers.{set_timeout, fire_timer}
use lp_clients.Platform.Emitter.{on}
use lp_clients.WsTransport.Config.{
  WsConfig, default_messaging_retry_interval_ms, default_messaging_max_retries,
}
use lp_clients.WsTransport.State.{
  AsyncQueue, message_callback, error_callback, sends, on_message_event, on_error_event,
}
use lp_clients.WsTransport.Waiting.{ℤ, pos, Poll, calls, later, poll}
use lp_clients.WsTransport.Handlers.{Ws, settle_promise}

module _ {SendType : Type 0} (lib : AsyncQueue SendType) where
  open lib use {Queue, push, unshift}

  unfoldable pub on_message : ℕ → Ws lib → Ws lib
  unfolding on
  on_message cb w = record w { emitter = on on_message_event (message_callback cb) w.emitter }

  unfoldable pub on_error : ℕ → Ws lib → Ws lib
  unfolding on
  on_error cb w = record w { emitter = on on_error_event (error_callback cb) w.emitter }

  -- The callback of a message settles its promise; the one of a message that was put back only
  -- writes to the log.
  abbrev pub call_back : Option ℕ → Result (Unit {0}) → Ws lib → Ws lib
  call_back none r w = w
  call_back (some n) r w = settle_promise lib n r w

  -- `sendWithCb` with a callback that settles promise `n`.
  unfoldable pub send_with_cb : ℕ → List SendType → Ws lib → Ws lib
  send_with_cb n messages w = pushed w.sending_queue
    where
      pushed : Option Queue → Ws lib
      pushed none =
          call_back (some n) (err (error "Cannot send message; queue not ready/available")) w
      pushed (some q) = record w { sending_queue = some (push (map (λ m. (m, some n)) messages) q) }

  unfoldable pub send_messages : List SendType → Ws lib → Ws lib × ℕ
  unfolding send_with_cb
  send_messages messages w = (
    send_with_cb w.next_promise messages (record w { next_promise = suc w.next_promise }),
    w.next_promise,
  )

  unfoldable pub send_message : SendType → Ws lib → Ws lib × ℕ
  unfolding send_messages
  send_message message w = send_messages (message ∷ []) w

  -- The interval and the number of the retries that the worker asks for.
  abbrev pub interval_of : Option WsConfig → ℕ
  interval_of none = default_messaging_retry_interval_ms
  interval_of (some c) = c.messaging_retry_interval_ms

  abbrev pub retries_of : Option WsConfig → ℤ
  retries_of none = pos default_messaging_max_retries
  retries_of (some c) = pos c.messaging_max_retries

  -- `transmit` up to its wait: the socket, the interval and the retries of the wait, unless there is
  -- no socket.
  unfoldable pub transmit : SendType × Option ℕ → Ws lib → Ws lib × Option (ℕ × ℕ × ℤ)
  transmit task w = started w.ws
    where
      started : Option ℕ → Ws lib × Option (ℕ × ℕ × ℤ)
      started none =
          (call_back task.1 (err (error "Socket is undefined! Did you forget to connect?")) w, none)
      started (some s) = (w, some (s, interval_of w.conf, retries_of w.conf))

  -- The callback of the wait: a message that could not be sent is put back, and its callback is
  -- called with the error all the same.
  unfoldable pub transmit_waited : SendType × Option ℕ → Option String → Ws lib → Ws lib
  transmit_waited task none w = sent w.ws
    where
      sent : Option ℕ → Ws lib
      sent none =
          call_back task.1
            (err (error "failed to send message, since the socket isn't available/initialized")) w
      sent (some s) = record w { actions = sends s task.0 ∷ w.actions }
  transmit_waited task (some e) w = put_back w.sending_queue
    where
      put_back : Option Queue → Ws lib
      put_back none =
          call_back task.1
            (err
              (error "SendQueue not ready/present; not properly initialized/started the transport"))
            w
      put_back (some q) =
          call_back task.1 (err (error e))
            (record w { sending_queue = some (unshift (task.0, none) q) })

  -- The callback of the socket's `send`.
  unfoldable pub sent_callback : SendType × Option ℕ → Result (Unit {0}) → Ws lib → Ws lib
  sent_callback task r w = call_back task.1 r w

  -- One poll of the wait for socket `s`: it calls back, or sets the timer of the next poll, whose
  -- handle nobody keeps, and is given with the retries that are left.
  unfoldable pub poll_socket : SendType × Option ℕ → ℕ → ℕ → ℤ → Ws lib → Ws lib × Option (ℕ × ℤ)
  unfolding poll transmit_waited set_timeout
  poll_socket task s interval max_retries w = polled (poll (w.ready s) max_retries)
    where
      polled : Poll → Ws lib × Option (ℕ × ℤ)
      polled (calls r) = (transmit_waited task r w, none)
      polled (later m) =
          let (handle, timers) = set_timeout interval w.timers in
          (record w { timers = timers }, some (handle, m))

  -- The timer of the next poll fires.
  unfoldable pub poll_fires : ℕ → SendType × Option ℕ → ℕ → ℕ → ℤ → Ws lib → Ws lib × Option (ℕ × ℤ)
  unfolding poll_socket fire_timer
  poll_fires handle task s interval max_retries w =
      poll_socket task s interval max_retries (record w { timers = fire_timer handle w.timers })
