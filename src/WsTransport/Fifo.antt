-- ===== src/WsTransport/Fifo.antt =====
-- transport-ws/src/transport.ts: the order in which the worker of the queue hands messages to the
-- socket.
use lp_clients.Base.{
  ℕ, false, ◌≡◌, refl, sym, ap, ◌∙◌, true, Option, none, some, is_some, List, [], ◌∷◌, ◌++◌, map,
  String, Result, arith, Option-cases, inl, inr,
}
use mathlib.Core.List.{append-nil, append_assoc}
use lp_clients.WsTransport.State.{AsyncQueue}
use lp_clients.WsTransport.Handlers.{
  drain_handler, Ws, on_connected_handler, on_closed_handler, on_error_handler,
}
use lp_clients.WsTransport.Connection.{disconnect, drained}
use lp_clients.WsTransport.Waiting.{ℤ}
use lp_clients.WsTransport.Sending.{
  call_back, send_messages, send_with_cb, transmit, transmit_waited, sent_callback,
}
use lp_clients.WsTransport.Delivery.{
  Worker, idle, waiting_for_socket, sending, Happening, pushes, takes, waited, called_back,
  socket_opens, socket_closes, socket_fails, runs_empty, leaves, drain_timer, disconnecting,
  disconnected, handed, held, messages_of, pushed, accepted, Sender, all_messages, Kept, Kept-refl,
  settle_promise-Kept, on_connected_handler-Kept, on_closed_handler-Kept, drain_handler-Kept,
  on_error_handler-Kept,
}

messages_of-append :
    {SendType : Type 0} (xs ys : List (SendType × Option ℕ))
    → messages_of (xs ++ ys) ≡ messages_of xs ++ messages_of ys
messages_of-append [] ys = refl
messages_of-append ((m, _) ∷ xs) ys = ap (λ t. m ∷ t) (messages_of-append xs ys)

messages_of-map :
    {SendType : Type 0} (ms : List SendType) (n : ℕ) → messages_of (map (λ m. (m, some n)) ms) ≡ ms
messages_of-map [] n = refl
messages_of-map (m ∷ ms) n = ap (λ t. m ∷ t) (messages_of-map ms n)

pub messages_pushed :
    {SendType : Type 0} (lib : AsyncQueue SendType) (ms : List SendType) (n : ℕ) (q : lib.Queue)
    → messages_of (lib.waiting (lib.push (map (λ m. (m, some n)) ms) q))
      ≡ messages_of (lib.waiting q) ++ ms
messages_pushed lib ms n q =
    ap messages_of (lib.waiting-push (map (λ m. (m, some n)) ms) q)
    ∙ messages_of-append (lib.waiting q) (map (λ m. (m, some n)) ms)
    ∙ ap (λ t. messages_of (lib.waiting q) ++ t) (messages_of-map ms n)

-- The library `async` hands the first of the waiting items to the worker, when it hands one on.
module _ {SendType : Type 0} (lib : AsyncQueue SendType)
    (next : lib.Queue → Option ((SendType × Option ℕ) × lib.Queue))
    (next-waiting : (q q' : lib.Queue) (x : SendType × Option ℕ)
      → next q ≡ some (x, q')
      → lib.waiting q ≡ x ∷ lib.waiting q') where
  open lib use {Queue, waiting}

  abbrev begin : SendType × Option ℕ → Ws lib × Option (ℕ × ℕ × ℤ) → Sender lib
  begin x (w, none) = record { transport = w; worker = idle }
  begin x (w, some wait) = record { transport = w; worker = waiting_for_socket x }

  abbrev pub take : Option ((SendType × Option ℕ) × Queue) → Sender lib → Sender lib
  take none s = s
  take (some (x, q)) s = begin x (transmit lib x (record s.transport { sending_queue = some q }))

  abbrev pub take_next : Worker SendType → Option Queue → Sender lib → Sender lib
  take_next idle (some q) s = take (next q) s
  take_next _ _ s = s

  abbrev hands_on : SendType × Option ℕ → Option ℕ → Worker SendType
  hands_on x none = idle
  hands_on x (some socket) = sending x

  abbrev pub end_wait : Worker SendType → Option String → Sender lib → Sender lib
  end_wait (waiting_for_socket x) none s = record {
    transport = transmit_waited lib x none s.transport;
    worker = hands_on x s.transport.ws;
  }
  end_wait (waiting_for_socket x) (some e) s = record {
    transport = transmit_waited lib x (some e) s.transport;
    worker = idle;
  }
  end_wait _ _ s = s

  abbrev pub call_back_worker : Worker SendType → Result (Unit {0}) → Sender lib → Sender lib
  call_back_worker (sending x) r s = record {
    transport = sent_callback lib x r s.transport;
    worker = idle;
  }
  call_back_worker _ r s = s

  abbrev pub happen : Happening SendType → Sender lib → Sender lib
  happen (pushes ms) s = record s { transport = (send_messages lib ms s.transport).0 }
  happen takes s = take_next s.worker s.transport.sending_queue s
  happen (waited e) s = end_wait s.worker e s
  happen (called_back r) s = call_back_worker s.worker r s
  happen socket_opens s = record s { transport = on_connected_handler lib s.transport }
  happen socket_closes s = record s { transport = on_closed_handler lib s.transport }
  happen (socket_fails e) s = record s { transport = on_error_handler lib e s.transport }
  happen runs_empty s = record s { transport = drain_handler lib s.transport }
  happen (leaves flushes) s = record s { transport = (disconnect lib flushes s.transport).0 }
  happen (drain_timer h) s = record s { transport = (drained lib h s.transport).0 }

  unfoldable pub history : List (Happening SendType) → Sender lib → Sender lib
  history [] s = s
  history (h ∷ hs) s = history hs (happen h s)

  -- A socket and a queue are there, and all the messages are the given ones.
  record Follows (ms : List SendType) (s : Sender lib) : Type 0 where
    socket : is_some s.transport.ws ≡ true
    queue : is_some s.transport.sending_queue ≡ true
    messages : all_messages lib s ≡ ms

  pub call_back-Kept :
      (o : Option ℕ) (r : Result (Unit {0})) (w : Ws lib) → Kept lib w (call_back lib o r w)
  call_back-Kept none r w = Kept-refl lib w
  call_back-Kept (some n) r w = settle_promise-Kept lib n r w

  Kept-Follows :
      (ms : List SendType) (wk : Worker SendType) (v w : Ws lib)
      → Follows ms (record { transport = v; worker = wk })
      → Kept lib v w
      → Follows ms (record { transport = w; worker = wk })
  Kept-Follows ms wk v w f k = record {
    socket = ap is_some k.ws ∙ f.socket;
    queue = k.has_queue ∙ f.queue;
    messages = rw (k.handed_same, k.queued_same) f.messages;
  }

  pushes-Follows :
      (new ms : List SendType) (s : Sender lib)
      → Follows ms s
      → Follows (ms ++ new) (happen (pushes new) s)
  unfolding send_messages send_with_cb
  pushes-Follows new ms s f = elim (Option-cases s.transport.sending_queue) [
    | inl e ↦ absurd (ground (arith, e, f.queue))
    | inr (q, e) ↦ rw e (record {
      socket = f.socket;
      queue = refl;
      messages =
          ap (λ t. handed s.transport.actions ++ (held s.worker ++ t))
            (messages_pushed lib new s.transport.next_promise q)
          ∙ ap (λ t. handed s.transport.actions ++ t)
              (sym (append_assoc (held s.worker) (messages_of (waiting q)) new))
          ∙ sym (append_assoc (handed s.transport.actions) _ new)
          ∙ ap (λ t. t ++ new) (rw e at f.messages);
    })
  ]

  take-Follows :
      (n : Option ((SendType × Option ℕ) × Queue)) (q : Queue) (ms : List SendType) (s : Sender lib)
      → next q ≡ n
      → s.transport.sending_queue ≡ some q
      → s.worker ≡ idle
      → Follows ms s
      → Follows ms (take n s)
  unfolding transmit
  take-Follows none q ms s n o e f = f
  take-Follows (some (x, q')) q ms s n o e f = elim (Option-cases s.transport.ws) [
    | inl w ↦ absurd (ground (arith, w, f.socket))
    | inr (socket, w) ↦ rw w (record {
      socket = refl;
      queue = refl;
      messages = rw (e, o, next-waiting q q' x n) at f.messages;
    })
  ]

  takes-Follows :
      (wk : Worker SendType) (o : Option Queue) (ms : List SendType) (s : Sender lib)
      → s.worker ≡ wk
      → s.transport.sending_queue ≡ o
      → Follows ms s
      → Follows ms (take_next wk o s)
  takes-Follows (waiting_for_socket x) o ms s e h f = f
  takes-Follows (sending x) o ms s e h f = f
  takes-Follows idle none ms s e h f = f
  takes-Follows idle (some q) ms s e h f = take-Follows (next q) q ms s refl h e f

  waited-Follows :
      (wk : Worker SendType) (r : Option String) (ms : List SendType) (s : Sender lib)
      → s.worker ≡ wk
      → Follows ms s
      → Follows ms (end_wait wk r s)
  unfolding transmit_waited handed
  waited-Follows idle r ms s e f = f
  waited-Follows (sending x) r ms s e f = f
  waited-Follows (waiting_for_socket x) none ms s e f = elim (Option-cases s.transport.ws) [
    | inl w ↦ absurd (ground (arith, w, f.socket))
    | inr (socket, w) ↦ rw w (record {
      socket = refl;
      queue = f.queue;
      messages = append_assoc (handed s.transport.actions) (x.0 ∷ []) _ ∙ (rw e at f.messages);
    })
  ]
  waited-Follows (waiting_for_socket x) (some r) ms s e f =
      elim (Option-cases s.transport.sending_queue) [
        | inl n ↦ absurd (ground (arith, n, f.queue))
        | inr (q, o) ↦ rw o (
            Kept-Follows ms idle
              (record s.transport { sending_queue = some (lib.unshift (x.0, none) q) }) _
              (record {
                socket = f.socket;
                queue = refl;
                messages =
                    ap (λ t. handed s.transport.actions ++ messages_of t)
                      (lib.waiting-unshift (x.0, none) q)
                    ∙ (rw (e, o) at f.messages);
              })
              (call_back-Kept x.1 _ _))
      ]

  called_back-Follows :
      (wk : Worker SendType) (r : Result (Unit {0})) (ms : List SendType) (s : Sender lib)
      → s.worker ≡ wk
      → Follows ms s
      → Follows ms (call_back_worker wk r s)
  unfolding sent_callback
  called_back-Follows idle r ms s e f = f
  called_back-Follows (waiting_for_socket x) r ms s e f = f
  called_back-Follows (sending x) r ms s e f =
      Kept-Follows ms idle s.transport _
        (record { socket = f.socket; queue = f.queue; messages = rw e at f.messages })
        (call_back-Kept x.1 r s.transport)

  happen-Follows :
      (h : Happening SendType) (ms : List SendType) (s : Sender lib)
      → disconnecting h ≡ false
      → Follows ms s
      → Follows (ms ++ pushed h) (happen h s)
  happen-Follows (pushes new) ms s c f = pushes-Follows new ms s f
  happen-Follows takes ms s c f =
      rw (append-nil ms) (takes-Follows s.worker s.transport.sending_queue ms s refl refl f)
  happen-Follows (waited r) ms s c f = rw (append-nil ms) (waited-Follows s.worker r ms s refl f)
  happen-Follows (called_back r) ms s c f =
      rw (append-nil ms) (called_back-Follows s.worker r ms s refl f)
  happen-Follows socket_opens ms s c f =
      rw (append-nil ms)
        (Kept-Follows ms s.worker s.transport _ f (on_connected_handler-Kept lib s.transport))
  happen-Follows socket_closes ms s c f =
      rw (append-nil ms)
        (Kept-Follows ms s.worker s.transport _ f (on_closed_handler-Kept lib s.transport))
  happen-Follows (socket_fails e) ms s c f =
      rw (append-nil ms)
        (Kept-Follows ms s.worker s.transport _ f (on_error_handler-Kept lib e s.transport))
  happen-Follows runs_empty ms s c f =
      rw (append-nil ms)
        (Kept-Follows ms s.worker s.transport _ f (drain_handler-Kept lib s.transport))
  happen-Follows (leaves flushes) ms s c f = absurd (ground (arith, c))
  happen-Follows (drain_timer h) ms s c f = absurd (ground (arith, c))

  history-Follows :
      (hs : List (Happening SendType)) (ms : List SendType) (s : Sender lib)
      → disconnected hs ≡ false
      → Follows ms s
      → Follows (ms ++ accepted hs) (history hs s)
  unfolding history
  history-Follows [] ms s c f = rw (append-nil ms) f
  history-Follows (h ∷ hs) ms s c f =
      let now : disconnecting h ≡ false = ground (arith, c) in
      let after : disconnected hs ≡ false = ground (arith, c) in
      rw⁻¹ (append_assoc ms (pushed h) (accepted hs))
        (history-Follows hs (ms ++ pushed h) (happen h s) after (happen-Follows h ms s now f))

  -- Of a transport that has a socket and a queue, over any history in which nothing disconnects it,
  -- all messages are those of before and then all that were given to it.
  pub history-keeps :
      (hs : List (Happening SendType)) (s : Sender lib)
      → is_some s.transport.ws ≡ true
      → is_some s.transport.sending_queue ≡ true
      → disconnected hs ≡ false
      → all_messages lib (history hs s) ≡ all_messages lib s ++ accepted hs
  history-keeps hs s a b c =
      (history-Follows hs (all_messages lib s) s c
        (record { socket = a; queue = b; messages = refl })).messages
