-- ===== src/WsTransport/Delivery.antt =====
-- transport-ws/src/transport.ts: what becomes of the messages of a connected transport, over any
-- history of its queue's worker and of the events of its socket.
use lp_clients.Base.{
  ℕ, Bool, true, false, ◌||◌, inl, inr, Bool-cases, ◌≡◌, refl, ap, ◌∙◌, Option, none, some, is_some,
  List, [], ◌∷◌, ◌++◌, String, Result, Failure,
}
use lp_clients.Platform.Values.{Value}
use lp_clients.WsTransport.State.{AsyncQueue, Action, opens, closes, sends, pings, calls_back}
use lp_clients.WsTransport.Config.{strategy_truthy}
use lp_clients.WsTransport.Emission.{settle_promise-part, emit_event-part}
use lp_clients.WsTransport.Handlers.{
  cleanup, drain_handler, strategy_of, Ws, emit_event, settle_promise, map_queue,
  on_connected_handler, on_closed_handler, on_error_handler, pause_queue, resume_queue,
  stop_heart_beat,
}

-- The worker of the queue, which handles one message at a time: it waits for the socket, or for the
-- callback of the socket's `send`.
pub data Worker (SendType : Type 0) : Type 0 where
  idle : Worker SendType
  waiting_for_socket sending : SendType × Option ℕ → Worker SendType

-- What happens to a transport that was connected: messages are given to it, the queue hands the next one to
-- its worker, the wait for the socket ends, the socket's `send` calls back, the events of the socket,
-- the queue that runs empty, a disconnect, and the one of the drain timer.
pub data Happening (SendType : Type 0) : Type 0 where
  pushes : List SendType → Happening SendType
  takes : Happening SendType
  waited : Option String → Happening SendType
  called_back : Result (Unit {0}) → Happening SendType
  socket_opens socket_closes : Happening SendType
  socket_fails : Failure → Happening SendType
  runs_empty : Happening SendType
  leaves : Bool → Happening SendType
  drain_timer : ℕ → Happening SendType

-- The messages that were handed to a socket, the first one first.
unfoldable pub handed : {SendType : Type 0} → List (Action SendType) → List SendType
handed [] = []
handed (sends s m ∷ rest) = handed rest ++ m ∷ []
handed (opens _ _ _ ∷ rest) = handed rest
handed (closes _ ∷ rest) = handed rest
handed (pings _ ∷ rest) = handed rest
handed (calls_back _ _ ∷ rest) = handed rest

-- The message that the worker holds and has not handed on.
abbrev pub held : {SendType : Type 0} → Worker SendType → List SendType
held idle = []
held (waiting_for_socket (m, _)) = m ∷ []
held (sending _) = []

abbrev pub messages_of : {SendType : Type 0} → List (SendType × Option ℕ) → List SendType
messages_of [] = []
messages_of ((m, _) ∷ xs) = m ∷ messages_of xs

abbrev pub pushed : {SendType : Type 0} → Happening SendType → List SendType
pushed (pushes ms) = ms
pushed _ = []

-- Something disconnects the transport.
abbrev pub disconnecting : {SendType : Type 0} → Happening SendType → Bool
disconnecting (leaves flushes) = true
disconnecting (drain_timer h) = true
disconnecting _ = false

abbrev pub disconnected : {SendType : Type 0} → List (Happening SendType) → Bool
disconnected [] = false
disconnected (h ∷ hs) = disconnecting h || disconnected hs

abbrev pub accepted : {SendType : Type 0} → List (Happening SendType) → List SendType
accepted [] = []
accepted (h ∷ hs) = pushed h ++ accepted hs

module _ {SendType : Type 0} (lib : AsyncQueue SendType) where
  open lib use {Queue, waiting, waiting-push, waiting-unshift, waiting-pause, waiting-resume}

  -- A transport with the worker of its queue.
  pub record Sender : Type 0 where
    pub transport : Ws lib
    pub worker : Worker SendType

  abbrev pub queued : Option Queue → List SendType
  queued none = []
  queued (some q) = messages_of (waiting q)

  -- All messages, in this order: those that were handed on, the one that the worker holds, and those
  -- that wait in the queue.
  abbrev pub all_messages : Sender → List SendType
  all_messages s = handed s.transport.actions ++ (held s.worker ++ queued s.transport.sending_queue)

  -- What the handlers of the socket's events keep.
  pub record Kept (w w' : Ws lib) : Type 0 where
    pub ws : w'.ws ≡ w.ws
    pub has_queue : is_some w'.sending_queue ≡ is_some w.sending_queue
    pub handed_same : handed w'.actions ≡ handed w.actions
    pub queued_same : queued w'.sending_queue ≡ queued w.sending_queue

  Kept-trans : (u v w : Ws lib) → Kept u v → Kept v w → Kept u w
  Kept-trans u v w a b = record {
    ws = b.ws ∙ a.ws;
    has_queue = b.has_queue ∙ a.has_queue;
    handed_same = b.handed_same ∙ a.handed_same;
    queued_same = b.queued_same ∙ a.queued_same;
  }

  pub Kept-refl : (w : Ws lib) → Kept w w
  Kept-refl w = record { ws = refl; has_queue = refl; handed_same = refl; queued_same = refl }

  -- The part of a transport that an event of the transport leaves as it is.
  abbrev sending_part : Ws lib → Option ℕ × Option Queue × List SendType
  sending_part w = (w.ws, w.sending_queue, handed w.actions)

  part-Kept : (v w : Ws lib) → sending_part w ≡ sending_part v → Kept v w
  part-Kept v w e = record {
    ws = ap (λ p. p.0) e;
    has_queue = ap (λ p. is_some p.1) e;
    handed_same = ap (λ p. p.2) e;
    queued_same = ap (λ p. queued p.1) e;
  }

  pub settle_promise-Kept :
      (n : ℕ) (r : Result (Unit {0})) (w : Ws lib) → Kept w (settle_promise lib n r w)
  unfolding handed cleanup
  settle_promise-Kept n r w = part-Kept w _ (
      settle_promise-part lib sending_part (λ n v. refl) (λ event v. refl) (λ v ps. refl)
        (λ w k arg. refl) n r w)

  emit_event-Kept :
      (event : String) (arg : Result Value) (w : Ws lib) → Kept w (emit_event lib event arg w)
  unfolding handed cleanup
  emit_event-Kept event arg w = part-Kept w _ (
      emit_event-part lib sending_part (λ n v. refl) (λ event v. refl) (λ v ps. refl)
        (λ w k arg. refl) event arg w)

  with_queue-Kept :
      (f : Queue → Queue) (w : Ws lib)
      → ((q : Queue) → waiting (f q) ≡ waiting q)
      → Kept w (record w { sending_queue = map_queue lib f w.sending_queue })
  with_queue-Kept f w same = record {
    ws = refl;
    has_queue = present w.sending_queue;
    handed_same = refl;
    queued_same = queue_same w.sending_queue;
  }
    where
      present : (o : Option Queue) → is_some (map_queue lib f o) ≡ is_some o
      present none = refl
      present (some q) = refl

      queue_same : (o : Option Queue) → queued (map_queue lib f o) ≡ queued o
      queue_same none = refl
      queue_same (some q) = ap messages_of (same q)

  stopped-Kept : (w : Ws lib) → Kept w (pause_queue lib (stop_heart_beat lib w))
  unfolding pause_queue stop_heart_beat
  stopped-Kept w =
      Kept-trans w (stop_heart_beat lib w) _
        (record { ws = refl; has_queue = refl; handed_same = refl; queued_same = refl })
        (with_queue-Kept lib.pause (stop_heart_beat lib w) waiting-pause)

  pub on_closed_handler-Kept : (w : Ws lib) → Kept w (on_closed_handler lib w)
  unfolding on_closed_handler
  on_closed_handler-Kept w = Kept-trans w _ _ (stopped-Kept w) (emit_event-Kept _ _ _)

  pub on_error_handler-Kept : (e : Failure) (w : Ws lib) → Kept w (on_error_handler lib e w)
  unfolding on_error_handler
  on_error_handler-Kept e w = Kept-trans w _ _ (stopped-Kept w) (emit_event-Kept _ _ _)

  pub on_connected_handler-Kept : (w : Ws lib) → Kept w (on_connected_handler lib w)
  unfolding on_connected_handler resume_queue
  on_connected_handler-Kept w =
      Kept-trans w _ _ (emit_event-Kept _ _ w) (with_queue-Kept lib.resume _ waiting-resume)

  pub drain_handler-Kept : (w : Ws lib) → Kept w (drain_handler lib w)
  unfolding drain_handler
  drain_handler-Kept w = elim (Bool-cases (strategy_truthy (strategy_of lib w.conf))) [
    | inl e ↦ rw e (part-Kept w _ refl)
    | inr e ↦ rw e (part-Kept w _ refl)
  ]
