-- ===== src/Ums/Notifications.antt =====
-- ums-client/src/client.ts: the callbacks of notifications, and how the wrappers of
-- ums-generated/generated/index.ts register them.
use lp_clients.Base.{
  ℕ, ◌≡◌, refl, Bool, true, false, List, [], ◌∷◌, ◌++◌, String, str_eq_refl, if◌then◌else◌, ◌==◌,
  length, keep, keep-append, ok, err, Task, arith, subst,
}
use mathlib.Core.List.{map-append}
use lp_clients.Platform.Values.{Value, str, obj, Fields, get, truthy, to_text}
use lp_clients.Platform.Emitter.{Emitter, on, emit, listeners, listens_to, outlives}
use lp_clients.Ums.Requests.{Requests, dispatch, is_response_type, not_started}
use lp_clients.Ums.Generated.{
  NotificationEvent, messaging_event_notification, ex_conversation_change_notification,
  routing_task_notification, agent_state_notification, notification_type, NotificationHandler,
  AgentWrapper, wrap_agent_notifications,
}

-- A notification of that event.
abbrev pub Notifies : NotificationEvent → Value → Type 0
Notifies e v =
    (fs : Fields) × (v ≡ obj fs)
    × (get "type" fs ≡ str (notification_type e))
    × (is_response_type v ≡ false)

append-not_empty : {A : Type 0} (xs : List A) (x : A) → (length (xs ++ x ∷ []) == 0) ≡ false
append-not_empty [] x = refl
append-not_empty (y ∷ xs) x = ground arith

emit-registered :
    (kind : String) (cb : ℕ) (em : Emitter ℕ)
    → (em' : Emitter ℕ) × (emit kind (on kind cb em)
        ≡ (ok (listeners kind em ++ cb ∷ [], true), em'))
unfolding emit on
emit-registered kind cb em =
    let heard : (length (
            keep (listens_to kind) em
            ++ record { event = kind; listener = cb; is_once = false } ∷ [])
          == 0)
        ≡ false =
      append-not_empty (keep (listens_to kind) em) _ in
    (
      keep (outlives kind) (on kind cb em),
      rw (keep-append (listens_to kind) em _, str_eq_refl kind, map-append, heard) refl,
    )

type_not_empty : (e : NotificationEvent) → truthy (str (notification_type e)) ≡ true
unfolding truthy notification_type
type_not_empty messaging_event_notification = refl
type_not_empty ex_conversation_change_notification = refl
type_not_empty routing_task_notification = refl
type_not_empty agent_state_notification = refl

module _ {SendType : Type 0} where
  -- `onNotification`, where `started` is the state of the client.
  unfoldable pub on_notification : Bool → String → ℕ → Task (Requests SendType) (Unit {0})
  unfolding on
  on_notification started kind cb r =
      if started
      then (ok tt, record r { notifications = on kind cb r.notifications })
      else (err not_started, r)

  -- The client as the handler that the wrappers extend.
  abbrev pub handler : Bool → NotificationHandler (Requests SendType)
  handler started = record { on_notification = on_notification started }

  -- The method of the agents' wrapper for an event.
  abbrev pub agent_method :
      NotificationEvent → AgentWrapper (Requests SendType) → ℕ → Task (Requests SendType) (Unit {0})
  agent_method messaging_event_notification w = w.on_messaging_event_notification
  agent_method ex_conversation_change_notification w = w.on_ex_conversation_change_notification
  agent_method routing_task_notification w = w.on_routing_task_notification
  agent_method agent_state_notification w = w.on_agent_state_notification

  agent_method_lem :
      (e : NotificationEvent) (cb : ℕ) (r : Requests SendType)
      → agent_method e (wrap_agent_notifications (handler true)) cb r
        ≡ on_notification true (notification_type e) cb r
  unfolding wrap_agent_notifications
  agent_method_lem messaging_event_notification cb r = refl
  agent_method_lem ex_conversation_change_notification cb r = refl
  agent_method_lem routing_task_notification cb r = refl
  agent_method_lem agent_state_notification cb r = refl

  notified-registered :
      (e : NotificationEvent) (v : Value) (cb : ℕ) (r : Requests SendType)
      → Notifies e v
      → let r' = (on_notification true (notification_type e) cb r).1 in
        ((dispatch v r').0 ≡ ok (listeners (notification_type e) r.notifications ++ cb ∷ []))
        × ((dispatch v r').1.responses ≡ r.responses)
  unfolding dispatch on_notification truthy to_text
  notified-registered e v cb r (fs, p, kind, other) =
      let (em', emitted) = emit-registered (notification_type e) cb r.notifications in
      rw p (
        rw (subst (λ x. is_response_type x ≡ false) p other, kind, type_not_empty e, emitted)
          (refl, refl))

  -- A callback that is registered by the agents' wrapper of a started client for an event is
  -- called by the next notification of that event, behind the callbacks registered before.
  pub agent_method-notified :
      (e : NotificationEvent) (v : Value) (cb : ℕ) (r : Requests SendType)
      → Notifies e v
      → let (registered, r') = agent_method e (wrap_agent_notifications (handler true)) cb r in
        (registered ≡ ok tt)
        × ((dispatch v r').0 ≡ ok (listeners (notification_type e) r.notifications ++ cb ∷ []))
        × ((dispatch v r').1.responses ≡ r.responses)
  unfolding on_notification
  agent_method-notified e v cb r n =
      let (called, kept) = notified-registered e v cb r n in
      rw (agent_method_lem e cb r) (refl, called, kept)
