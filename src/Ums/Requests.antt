-- ===== src/Ums/Requests.antt =====
-- ums-client/src/client.ts: requests, their answers, timeouts and notifications. A promise that
-- `sendMessage` returns is known by its number; a listener of `umsResponseHandler` is the number of
-- the promise that it resolves. What a rejection sets off (the race, the `catch`) runs before the
-- next event, so each event is one step.
use Prim.Native.String.{◌++◌ as ◌+++◌}
use lp_clients.Base.{
  ℕ, suc, Bool, not, Option, none, some, is_some, List, [], ◌∷◌, String, str_eq, if◌then◌else◌,
  ◌==◌, ltb, update, member, keep, length, Result, ok, err, error, Failure, Task,
}
use lp_clients.Platform.Values.{property, Value, str, truthy, type_of, to_text}
use lp_clients.Platform.Emitter.{
  Emitter, once, listener_count, remove_all_listeners, emit, event_names,
}

-- `SendType` is what the transport sends; of a request the client reads the `id`.
pub record Requests (SendType : Type 0) : Type 0 where
  pub responses : Emitter ℕ
  pub notifications : Emitter ℕ
  -- How a promise is settled, by its number; `none` is pending.
  pub outcome : ℕ → Option (Result Value)
  pub id_of : ℕ → String
  pub next : ℕ
  -- The promises whose timeout has not fired.
  pub waiting : List ℕ
  -- What was handed to the transport, with its promise, the latest first.
  pub sent : List (ℕ × SendType)

unfoldable pub is_response_type : Value → Bool
unfolding type_of
is_response_type res = str_eq (type_of (property "reqId" res)) "string"

abbrev pub text_of : Value → String
text_of (str s) = s
text_of _ = ""

unfoldable pub in_progress : String → Failure
in_progress id = error ("A request with the id '" +++ (id +++ "' is already in progress"))

abbrev pub not_started : Failure
not_started = error "Client not started/initialized yet"

-- `interval` is the configured `umsRequestTimeout`, as text.
unfoldable pub timed_out : String → String → Failure
timed_out interval id =
    error ("Request '" +++ (id +++ ("' timed out; didn't receive response within " +++ interval)))

module _ {SendType : Type 0} where
  -- A promise is settled once: later calls of `resolve` and `reject` do nothing.
  unfoldable pub settle : ℕ → Result Value → Requests SendType → Requests SendType
  settle n result r =
      if is_some (r.outcome n) then r else record r { outcome = update n (some result) r.outcome }

  unfoldable pub resolve_all : List ℕ → Value → Requests SendType → Requests SendType
  unfolding settle
  resolve_all [] v r = r
  resolve_all (n ∷ ns) v r = resolve_all ns v (settle n (ok v) r)

  -- The race of a request that is still pending rejects, and the `catch` clears its listeners.
  unfoldable pub reject : ℕ → Failure → Requests SendType → Requests SendType
  unfolding remove_all_listeners
  reject n e r = if is_some (r.outcome n) then r else record r {
    outcome = update n (some (err e)) r.outcome;
    responses = remove_all_listeners (some (r.id_of n)) r.responses;
  }

  -- A new promise of `sendMessage`.
  unfoldable pub open_promise : String → Requests SendType → Requests SendType
  open_promise id r = record r {
    outcome = update r.next none r.outcome;
    id_of = update r.next id r.id_of;
    next = suc r.next;
  }

  -- `umsRequest` and `timeout` of a new promise: the listener, the timer, and the transport's
  -- `sendMessage`, which throws if the client is not started.
  unfoldable pub ums_request : Bool → ℕ → String → SendType → Requests SendType → Requests SendType
  unfolding once reject
  ums_request started n id req r =
      let listening : Requests SendType = record r {
        responses = once id n r.responses;
        waiting = n ∷ r.waiting;
      } in
      if started
      then record listening { sent = (n, req) ∷ r.sent }
      else reject n not_started listening

  -- `sendMessage`, where `started` is the state of the client and `id` the property of the request.
  unfoldable pub send_message : Bool → String → SendType → Requests SendType → Requests SendType
  unfolding listener_count open_promise ums_request settle
  send_message started id req r =
      if ltb 0 (listener_count id r.responses)
      then settle r.next (err (in_progress id)) (open_promise id r)
      else ums_request started r.next id req (open_promise id r)

  -- The timer of a request fires.
  unfoldable pub time_out : String → ℕ → Requests SendType → Requests SendType
  unfolding reject
  time_out interval n r =
      if member n r.waiting
      then reject n (timed_out interval (r.id_of n))
          (record r { waiting = keep (λ m. not (m == n)) r.waiting })
      else r

  abbrev pub heard : Value → Result (List ℕ × Bool) × Emitter ℕ → Task (Requests SendType) (List ℕ)
  heard v (ok (called, found), em) r = (ok [], resolve_all called v (record r { responses = em }))
  heard v (err e, em) r = (err e, r)

  abbrev pub notified : Result (List ℕ × Bool) × Emitter ℕ → Task (Requests SendType) (List ℕ)
  notified (ok (called, found), em) r = (ok called, record r { notifications = em })
  notified (err e, em) r = (err e, r)

  abbrev pub notify : Result String → Task (Requests SendType) (List ℕ)
  notify (ok kind) r = notified (emit kind r.notifications) r
  notify (err e) r = (err e, r)

  -- The callback that `onStart` registers on the transport, at a message. Its result lists the
  -- notification callbacks that it calls.
  unfoldable pub dispatch : Value → Task (Requests SendType) (List ℕ)
  dispatch res r =
      if truthy res
      then (if is_response_type res
          then heard res (emit (text_of (property "reqId" res)) r.responses) r
          else if truthy (property "type" res)
          then notify (to_text (property "type" res)) r
          else (ok [], r))
      else (ok [], r)

  -- What `onStop` does behind the inherited one.
  unfoldable pub clear_handlers : Requests SendType → Requests SendType
  unfolding remove_all_listeners
  clear_handlers r = record r {
    responses = remove_all_listeners none r.responses;
    notifications = remove_all_listeners none r.notifications;
  }

  -- The getter `pendingMessages`.
  unfoldable pub pending_messages : Requests SendType → ℕ
  unfolding event_names
  pending_messages r = length (event_names r.responses)
