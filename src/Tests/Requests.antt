-- ===== src/Tests/Requests.antt =====
-- Runs of ums-client/src/client.ts and util-types/src/event_emitter.ts. What is sent is a number.
use lp_clients.Base.{
  ℕ, ◌≡◌, refl, true, false, none, some, List, [], ◌∷◌, ◌++◌, ok, err, ◌<◌, arith,
}
use lp_clients.Platform.Values.{Value, str, Fields, end, field, obj, get}
use lp_clients.Platform.Emitter.{Emitter, emit, listeners, listener_count}
use lp_clients.Ums.Requests.{
  Requests, send_message, dispatch, pending_messages, time_out, timed_out, is_response_type,
}
use lp_clients.Ums.Invariant.{Inv}
use lp_clients.Ums.Config.{UmsConfigBase}
use lp_clients.Ums.Histories.{
  Event, requests, times_out, receives, stops, steps, fresh_requests, fresh-Inv, history-Inv,
}
use lp_clients.Ums.Generated.{agent_state_notification, notification_type, wrap_agent_notifications}
use lp_clients.Ums.Notifications.{Notifies, agent_method, handler, agent_method-notified}
use lp_clients.Ums.Timeouts.{time_out-settles, settled_or}
use lp_clients.Ums.Answers.{request_answered, stale_timeout, AnswersTo}

abbrev answer_fields : Fields
answer_fields = field "reqId" (str "2") (field "code" (str "OK") end)

abbrev answer : Value
answer = obj answer_fields

-- One request is pending.
abbrev one_pending : List (Event ℕ)
one_pending = requests true "1" 7 ∷ []

abbrev busy : Requests ℕ
busy = record {
  responses = record { event = "1"; listener = 0; is_once = true } ∷ [];
  notifications = [];
  outcome = λ n. none;
  id_of = λ n. "1";
  next = 1;
  waiting = 0 ∷ [];
  sent = (0, 7) ∷ [];
}

answer-AnswersTo : AnswersTo "2" answer
unfolding get
answer-AnswersTo = (answer_fields, refl, refl)

busy_unheard : listener_count "2" busy.responses ≡ 0
unfolding listener_count
busy_unheard = refl

request_answered_example :
    let s = (dispatch answer (send_message true "2" 8 busy)).1 in
    (s.outcome 1 ≡ some (ok answer))
    × (s.responses ≡ busy.responses)
    × (s.outcome 0 ≡ none)
    × (pending_messages s ≡ pending_messages busy)
request_answered_example = request_answered "2" 8 answer busy 0 busy_unheard answer-AnswersTo refl

stale_timeout_example :
    let history : List (Event ℕ) =
      requests true "2" 8 ∷ stops ∷ requests true "2" 9 ∷ times_out 1 ∷ receives answer ∷ [] in
    (steps "10000" history busy).outcome 2 ≡ none
stale_timeout_example = stale_timeout "10000" "2" 8 9 answer busy busy_unheard answer-AnswersTo

-- Two requests, a timeout and an answer.
abbrev history : List (Event ℕ)
history = requests true "1" 7 ∷ requests true "2" 8 ∷ times_out 0 ∷ receives answer ∷ []

history-Inv_example : Inv (steps "10000" history fresh_requests)
history-Inv_example = history-Inv "10000" history fresh_requests fresh-Inv

one_opened : 0 < (steps "10000" one_pending fresh_requests).next
unfolding steps fresh_requests send_message
one_opened = omega arith

time_out-settles_example :
    let r = steps "10000" one_pending fresh_requests in
    (time_out "10000" 0 r).outcome 0
    ≡ some (settled_or (r.outcome 0) (err (timed_out "10000" (r.id_of 0))))
time_out-settles_example = time_out-settles "10000" one_pending 0 one_opened

-- Two listeners of "a", of which the second waits once, and one of "b".
abbrev three_listeners : Emitter ℕ
three_listeners =
    record { event = "a"; listener = 1; is_once = false }
    ∷ record { event = "b"; listener = 2; is_once = false }
    ∷ record { event = "a"; listener = 3; is_once = true }
    ∷ []

abbrev two_left : Emitter ℕ
two_left =
    record { event = "a"; listener = 1; is_once = false }
    ∷ record { event = "b"; listener = 2; is_once = false }
    ∷ []

abbrev called_a : List ℕ
called_a = 1 ∷ 3 ∷ []

emitted_a : emit "a" three_listeners ≡ (ok (1 ∷ 3 ∷ [], true), two_left)
unfolding emit
emitted_a = refl

abbrev note_fields : Fields
note_fields = field "type" (str "routing.agentStateNotification") end

-- The client already calls the callback 4 for this event.
abbrev noting : Requests ℕ
noting = record busy {
  notifications =
      record { event = "routing.agentStateNotification"; listener = 4; is_once = false } ∷ [];
}

note-Notifies : Notifies agent_state_notification (obj note_fields)
unfolding get is_response_type notification_type
note-Notifies = (note_fields, refl, refl, refl)

agent_method-notified_example :
    let (registered, r') =
      agent_method agent_state_notification (wrap_agent_notifications (handler true)) 5 noting in
    (registered ≡ ok tt)
    × ((dispatch (obj note_fields) r').0
        ≡ ok
            (listeners (notification_type agent_state_notification) noting.notifications ++ 5 ∷ []))
    × ((dispatch (obj note_fields) r').1.responses ≡ busy.responses)
agent_method-notified_example =
    agent_method-notified agent_state_notification (obj note_fields) 5 noting note-Notifies

abbrev ums_base : UmsConfigBase
ums_base = record {
  ums_notification_handler = some three_listeners;
  ums_response_handler = none;
  ums_request_timeout = some 0;
}
