-- ===== src/Ums/Answers.antt =====
-- ums-client/src/client.ts: which request a message settles, and a request that loses its answer.
use lp_clients.Base.{
  ℕ, suc, ◌≡◌, refl, ap, ◌∙◌, inl, inr, true, false, none, some, List, [], ◌∷◌, String, str_eq,
  str_eq_refl, ◌==◌, ==_refl, update, member, keep, keep-append, ok, arith, Bool-cases,
}
use mathlib.Core.List.{append-nil}
use lp_clients.Platform.Values.{Value, str, obj, Fields, get, truthy}
use lp_clients.Platform.Emitter.{Emitter, once, listens_to, listener_count, outlives, emit}
use lp_clients.Ums.Requests.{
  Requests, settle, resolve_all, reject, send_message, time_out, dispatch, clear_handlers,
  pending_messages, is_response_type, heard,
}
use lp_clients.Ums.Histories.{Event, requests, times_out, receives, stops, steps}

-- A response to the request of that id.
abbrev pub AnswersTo : String → Value → Type 0
AnswersTo id v = (fs : Fields) × (v ≡ obj fs) × (get "reqId" fs ≡ str id)

unheard-keep :
    (id : String) (em : Emitter ℕ)
    → listener_count id em ≡ 0
    → (keep (listens_to id) em ≡ []) × (keep (outlives id) em ≡ em)
unfolding listener_count
unheard-keep id [] h = (refl, refl)
unheard-keep id (x ∷ em) h = ground (arith, unheard-keep id em)

-- A listener that waits alone for an id is called by the next event of that id, and removed.
emit-once_alone :
    (id : String) (n : ℕ) (em : Emitter ℕ)
    → listener_count id em ≡ 0
    → emit id (once id n em) ≡ (ok (n ∷ [], true), em)
unfolding emit once
emit-once_alone id n em h =
    let (silent, stays) = unheard-keep id em h in
    rw (
      keep-append (listens_to id) em _,
      silent,
      str_eq_refl id,
      keep-append (outlives id) em _,
      stays,
      str_eq_refl id,
      append-nil em,
    )

module _ {SendType : Type 0} where
  -- The state after a request of a started client whose id is not in use.
  pub accepted : String → SendType → Requests SendType → Requests SendType
  accepted id req r = record r {
    responses = once id r.next r.responses;
    outcome = update r.next none r.outcome;
    id_of = update r.next id r.id_of;
    next = suc r.next;
    waiting = r.next ∷ r.waiting;
    sent = (r.next, req) ∷ r.sent;
  }

  send_message-accepted :
      (id : String) (req : SendType) (r : Requests SendType)
      → listener_count id r.responses ≡ 0
      → send_message true id req r ≡ accepted id req r
  unfolding send_message accepted
  send_message-accepted id req r h = rw h

  dispatch-answer :
      (id : String) (v : Value) (r : Requests SendType)
      → AnswersTo id v
      → dispatch v r ≡ heard v (emit id r.responses) r
  unfolding dispatch is_response_type truthy
  dispatch-answer id v r (fs, e, f) = rw (e, f)

  -- When a started client sends a request whose id no listener waits for, and the answer comes next,
  -- the answer settles the request's promise, its listener is removed, and every other promise and
  -- the listeners are as they were before the request.
  pub request_answered :
      (id : String) (req : SendType) (v : Value) (r : Requests SendType) (m : ℕ)
      → listener_count id r.responses ≡ 0
      → AnswersTo id v
      → (m == r.next) ≡ false
      → let s = (dispatch v (send_message true id req r)).1 in
        (s.outcome r.next ≡ some (ok v))
        × (s.responses ≡ r.responses)
        × (s.outcome m ≡ r.outcome m)
        × (pending_messages s ≡ pending_messages r)
  unfolding resolve_all settle accepted pending_messages
  request_answered id req v r m unused answer other =
      let emitted : emit id (accepted id req r).responses ≡ (ok (r.next ∷ [], true), r.responses) =
        emit-once_alone id r.next r.responses unused in
      rw
        (
          send_message-accepted id req r unused,
          dispatch-answer id v (accepted id req r) answer,
          emitted,
        )
        (ground (arith, ==_refl r.next))

  -- The timer of a request fires when its client has stopped, started again and sent a request
  -- with the same id.
  late_timer :
      (interval id : String) (req req' : SendType) (r : Requests SendType)
      → let late =
          time_out interval r.next (accepted id req' (clear_handlers (accepted id req r))) in
        (late.responses ≡ []) × (late.outcome (suc r.next) ≡ none)
  unfolding time_out reject clear_handlers accepted member once
  late_timer interval id req req' r = ground (arith, str_eq_refl id)

  -- An answer that nobody waits for settles nothing.
  dispatch-unheard :
      (id : String) (v : Value) (r : Requests SendType) (m : ℕ)
      → AnswersTo id v
      → r.responses ≡ []
      → (dispatch v r).1.outcome m ≡ r.outcome m
  unfolding emit listener_count resolve_all
  dispatch-unheard id v r m answer silent = rw (dispatch-answer id v r answer) (
      rw silent
        (elim (Bool-cases (str_eq id "error")) [ inl thrown ↦ rw thrown | inr quiet ↦ rw quiet ]))

  -- A request can lose its answer to the timer of an earlier one. If a client sends a request whose
  -- id no listener waits for, stops while it is pending, and sends another with the same id, the
  -- timer of the first removes the listener of the second: the answer that comes then does not
  -- settle the second's promise.
  pub stale_timeout :
      (interval id : String) (req req' : SendType) (v : Value) (r : Requests SendType)
      → listener_count id r.responses ≡ 0
      → AnswersTo id v
      → let history : List (Event SendType) =
          requests true id req
          ∷ stops
          ∷ requests true id req'
          ∷ times_out r.next
          ∷ receives v
          ∷ [] in
        (steps interval history r).outcome (suc r.next) ≡ none
  unfolding steps clear_handlers listener_count
  stale_timeout interval id req req' v r unused answer =
      let stopped : Requests SendType = clear_handlers (accepted id req r) in
      let fire = λ (s : Requests SendType). time_out interval r.next s in
      let end_state = λ (s : Requests SendType). (dispatch v (fire s)).1 in
      let (lost, pending) = late_timer interval id req req' r in
      ap (λ s. (end_state (send_message true id req' (clear_handlers s))).outcome (suc r.next))
        (send_message-accepted id req r unused)
      ∙ ap (λ s. (end_state s).outcome (suc r.next)) (send_message-accepted id req' stopped refl)
      ∙ dispatch-unheard id v (fire (accepted id req' stopped)) (suc r.next) answer lost
      ∙ pending
