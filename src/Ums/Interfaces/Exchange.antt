-- ===== src/Ums/Interfaces/Exchange.antt =====
-- ums-generated/generated/index.ts and ums-client/src/client.ts: messages with the interfaces of the
-- requests and the responses, as the client exchanges them.
use lp_clients.Base.{ℕ, ◌≡◌, refl, sym, ap, ◌∙◌, subst, true, false, some, String, ok, ◌==◌}
use lp_clients.Platform.Values.{property, Value, str}
use lp_clients.Platform.Emitter.{listener_count}
use lp_clients.Ums.Generated.{
  ResponseEvent, RequestEvent, request_name, request_type, response_name, response_of,
}
use lp_clients.Ums.Requests.{Requests, send_message, dispatch, pending_messages, text_of}
use lp_clients.Ums.Answers.{AnswersTo, request_answered}
use lp_clients.Platform.Interfaces.{string_type, literal, find_declaration, fits_within, fits}
use lp_clients.Ums.Interfaces.Schema.{ums_interfaces, fits_interface}
use lp_clients.Ums.Interfaces.Messages.{request_declaration, response_declaration}
use lp_clients.Platform.Interfaces.Fitting.{
  fits_within-extends, fits_within-member, fits_within-parts, is_text-text, is_literal-text,
  find_member,
}

sender-id :
    (v : Value)
    → fits_within ums_interfaces 2 "ISendType" v ≡ true
    → (s : String) × (property "id" v ≡ str s)
unfolding find_declaration ums_interfaces find_member fits
sender-id v h =
    is_text-text (property "id" v)
      (fits_within-member ums_interfaces 1 "ISendType" "id" string_type _ v refl refl h)

answer-id :
    (v : Value)
    → fits_within ums_interfaces 2 "IResponseType" v ≡ true
    → (s : String) × (property "reqId" v ≡ str s)
unfolding find_declaration ums_interfaces find_member fits
answer-id v h =
    is_text-text (property "reqId" v)
      (fits_within-member ums_interfaces 1 "IResponseType" "reqId" string_type _ v refl refl h)

-- A value with the interface of a request has the type that the enumeration gives to that request,
-- and an id, which is a text.
request-Typed :
    (e : RequestEvent) (v : Value)
    → fits_interface (request_name e) v ≡ true
    → (property "type" v ≡ str (request_type e)) × ((id : String) × (property "id" v ≡ str id))
unfolding fits_interface fits
request-Typed e v h =
    let (d, declared, type_member, parent) = request_declaration e in
    (
      is_literal-text (request_type e) (property "type" v) (
          fits_within-member ums_interfaces 2 (request_name e) "type" (literal (request_type e)) d v
            declared type_member h),
      sender-id v
          (fits_within-extends ums_interfaces 2 (request_name e) "ISendType" d v declared parent h),
    )

-- A value with the interface of a response has a property `reqId`, and answers to it.
response-AnswersTo :
    (e : ResponseEvent) (v : Value)
    → fits_interface (response_name e) v ≡ true
    → AnswersTo (text_of (property "reqId" v)) v
unfolding fits_interface
response-AnswersTo e v h =
    let (d, declared, parent) = response_declaration e in
    let (id, has_id) = answer-id v (
      fits_within-extends ums_interfaces 2 (response_name e) "IResponseType" d v declared parent
        h) in
    let (fs, is_obj, own) =
      (fits_within-parts ums_interfaces 2 (response_name e) d v declared h).1 in
    (
      fs,
      is_obj,
      subst (λ x. property "reqId" x ≡ str (text_of (property "reqId" v))) is_obj
          (has_id ∙ ap (λ x. str (text_of x)) (sym has_id)),
    )

-- A value with the interface of a request has the type that the enumeration gives to that request,
-- and its id is a text. When a started client sends it and no listener waits for the id, and the
-- next message has the interface of the response that the service documents for the request and
-- names the id, the message settles the request's promise; every other promise and the listeners
-- are as they were before the request.
pub exchange-answered :
    (e : RequestEvent) (req res : Value) (r : Requests Value) (m : ℕ)
    → fits_interface (request_name e) req ≡ true
    → fits_interface (response_name (response_of e)) res ≡ true
    → property "reqId" res ≡ property "id" req
    → listener_count (text_of (property "id" req)) r.responses ≡ 0
    → (m == r.next) ≡ false
    → (property "type" req ≡ str (request_type e))
      × ((id : String) × (property "id" req ≡ str id)
          × (let s = (dispatch res (send_message true id req r)).1 in
              (s.outcome r.next ≡ some (ok res))
              × (s.responses ≡ r.responses)
              × (s.outcome m ≡ r.outcome m)
              × (pending_messages s ≡ pending_messages r)))
exchange-answered e req res r m asked answered same unused other =
    let (typed, (id, has_id)) = request-Typed e req asked in
    let answers : AnswersTo id res =
      subst (λ x. AnswersTo (text_of x) res) (same ∙ has_id)
        (response-AnswersTo (response_of e) res answered) in
    (typed, (id, has_id, request_answered id req res r m (rw has_id at unused) answers other))
