-- ===== src/Tests/Messages.antt =====
-- Messages with the interfaces of the generated types.
use lp_clients.Base.{◌≡◌, refl, true, false, none, some, [], String, ok}
use lp_clients.Platform.Values.{property, Value, num, str, obj, Fields, end, field, get}
use lp_clients.Platform.Emitter.{listener_count}
use lp_clients.Ums.Generated.{publish_event, request_name, request_type, response_name, response_of}
use lp_clients.Ums.Requests.{Requests, send_message, dispatch, pending_messages}
use lp_clients.Platform.Interfaces.{
  fits, fits_one, fits_members, fits_all, fits_declaration, find_declaration, fits_within,
}
use lp_clients.Ums.Interfaces.Schema.{ums_interfaces, fits_interface}
use lp_clients.Ums.Interfaces.Exchange.{exchange-answered}

abbrev text_event : Fields
text_event =
    field "type" (str "ContentEvent")
      (field "contentType" (str "text/plain") (field "message" (str "hello") end))

abbrev publish : Value
publish = obj (
    field "type" (str "ms.PublishEvent") (
      field "id" (str "7")
        (field "body" (obj (field "dialogId" (str "d") (field "event" (obj text_event) end))) end)))

-- The body has no event.
abbrev mistyped : Value
mistyped = obj (
    field "type" (str "ms.PublishEvent")
      (field "id" (str "7") (field "body" (obj (field "dialogId" (str "d") end)) end)))

abbrev published : Value
published = obj (
    field "kind" (str "resp") (
      field "reqId" (str "7") (
        field "type" (str "ms.PublishEventResponse")
          (field "code" (num "200") (field "body" (obj (field "sequence" (num "0") end)) end)))))

abbrev no_requests : Requests Value
no_requests = record {
  responses = [];
  notifications = [];
  outcome = λ n. none;
  id_of = λ n. "";
  next = 1;
  waiting = [];
  sent = [];
}

publish_fits : fits_interface (request_name publish_event) publish ≡ true
unfolding fits_interface fits_within fits_declaration find_declaration ums_interfaces request_name
    fits fits_one fits_members fits_all get
publish_fits = refl

mistyped_fits : fits_interface (request_name publish_event) mistyped ≡ false
unfolding fits_interface fits_within fits_declaration find_declaration ums_interfaces request_name
    fits fits_one fits_members fits_all get
mistyped_fits = refl

published_fits : fits_interface (response_name (response_of publish_event)) published ≡ true
unfolding fits_interface fits_within fits_declaration find_declaration ums_interfaces response_name
    response_of fits fits_one fits_members fits_all get
published_fits = refl

same_id : property "reqId" published ≡ property "id" publish
unfolding get
same_id = refl

nobody_listens : listener_count "7" no_requests.responses ≡ 0
unfolding listener_count
nobody_listens = refl

exchange-answered_example :
    (property "type" publish ≡ str (request_type publish_event))
    × ((id : String) × (property "id" publish ≡ str id)
        × (let s = (dispatch published (send_message true id publish no_requests)).1 in
            (s.outcome 1 ≡ some (ok published))
            × (s.responses ≡ no_requests.responses)
            × (s.outcome 0 ≡ no_requests.outcome 0)
            × (pending_messages s ≡ pending_messages no_requests)))
unfolding get
exchange-answered_example =
    exchange-answered publish_event publish published no_requests 0 publish_fits published_fits
      same_id nobody_listens refl
