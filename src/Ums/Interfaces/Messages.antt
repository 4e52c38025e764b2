-- ===== src/Ums/Interfaces/Messages.antt =====
-- ums-generated/generated/index.ts: what the interfaces of requests and responses declare.
use lp_clients.Base.{◌≡◌, refl, some, [], ◌∷◌}
use lp_clients.Ums.Generated.{
  RequestEvent, ResponseEvent, request_name, request_type, response_name,
  request_conversation_response, string_resp, publish_event_response, generic_subscribe_response,
  get_user_profile_response, subscribe_ex_conversations_response, init_connection,
  update_conversation_field, consumer_request_conversation, publish_event,
  subscribe_messaging_events, subscribe_ex_conversations, unsubscribe_ex_conversations,
}
use lp_clients.Platform.Interfaces.{literal, TypeDeclaration, find_declaration}
use lp_clients.Ums.Interfaces.Schema.{ums_interfaces}
use lp_clients.Platform.Interfaces.Fitting.{find_member, required}

-- The declaration of the interface of a request.
pub request_declaration :
    (r : RequestEvent)
    → (d : TypeDeclaration) × (find_declaration (request_name r) ums_interfaces ≡ some d)
      × (find_member "type" d.properties ≡ required (literal (request_type r)))
      × (d.extends ≡ "ISendType" ∷ [])
unfolding find_declaration ums_interfaces find_member request_name request_type
request_declaration init_connection = (_, refl, refl, refl)
request_declaration update_conversation_field = (_, refl, refl, refl)
request_declaration consumer_request_conversation = (_, refl, refl, refl)
request_declaration publish_event = (_, refl, refl, refl)
request_declaration subscribe_messaging_events = (_, refl, refl, refl)
request_declaration subscribe_ex_conversations = (_, refl, refl, refl)
request_declaration unsubscribe_ex_conversations = (_, refl, refl, refl)

-- The declaration of the interface of a response.
pub response_declaration :
    (e : ResponseEvent)
    → (d : TypeDeclaration) × (find_declaration (response_name e) ums_interfaces ≡ some d)
      × (d.extends ≡ "IResponseType" ∷ [])
unfolding find_declaration ums_interfaces response_name
response_declaration request_conversation_response = (_, refl, refl)
response_declaration string_resp = (_, refl, refl)
response_declaration publish_event_response = (_, refl, refl)
response_declaration generic_subscribe_response = (_, refl, refl)
response_declaration get_user_profile_response = (_, refl, refl)
response_declaration subscribe_ex_conversations_response = (_, refl, refl)
