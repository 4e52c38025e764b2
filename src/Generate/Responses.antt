-- ===== src/Generate/Responses.antt =====
-- ums-generated: the table of the responses in build/generate_interfaces.ts, against the enumerations
-- and the wrapper in generated/index.ts.
use lp_clients.Base.{◌≡◌, refl, Option, none, some, List, [], ◌∷◌, String, str_eq, if◌then◌else◌}
use lp_clients.Ums.Generated.{
  RequestEvent, init_connection, update_conversation_field, consumer_request_conversation,
  publish_event, subscribe_messaging_events, subscribe_ex_conversations,
  unsubscribe_ex_conversations, request_name, response_name, response_of,
}
use lp_clients.Generate.Wrappers.{response_mapping}

-- `mapping[key]`
abbrev pub lookup : String → List (String × String) → Option String
lookup key [] = none
lookup key (entry ∷ rest) = if str_eq entry.0 key then some entry.1 else lookup key rest

-- The table of the build script has an entry for every request of the generated enumeration, which
-- names the response that the service documents for it.
pub response_mapping_complete :
    (r : RequestEvent)
    → lookup (request_name r) response_mapping ≡ some (response_name (response_of r))
unfolding request_name response_name response_of
response_mapping_complete init_connection = refl
response_mapping_complete update_conversation_field = refl
response_mapping_complete consumer_request_conversation = refl
response_mapping_complete publish_event = refl
response_mapping_complete subscribe_messaging_events = refl
response_mapping_complete subscribe_ex_conversations = refl
response_mapping_complete unsubscribe_ex_conversations = refl
