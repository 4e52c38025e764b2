-- ===== src/Tests/Schemas.antt =====
-- The schemas of the service, by what the build script of the generated types asks of them.
use Prim.Native.String.{◌++◌ as ◌+++◌}
use lp_clients.Base.{
  ℕ, ◌≡◌, refl, Option, none, some, List, [], ◌∷◌, ◌++◌, map, String, str_eq, if◌then◌else◌,
}
use lp_clients.Platform.Values.{Value, str}
use lp_clients.Generate.Common.{query_events, query_event_name}
use lp_clients.Generate.Declares.{common_declarations}
use lp_clients.Generate.Checked.{SchemaFacts}
use lp_clients.Generate.Agreement.{
  notification_declarations, response_declarations, generated-agrees,
}
use lp_clients.Ums.Generated.{
  RequestEvent, ResponseEvent, NotificationEvent, request_name, request_type, response_name,
  response_type, notification_name, notification_interface, notification_type, consumer_requests,
  consumer_responses, agent_responses, consumer_notifications, agent_notifications, init_connection,
  update_conversation_field, consumer_request_conversation, publish_event,
  subscribe_messaging_events, subscribe_ex_conversations, unsubscribe_ex_conversations,
  request_conversation_response, string_resp, publish_event_response, generic_subscribe_response,
  get_user_profile_response, subscribe_ex_conversations_response, messaging_event_notification,
  ex_conversation_change_notification, routing_task_notification, agent_state_notification,
}
use lp_clients.Generate.Typings.{generic_declarations}
use lp_clients.Ums.Declarations.{as_printed}
use lp_clients.Ums.Declarations.Typings.{typings_declarations}
use lp_clients.Ums.Declarations.Requests.{
  consumer_requests_declarations, consumer_responses_declarations, agent_responses_declarations,
}
use lp_clients.Ums.Declarations.Notifications.{
  consumer_notifications_declarations, agent_notifications_declarations,
}

abbrev pascal : String → Option ℕ → String
pascal s locale =
    if str_eq s "routingTaskNotification"
    then "RoutingTaskNotification"
    else if str_eq s "agentStateNotification"
    then "AgentStateNotification"
    else s

-- A schema is known by the name of its file.
titles_of : Value → List String
unfolding request_name response_name notification_name
titles_of (str s) =
    if str_eq s "consumerRequests"
    then map request_name consumer_requests
    else if str_eq s "consumerResponses"
    then map response_name consumer_responses
    else if str_eq s "consumerNotifications"
    then map notification_name consumer_notifications
    else if str_eq s "agentResponses"
    then map response_name agent_responses
    else map notification_name agent_notifications
titles_of _ = []

abbrev entries : List (String × String)
entries =
    map (λ r. (request_name r, request_type r)) consumer_requests
    ++ (map (λ r. (response_name r, response_type r)) agent_responses
        ++ map (λ n. (notification_name n, notification_type n)) agent_notifications)

abbrev found : String → List (String × String) → List String
found path [] = []
found path ((name, wire_type) ∷ rest) =
    if str_eq path ("$.anyOf[?(@.title == '" +++ (name +++ "')].allOf[*].properties.type.default"))
    then wire_type ∷ []
    else found path rest

query : Value → String → List String
unfolding titles_of
query schema path = if str_eq path "$.anyOf[*].title" then titles_of schema else found path entries

request_spelled :
    (r : RequestEvent) (locale : Option ℕ) → pascal (request_name r) locale ≡ request_name r
unfolding request_name
request_spelled init_connection locale = refl
request_spelled update_conversation_field locale = refl
request_spelled consumer_request_conversation locale = refl
request_spelled publish_event locale = refl
request_spelled subscribe_messaging_events locale = refl
request_spelled subscribe_ex_conversations locale = refl
request_spelled unsubscribe_ex_conversations locale = refl

request_typed :
    (schema : Value) (r : RequestEvent)
    → query_event_name query schema (request_name r) ≡ some (request_type r)
unfolding query titles_of query_event_name request_name request_type response_name response_type
    notification_name notification_type
request_typed schema init_connection = refl
request_typed schema update_conversation_field = refl
request_typed schema consumer_request_conversation = refl
request_typed schema publish_event = refl
request_typed schema subscribe_messaging_events = refl
request_typed schema subscribe_ex_conversations = refl
request_typed schema unsubscribe_ex_conversations = refl

request_titles : query_events query (str "consumerRequests") ≡ map request_name consumer_requests
unfolding query_events query titles_of
request_titles = refl

abbrev request_facts :
    SchemaFacts pascal query
      (str "consumerRequests")
      "ConsumerRequests"
      request_name
      request_name
      request_type
      consumer_requests
request_facts = record {
  base_stable = refl;
  titles = request_titles;
  spelled = request_spelled;
  typed = request_typed (str "consumerRequests");
}

response_spelled :
    (r : ResponseEvent) (locale : Option ℕ) → pascal (response_name r) locale ≡ response_name r
unfolding response_name
response_spelled request_conversation_response locale = refl
response_spelled string_resp locale = refl
response_spelled publish_event_response locale = refl
response_spelled generic_subscribe_response locale = refl
response_spelled get_user_profile_response locale = refl
response_spelled subscribe_ex_conversations_response locale = refl

response_typed :
    (schema : Value) (r : ResponseEvent)
    → query_event_name query schema (response_name r) ≡ some (response_type r)
unfolding query titles_of query_event_name request_name request_type response_name response_type
    notification_name notification_type
response_typed schema request_conversation_response = refl
response_typed schema string_resp = refl
response_typed schema publish_event_response = refl
response_typed schema generic_subscribe_response = refl
response_typed schema get_user_profile_response = refl
response_typed schema subscribe_ex_conversations_response = refl

notification_spelled :
    (n : NotificationEvent) (locale : Option ℕ)
    → pascal (notification_name n) locale ≡ notification_interface n
unfolding notification_name notification_interface
notification_spelled messaging_event_notification locale = refl
notification_spelled ex_conversation_change_notification locale = refl
notification_spelled routing_task_notification locale = refl
notification_spelled agent_state_notification locale = refl

notification_typed :
    (schema : Value) (n : NotificationEvent)
    → query_event_name query schema (notification_name n) ≡ some (notification_type n)
unfolding query titles_of query_event_name request_name request_type response_name response_type
    notification_name notification_type
notification_typed schema messaging_event_notification = refl
notification_typed schema ex_conversation_change_notification = refl
notification_typed schema routing_task_notification = refl
notification_typed schema agent_state_notification = refl

abbrev response_facts :
    (schema : Value) (base : String) (rs : List ResponseEvent)
    → pascal base none ≡ base
    → query_events query schema ≡ map response_name rs
    → SchemaFacts pascal query schema base response_name response_name response_type rs
response_facts schema base rs stable titles = record {
  base_stable = stable;
  titles = titles;
  spelled = response_spelled;
  typed = response_typed schema;
}

abbrev notification_facts :
    (schema : Value) (base : String) (ns : List NotificationEvent)
    → pascal base none ≡ base
    → query_events query schema ≡ map notification_name ns
    → SchemaFacts pascal query schema base notification_name notification_interface
        notification_type ns
notification_facts schema base ns stable titles = record {
  base_stable = stable;
  titles = titles;
  spelled = notification_spelled;
  typed = notification_typed schema;
}

abbrev asked : String → List String
asked s = query_events query (str s)

consumer_response_titles : asked "consumerResponses" ≡ map response_name consumer_responses
unfolding query_events query titles_of
consumer_response_titles = refl

consumer_notification_titles :
    asked "consumerNotifications" ≡ map notification_name consumer_notifications
unfolding query_events query titles_of
consumer_notification_titles = refl

agent_response_titles : asked "agentResponses" ≡ map response_name agent_responses
unfolding query_events query titles_of
agent_response_titles = refl

agent_notification_titles : asked "agentNotifications" ≡ map notification_name agent_notifications
unfolding query_events query titles_of
agent_notification_titles = refl

generated-agrees_example :
    (map as_printed generic_declarations ≡ typings_declarations)
    × (map as_printed (common_declarations pascal query "ConsumerRequests" (str "consumerRequests"))
        ≡ consumer_requests_declarations)
    × (map as_printed (
          common_declarations pascal query "ConsumerResponses" (str "consumerResponses")
          ++ response_declarations pascal query "ConsumerResponses")
        ≡ consumer_responses_declarations)
    × (map as_printed (
          notification_declarations pascal query "ConsumerNotifications"
            (str "consumerNotifications"))
        ≡ consumer_notifications_declarations)
    × (map as_printed (common_declarations pascal query "AgentResponses" (str "agentResponses"))
        ≡ agent_responses_declarations)
    × (map as_printed
          (notification_declarations pascal query "AgentNotifications" (str "agentNotifications"))
        ≡ agent_notifications_declarations)
generated-agrees_example =
    generated-agrees pascal query (str "consumerRequests") (str "consumerResponses")
      (str "consumerNotifications") (str "agentResponses") (str "agentNotifications") request_facts
      (response_facts _ "ConsumerResponses" consumer_responses refl consumer_response_titles)
      (notification_facts _ "ConsumerNotifications" consumer_notifications refl
        consumer_notification_titles)
      (response_facts _ "AgentResponses" agent_responses refl agent_response_titles)
      (notification_facts _ "AgentNotifications" agent_notifications refl agent_notification_titles)
