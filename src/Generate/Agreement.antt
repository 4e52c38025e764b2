-- ===== src/Generate/Agreement.antt =====
-- ums-generated: what build/generate_interfaces.ts adds for the schemas of the service is what stands
-- in generated/index.ts.
use Prim.Native.String.{◌++◌ as ◌+++◌}
use lp_clients.Base.{ℕ, ◌≡◌, refl, ap, ◌∙◌, Option, none, List, [], ◌∷◌, ◌++◌, map, String}
use lp_clients.Platform.Values.{Value}
use lp_clients.Generate.Structures.{
  Declaration, interface_declaration, Method, extend_first, join_texts,
}
use lp_clients.Generate.Common.{query_events}
use lp_clients.Generate.Wrappers.{
  notification_method, request_method, response_mapping, sender_constraint, handler_constraint,
  constructor_alias, wrapper_constructor_alias, wrapper_interface, wrapper_class, wrap_function,
}
use lp_clients.Generate.Typings.{generic_declarations, on_notification_method, send_message_method}
use lp_clients.Generate.Declares.{common_declarations}
use lp_clients.Generate.Handlers.{handler_declarations, handlers_of, events_parent}
use lp_clients.Generate.Checked.{
  SchemaFacts, plain_declarations, common_declarations-plain, methods_of_names,
}
use lp_clients.Ums.Generated.{
  RequestEvent, request_name, request_type, response_name, response_type, notification_name,
  notification_interface, notification_type, response_of, consumer_requests, consumer_responses,
  agent_responses, consumer_notifications, agent_notifications,
}
use lp_clients.Ums.Declarations.{as_printed}
use lp_clients.Ums.Declarations.Typings.{typings_declarations}
use lp_clients.Ums.Declarations.Requests.{
  consumer_requests_declarations, consumer_responses_declarations, agent_responses_declarations,
}
use lp_clients.Ums.Declarations.Notifications.{
  consumer_notifications_declarations, agent_notifications_declarations,
}

abbrev responses_of : String → List Method → List Declaration
responses_of base methods =
    interface_declaration (wrapper_interface base methods)
    ∷ constructor_alias base (sender_constraint "ConsumerRequests" base)
    ∷ wrapper_constructor_alias base
    ∷ []

abbrev entry_of : RequestEvent → String × String
entry_of r = (request_name r, response_name (response_of r))

typings_agree : map as_printed generic_declarations ≡ typings_declarations
unfolding generic_declarations typings_declarations on_notification_method send_message_method
typings_agree = refl

module _ (pascal : String → Option ℕ → String) (query : Value → String → List String) where
  requests_agree :
      (schema : Value)
      → SchemaFacts pascal query schema "ConsumerRequests" request_name request_name request_type
          consumer_requests
      → map as_printed (common_declarations pascal query "ConsumerRequests" schema)
        ≡ consumer_requests_declarations
  unfolding consumer_requests_declarations join_texts request_name request_type
  requests_agree schema facts = ap (map as_printed) (common_declarations-plain facts)

  agent_responses_agree :
      (schema : Value)
      → SchemaFacts pascal query schema "AgentResponses" response_name response_name response_type
          agent_responses
      → map as_printed (common_declarations pascal query "AgentResponses" schema)
        ≡ agent_responses_declarations
  unfolding agent_responses_declarations join_texts response_name response_type
  agent_responses_agree schema facts = ap (map as_printed) (common_declarations-plain facts)

  -- What `customNotificationData` adds.
  abbrev pub notification_declarations : String → Value → List Declaration
  notification_declarations base schema =
      extend_first ("I" +++ (base +++ "Type")) (events_parent base)
        (common_declarations pascal query base schema)
      ++ handler_declarations query pascal base (query_events query schema)

  consumer_notifications_agree :
      (schema : Value)
      → SchemaFacts pascal query schema "ConsumerNotifications" notification_name
          notification_interface notification_type consumer_notifications
      → map as_printed (notification_declarations "ConsumerNotifications" schema)
        ≡ consumer_notifications_declarations
  unfolding consumer_notifications_declarations join_texts notification_name notification_type
      notification_interface extend_first notification_method constructor_alias
      wrapper_constructor_alias wrapper_interface wrapper_class wrap_function handler_constraint
  consumer_notifications_agree schema facts =
      ap
        (λ ds. map as_printed (
          extend_first "IConsumerNotificationsType" (events_parent "ConsumerNotifications") ds
          ++ handler_declarations query pascal "ConsumerNotifications" (query_events query schema)))
        (common_declarations-plain facts)
      ∙ ap
          (λ ms. map as_printed (
            extend_first "IConsumerNotificationsType" (events_parent "ConsumerNotifications")
              (plain_declarations facts consumer_notifications)
            ++ handlers_of "ConsumerNotifications" ms))
          (ap (map (notification_method pascal "ConsumerNotifications")) facts.titles
            ∙ methods_of_names facts consumer_notifications)

  agent_notifications_agree :
      (schema : Value)
      → SchemaFacts pascal query schema "AgentNotifications" notification_name
          notification_interface notification_type agent_notifications
      → map as_printed (notification_declarations "AgentNotifications" schema)
        ≡ agent_notifications_declarations
  unfolding agent_notifications_declarations join_texts notification_name notification_type
      notification_interface extend_first notification_method constructor_alias
      wrapper_constructor_alias wrapper_interface wrapper_class wrap_function handler_constraint
  agent_notifications_agree schema facts =
      ap
        (λ ds. map as_printed (
          extend_first "IAgentNotificationsType" (events_parent "AgentNotifications") ds
          ++ handler_declarations query pascal "AgentNotifications" (query_events query schema)))
        (common_declarations-plain facts)
      ∙ ap
          (λ ms. map as_printed (
            extend_first "IAgentNotificationsType" (events_parent "AgentNotifications")
              (plain_declarations facts agent_notifications)
            ++ handlers_of "AgentNotifications" ms))
          (ap (map (notification_method pascal "AgentNotifications")) facts.titles
            ∙ methods_of_names facts agent_notifications)

  -- What `customConsumerResponseData` adds behind the common declarations.
  abbrev pub response_declarations : String → List Declaration
  response_declarations base =
      responses_of base (map (request_method pascal "ConsumerRequests") response_mapping)

  request_methods :
      (requests : Value)
      → SchemaFacts pascal query requests "ConsumerRequests" request_name request_name request_type
          consumer_requests
      → (rs : List RequestEvent)
      → map (λ r. request_method pascal "ConsumerRequests" (entry_of r)) rs
        ≡ map (λ r. request_method (λ s locale. s) "ConsumerRequests" (entry_of r)) rs
  unfolding request_method
  request_methods requests given [] = refl
  request_methods requests given (r ∷ rs) =
      rw (given.spelled r none, request_methods requests given rs) refl

  consumer_responses_agree :
      (requests responses : Value)
      → SchemaFacts pascal query requests "ConsumerRequests" request_name request_name request_type
          consumer_requests
      → SchemaFacts pascal query responses "ConsumerResponses" response_name response_name
          response_type consumer_responses
      → map as_printed (
          common_declarations pascal query "ConsumerResponses" responses
          ++ response_declarations "ConsumerResponses")
        ≡ consumer_responses_declarations
  unfolding consumer_responses_declarations join_texts request_name response_name response_of
      response_type request_method constructor_alias wrapper_constructor_alias wrapper_interface
      sender_constraint
  consumer_responses_agree requests responses given facts =
      ap (λ ds. map as_printed (ds ++ response_declarations "ConsumerResponses"))
        (common_declarations-plain facts)
      ∙ ap
          (λ ms.
            map as_printed
              (plain_declarations facts consumer_responses ++ responses_of "ConsumerResponses" ms))
          (request_methods requests given consumer_requests)

  -- For schemas with the events of the service and a `pascalCase` that spells their names as the
  -- interfaces are spelled, what the build script adds before all schemas and for each of the five
  -- is, declaration by declaration and up to the printing of the methods of interfaces, what stands
  -- in `generated/index.ts`.
  pub generated-agrees :
      (requests responses notifications agent_answers agent_news : Value)
      → SchemaFacts pascal query requests "ConsumerRequests" request_name request_name request_type
          consumer_requests
      → SchemaFacts pascal query responses "ConsumerResponses" response_name response_name
          response_type consumer_responses
      → SchemaFacts pascal query notifications "ConsumerNotifications" notification_name
          notification_interface notification_type consumer_notifications
      → SchemaFacts pascal query agent_answers "AgentResponses" response_name response_name
          response_type agent_responses
      → SchemaFacts pascal query agent_news "AgentNotifications" notification_name
          notification_interface notification_type agent_notifications
      → (map as_printed generic_declarations ≡ typings_declarations)
        × (map as_printed (common_declarations pascal query "ConsumerRequests" requests)
            ≡ consumer_requests_declarations)
        × (map as_printed (
              common_declarations pascal query "ConsumerResponses" responses
              ++ response_declarations "ConsumerResponses")
            ≡ consumer_responses_declarations)
        × (map as_printed (notification_declarations "ConsumerNotifications" notifications)
            ≡ consumer_notifications_declarations)
        × (map as_printed (common_declarations pascal query "AgentResponses" agent_answers)
            ≡ agent_responses_declarations)
        × (map as_printed (notification_declarations "AgentNotifications" agent_news)
            ≡ agent_notifications_declarations)
  generated-agrees requests responses notifications agent_answers agent_news a b c d e = (
    typings_agree,
    requests_agree requests a,
    consumer_responses_agree requests responses a b,
    consumer_notifications_agree notifications c,
    agent_responses_agree agent_answers d,
    agent_notifications_agree agent_news e,
  )
