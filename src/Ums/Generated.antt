-- ===== src/Ums/Generated.antt =====
-- ums-generated/generated/index.ts: the names of the events, their types on the wire, and the
-- wrappers of the notification handlers.
use lp_clients.Base.{ℕ, List, [], ◌∷◌, String, Task}

-- `ConsumerRequestsEvent`
pub data RequestEvent : Type 0 where
  init_connection update_conversation_field consumer_request_conversation publish_event
        subscribe_messaging_events subscribe_ex_conversations unsubscribe_ex_conversations :
      RequestEvent

-- `AgentResponsesEvent`, of which `ConsumerResponsesEvent` lacks `get_user_profile_response`.
pub data ResponseEvent : Type 0 where
  request_conversation_response string_resp publish_event_response generic_subscribe_response
        get_user_profile_response subscribe_ex_conversations_response :
      ResponseEvent

-- `AgentNotificationsEvent`, of which `ConsumerNotificationsEvent` has the first two.
pub data NotificationEvent : Type 0 where
  messaging_event_notification ex_conversation_change_notification routing_task_notification
        agent_state_notification :
      NotificationEvent

unfoldable pub request_type : RequestEvent → String
request_type init_connection = "InitConnection"
request_type update_conversation_field = "cm.UpdateConversationField"
request_type consumer_request_conversation = "cm.ConsumerRequestConversation"
request_type publish_event = "ms.PublishEvent"
request_type subscribe_messaging_events = "ms.SubscribeMessagingEvents"
request_type subscribe_ex_conversations = "cqm.SubscribeExConversations"
request_type unsubscribe_ex_conversations = "cqm.UnsubscribeExConversations"

unfoldable pub response_type : ResponseEvent → String
response_type request_conversation_response = "cm.RequestConversationResponse"
response_type string_resp = ".ReqBody$StringResp"
response_type publish_event_response = "ms.PublishEventResponse"
response_type generic_subscribe_response = "GenericSubscribeResponse"
response_type get_user_profile_response = "up.GetUserProfile$Response"
response_type subscribe_ex_conversations_response = "cqm.SubscribeExConversationsResponse"

unfoldable pub notification_type : NotificationEvent → String
notification_type messaging_event_notification = "ms.MessagingEventNotification"
notification_type ex_conversation_change_notification = "cqm.ExConversationChangeNotification"
notification_type routing_task_notification = "routing.routingTaskNotification"
notification_type agent_state_notification = "routing.agentStateNotification"

-- The names of the members of `ConsumerRequestsEvent` and `AgentResponsesEvent`.
unfoldable pub request_name : RequestEvent → String
request_name init_connection = "InitConnection"
request_name update_conversation_field = "UpdateConversationField"
request_name consumer_request_conversation = "ConsumerRequestConversation"
request_name publish_event = "PublishEvent"
request_name subscribe_messaging_events = "SubscribeMessagingEvents"
request_name subscribe_ex_conversations = "SubscribeExConversations"
request_name unsubscribe_ex_conversations = "UnsubscribeExConversations"

unfoldable pub response_name : ResponseEvent → String
response_name request_conversation_response = "RequestConversationResponse"
response_name string_resp = "StringResp"
response_name publish_event_response = "PublishEventResponse"
response_name generic_subscribe_response = "GenericSubscribeResponse"
response_name get_user_profile_response = "GetUserProfileResponse"
response_name subscribe_ex_conversations_response = "SubscribeExConversationsResponse"

-- The names of the members of `AgentNotificationsEvent`, and of the interfaces of these notifications.
unfoldable pub notification_name : NotificationEvent → String
notification_name messaging_event_notification = "MessagingEventNotification"
notification_name ex_conversation_change_notification = "ExConversationChangeNotification"
notification_name routing_task_notification = "routingTaskNotification"
notification_name agent_state_notification = "agentStateNotification"

unfoldable pub notification_interface : NotificationEvent → String
notification_interface messaging_event_notification = "MessagingEventNotification"
notification_interface ex_conversation_change_notification = "ExConversationChangeNotification"
notification_interface routing_task_notification = "RoutingTaskNotification"
notification_interface agent_state_notification = "AgentStateNotification"

-- `ConsumerRequestsEvents` and the lists like it, by event.
abbrev pub consumer_requests : List RequestEvent
consumer_requests =
    init_connection ∷ update_conversation_field ∷ consumer_request_conversation ∷ publish_event
    ∷ subscribe_messaging_events ∷ subscribe_ex_conversations ∷ unsubscribe_ex_conversations ∷ []

abbrev pub consumer_responses : List ResponseEvent
consumer_responses =
    request_conversation_response ∷ string_resp ∷ publish_event_response
    ∷ generic_subscribe_response ∷ subscribe_ex_conversations_response ∷ []

abbrev pub agent_responses : List ResponseEvent
agent_responses =
    request_conversation_response ∷ string_resp ∷ publish_event_response
    ∷ generic_subscribe_response ∷ get_user_profile_response ∷ subscribe_ex_conversations_response
    ∷ []

abbrev pub consumer_notifications : List NotificationEvent
consumer_notifications = messaging_event_notification ∷ ex_conversation_change_notification ∷ []

abbrev pub agent_notifications : List NotificationEvent
agent_notifications =
    messaging_event_notification ∷ ex_conversation_change_notification ∷ routing_task_notification
    ∷ agent_state_notification ∷ []

-- The response that the service documents for a request, as `IConsumerResponsesWrapper` types it.
unfoldable pub response_of : RequestEvent → ResponseEvent
response_of init_connection = string_resp
response_of update_conversation_field = string_resp
response_of consumer_request_conversation = request_conversation_response
response_of publish_event = publish_event_response
response_of subscribe_messaging_events = generic_subscribe_response
response_of subscribe_ex_conversations = subscribe_ex_conversations_response
response_of unsubscribe_ex_conversations = string_resp

-- `INotificationHandler`, over the state of its object: the callbacks are known by numbers.
pub record NotificationHandler (O : Type 0) : Type 0 where
  pub on_notification : String → ℕ → Task O (Unit {0})

-- `ConsumerNotificationsWrapper`, of a class `Base`.
pub record ConsumerWrapper (O : Type 0) : Type 0 where
  pub on_messaging_event_notification : ℕ → Task O (Unit {0})
  pub on_ex_conversation_change_notification : ℕ → Task O (Unit {0})

-- `AgentNotificationsWrapper`
pub record AgentWrapper (O : Type 0) : Type 0 where
  pub on_messaging_event_notification : ℕ → Task O (Unit {0})
  pub on_ex_conversation_change_notification : ℕ → Task O (Unit {0})
  pub on_routing_task_notification : ℕ → Task O (Unit {0})
  pub on_agent_state_notification : ℕ → Task O (Unit {0})

module _ {O : Type 0} where
  unfoldable pub wrap_consumer_notifications : NotificationHandler O → ConsumerWrapper O
  unfolding notification_type
  wrap_consumer_notifications base = record {
    on_messaging_event_notification =
        base.on_notification (notification_type messaging_event_notification);
    on_ex_conversation_change_notification =
        base.on_notification (notification_type ex_conversation_change_notification);
  }

  unfoldable pub wrap_agent_notifications : NotificationHandler O → AgentWrapper O
  unfolding notification_type
  wrap_agent_notifications base = record {
    on_messaging_event_notification =
        base.on_notification (notification_type messaging_event_notification);
    on_ex_conversation_change_notification =
        base.on_notification (notification_type ex_conversation_change_notification);
    on_routing_task_notification =
        base.on_notification (notification_type routing_task_notification);
    on_agent_state_notification = base.on_notification (notification_type agent_state_notification);
  }
