-- ===== src/Ums/Interfaces/Schema.antt =====
-- ums-generated/generated/index.ts: all interfaces of the messages, and what a value that has one of
-- them carries.
use lp_clients.Base.{Bool, is_some, List, [], ◌∷◌, ◌++◌, String}
use lp_clients.Platform.Values.{Value}
use lp_clients.Platform.Interfaces.{TypeDeclaration, find_declaration, fits_within}
use lp_clients.Ums.Interfaces.Shared.{typing_interfaces, action_interfaces, event_interfaces}
use lp_clients.Ums.Interfaces.Notifications.{
  messaging_event_interfaces, ex_conversation_change_interfaces, routing_interfaces,
  messaging_event_1_interfaces,
}
use lp_clients.Ums.Interfaces.Responses.{
  response_interfaces, user_profile_interfaces, personal_info_interfaces,
}
use lp_clients.Ums.Interfaces.Requests.{
  init_connection_interfaces, update_conversation_field_interfaces, request_conversation_interfaces,
  publish_event_interfaces, subscribe_messaging_interfaces, subscribe_conversations_interfaces,
  unsubscribe_conversations_interfaces,
}

-- `UmsSchema`, a union of interfaces.
unfoldable pub ums_schema : List String
ums_schema =
    "MessagingEventNotification" ∷ "ExConversationChangeNotification" ∷ "RoutingTaskNotification"
    ∷ "AgentStateNotification" ∷ "RequestConversationResponse" ∷ "StringResp"
    ∷ "PublishEventResponse" ∷ "GenericSubscribeResponse" ∷ "GetUserProfileResponse"
    ∷ "SubscribeExConversationsResponse" ∷ "MessagingEventNotification1" ∷ "InitConnection"
    ∷ "UpdateConversationField" ∷ "ConsumerRequestConversation" ∷ "PublishEvent"
    ∷ "SubscribeMessagingEvents" ∷ "SubscribeExConversations" ∷ "UnsubscribeExConversations" ∷ []

-- The interfaces in the order of the file.
unfoldable pub ums_interfaces : List TypeDeclaration
unfolding messaging_event_interfaces ex_conversation_change_interfaces routing_interfaces
    messaging_event_1_interfaces response_interfaces user_profile_interfaces
    personal_info_interfaces init_connection_interfaces update_conversation_field_interfaces
    request_conversation_interfaces publish_event_interfaces subscribe_messaging_interfaces
    subscribe_conversations_interfaces unsubscribe_conversations_interfaces typing_interfaces
    action_interfaces event_interfaces
ums_interfaces =
    messaging_event_interfaces ++ ex_conversation_change_interfaces ++ routing_interfaces
    ++ response_interfaces ++ user_profile_interfaces ++ personal_info_interfaces
    ++ messaging_event_1_interfaces ++ init_connection_interfaces
    ++ update_conversation_field_interfaces ++ request_conversation_interfaces
    ++ publish_event_interfaces ++ subscribe_messaging_interfaces
    ++ subscribe_conversations_interfaces ++ unsubscribe_conversations_interfaces
    ++ typing_interfaces

-- No chain of references in the file is longer than three interfaces.
unfoldable pub fits_interface : String → Value → Bool
unfolding fits_within ums_interfaces
fits_interface = fits_within ums_interfaces 3

abbrev name_of : TypeDeclaration → String
name_of d = d.name

-- The file declares an interface of the name.
abbrev pub is_declared : String → Bool
is_declared name = is_some (find_declaration name ums_interfaces)
