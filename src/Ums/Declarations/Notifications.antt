-- ===== src/Ums/Declarations/Notifications.antt =====
-- ums-generated/generated/index.ts: the declarations for the notifications.
use lp_clients.Base.{some, List, [], ◌∷◌, map}
use lp_clients.Generate.Structures.{
  Declaration, type_alias, enum_declaration, interface_declaration, const_statement,
  function_declaration, Method,
}
use lp_clients.Ums.Declarations.{events_interface, wrapper, wrapper_method, wrapped, signature}

-- The methods of `ConsumerNotificationsWrapper`.
abbrev consumer_notification_methods : List Method
consumer_notification_methods =
    wrapper_method "onMessagingEventNotification" "cb"
      "(notification: MessagingEventNotification) => void"
      "this.onNotification(ConsumerNotificationsEvent.MessagingEventNotification, cb);" "void"
    ∷ wrapper_method "onExConversationChangeNotification" "cb"
        "(notification: ExConversationChangeNotification) => void"
        "this.onNotification(ConsumerNotificationsEvent.ExConversationChangeNotification, cb);"
        "void"
    ∷ []

-- From `ConsumerNotifications` to `wrapConsumerNotifications`.
unfoldable pub consumer_notifications_declarations : List Declaration
consumer_notifications_declarations =
    type_alias "ConsumerNotifications" []
      "MessagingEventNotification | ExConversationChangeNotification"
    ∷ enum_declaration "ConsumerNotificationsEvent" (
        ("MessagingEventNotification", some "ms.MessagingEventNotification")
        ∷ ("ExConversationChangeNotification", some "cqm.ExConversationChangeNotification")
        ∷ [])
    ∷ events_interface "IConsumerNotificationsType"
        ("INotificationsType<ConsumerNotifications>" ∷ [])
        (("\"ms.MessagingEventNotification\"", "MessagingEventNotification")
          ∷ ("\"cqm.ExConversationChangeNotification\"", "ExConversationChangeNotification")
          ∷ [])
    ∷ type_alias "ConsumerNotificationsType" []
        "\"ms.MessagingEventNotification\" | \"cqm.ExConversationChangeNotification\""
    ∷ const_statement (
        (
          "ConsumerNotificationsEvents",
          "[\"MessagingEventNotification\", \"ExConversationChangeNotification\"]",
        )
        ∷ (
          "ConsumerNotificationsTypes",
          "[\"ms.MessagingEventNotification\", \"cqm.ExConversationChangeNotification\"]",
        )
        ∷ [])
    ∷ type_alias "ConsumerNotificationsConstructor"
        (record {
          name = "T";
          constraint = "INotificationHandler<IConsumerNotificationsType, ConsumerNotifications>";
        }
          ∷ [])
        "new(...args: any[]) => T"
    ∷ type_alias "ConsumerNotificationsWrapperConstructor" []
        "new(...args: any[]) => IConsumerNotificationsWrapper"
    ∷ interface_declaration
        (wrapper "IConsumerNotificationsWrapper" (map signature consumer_notification_methods))
    ∷ function_declaration (
        wrapped "wrapConsumerNotifications"
          "ConsumerNotificationsConstructor<INotificationHandler<IConsumerNotificationsType, ConsumerNotifications>>"
          "T & ConsumerNotificationsWrapperConstructor" "ConsumerNotificationsWrapper"
          "IConsumerNotificationsWrapper" "return ConsumerNotificationsWrapper;"
          consumer_notification_methods)
    ∷ []

-- The methods of `AgentNotificationsWrapper`.
abbrev agent_notification_methods : List Method
agent_notification_methods =
    wrapper_method "onMessagingEventNotification" "cb"
      "(notification: MessagingEventNotification) => void"
      "this.onNotification(AgentNotificationsEvent.MessagingEventNotification, cb);" "void"
    ∷ wrapper_method "onExConversationChangeNotification" "cb"
        "(notification: ExConversationChangeNotification) => void"
        "this.onNotification(AgentNotificationsEvent.ExConversationChangeNotification, cb);" "void"
    ∷ wrapper_method "onRoutingTaskNotification" "cb"
        "(notification: RoutingTaskNotification) => void"
        "this.onNotification(AgentNotificationsEvent.routingTaskNotification, cb);" "void"
    ∷ wrapper_method "onAgentStateNotification" "cb"
        "(notification: AgentStateNotification) => void"
        "this.onNotification(AgentNotificationsEvent.agentStateNotification, cb);" "void"
    ∷ []

-- From `AgentNotifications` to `wrapAgentNotifications`.
unfoldable pub agent_notifications_declarations : List Declaration
agent_notifications_declarations =
    type_alias "AgentNotifications" []
      "MessagingEventNotification | ExConversationChangeNotification | RoutingTaskNotification | AgentStateNotification"
    ∷ enum_declaration "AgentNotificationsEvent" (
        ("MessagingEventNotification", some "ms.MessagingEventNotification")
        ∷ ("ExConversationChangeNotification", some "cqm.ExConversationChangeNotification")
        ∷ ("routingTaskNotification", some "routing.routingTaskNotification")
        ∷ ("agentStateNotification", some "routing.agentStateNotification")
        ∷ [])
    ∷ events_interface "IAgentNotificationsType" ("INotificationsType<AgentNotifications>" ∷ []) (
        ("\"ms.MessagingEventNotification\"", "MessagingEventNotification")
        ∷ ("\"cqm.ExConversationChangeNotification\"", "ExConversationChangeNotification")
        ∷ ("\"routing.routingTaskNotification\"", "RoutingTaskNotification")
        ∷ ("\"routing.agentStateNotification\"", "AgentStateNotification")
        ∷ [])
    ∷ type_alias "AgentNotificationsType" []
        "\"ms.MessagingEventNotification\" | \"cqm.ExConversationChangeNotification\" | \"routing.routingTaskNotification\" | \"routing.agentStateNotification\""
    ∷ const_statement (
        (
          "AgentNotificationsEvents",
          "[\"MessagingEventNotification\", \"ExConversationChangeNotification\", \"routingTaskNotification\", \"agentStateNotification\"]",
        )
        ∷ (
          "AgentNotificationsTypes",
          "[\"ms.MessagingEventNotification\", \"cqm.ExConversationChangeNotification\", \"routing.routingTaskNotification\", \"routing.agentStateNotification\"]",
        )
        ∷ [])
    ∷ type_alias "AgentNotificationsConstructor"
        (record {
          name = "T";
          constraint = "INotificationHandler<IAgentNotificationsType, AgentNotifications>";
        }
          ∷ [])
        "new(...args: any[]) => T"
    ∷ type_alias "AgentNotificationsWrapperConstructor" []
        "new(...args: any[]) => IAgentNotificationsWrapper"
    ∷ interface_declaration
        (wrapper "IAgentNotificationsWrapper" (map signature agent_notification_methods))
    ∷ function_declaration (
        wrapped "wrapAgentNotifications"
          "AgentNotificationsConstructor<INotificationHandler<IAgentNotificationsType, AgentNotifications>>"
          "T & AgentNotificationsWrapperConstructor" "AgentNotificationsWrapper"
          "IAgentNotificationsWrapper" "return AgentNotificationsWrapper;"
          agent_notification_methods)
    ∷ []
