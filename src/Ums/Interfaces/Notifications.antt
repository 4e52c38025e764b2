-- ===== src/Ums/Interfaces/Notifications.antt =====
-- ums-generated/generated/index.ts: the interfaces of the notifications.
use lp_clients.Base.{List, [], ◌∷◌, ◌++◌}
use lp_clients.Platform.Interfaces.{
  TypeDeclaration, interface, must, may, string_type, number_type, boolean_type, literal, literals,
  number_literal, array_of, union, object_type,
}
use lp_clients.Ums.Interfaces.Shared.{
  metadata_type, event_type, action_interfaces, event_interfaces,
}

-- From `MessagingEventNotification` to `AcceptStatusEvent`.
unfoldable pub messaging_event_interfaces : List TypeDeclaration
messaging_event_interfaces =
    (interface "MessagingEventNotification" ("INotificationType" ∷ []) (
        must "kind" string_type
        ∷ must "type" string_type
        ∷ must "body" (
            object_type (
              must "changes" (
                array_of (
                  object_type (
                    must "sequence" number_type
                    ∷ must "originatorId" string_type
                    ∷ may "metadata" (metadata_type "")
                    ∷ must "serverTimestamp" number_type
                    ∷ must "event" (event_type "")
                    ∷ must "dialogId" string_type
                    ∷ [])))
              ∷ []))
        ∷ [])
      ∷ [])
    ++ action_interfaces ""
    ++ event_interfaces ""

-- `ExConversationChangeNotification`
unfoldable pub ex_conversation_change_interfaces : List TypeDeclaration
ex_conversation_change_interfaces =
    interface "ExConversationChangeNotification" ("INotificationType" ∷ []) (
      must "kind" string_type
      ∷ must "type" (literal "cqm.ExConversationChangeNotification")
      ∷ must "body" (
          object_type (
            must "subscriptionId" string_type
            ∷ must "changes" (
                array_of (
                  object_type (
                    must "type" (literals ("UPSERT" ∷ "DELETE" ∷ []))
                    ∷ must "result" (
                        object_type (
                          must "convId" string_type
                          ∷ must "conversationDetails" (
                              object_type (
                                must "participants" (
                                  array_of (
                                    object_type (
                                      may "id" string_type
                                      ∷ may "role" (
                                          literals ("CONSUMER" ∷ "ASSIGNED_AGENT" ∷ "MANAGER" ∷ []))
                                      ∷ [])))
                                ∷ must "state" (literals ("OPEN" ∷ "CLOSE" ∷ []))
                                ∷ must "startTs" number_type
                                ∷ may "endTs" number_type
                                ∷ may "ttr" (
                                    object_type (
                                      must "ttrType" (
                                        literals
                                          ("CUSTOM" ∷ "NORMAL" ∷ "PRIORITIZED" ∷ "URGENT" ∷ []))
                                      ∷ must "value" number_type
                                      ∷ []))
                                ∷ may "delay" (
                                    object_type (
                                      must "type" (literals ("NIGHT" ∷ "WEEKEND" ∷ "HOLIDAY" ∷ []))
                                      ∷ must "tillWhen" number_type
                                      ∷ []))
                                ∷ may "csat" (
                                    object_type (
                                      must "field" (literal "CSATRate")
                                      ∷ must "csatRate" (
                                          union (
                                            number_literal "1"
                                            ∷ number_literal "2"
                                            ∷ number_literal "3"
                                            ∷ number_literal "4"
                                            ∷ number_literal "5"
                                            ∷ []))
                                      ∷ must "csatResolutionConfirmation" boolean_type
                                      ∷ must "status" (
                                          literals ("FILLED" ∷ "PARTIALLY_FILLED" ∷ "SKIPPED" ∷ []))
                                      ∷ []))
                                ∷ may "manualETTR" number_type
                                ∷ []))
                          ∷ must "lastUpdateTime" number_type
                          ∷ []))
                    ∷ [])))
            ∷ []))
      ∷ [])
    ∷ []

-- `RoutingTaskNotification` and `AgentStateNotification`.
unfoldable pub routing_interfaces : List TypeDeclaration
routing_interfaces =
    interface "RoutingTaskNotification" ("INotificationType" ∷ []) (
      must "kind" string_type
      ∷ must "type" (literal "routing.routingTaskNotification")
      ∷ must "body" (
          object_type (
            must "subscriptionId" string_type
            ∷ must "changes" (
                array_of (
                  object_type (
                    must "type" (literals ("DELETE" ∷ "UPSERT" ∷ []))
                    ∷ must "result" (
                        object_type (
                          must "taskCompleted" boolean_type
                          ∷ must "conversationId" string_type
                          ∷ must "consumerId" string_type
                          ∷ must "skillId" string_type
                          ∷ must "ringsDetails" (
                              array_of (
                                object_type (
                                  may "ringId" string_type
                                  ∷ may "ringExpiration" number_type
                                  ∷ must "ringState" (
                                      literals (
                                        "ACCEPTED" ∷ "AUTO_ACCEPT" ∷ "CANCELLED" ∷ "EXPIRED"
                                        ∷ "REJECTED" ∷ "WAITING" ∷ []))
                                  ∷ may "weight" number_type
                                  ∷ [])))
                          ∷ []))
                    ∷ [])))
            ∷ []))
      ∷ [])
    ∷ interface "AgentStateNotification" ("INotificationType" ∷ []) (
        must "kind" string_type
        ∷ must "type" (literal "routing.agentStateNotification")
        ∷ must "body" (
            object_type (
              must "subscriptionId" string_type
              ∷ must "changes" (
                  array_of (
                    object_type (
                      must "type" (literals ("UPSERT" ∷ "DELETE" ∷ []))
                      ∷ must "result" (
                          object_type (
                            must "availability"
                              (literals ("AWAY" ∷ "BACK_SOON" ∷ "OFFLINE" ∷ "ONLINE" ∷ []))
                            ∷ []))
                      ∷ [])))
              ∷ []))
        ∷ [])
    ∷ []

-- From `MessagingEventNotification1` to `AcceptStatusEvent1`: another form of the notification, with
-- a literal type, which no table of events names.
unfoldable pub messaging_event_1_interfaces : List TypeDeclaration
messaging_event_1_interfaces =
    (interface "MessagingEventNotification1" [] (
        must "kind" string_type
        ∷ must "type" (literal "ms.MessagingEventNotification")
        ∷ must "body" (
            object_type (
              must "changes" (
                array_of (
                  object_type (
                    must "sequence" number_type
                    ∷ must "originatorId" string_type
                    ∷ may "metadata" (metadata_type "1")
                    ∷ must "serverTimestamp" number_type
                    ∷ must "event" (event_type "1")
                    ∷ must "dialogId" string_type
                    ∷ [])))
              ∷ []))
        ∷ [])
      ∷ [])
    ++ action_interfaces "1"
    ++ event_interfaces "1"
