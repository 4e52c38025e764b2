-- ===== src/Ums/Interfaces/Requests.antt =====
-- ums-generated/generated/index.ts: the interfaces of the requests.
use lp_clients.Base.{List, [], ◌∷◌, ◌++◌}
use lp_clients.Platform.Interfaces.{
  TypeDeclaration, interface, must, may, string_type, number_type, boolean_type, literal, literals,
  number_literal, reference, array_of, union, object_type,
}
use lp_clients.Ums.Interfaces.Shared.{
  metadata_type, event_type, action_interfaces, event_interfaces,
}

-- From `InitConnection` to `ConsumerAuthentication`.
unfoldable pub init_connection_interfaces : List TypeDeclaration
init_connection_interfaces =
    (interface "InitConnection" ("ISendType" ∷ []) (
        may "kind" string_type
        ∷ must "id" string_type
        ∷ must "type" (literal "InitConnection")
        ∷ may "metadata" (metadata_type "2")
        ∷ must "headers" (
            array_of
              (union (reference "ClientProperties" ∷ reference "ConsumerAuthentication" ∷ [])))
        ∷ [])
      ∷ [])
    ++ action_interfaces "2"
    ++ (interface "ClientProperties" [] (
          must "type" (literal ".ams.headers.ClientProperties")
          ∷ may "appId" string_type
          ∷ may "appVersion" string_type
          ∷ may "ipAddress" string_type
          ∷ may "deviceFamily" (literals ("DESKTOP" ∷ "TABLET" ∷ "MOBILE" ∷ "OTHER" ∷ []))
          ∷ may "os" (literals ("WINDOWS" ∷ "LINUX" ∷ "OSX" ∷ "ANDROID" ∷ "IOS" ∷ "OTHER" ∷ []))
          ∷ may "osVersion" string_type
          ∷ may "osName" string_type
          ∷ may "integration" (literals ("WEB_SDK" ∷ "MOBILE_SDK" ∷ "BRAND_SDK" ∷ []))
          ∷ may "integrationVersion" string_type
          ∷ may "browser" string_type
          ∷ may "browserVersion" string_type
          ∷ may "timeZone" string_type
          ∷ may "deviceManufacture" string_type
          ∷ may "deviceModel" string_type
          ∷ may "features" (
              array_of (
                literals (
                  "CO_BROWSE" ∷ "CO_APP" ∷ "PHOTO_SHARING" ∷ "SECURE_FORMS" ∷ "AUTO_MESSAGES"
                  ∷ "RICH_CONTENT" ∷ [])))
          ∷ [])
        ∷ interface "ConsumerAuthentication" [] (
            must "type" (literal ".ams.headers.ConsumerAuthentication")
            ∷ must "jwt" string_type
            ∷ [])
        ∷ [])

-- From `UpdateConversationField` to `CsatChange`.
unfoldable pub update_conversation_field_interfaces : List TypeDeclaration
update_conversation_field_interfaces =
    (interface "UpdateConversationField" ("ISendType" ∷ []) (
        may "kind" string_type
        ∷ must "id" string_type
        ∷ must "type" (literal "cm.UpdateConversationField")
        ∷ may "metadata" (metadata_type "3")
        ∷ must "body" (
            object_type (
              must "conversationId" string_type
              ∷ must "conversationField" (
                  array_of (
                    union (
                      reference "StateChange"
                      ∷ reference "ParticipantsChangeForAgents"
                      ∷ reference "SkillChange"
                      ∷ reference "TtrChange"
                      ∷ reference "CsatChange"
                      ∷ [])))
              ∷ []))
        ∷ [])
      ∷ [])
    ++ action_interfaces "3"
    ++ (interface "StateChange" [] (
          must "field" (literal "ConversationStateField")
          ∷ must "conversationState" (literal "CLOSE")
          ∷ [])
        ∷ interface "ParticipantsChangeForAgents" [] (
            must "field" (literal "ParticipantsChange")
            ∷ must "type" (literals ("ADD" ∷ "REMOVE" ∷ "UPDATE" ∷ []))
            ∷ must "role" (literals ("MANAGER" ∷ "READER" ∷ "ASSIGNED_AGENT" ∷ []))
            ∷ [])
        ∷ interface "SkillChange" [] (
            must "field" (literal "Skill")
            ∷ must "type" (literal "UPDATE")
            ∷ must "skill" string_type
            ∷ [])
        ∷ interface "TtrChange" [] (
            must "field" (literal "TTRField")
            ∷ must "ttrType" (literals ("CUSTOM" ∷ "NORMAL" ∷ "PRIORITIZED" ∷ "URGENT" ∷ []))
            ∷ must "value" number_type
            ∷ [])
        ∷ interface "CsatChange" [] (
            must "field" (literal "CSATRate")
            ∷ must "csatRate" (
                union (
                  number_literal "1"
                  ∷ number_literal "2"
                  ∷ number_literal "3"
                  ∷ number_literal "4"
                  ∷ number_literal "5"
                  ∷ []))
            ∷ must "csatResolutionConfirmation" boolean_type
            ∷ must "status" (literals ("FILLED" ∷ "PARTIALLY_FILLED" ∷ "SKIPPED" ∷ []))
            ∷ [])
        ∷ [])

-- From `ConsumerRequestConversation` to `ExternalId4`.
unfoldable pub request_conversation_interfaces : List TypeDeclaration
request_conversation_interfaces =
    (interface "ConsumerRequestConversation" ("ISendType" ∷ []) (
        may "kind" string_type
        ∷ must "id" string_type
        ∷ must "type" (literal "cm.ConsumerRequestConversation")
        ∷ may "metadata" (metadata_type "4")
        ∷ [])
      ∷ [])
    ++ action_interfaces "4"

-- From `PublishEvent` to `AcceptStatusEvent2`.
unfoldable pub publish_event_interfaces : List TypeDeclaration
publish_event_interfaces =
    (interface "PublishEvent" ("ISendType" ∷ []) (
        may "kind" string_type
        ∷ must "id" string_type
        ∷ must "type" (literal "ms.PublishEvent")
        ∷ may "metadata" (metadata_type "5")
        ∷ must "body"
            (object_type (must "dialogId" string_type ∷ must "event" (event_type "2") ∷ []))
        ∷ [])
      ∷ [])
    ++ action_interfaces "5"
    ++ event_interfaces "2"

-- From `SubscribeMessagingEvents` to `ExternalId6`.
unfoldable pub subscribe_messaging_interfaces : List TypeDeclaration
subscribe_messaging_interfaces =
    (interface "SubscribeMessagingEvents" ("ISendType" ∷ []) (
        may "kind" string_type
        ∷ must "id" string_type
        ∷ must "type" (literal "ms.SubscribeMessagingEvents")
        ∷ may "metadata" (metadata_type "6")
        ∷ must "body" (object_type (may "fromSeq" number_type ∷ must "dialogId" string_type ∷ []))
        ∷ [])
      ∷ [])
    ++ action_interfaces "6"

-- From `SubscribeExConversations` to `ExternalId7`.
unfoldable pub subscribe_conversations_interfaces : List TypeDeclaration
subscribe_conversations_interfaces =
    (interface "SubscribeExConversations" ("ISendType" ∷ []) (
        may "kind" string_type
        ∷ must "id" string_type
        ∷ must "type" (literal "cqm.SubscribeExConversations")
        ∷ may "metadata" (metadata_type "7")
        ∷ may "body" (
            object_type (
              may "minLastUpdatedTime" number_type
              ∷ may "convState" (array_of (literals ("OPEN" ∷ "CLOSE" ∷ [])))
              ∷ []))
        ∷ [])
      ∷ [])
    ++ action_interfaces "7"

-- From `UnsubscribeExConversations` to `ExternalId8`.
unfoldable pub unsubscribe_conversations_interfaces : List TypeDeclaration
unsubscribe_conversations_interfaces =
    (interface "UnsubscribeExConversations" ("ISendType" ∷ []) (
        may "kind" string_type
        ∷ must "id" string_type
        ∷ must "type" (literal "cqm.UnsubscribeExConversations")
        ∷ may "metadata" (metadata_type "8")
        ∷ must "body" (object_type (must "subscriptionId" string_type ∷ []))
        ∷ [])
      ∷ [])
    ++ action_interfaces "8"
