-- ===== src/Ums/Declarations/Requests.antt =====
-- ums-generated/generated/index.ts: the declarations for the requests and the responses.
use lp_clients.Base.{some, List, [], ◌∷◌}
use lp_clients.Generate.Structures.{
  Declaration, type_alias, enum_declaration, interface_declaration, const_statement, Method,
}
use lp_clients.Ums.Declarations.{events_interface, wrapper, interface_method}

-- From `ConsumerRequests` to `ConsumerRequestsTypes`.
unfoldable pub consumer_requests_declarations : List Declaration
consumer_requests_declarations =
    type_alias "ConsumerRequests" []
      "InitConnection | UpdateConversationField | ConsumerRequestConversation | PublishEvent | SubscribeMessagingEvents | SubscribeExConversations | UnsubscribeExConversations"
    ∷ enum_declaration "ConsumerRequestsEvent" (
        ("InitConnection", some "InitConnection")
        ∷ ("UpdateConversationField", some "cm.UpdateConversationField")
        ∷ ("ConsumerRequestConversation", some "cm.ConsumerRequestConversation")
        ∷ ("PublishEvent", some "ms.PublishEvent")
        ∷ ("SubscribeMessagingEvents", some "ms.SubscribeMessagingEvents")
        ∷ ("SubscribeExConversations", some "cqm.SubscribeExConversations")
        ∷ ("UnsubscribeExConversations", some "cqm.UnsubscribeExConversations")
        ∷ [])
    ∷ events_interface "IConsumerRequestsType" [] (
        ("\"InitConnection\"", "InitConnection")
        ∷ ("\"cm.UpdateConversationField\"", "UpdateConversationField")
        ∷ ("\"cm.ConsumerRequestConversation\"", "ConsumerRequestConversation")
        ∷ ("\"ms.PublishEvent\"", "PublishEvent")
        ∷ ("\"ms.SubscribeMessagingEvents\"", "SubscribeMessagingEvents")
        ∷ ("\"cqm.SubscribeExConversations\"", "SubscribeExConversations")
        ∷ ("\"cqm.UnsubscribeExConversations\"", "UnsubscribeExConversations")
        ∷ [])
    ∷ type_alias "ConsumerRequestsType" []
        "\"InitConnection\" | \"cm.UpdateConversationField\" | \"cm.ConsumerRequestConversation\" | \"ms.PublishEvent\" | \"ms.SubscribeMessagingEvents\" | \"cqm.SubscribeExConversations\" | \"cqm.UnsubscribeExConversations\""
    ∷ const_statement (
        (
          "ConsumerRequestsEvents",
          "[\"InitConnection\", \"UpdateConversationField\", \"ConsumerRequestConversation\", \"PublishEvent\", \"SubscribeMessagingEvents\", \"SubscribeExConversations\", \"UnsubscribeExConversations\"]",
        )
        ∷ (
          "ConsumerRequestsTypes",
          "[\"InitConnection\", \"cm.UpdateConversationField\", \"cm.ConsumerRequestConversation\", \"ms.PublishEvent\", \"ms.SubscribeMessagingEvents\", \"cqm.SubscribeExConversations\", \"cqm.UnsubscribeExConversations\"]",
        )
        ∷ [])
    ∷ []

-- The methods of `IConsumerResponsesWrapper`.
abbrev response_methods : List Method
response_methods =
    interface_method "doInitConnection" "data" "Omit<InitConnection, \"type\">"
      "Promise<StringResp>"
    ∷ interface_method "doUpdateConversationField" "data" "Omit<UpdateConversationField, \"type\">"
        "Promise<StringResp>"
    ∷ interface_method "doConsumerRequestConversation" "data"
        "Omit<ConsumerRequestConversation, \"type\">" "Promise<RequestConversationResponse>"
    ∷ interface_method "doPublishEvent" "data" "Omit<PublishEvent, \"type\">"
        "Promise<PublishEventResponse>"
    ∷ interface_method "doSubscribeMessagingEvents" "data"
        "Omit<SubscribeMessagingEvents, \"type\">" "Promise<GenericSubscribeResponse>"
    ∷ interface_method "doSubscribeExConversations" "data"
        "Omit<SubscribeExConversations, \"type\">" "Promise<SubscribeExConversationsResponse>"
    ∷ interface_method "doUnsubscribeExConversations" "data"
        "Omit<UnsubscribeExConversations, \"type\">" "Promise<StringResp>"
    ∷ []

-- From `ConsumerResponses` to `ConsumerResponsesWrapperConstructor`.
unfoldable pub consumer_responses_declarations : List Declaration
consumer_responses_declarations =
    type_alias "ConsumerResponses" []
      "RequestConversationResponse | StringResp | PublishEventResponse | GenericSubscribeResponse | SubscribeExConversationsResponse"
    ∷ enum_declaration "ConsumerResponsesEvent" (
        ("RequestConversationResponse", some "cm.RequestConversationResponse")
        ∷ ("StringResp", some ".ReqBody$StringResp")
        ∷ ("PublishEventResponse", some "ms.PublishEventResponse")
        ∷ ("GenericSubscribeResponse", some "GenericSubscribeResponse")
        ∷ ("SubscribeExConversationsResponse", some "cqm.SubscribeExConversationsResponse")
        ∷ [])
    ∷ events_interface "IConsumerResponsesType" [] (
        ("\"cm.RequestConversationResponse\"", "RequestConversationResponse")
        ∷ ("\".ReqBody$StringResp\"", "StringResp")
        ∷ ("\"ms.PublishEventResponse\"", "PublishEventResponse")
        ∷ ("\"GenericSubscribeResponse\"", "GenericSubscribeResponse")
        ∷ ("\"cqm.SubscribeExConversationsResponse\"", "SubscribeExConversationsResponse")
        ∷ [])
    ∷ type_alias "ConsumerResponsesType" []
        "\"cm.RequestConversationResponse\" | \".ReqBody$StringResp\" | \"ms.PublishEventResponse\" | \"GenericSubscribeResponse\" | \"cqm.SubscribeExConversationsResponse\""
    ∷ const_statement (
        (
          "ConsumerResponsesEvents",
          "[\"RequestConversationResponse\", \"StringResp\", \"PublishEventResponse\", \"GenericSubscribeResponse\", \"SubscribeExConversationsResponse\"]",
        )
        ∷ (
          "ConsumerResponsesTypes",
          "[\"cm.RequestConversationResponse\", \".ReqBody$StringResp\", \"ms.PublishEventResponse\", \"GenericSubscribeResponse\", \"cqm.SubscribeExConversationsResponse\"]",
        )
        ∷ [])
    ∷ interface_declaration (wrapper "IConsumerResponsesWrapper" response_methods)
    ∷ type_alias "ConsumerResponsesConstructor"
        (record { name = "T"; constraint = "ISendHandler<ConsumerRequests, ConsumerResponses>" }
          ∷ [])
        "new(...args: any[]) => T"
    ∷ type_alias "ConsumerResponsesWrapperConstructor" []
        "new(...args: any[]) => IConsumerResponsesWrapper"
    ∷ []

-- From `AgentResponses` to `AgentResponsesTypes`.
unfoldable pub agent_responses_declarations : List Declaration
agent_responses_declarations =
    type_alias "AgentResponses" []
      "RequestConversationResponse | StringResp | PublishEventResponse | GenericSubscribeResponse | GetUserProfileResponse | SubscribeExConversationsResponse"
    ∷ enum_declaration "AgentResponsesEvent" (
        ("RequestConversationResponse", some "cm.RequestConversationResponse")
        ∷ ("StringResp", some ".ReqBody$StringResp")
        ∷ ("PublishEventResponse", some "ms.PublishEventResponse")
        ∷ ("GenericSubscribeResponse", some "GenericSubscribeResponse")
        ∷ ("GetUserProfileResponse", some "up.GetUserProfile$Response")
        ∷ ("SubscribeExConversationsResponse", some "cqm.SubscribeExConversationsResponse")
        ∷ [])
    ∷ events_interface "IAgentResponsesType" [] (
        ("\"cm.RequestConversationResponse\"", "RequestConversationResponse")
        ∷ ("\".ReqBody$StringResp\"", "StringResp")
        ∷ ("\"ms.PublishEventResponse\"", "PublishEventResponse")
        ∷ ("\"GenericSubscribeResponse\"", "GenericSubscribeResponse")
        ∷ ("\"up.GetUserProfile$Response\"", "GetUserProfileResponse")
        ∷ ("\"cqm.SubscribeExConversationsResponse\"", "SubscribeExConversationsResponse")
        ∷ [])
    ∷ type_alias "AgentResponsesType" []
        "\"cm.RequestConversationResponse\" | \".ReqBody$StringResp\" | \"ms.PublishEventResponse\" | \"GenericSubscribeResponse\" | \"up.GetUserProfile$Response\" | \"cqm.SubscribeExConversationsResponse\""
    ∷ const_statement (
        (
          "AgentResponsesEvents",
          "[\"RequestConversationResponse\", \"StringResp\", \"PublishEventResponse\", \"GenericSubscribeResponse\", \"GetUserProfileResponse\", \"SubscribeExConversationsResponse\"]",
        )
        ∷ (
          "AgentResponsesTypes",
          "[\"cm.RequestConversationResponse\", \".ReqBody$StringResp\", \"ms.PublishEventResponse\", \"GenericSubscribeResponse\", \"up.GetUserProfile$Response\", \"cqm.SubscribeExConversationsResponse\"]",
        )
        ∷ [])
    ∷ []
