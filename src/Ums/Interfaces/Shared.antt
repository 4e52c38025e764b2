-- ===== src/Ums/Interfaces/Shared.antt =====
-- ums-generated/generated/index.ts: the interfaces that several messages share.
use Prim.Native.String.{◌++◌ as ◌+++◌}
use lp_clients.Base.{String, List, [], ◌∷◌}
use lp_clients.Platform.Interfaces.{
  TypeDeclaration, interface, must, may, any_type, string_type, number_type, boolean_type, literal,
  literals, reference, array_of, union, object_type, TsType,
}

-- What a message may tell of its origin: the type of `metadata`.
abbrev pub metadata_type : String → TsType
metadata_type suffix = array_of (
    union (
      reference ("ActionReason" +++ suffix)
      ∷ reference ("BotResponse" +++ suffix)
      ∷ reference ("IbmWatsonInfo" +++ suffix)
      ∷ reference ("ExternalId" +++ suffix)
      ∷ []))

-- The interfaces behind it. The file has a copy of them for each message, which differ by the number
-- behind their names.
unfoldable pub action_interfaces : String → List TypeDeclaration
action_interfaces suffix =
    interface ("ActionReason" +++ suffix) [] (
      must "type" (literal "ActionReason")
      ∷ may "reasonId" string_type
      ∷ may "reason" string_type
      ∷ [])
    ∷ interface ("BotResponse" +++ suffix) [] (
        must "type" (literal "BotResponse")
        ∷ may "externalConversationId" string_type
        ∷ may "businessCases" (array_of string_type)
        ∷ may "intents" (
            array_of (
              object_type (
                may "name" string_type
                ∷ must "id" string_type
                ∷ must "confidence" number_type
                ∷ [])))
        ∷ [])
    ∷ interface ("IbmWatsonInfo" +++ suffix) [] (
        must "type" (literal "IBMWatsonInfo")
        ∷ may "branch_exited" boolean_type
        ∷ may "branch_exited_reason" string_type
        ∷ may "capability" string_type
        ∷ may "nodes_visited" (array_of string_type)
        ∷ may "referred_capability" string_type
        ∷ may "referred_nodes" (array_of string_type)
        ∷ must "referred_visitor_message_sequences" (array_of number_type)
        ∷ may "entities" (
            array_of (
              object_type (
                may "entity" string_type
                ∷ may "location" (array_of number_type)
                ∷ may "value" string_type
                ∷ [])))
        ∷ [])
    ∷ interface ("ExternalId" +++ suffix) []
        (must "type" (literal "ExternalId") ∷ must "id" string_type ∷ [])
    ∷ []

-- The type of `event`.
abbrev pub event_type : String → TsType
event_type suffix = union (
    reference ("TextValue" +++ suffix)
    ∷ reference ("RichContentEvent" +++ suffix)
    ∷ reference ("HostedFile" +++ suffix)
    ∷ reference ("ChatStateEvent" +++ suffix)
    ∷ reference ("AcceptStatusEvent" +++ suffix)
    ∷ [])

-- The interfaces behind it, which are copied likewise.
unfoldable pub event_interfaces : String → List TypeDeclaration
event_interfaces suffix =
    interface ("TextValue" +++ suffix) []
      (must "type" string_type ∷ must "contentType" string_type ∷ must "message" string_type ∷ [])
    ∷ interface ("RichContentEvent" +++ suffix) [] (
        must "type" (literal "RichContentEvent")
        ∷ may "content" (reference ("Element" +++ suffix))
        ∷ [])
    ∷ interface ("Element" +++ suffix) [] []
    ∷ interface ("HostedFile" +++ suffix) [] (
        must "type" string_type
        ∷ must "contentType" string_type
        ∷ must "message" (
            object_type (
              must "caption" string_type
              ∷ must "relativePath" string_type
              ∷ must "fileType" (literals ("IMG" ∷ "JPG" ∷ "PNG" ∷ "GIF" ∷ "TXT" ∷ "PDF" ∷ []))
              ∷ may "preview" any_type
              ∷ []))
        ∷ [])
    ∷ interface ("ChatStateEvent" +++ suffix) [] (
        must "type" string_type
        ∷ must "chatState" (literals ("ACTIVE" ∷ "INACTIVE" ∷ "GONE" ∷ "COMPOSING" ∷ "PAUSE" ∷ []))
        ∷ [])
    ∷ interface ("AcceptStatusEvent" +++ suffix) [] (
        must "type" string_type
        ∷ must "status" (literals ("ACCEPT" ∷ "READ" ∷ "ACCESS" ∷ "NACK" ∷ "ACTION" ∷ []))
        ∷ must "sequenceList" (array_of number_type)
        ∷ [])
    ∷ []

-- The interfaces that the build script adds before the others: `ITyped` and those that extend it.
unfoldable pub typing_interfaces : List TypeDeclaration
typing_interfaces =
    interface "ITyped" [] (must "type" string_type ∷ [])
    ∷ interface "ISendType" ("ITyped" ∷ []) (must "id" string_type ∷ [])
    ∷ interface "IResponseType" ("ITyped" ∷ []) (must "reqId" string_type ∷ [])
    ∷ interface "INotificationType" ("ITyped" ∷ []) []
    ∷ []
