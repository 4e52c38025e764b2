-- ===== src/Ums/Interfaces/Responses.antt =====
-- ums-generated/generated/index.ts: the interfaces of the responses.
use lp_clients.Base.{List, [], ◌∷◌}
use lp_clients.Platform.Interfaces.{
  TypeDeclaration, interface, must, may, string_type, number_type, literal, literals, reference,
  array_of, union, object_type,
}

-- From `RequestConversationResponse` to `GenericSubscribeResponse`.
unfoldable pub response_interfaces : List TypeDeclaration
response_interfaces =
    interface "RequestConversationResponse" ("IResponseType" ∷ []) (
      must "kind" string_type
      ∷ must "reqId" string_type
      ∷ must "type" string_type
      ∷ must "code" number_type
      ∷ must "body" (object_type (must "conversationId" string_type ∷ []))
      ∷ [])
    ∷ interface "StringResp" ("IResponseType" ∷ []) (
        must "kind" string_type
        ∷ must "reqId" string_type
        ∷ must "type" string_type
        ∷ must "code" number_type
        ∷ must "body" string_type
        ∷ [])
    ∷ interface "PublishEventResponse" ("IResponseType" ∷ []) (
        must "kind" string_type
        ∷ must "reqId" string_type
        ∷ must "type" string_type
        ∷ must "code" number_type
        ∷ must "body" (object_type (may "sequence" number_type ∷ []))
        ∷ [])
    ∷ interface "GenericSubscribeResponse" ("IResponseType" ∷ []) (
        must "kind" string_type
        ∷ must "reqId" string_type
        ∷ must "type" string_type
        ∷ must "code" number_type
        ∷ must "body" (object_type [])
        ∷ [])
    ∷ []

-- From `GetUserProfileResponse` to `CustomerInfo`.
unfoldable pub user_profile_interfaces : List TypeDeclaration
user_profile_interfaces =
    interface "GetUserProfileResponse" ("IResponseType" ∷ []) (
      must "kind" string_type
      ∷ must "reqId" string_type
      ∷ must "type" (literal "up.GetUserProfile$Response")
      ∷ must "code" number_type
      ∷ must "body" (array_of (union (reference "CustomerInfo" ∷ reference "PersonalInfo" ∷ [])))
      ∷ [])
    ∷ interface "CustomerInfo" [] (
        must "type" string_type
        ∷ may "auth" (
            object_type (
              may "amr" (
                array_of (
                  literals (
                    "face" ∷ "fpt" ∷ "geo" ∷ "hwk" ∷ "iris" ∷ "kba" ∷ "mca" ∷ "mfa" ∷ "otp" ∷ "pin"
                    ∷ "pwd" ∷ "rba" ∷ "retina" ∷ "sc" ∷ "sms" ∷ "swk" ∷ "tel" ∷ "user" ∷ "vbm"
                    ∷ "wia" ∷ [])))
              ∷ may "iss" string_type
              ∷ []))
        ∷ must "info" (
            object_type (
              may "cstatus" string_type
              ∷ may "ctype" string_type
              ∷ may "customerId" string_type
              ∷ may "balance" number_type
              ∷ may "socialId" string_type
              ∷ may "imei" string_type
              ∷ may "userName" string_type
              ∷ may "companySize" number_type
              ∷ may "accountName" string_type
              ∷ may "role" string_type
              ∷ may "lastPaymentDate" (
                  object_type (
                    must "day" number_type
                    ∷ must "month" number_type
                    ∷ must "year" number_type
                    ∷ []))
              ∷ may "registrationDate" (
                  object_type (
                    must "day" number_type
                    ∷ must "month" number_type
                    ∷ must "year" number_type
                    ∷ []))
              ∷ []))
        ∷ [])
    ∷ []

-- `PersonalInfo` and `SubscribeExConversationsResponse`.
unfoldable pub personal_info_interfaces : List TypeDeclaration
personal_info_interfaces =
    interface "PersonalInfo" [] (
      must "type" string_type
      ∷ may "auth" (
          object_type (
            may "amr" (
              array_of (
                literals (
                  "face" ∷ "fpt" ∷ "geo" ∷ "hwk" ∷ "iris" ∷ "kba" ∷ "mca" ∷ "mfa" ∷ "otp" ∷ "pin"
                  ∷ "pwd" ∷ "rba" ∷ "retina" ∷ "sc" ∷ "sms" ∷ "swk" ∷ "tel" ∷ "user" ∷ "vbm" ∷ "wia"
                  ∷ [])))
            ∷ may "iss" string_type
            ∷ []))
      ∷ must "personal" (
          object_type (
            may "firstname" string_type
            ∷ may "lastname" string_type
            ∷ may "age" (
                object_type (
                  may "age" number_type
                  ∷ may "year" number_type
                  ∷ may "month" number_type
                  ∷ may "day" number_type
                  ∷ []))
            ∷ may "contacts"
                (array_of (object_type (may "email" string_type ∷ may "phone" string_type ∷ [])))
            ∷ may "gender" (literals ("MALE" ∷ "FEMALE" ∷ "OTHER" ∷ []))
            ∷ may "language" string_type
            ∷ may "company" string_type
            ∷ []))
      ∷ [])
    ∷ interface "SubscribeExConversationsResponse" ("IResponseType" ∷ []) (
        must "kind" string_type
        ∷ must "reqId" string_type
        ∷ must "type" string_type
        ∷ must "code" number_type
        ∷ must "body" (object_type (must "subscriptionId" string_type ∷ []))
        ∷ [])
    ∷ []
