-- ===== src/Sessions/Interfaces.antt =====
-- le-agent-session-provider/src/provider.ts, le-session-provider/src/provider.ts: the interfaces of
-- an agent's session. All extend JsonObject of util-types, which every JSON object has.
use lp_clients.Base.{ℕ, Bool, String, List, [], ◌∷◌}
use lp_clients.Platform.Values.{Value}
use lp_clients.Platform.Interfaces.{
  TypeDeclaration, interface, must, string_type, number_type, boolean_type, reference, array_of,
  dictionary, fits_within,
}

-- `IUserSession`
abbrev pub user_session_interface : TypeDeclaration
user_session_interface =
    interface "IUserSession" ("JsonObject" ∷ [])
      (must "accountId" string_type ∷ must "token" string_type ∷ [])

-- From `IAgentLoginConfig` to `IAgentSession`.
unfoldable pub agent_interfaces : List TypeDeclaration
agent_interfaces =
    interface "IAgentLoginConfig" ("JsonObject" ∷ []) (
      must "loginName" string_type
      ∷ must "userId" string_type
      ∷ must "userPid" string_type
      ∷ must "userPrivileges" (array_of number_type)
      ∷ must "serverCurrentTime" number_type
      ∷ must "timeDiff" number_type
      ∷ must "serverTimeZoneName" string_type
      ∷ must "serverTimeGMTDiff" number_type
      ∷ must "isLPA" boolean_type
      ∷ must "isAdmin" boolean_type
      ∷ must "accountTimeZoneId" string_type
      ∷ [])
    ∷ interface "IBaseURI" ("JsonObject" ∷ [])
        (must "account" string_type ∷ must "baseURI" string_type ∷ must "service" string_type ∷ [])
    ∷ interface "ICsdsCollectionResponse" ("JsonObject" ∷ [])
        (must "baseURIs" (array_of (reference "IBaseURI")) ∷ [])
    ∷ interface "IAgentLoginAgentGroupsDataItem" ("JsonObject" ∷ [])
        (must "id" number_type ∷ must "deleted" boolean_type ∷ must "name" string_type ∷ [])
    ∷ interface "IAgentLoginAgentGroupsData" ("JsonObject" ∷ []) (
        must "items" (array_of (reference "IAgentLoginAgentGroupsDataItem"))
        ∷ must "revision" number_type
        ∷ [])
    ∷ interface "IAgentLoginAccountData" ("JsonObject" ∷ [])
        (must "agentGroupsData" (reference "IAgentLoginAgentGroupsData") ∷ [])
    ∷ interface "IAgentLoginCredentials" ("JsonObject" ∷ []) (
        must "csrf" string_type
        ∷ must "wsuk" number_type
        ∷ must "config" (reference "IAgentLoginConfig")
        ∷ must "csdsCollectionResponse" (reference "ICsdsCollectionResponse")
        ∷ must "accountData" (reference "IAgentLoginAccountData")
        ∷ must "sessionTTl" string_type
        ∷ must "bearer" string_type
        ∷ [])
    ∷ interface "IAgentSession" ("IUserSession" ∷ []) (
        must "credentials" (reference "IAgentLoginCredentials")
        ∷ must "cookies" (dictionary string_type)
        ∷ [])
    ∷ user_session_interface
    ∷ interface "JsonObject" [] []
    ∷ []

-- The longest chain of references is from `IAgentSession` over the credentials, the account data,
-- the groups and a group to JsonObject.
unfoldable pub fits_agent : ℕ → String → Value → Bool
unfolding fits_within agent_interfaces
fits_agent = fits_within agent_interfaces
