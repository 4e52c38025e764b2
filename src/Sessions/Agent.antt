-- ===== src/Sessions/Agent.antt =====
-- le-agent-session-provider/src/provider.ts. The library `cookie` is the parameters `parse_cookie`
-- and `serialize`; `stringify` is `JSON.stringify`.
use Prim.Native.String.{◌++◌}
use lp_clients.Base.{
  ◌≡◌, refl, Bool, true, false, some, String, if◌then◌else◌, Task, settled, pure, ◌>>=◌, Result, ok,
  err, type_error, List, [], ◌∷◌,
}
use lp_clients.Platform.Values.{
  property, Value, undefined, null, str, arr, obj, Items, nil, cons, Fields, end, field, get, has,
  assign,
}
use lp_clients.Platform.Values.Objects.{Distinct, get-assign}
use lp_clients.Request.{GotFn, Response, post_request}
use lp_clients.Client.Services.{UserSession, SessionProvider, SessionProviderOptions}
use lp_clients.Sessions.Consumer.{with_service, account_url}

-- `IAgentPasswordCredentials` and `IAgentTokenCredentials`.
pub data AgentCredentials : Type 0 where
  password_credentials : String → String → AgentCredentials
  token_credentials : String → String → String → String → String → AgentCredentials

-- The names are the ones of the parameters of the request.
unfoldable pub credential_fields : AgentCredentials → Fields
credential_fields (password_credentials username password) =
    field "username" (str username) (field "password" (str password) end)
credential_fields (token_credentials username app_key secret access_token access_token_secret) =
    field "username" (str username) (
      field "appKey" (str app_key) (
        field "secret" (str secret) (
          field "accessToken" (str access_token)
            (field "accessTokenSecret" (str access_token_secret) end))))

-- The fields of an object; of another value, none that the code asks for.
abbrev pub fields_of : Value → Fields
fields_of (obj fs) = fs
fields_of _ = end

-- `.map(parse).reduce((obj, entry) => Object.assign(obj, entry), {})` at the texts of the headers.
unfoldable pub merge_cookies : (String → Fields) → List String → Fields → Fields
merge_cookies parse_cookie [] cookies = cookies
merge_cookies parse_cookie (s ∷ ss) cookies =
    merge_cookies parse_cookie ss (assign cookies (parse_cookie s))

-- `headers["set-cookie"] || []`, which Node gives as an array of texts.
unfoldable pub set_cookies : Items → List String
set_cookies nil = []
set_cookies (cons (str s) rest) = s ∷ set_cookies rest
set_cookies (cons _ rest) = set_cookies rest

abbrev pub header_texts : Value → List String
header_texts (arr items) = set_cookies items
header_texts _ = []

-- The last of the values that the cookies give to `k`.
unfoldable pub last_cookie : (String → Fields) → String → List String → Value → Value
last_cookie parse_cookie k [] before = before
last_cookie parse_cookie k (s ∷ ss) before =
    last_cookie parse_cookie k ss
      (if has k (parse_cookie s) then get k (parse_cookie s) else before)

-- Where each header gives distinct names, a cookie has the value of the last header that sets it,
-- and the one of the cookies merged into if there is none.
pub merge_cookies-last :
    (parse_cookie : String → Fields) (k : String) (ss : List String) (cookies : Fields)
    → ((s : String) → Distinct (parse_cookie s))
    → get k (merge_cookies parse_cookie ss cookies) ≡ last_cookie parse_cookie k ss (get k cookies)
unfolding merge_cookies last_cookie
merge_cookies-last parse_cookie k [] cookies d = refl
merge_cookies-last parse_cookie k (s ∷ ss) cookies d =
    rw (merge_cookies-last parse_cookie k ss (assign cookies (parse_cookie s)) d)
      (rw (get-assign k cookies (parse_cookie s) (d s)) refl)

abbrev pub cookie_items : (String → Value → String) → Fields → Items
cookie_items serialize end = nil
cookie_items serialize (field k v fs) = cons (str (serialize k v)) (cookie_items serialize fs)

abbrev pub has_properties : Value → Bool
has_properties undefined = false
has_properties null = false
has_properties _ = true

-- What `login` makes of the answer; `body.bearer` throws at `undefined` and `null`.
unfoldable pub agent_session : (String → Fields) → String → Response → Result UserSession
unfolding merge_cookies set_cookies
agent_session parse_cookie account_id response =
    if has_properties response.body
    then ok (
        field "credentials" response.body (
          field "cookies"
            (obj
              (merge_cookies parse_cookie (header_texts (get "set-cookie" response.headers)) end))
            (field "accountId" (str account_id)
              (field "token" (property "bearer" response.body) end))))
    else err (type_error "Cannot read property 'bearer' of undefined")

module _ {W : Type 0} (send : GotFn → String → Fields → Task W Response)
    (stringify : Fields → String) (parse_cookie : String → Fields)
    (serialize : String → Value → String) where
  -- `doRequest`
  unfoldable pub agent_request :
      Fields → Fields → SessionProviderOptions W → String → Task W Response
  unfolding account_url
  agent_request body cookies options path = do
    domain ← options.csds_resolver.resolve_service (with_service "agentVep" options.csds_config)
    url ← settled (account_url domain options.csds_config.account_id (path ++ "?v=1.3"))
    post_request send url (
        some (
          field "body" (str (stringify body)) (
            field "headers" (obj (field "cookie" (arr (cookie_items serialize cookies)) end)) end)))

  -- `login`; `credentials` is the object that the account and the domain are assigned to.
  unfoldable pub agent_login : Fields → SessionProviderOptions W → Task W UserSession
  unfolding agent_request agent_session
  agent_login credentials options = do
    response ←
        agent_request
          (assign credentials (
            field "accountId" (str options.csds_config.account_id)
              (field "csdsDomain" (str options.csds_config.csds_domain) end)))
          end options "login"
    settled (agent_session parse_cookie options.csds_config.account_id response)

  -- `doSessionRequest`, for `refresh` and `logout`.
  unfoldable pub session_request :
      UserSession → SessionProviderOptions W → String → Task W (Unit {0})
  unfolding agent_request
  session_request session options path = do
    response ←
        agent_request (field "csrf" (property "csrf" (get "credentials" session)) end)
          (fields_of (get "cookies" session)) options path
    pure tt

  unfoldable pub agent_provider : SessionProvider W Fields
  unfolding agent_login session_request
  agent_provider = record {
    login = agent_login;
    refresh = λ session options. session_request session options "refresh";
    logout = λ session options. session_request session options "logout";
  }
