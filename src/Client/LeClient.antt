-- ===== src/Client/LeClient.antt =====
-- le-client/src/client.ts
use Prim.Native.String.{◌++◌}
use lp_clients.Base.{
  Option, none, some, String, Task, settled, Result, ok, err, type_error, pure, modify, gets, ◌>>=◌,
  ◌>>◌,
}
use lp_clients.Platform.Values.{Value, str, arr, obj, Fields, end, field, get, set, assign, to_text}
use lp_clients.Request.{GotFn, Response, request}
use lp_clients.Client.Services.{ClientConfig, UserSession, provider_options}
use lp_clients.Client.State.{Client, call}
use lp_clients.Client.CsdsClient.{check_started, csds_on_start, csds_on_stop, csds_on_refresh}

-- `this.credentials.token`, as the template turns it into text.
abbrev token_text : Option UserSession → Result String
token_text none = err (type_error "Cannot read property 'token' of undefined")
token_text (some session) = to_text (get "token" session)

-- `opts.headers.Authorization = …`. A list of headers is passed on as it is: a name that is set
-- on it is no element of it.
abbrev pub authorize : String → Value → Result Value
authorize t (obj headers) = ok (obj (set "Authorization" (str t) headers))
authorize t (arr headers) = ok (arr headers)
authorize t _ = err (type_error "Cannot create property 'Authorization'")

module _ {W : Type 0} where
  -- The getter `credentials`: what it returns is `undefined` where the field is not set.
  unfoldable pub credentials : Task (Client W) (Option UserSession)
  unfolding check_started
  credentials = do check_started; gets (λ c. c.le_session)

  unfoldable pub authenticated_request :
      (GotFn → String → Fields → Task W Response) → String → Fields → Task (Client W) Response
  unfolding credentials check_started
  authenticated_request send url options = do
    check_started
    let opts : Fields = assign (field "headers" (obj end) end) options
    session ← credentials
    token ← settled (token_text session)
    headers ← settled (authorize ("Bearer " ++ token) (get "headers" opts))
    call (request send url (set "headers" headers opts))

module _ {W Credentials SendType TransportConfig : Type 0}
    (config : ClientConfig W Credentials SendType TransportConfig) where
  abbrev pub refresh_session : Option UserSession → Task (Client W) (Unit {0})
  refresh_session none = pure tt
  refresh_session (some session) =
      call (config.session_provider.refresh session (provider_options config))

  abbrev pub logout_session : Option UserSession → Task (Client W) (Unit {0})
  logout_session none = pure tt
  logout_session (some session) =
      call (config.session_provider.logout session (provider_options config))

  unfoldable pub le_on_refresh : Task (Client W) (Unit {0})
  unfolding csds_on_refresh
  le_on_refresh = do
    csds_on_refresh config
    session ← gets (λ c. c.le_session)
    refresh_session session

  unfoldable pub le_on_start : Task (Client W) (Unit {0}) → Task (Client W) (Unit {0})
  unfolding csds_on_start
  le_on_start on_refresh = do
    csds_on_start config on_refresh
    session ← call (config.session_provider.login config.credentials (provider_options config))
    modify λ c. record c { le_session = some session }

  unfoldable pub le_on_stop : Task (Client W) (Unit {0})
  unfolding csds_on_stop
  le_on_stop = do
    csds_on_stop config
    session ← gets (λ c. c.le_session)
    logout_session session
    modify λ c. record c { le_session = none }
