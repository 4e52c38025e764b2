-- ===== src/Sessions/Consumer.antt =====
-- le-consumer-session-provider/src/provider.ts. The object's method `doLogin` is an argument of
-- what calls it; `claims` is the decoding of a token: `split`, `Buffer` and `JSON.parse`, with the
-- own properties of the payload as its result.
use Prim.Native.String.{◌++◌}
use lp_clients.Base.{
  ◌≡◌, refl, ◌∙◌, true, not, Option, none, some, String, if◌then◌else◌, Task, settled, pure, ◌>>=◌,
  Result, ok, err, error, type_error, str_eq, arith,
}
use lp_clients.Platform.Values.{
  property, Value, undefined, null, str, obj, Fields, end, field, truthy, get, has, assign, to_text,
}
use lp_clients.Platform.Values.Objects.{Distinct, get-assign, has-assign, assign-Distinct}
use lp_clients.Request.{GotFn, Response, post_request}
use lp_clients.Csds.Config.{CsdsConfig, text_or}
use lp_clients.Client.Services.{UserSession, SessionProvider, SessionProviderOptions}

-- `IAuthenticatedConsumerCredentials`; those of an unauthenticated consumer are empty.
pub record ConsumerCredentials : Type 0 where
  pub user_id : String
  pub redirect_uri : Option String

-- `csdsConfig` with another service.
abbrev pub with_service : String → CsdsConfig → CsdsConfig
with_service service c = record {
  account_id = c.account_id;
  csds_domain = c.csds_domain;
  service = some service;
}

-- `https://${domain}/api/account/${accountId}/…`, with the domain as the resolver gave it.
abbrev at_domain : Result String → String → String → Result String
at_domain (ok domain) account_id path =
    ok ("https://" ++ (domain ++ ("/api/account/" ++ (account_id ++ ("/" ++ path)))))
at_domain (err e) account_id path = err e

unfoldable pub account_url : Value → String → String → Result String
account_url domain account_id path = at_domain (to_text domain) account_id path

module _ (claims : Value → Result Fields) where
  abbrev with_claims : Value → String → Result Fields → Result UserSession
  with_claims jwt account_id (ok payload) =
      ok (assign (field "token" jwt (field "accountId" (str account_id) end)) payload)
  with_claims jwt account_id (err e) = err e

  -- `parseJwt`; the text of the error shows the body, which is left out here.
  unfoldable pub parse_jwt : Value → String → Result UserSession
  parse_jwt undefined account_id = err (type_error "Cannot read property 'jwt' of undefined")
  parse_jwt null account_id = err (type_error "Cannot read property 'jwt' of null")
  parse_jwt body account_id =
      let session = with_claims (property "jwt" body) account_id (claims (property "jwt" body)) in
      if not (truthy (property "jwt" body)) then err (error "Unprocessable response: ") else session

  abbrev with_user : String → Result UserSession → Result UserSession
  with_user user_id (ok session) = ok (assign (field "userId" (str user_id) end) session)
  with_user user_id (err e) = err e

  -- `parseJwt` of `AuthenticatedSessionProvider`
  unfoldable pub parse_authenticated_jwt : Value → ConsumerCredentials → String → Result UserSession
  unfolding parse_jwt
  parse_authenticated_jwt body credentials account_id =
      with_user credentials.user_id (parse_jwt body account_id)

  -- When the body is an object whose `jwt` is truthy and decodes to claims with distinct names, an
  -- authenticated consumer gets a session, whose properties are these claims and beside them the
  -- token, the account and the user: a claim named `token`, `accountId` or `userId` takes the place
  -- of the value that the client knows.
  pub parse_authenticated_jwt-claims :
      (fs payload : Fields) (credentials : ConsumerCredentials) (account_id : String)
      → truthy (get "jwt" fs) ≡ true
      → claims (get "jwt" fs) ≡ ok payload
      → Distinct payload
      → (session : Fields) × (parse_authenticated_jwt (obj fs) credentials account_id ≡ ok session)
        × ((k : String)
            → get k session ≡ (
                if has k payload
                then get k payload
                else if str_eq "token" k
                then get "jwt" fs
                else if str_eq "accountId" k
                then str account_id
                else if str_eq "userId" k
                then str credentials.user_id
                else undefined))
  unfolding parse_authenticated_jwt parse_jwt get has
  parse_authenticated_jwt-claims fs payload credentials account_id t c d =
      let base : Fields = field "token" (get "jwt" fs) (field "accountId" (str account_id) end) in
      let session : Fields = assign base payload in
      let named : Fields = field "userId" (str credentials.user_id) end in
      (
        assign named session,
        rw (t, c) refl,
        λ k.
            get-assign k named session (assign-Distinct base payload (refl, (refl, tt)))
            ∙ ground (arith, get-assign k base payload d, has-assign k base payload),
      )

module _ {W : Type 0} where
  -- `login`, over the methods `doLogin` and `parseJwt` of the object.
  unfoldable pub consumer_login :
      {Credentials : Type 0}
      → (Credentials → Value → String → Task W Response)
      → (Value → Credentials → String → Result UserSession)
      → Credentials
      → SessionProviderOptions W
      → Task W UserSession
  consumer_login do_login parse credentials options = do
    domain ← options.csds_resolver.resolve_service (with_service "idp" options.csds_config)
    response ← do_login credentials domain options.csds_config.account_id
    settled (parse response.body credentials options.csds_config.account_id)

  -- `ConsumerSessionProvider`: there is nothing to refresh and nothing to log out from.
  unfoldable pub consumer_provider :
      {Credentials : Type 0}
      → (Credentials → Value → String → Task W Response)
      → (Value → Credentials → String → Result UserSession)
      → SessionProvider W Credentials
  unfolding consumer_login
  consumer_provider do_login parse = record {
    login = consumer_login do_login parse;
    refresh = λ session options. pure tt;
    logout = λ session options. pure tt;
  }

module _ {W : Type 0} (send : GotFn → String → Fields → Task W Response) where
  -- `doLogin` of `UnauthenticatedConsumerSessionProvider`
  unfoldable pub sign_up : Value → String → Task W Response
  unfolding account_url
  sign_up domain account_id = do
    url ← settled (account_url domain account_id "signup")
    post_request send url none

  -- `doLogin` of `AuthenticatedSessionProvider`; `stringify` is `JSON.stringify`.
  unfoldable pub authenticate :
      (Fields → String) → ConsumerCredentials → Value → String → Task W Response
  unfolding account_url
  authenticate stringify credentials domain account_id = do
    url ← settled (account_url domain account_id "app/default/authenticate?v=2.0")
    post_request send url (
        some (
          field "body"
            (str (
              stringify (
                field "code" (str credentials.user_id) (
                  field "redirect_uri"
                    (str (text_or credentials.redirect_uri "https://liveperson.net")) end))))
            end))
