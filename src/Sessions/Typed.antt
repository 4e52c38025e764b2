-- ===== src/Sessions/Typed.antt =====
-- le-agent-session-provider/src/provider.ts: the session of a login has the interface that the
-- method promises, if the answer of the server has its own.
use lp_clients.Base.{ℕ, suc, ◌≡◌, ◌≤◌, refl, sym, ap, ◌∙◌, subst, Bool, true, some, String, ok}
use lp_clients.Platform.Values.{Value, str, obj, Fields, end, field, get, property}
use lp_clients.Platform.Interfaces.{
  TypeDeclaration, string_type, fits, fits_members, fits_all, fits_declaration, find_declaration,
  fits_within, is_text, all_fields,
}
use lp_clients.Platform.Interfaces.Closed.{
  all_named, refers_declaration, refers_members, ends_within, fits_within-enough,
}
use lp_clients.Platform.Interfaces.Fitting.{
  find_member, required, fits_within-member, fits_within-parts, is_text-text,
}
use lp_clients.Request.{Response}
use lp_clients.Sessions.Agent.{agent_session, has_properties, merge_cookies, header_texts}
use lp_clients.Sessions.Cookies.{AreCookies, merge_cookies-Good}
use lp_clients.Sessions.Interfaces.{agent_interfaces, user_session_interface}

cookies_fit :
    (IsName : String → Type 0) (fs : Fields) → AreCookies IsName fs → all_fields is_text fs ≡ true
unfolding all_fields
cookies_fit IsName end c = refl
cookies_fit IsName (field k v fs) ((n, (s, e)), c) = rw (e, cookies_fit IsName fs c) refl

-- What `login` returns.
abbrev pub session : Value → Fields → String → String → Fields
session credentials cookies account_id bearer = field "credentials" credentials (
    field "cookies" (obj cookies)
      (field "accountId" (str account_id) (field "token" (str bearer) end)))

module _ (named : String → Value → Bool) (credentials : Value) (cookies : Fields)
    (account_id bearer : String) where
  user_session_fits :
      named "JsonObject" (obj (session credentials cookies account_id bearer)) ≡ true
      → fits_declaration named
          (some user_session_interface)
          (obj (session credentials cookies account_id bearer))
        ≡ true
  unfolding fits_declaration fits_members fits_all fits get
  user_session_fits j = rw j refl

  agent_session_fits :
      named "IUserSession" (obj (session credentials cookies account_id bearer)) ≡ true
      → named "IAgentLoginCredentials" credentials ≡ true
      → all_fields is_text cookies ≡ true
      → fits_declaration named
          (find_declaration "IAgentSession" agent_interfaces)
          (obj (session credentials cookies account_id bearer))
        ≡ true
  unfolding fits_declaration find_declaration agent_interfaces fits_members fits_all fits get
  agent_session_fits u c t = rw (u, c, t) refl

credentials_declared :
    (d : TypeDeclaration) × (find_declaration "IAgentLoginCredentials" agent_interfaces ≡ some d)
    × (find_member "bearer" d.properties ≡ required string_type)
unfolding find_declaration agent_interfaces find_member
credentials_declared = (_, refl, refl)

fits_within_lem :
    (n : ℕ) (name : String) (v : Value)
    → fits_within agent_interfaces (suc n) name v
      ≡ fits_declaration (fits_within agent_interfaces n) (find_declaration name agent_interfaces) v
unfolding fits_within
fits_within_lem n name v = refl

object_fits : (fs : Fields) → fits_within agent_interfaces 4 "JsonObject" (obj fs) ≡ true
unfolding fits_within find_declaration agent_interfaces fits_declaration fits_all fits_members
object_fits fs = refl

user_declared : find_declaration "IUserSession" agent_interfaces ≡ some user_session_interface
unfolding find_declaration agent_interfaces
user_declared = refl

-- The cookies that the headers of an answer set.
abbrev pub cookies_of : (String → Fields) → Response → Fields
cookies_of parse_cookie response =
    merge_cookies parse_cookie (header_texts (get "set-cookie" response.headers)) end

-- A login whose answer has the interface of the credentials gives a session, with the bearer as its
-- token.
pub agent_session_made :
    (parse_cookie : String → Fields) (account_id : String) (response : Response)
    → fits_within agent_interfaces 5 "IAgentLoginCredentials" response.body ≡ true
    → (bearer : String) × (property "bearer" response.body ≡ str bearer)
      × (agent_session parse_cookie account_id response
          ≡ ok (session response.body (cookies_of parse_cookie response) account_id bearer))
unfolding agent_session fits
agent_session_made parse_cookie account_id response h =
    let (d, declared, member) = credentials_declared in
    let parts =
      fits_within-parts agent_interfaces 4 "IAgentLoginCredentials" d response.body declared h in
    let present : has_properties response.body ≡ true =
      subst (λ v. has_properties v ≡ true) (sym parts.1.1) refl in
    let (bearer, has_bearer) = is_text-text (property "bearer" response.body) (
      fits_within-member agent_interfaces 4 "IAgentLoginCredentials" "bearer" string_type d
        response.body declared member h) in
    (
      bearer,
      has_bearer,
      rw present (
          ap
            (λ t. ok (
              field "credentials" response.body (
                field "cookies" (obj (cookies_of parse_cookie response))
                  (field "accountId" (str account_id) (field "token" t end)))))
            has_bearer),
    )

session_ends : ends_within agent_interfaces 6 "IAgentSession" ≡ true
unfolding ends_within agent_interfaces refers_declaration find_declaration refers_members all_named
session_ends = refl

-- If the body of the server's answer has the interface of the login's credentials, and all cookies
-- that are parsed are texts, then `login` makes of the answer a session, and it has the interface of
-- the agents' sessions, however far references are followed beyond six steps: with the credentials,
-- the cookies, the account and the token.
pub agent_session-Typed :
    (IsName : String → Type 0) (parse_cookie : String → Fields) (account_id : String)
    (response : Response) (m : ℕ)
    → 6 ≤ m
    → ((s : String) → AreCookies IsName (parse_cookie s))
    → fits_within agent_interfaces 5 "IAgentLoginCredentials" response.body ≡ true
    → (session : Fields) × (agent_session parse_cookie account_id response ≡ ok session)
      × (fits_within agent_interfaces m "IAgentSession" (obj session) ≡ true)
agent_session-Typed IsName parse_cookie account_id response m enough parsed h =
    let (bearer, has_bearer, logged) = agent_session_made parse_cookie account_id response h in
    let cookies : Fields = cookies_of parse_cookie response in
    let texts : all_fields is_text cookies ≡ true =
      cookies_fit IsName cookies
        (merge_cookies-Good IsName parse_cookie parsed
          (header_texts (get "set-cookie" response.headers)) end (tt, tt)).1 in
    let made : Fields = session response.body cookies account_id bearer in
    let user : fits_within agent_interfaces 5 "IUserSession" (obj made) ≡ true =
      fits_within_lem 4 "IUserSession" (obj made)
      ∙ ap (λ o. fits_declaration (fits_within agent_interfaces 4) o (obj made)) user_declared
      ∙ user_session_fits (fits_within agent_interfaces 4) response.body cookies account_id bearer
          (object_fits made) in
    (
      made,
      logged,
      fits_within-enough agent_interfaces 6 m "IAgentSession" (obj made) session_ends enough
          ∙ fits_within_lem 5 "IAgentSession" (obj made)
          ∙ agent_session_fits (fits_within agent_interfaces 5) response.body cookies account_id
              bearer user h texts,
    )
