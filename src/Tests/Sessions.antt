-- ===== src/Tests/Sessions.antt =====
-- Runs of the session providers and of the console's loggers.
use Prim.Native.String.{◌++◌ as ◌+++◌}
use lp_clients.Base.{arith, ◌≡◌, refl, true, false, none, String, str_eq, if◌then◌else◌, Result, ok}
use lp_clients.Platform.Values.{
  property, Value, undefined, str, num, bool, obj, arr, cons, nil, set, assign, Fields, end, field,
  get, has, truthy,
}
use lp_clients.Platform.Values.Objects.{Distinct}
use lp_clients.Sessions.Consumer.{
  ConsumerCredentials, parse_authenticated_jwt, parse_authenticated_jwt-claims,
}
use lp_clients.Request.{Response}
use lp_clients.Platform.Interfaces.{
  fits_within, find_declaration, fits_declaration, fits_all, fits_members, fits, all_items,
}
use lp_clients.Sessions.Interfaces.{agent_interfaces}
use lp_clients.Sessions.Typed.{agent_session-Typed}
use lp_clients.Ums.Connection.{agent_endpoint, connection_headers}
use lp_clients.Ums.Connection.Login.{login_connects}
use lp_clients.Sessions.Agent.{agent_session, set_cookies, merge_cookies}

abbrev body : Fields
body = field "jwt" (str "x.y.z") end

-- The payload names another account.
abbrev payload : Fields
payload = field "sub" (str "s") (field "accountId" (str "other") end)

abbrev decoded : Value → Result Fields
decoded v = ok payload

abbrev user : ConsumerCredentials
user = record { user_id = "u"; redirect_uri = none }

body_truthy : truthy (get "jwt" body) ≡ true
unfolding get truthy
body_truthy = refl

payload-Distinct : Distinct payload
unfolding has
payload-Distinct = (refl, (refl, tt))

parse_authenticated_jwt-claims_example :
    (session : Fields) × (parse_authenticated_jwt decoded (obj body) user "a" ≡ ok session)
    × ((k : String)
        → get k session ≡ (
            if has k payload
            then get k payload
            else if str_eq "token" k
            then get "jwt" body
            else if str_eq "accountId" k
            then str "a"
            else if str_eq "userId" k
            then str "u"
            else undefined))
parse_authenticated_jwt-claims_example =
    parse_authenticated_jwt-claims decoded body payload user "a" body_truthy refl payload-Distinct

-- A server of one cookie, whose headers are its values.
abbrev IsSid : String → Type 0
IsSid k = k ≡ "sid"

abbrev read_sid : String → Fields
read_sid s = field "sid" (str s) end

abbrev write_sid : String → Value → String
write_sid k (str s) = s
write_sid k v = ""

abbrev login_answer : Response
login_answer = record {
  status_code = "200";
  status_message = str "OK";
  body = obj (field "bearer" (str "b") end);
  headers = field "set-cookie" (arr (cons (str "old") (cons (str "new") nil))) end;
}

abbrev agent : Fields
agent = field "credentials" login_answer.body (
    field "cookies" (obj (read_sid "new"))
      (field "accountId" (str "a") (field "token" (str "b") end)))

agent_session_logged : agent_session read_sid "a" login_answer ≡ ok agent
unfolding agent_session merge_cookies get assign set set_cookies
agent_session_logged = refl

-- The headers set two cookies with the path of the server, the first of them twice.
abbrev first_header : String
first_header = "sid=1; Path=/"

abbrev second_header : String
second_header = "sid=2; lang=en; Path=/"

abbrev read_cookie : String → Fields
read_cookie s =
    if str_eq s first_header
    then field "sid" (str "1") (field "Path" (str "/") end)
    else if str_eq s second_header
    then field "sid" (str "2") (field "lang" (str "en") (field "Path" (str "/") end))
    else read_pair s
  where
    read_pair : String → Fields
    read_pair s =
        if str_eq s "sid=1"
        then field "sid" (str "1") end
        else if str_eq s "sid=2"
        then field "sid" (str "2") end
        else if str_eq s "lang=en"
        then field "lang" (str "en") end
        else field "Path" (str "/") end

-- `/` is escaped.
abbrev write_cookie : String → Value → String
write_cookie k (str s) = k +++ ("=" +++ (if str_eq s "/" then "%2F" else s))
write_cookie k v = ""

abbrev cookie_answer : Response
cookie_answer = record login_answer {
  headers = field "set-cookie" (arr (cons (str first_header) (cons (str second_header) nil))) end;
}

abbrev cookie_agent : Fields
cookie_agent = field "credentials" login_answer.body (
    field "cookies"
      (obj (field "sid" (str "2") (field "Path" (str "/") (field "lang" (str "en") end))))
      (field "accountId" (str "a") (field "token" (str "b") end)))

abbrev agent_config : Fields
agent_config = field "loginName" (str "agent") (
    field "userId" (str "1") (
      field "userPid" (str "p") (
        field "userPrivileges" (arr (cons (num "3") nil)) (
          field "serverCurrentTime" (num "1") (
            field "timeDiff" (num "0") (
              field "serverTimeZoneName" (str "UTC") (
                field "serverTimeGMTDiff" (num "0") (
                  field "isLPA" (bool false) (
                    field "isAdmin" (bool true) (field "accountTimeZoneId" (str "UTC") end))))))))))

abbrev groups : Fields
groups =
    field "items"
      (arr (
        cons
          (obj (field "id" (num "7") (field "deleted" (bool false) (field "name" (str "g") end))))
          nil))
      (field "revision" (num "1") end)

abbrev credentials : Fields
credentials = field "csrf" (str "c") (
    field "wsuk" (num "2") (
      field "config" (obj agent_config) (
        field "csdsCollectionResponse" (obj (field "baseURIs" (arr nil) end)) (
          field "accountData" (obj (field "agentGroupsData" (obj groups) end))
            (field "sessionTTl" (str "60") (field "bearer" (str "b") end))))))

abbrev full_answer : Response
full_answer = record login_answer { body = obj credentials }

credentials_fit : fits_within agent_interfaces 5 "IAgentLoginCredentials" (obj credentials) ≡ true
unfolding fits_within find_declaration agent_interfaces fits_declaration fits_all fits_members fits
    all_items get
credentials_fit = refl

agent_session-Typed_example :
    (session : Fields) × (agent_session read_sid "a" full_answer ≡ ok session)
    × (fits_within agent_interfaces 9 "IAgentSession" (obj session) ≡ true)
agent_session-Typed_example =
    agent_session-Typed IsSid read_sid "a" full_answer 9 (omega arith)
      (λ s. ((refl, (s, refl)), tt)) credentials_fit

login_connects_example :
    (s : Fields) × (agent_session read_sid "a" full_answer ≡ ok s)
    × (agent_endpoint (str "ws.example.com") s
        ≡ ok "wss://ws.example.com/ws_api/account/a/messaging/brand?v=2")
    × ((bearer : String) × (property "bearer" full_answer.body ≡ str bearer)
        × (connection_headers s ≡ ok (field "Authorization" (str ("jwt " +++ bearer)) end)))
login_connects_example = login_connects read_sid "a" "ws.example.com" full_answer credentials_fit
