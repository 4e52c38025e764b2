-- ===== src/Ums/Connection/Login.antt =====
-- le-agent-session-provider/src/provider.ts and ums-connection/src/connection.ts: where an agent who
-- has logged in connects to.
use Prim.Native.String.{◌++◌}
use lp_clients.Base.{◌≡◌, refl, true, String, ok}
use lp_clients.Platform.Values.{str, Fields, end, field, get, property, to_text}
use lp_clients.Platform.Interfaces.{fits_within}
use lp_clients.Request.{Response}
use lp_clients.Sessions.Agent.{agent_session}
use lp_clients.Sessions.Interfaces.{agent_interfaces}
use lp_clients.Sessions.Typed.{session, cookies_of, agent_session_made}
use lp_clients.Ums.Connection.{messaging_endpoint, agent_endpoint, connection_headers}

-- If the answer to a login has the interface of the credentials, the session that the login makes of
-- it gives a connection: to the agents' endpoint of the account at the domain that is given, with the
-- bearer of the answer in the header.
pub login_connects :
    (parse_cookie : String → Fields) (account_id domain : String) (response : Response)
    → fits_within agent_interfaces 5 "IAgentLoginCredentials" response.body ≡ true
    → (s : Fields) × (agent_session parse_cookie account_id response ≡ ok s)
      × (agent_endpoint (str domain) s
          ≡ ok (
              "wss://"
              ++ (domain ++ ("/ws_api/account/" ++ (account_id ++ "/messaging/brand?v=2")))))
      × ((bearer : String) × (property "bearer" response.body ≡ str bearer)
          × (connection_headers s ≡ ok (field "Authorization" (str ("jwt " ++ bearer)) end)))
unfolding agent_endpoint messaging_endpoint connection_headers get to_text
login_connects parse_cookie account_id domain response h =
    let (bearer, has_bearer, logged) = agent_session_made parse_cookie account_id response h in
    (
      session response.body (cookies_of parse_cookie response) account_id bearer,
      logged,
      refl,
      (bearer, has_bearer, refl),
    )
