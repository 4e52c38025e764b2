-- ===== src/Ums/Connection.antt =====
-- ums-connection/src/connection.ts: the endpoints of the messaging service and the headers of a
-- connection. A template throws where a value has no text.
pub mod Login
use Prim.Native.String.{◌++◌}
use lp_clients.Base.{String, Result, ok, err}
use lp_clients.Platform.Values.{Value, str, Fields, end, field, get, to_text}
use lp_clients.Client.Services.{UserSession}

abbrev then_text : Result String → (String → Result String) → Result String
then_text (ok s) k = k s
then_text (err e) k = err e

-- `wss://${domain}/ws_api/account/${session.accountId}/messaging/…`
unfoldable pub messaging_endpoint : String → Value → UserSession → Result String
messaging_endpoint path domain session = then_text (to_text domain) λ d.
    then_text (to_text (get "accountId" session))
      λ a. ok ("wss://" ++ (d ++ ("/ws_api/account/" ++ (a ++ ("/messaging/" ++ path)))))

unfoldable pub consumer_endpoint : Value → UserSession → Result String
unfolding messaging_endpoint
consumer_endpoint domain session = messaging_endpoint "consumer?v=3" domain session

unfoldable pub agent_endpoint : Value → UserSession → Result String
unfolding messaging_endpoint
agent_endpoint domain session = messaging_endpoint "brand?v=2" domain session

abbrev authorization : Result String → Result Fields
authorization (ok token) = ok (field "Authorization" (str ("jwt " ++ token)) end)
authorization (err e) = err e

unfoldable pub connection_headers : UserSession → Result Fields
connection_headers session = authorization (to_text (get "token" session))
