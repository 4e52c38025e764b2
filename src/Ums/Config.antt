-- ===== src/Ums/Config.antt =====
-- ums-client/src/config.ts: the handlers and the timeout of a UMS client, and the requests of a
-- client with that configuration. The generator of ids is left out: the client does not use it.
use lp_clients.Base.{ℕ, ◌≡◌, ◌≢◌, Option, none, some, [], arith}
use lp_clients.Platform.Emitter.{Emitter}
use lp_clients.WsTransport.Config.{number_or}
use lp_clients.Ums.Requests.{Requests}
use lp_clients.Ums.Histories.{fresh_requests}
use lp_clients.Ums.Invariant.{Inv}

-- `IUmsClientConfigBase`
pub record UmsConfigBase : Type 0 where
  pub ums_notification_handler : Option (Emitter ℕ)
  pub ums_response_handler : Option (Emitter ℕ)
  pub ums_request_timeout : Option ℕ

-- `IUmsClientConfig`
pub record UmsConfig : Type 0 where
  pub ums_notification_handler : Emitter ℕ
  pub ums_response_handler : Emitter ℕ
  pub ums_request_timeout : ℕ

abbrev handler_or_new : Option (Emitter ℕ) → Emitter ℕ
handler_or_new none = []
handler_or_new (some em) = em

unfoldable pub default_ums_config : UmsConfigBase → UmsConfig
default_ums_config c = record {
  ums_notification_handler = handler_or_new c.ums_notification_handler;
  ums_response_handler = handler_or_new c.ums_response_handler;
  ums_request_timeout = number_or c.ums_request_timeout 10000;
}

-- The requests of a new client.
unfoldable pub initial_requests : {SendType : Type 0} → UmsConfig → Requests SendType
unfolding fresh_requests
initial_requests c = record fresh_requests {
  responses = c.ums_response_handler;
  notifications = c.ums_notification_handler;
}

number_or-positive : (o : Option ℕ) → number_or o 10000 ≢ 0
number_or-positive none = λ e. absurd (omega arith)
number_or-positive (some n) = ground arith

-- Without a handler of responses in its configuration, a client starts with requests for which the
-- invariant of all histories holds, whatever handler of notifications it is given; and its timeout
-- is positive.
pub default_ums_config-Inv :
    {SendType : Type 0} (c : UmsConfigBase)
    → c.ums_response_handler ≡ none
    → Inv {SendType = SendType} (initial_requests (default_ums_config c))
      × ((default_ums_config c).ums_request_timeout ≢ 0)
unfolding default_ums_config initial_requests
default_ums_config-Inv c h =
    (rw h (record { serving = tt; single = tt }), number_or-positive c.ums_request_timeout)
