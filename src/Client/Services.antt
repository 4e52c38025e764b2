-- ===== src/Client/Services.antt =====
-- The interfaces of what a client is configured with, over the world `W` that their methods change:
-- le-session-provider/src/provider.ts and transport/src/transport.ts.
use lp_clients.Base.{Bool, Option, Task, ℕ}
use lp_clients.Platform.Values.{Value, Fields}
use lp_clients.Csds.Config.{CsdsConfig}
use lp_clients.Csds.Resolver.{CsdsResolver}

-- `IUserSession`, an object with the properties `accountId` and `token`.
abbrev pub UserSession : Type 0
UserSession = Fields

pub record SessionProviderOptions (W : Type 0) : Type 0 where
  pub csds_config : CsdsConfig
  pub csds_resolver : CsdsResolver W

pub record SessionProvider (W Credentials : Type 0) : Type 0 where
  pub login : Credentials → SessionProviderOptions W → Task W UserSession
  pub refresh : UserSession → SessionProviderOptions W → Task W (Unit {0})
  pub logout : UserSession → SessionProviderOptions W → Task W (Unit {0})

-- `IConnectOptions`, without the factory of the loggers.
pub record ConnectOptions (TransportConfig : Type 0) : Type 0 where
  pub config : TransportConfig
  pub session : Option UserSession
  pub domain : Value

-- What the clients register on a transport: the dispatcher of UmsClient, the logger's method for
-- errors, and callbacks of their users.
pub data Callback : Type 0 where
  dispatcher error_logger : Callback
  custom : ℕ → Callback

-- `ITransport`
pub record Transport (W SendType TransportConfig : Type 0) : Type 0 where
  pub is_connected : W → Bool
  pub connect : ConnectOptions TransportConfig → Task W (Unit {0})
  pub disconnect : Task W (Unit {0})
  pub send_message : SendType → Task W (Unit {0})
  pub on_message : Callback → Task W (Unit {0})
  pub on_error : Callback → Task W (Unit {0})

-- `ITransportClientConfig`, which extends the configurations of the other two clients.
pub record ClientConfig (W Credentials SendType TransportConfig : Type 0) : Type 0 where
  pub csds_config : CsdsConfig
  pub csds_resolver : CsdsResolver W
  pub refresh_interval : ℕ
  pub credentials : Credentials
  pub session_provider : SessionProvider W Credentials
  pub transport : Transport W SendType TransportConfig
  pub transport_config : TransportConfig

-- The part of the configuration that a session provider reads.
abbrev pub provider_options :
    {W Credentials SendType TransportConfig : Type 0}
    → ClientConfig W Credentials SendType TransportConfig
    → SessionProviderOptions W
provider_options c = record { csds_config = c.csds_config; csds_resolver = c.csds_resolver }
