-- ===== src/Client/Config.antt =====
-- csds-client/src/config.ts, le-client/src/config.ts, transport-client/src/config.ts: the default
-- configuration of a TransportClient, whose constructor calls the ones of its superclasses.
use lp_clients.Base.{ℕ, ◌*◌, Option}
use lp_clients.Csds.Config.{CsdsConfig}
use lp_clients.Csds.Resolver.{CsdsResolver}
use lp_clients.Client.Services.{SessionProvider, Transport, ClientConfig}
use lp_clients.WsTransport.Config.{number_or}

-- `ICsdsClientConfigBase`, without the factory of the loggers.
pub record CsdsClientConfigBase (W : Type 0) : Type 0 where
  pub csds_config : CsdsConfig
  pub csds_resolver : CsdsResolver W
  pub refresh_interval : Option ℕ

-- `ILeClientConfigBase`
pub record LeClientConfigBase (W Credentials : Type 0) : Type 0 where
  pub csds_base : CsdsClientConfigBase W
  pub credentials : Credentials
  pub session_provider : SessionProvider W Credentials

-- `ITransportClientConfigBase`
pub record TransportClientConfigBase (W Credentials SendType TransportConfig : Type 0)
    : Type 0 where
  pub le_base : LeClientConfigBase W Credentials
  pub transport : Transport W SendType TransportConfig
  pub transport_config : TransportConfig

abbrev pub default_csds_refresh_interval : ℕ
default_csds_refresh_interval = 10 * 60 * 1000

unfoldable pub refresh_interval_or_default : {W : Type 0} → CsdsClientConfigBase W → ℕ
refresh_interval_or_default base = number_or base.refresh_interval default_csds_refresh_interval

module _ {W Credentials SendType TransportConfig : Type 0} where
  unfoldable pub default_transport_client_config :
      TransportClientConfigBase W Credentials SendType TransportConfig
      → ClientConfig W Credentials SendType TransportConfig
  unfolding refresh_interval_or_default
  default_transport_client_config base = record {
    csds_config = base.le_base.csds_base.csds_config;
    csds_resolver = base.le_base.csds_base.csds_resolver;
    refresh_interval = refresh_interval_or_default base.le_base.csds_base;
    credentials = base.le_base.credentials;
    session_provider = base.le_base.session_provider;
    transport = base.transport;
    transport_config = base.transport_config;
  }
