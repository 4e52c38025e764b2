-- ===== src/Client/TransportClient.antt =====
-- transport-client/src/client.ts
use lp_clients.Base.{some, Task, ◌>>=◌, ◌>>◌}
use lp_clients.Csds.Config.{CsdsConfig}
use lp_clients.Client.Services.{ClientConfig, Callback, error_logger}
use lp_clients.Client.State.{Client, call}
use lp_clients.Client.CsdsClient.{Hooks, check_started}
use lp_clients.Client.LeClient.{credentials, le_on_start, le_on_stop, le_on_refresh}

module _ {W Credentials SendType TransportConfig : Type 0}
    (config : ClientConfig W Credentials SendType TransportConfig) where
  unfoldable pub send_message : SendType → Task (Client W) (Unit {0})
  unfolding check_started
  send_message message = do check_started; call (config.transport.send_message message)

  unfoldable pub on_message : Callback → Task (Client W) (Unit {0})
  unfolding check_started
  on_message cb = do check_started; call (config.transport.on_message cb)

  unfoldable pub on_error : Callback → Task (Client W) (Unit {0})
  unfolding check_started
  on_error cb = do check_started; call (config.transport.on_error cb)

  -- The service that the transport connects to.
  abbrev pub messaging_config : CsdsConfig
  messaging_config = record {
    account_id = config.csds_config.account_id;
    csds_domain = config.csds_config.csds_domain;
    service = some "asyncMessagingEnt";
  }

  unfoldable pub transport_on_start : Task (Client W) (Unit {0}) → Task (Client W) (Unit {0})
  unfolding le_on_start credentials on_error
  transport_on_start on_refresh = do
    le_on_start config on_refresh
    session ← credentials
    domain ← call (config.csds_resolver.resolve_service messaging_config)
    call (
        config.transport.connect
          (record { config = config.transport_config; session = session; domain = domain }))
    on_error error_logger

  unfoldable pub transport_on_stop : Task (Client W) (Unit {0})
  unfolding le_on_stop
  transport_on_stop = do le_on_stop config; call config.transport.disconnect

  -- The methods of an object of this class; `onRefresh` is inherited.
  unfoldable pub transport_hooks : Hooks (Client W)
  unfolding transport_on_start transport_on_stop le_on_refresh
  transport_hooks = record {
    on_start = transport_on_start (le_on_refresh config);
    on_stop = transport_on_stop;
    on_refresh = le_on_refresh config;
  }
