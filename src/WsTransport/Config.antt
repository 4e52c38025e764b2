-- ===== src/WsTransport/Config.antt =====
-- transport-ws/src/config.ts, and the override by the connection strategy in
-- transport-ws/src/transport.ts. Durations and counts are natural numbers; 0 is falsy.
use lp_clients.Base.{
  ℕ, ◌≡◌, ◌≢◌, Bool, true, false, Option, none, some, if◌then◌else◌, ◌==◌, String, arith, ◌⊎◌,
}
use lp_clients.Platform.Values.{Fields}
use lp_clients.Client.Services.{UserSession}

pub data ConnectionStrategy : Type 0 where
  leave_open close_immediate close_after_timeout : ConnectionStrategy

-- `IConnectionFactory` of transport/src/connection.ts, at a domain and a session.
pub record ConnectionFactory : Type 0 where
  pub endpoint : String → UserSession → String
  pub headers : String → UserSession → Fields

-- `IWsTransportConfigBase`: a missing property is `none`.
pub record WsConfigBase : Type 0 where
  pub connection_factory : ConnectionFactory
  pub ping_interval : Option ℕ
  pub queue_worker : Option ℕ
  pub drain_timeout_ms : Option ℕ
  pub messaging_retry_interval_ms : Option ℕ
  pub messaging_max_retries : Option ℕ
  pub connection_strategy : Option ConnectionStrategy

-- `IWsTransportConfig`
pub record WsConfig : Type 0 where
  pub connection_factory : ConnectionFactory
  pub ping_interval : ℕ
  pub queue_worker : ℕ
  pub drain_timeout_ms : ℕ
  pub messaging_retry_interval_ms : ℕ
  pub messaging_max_retries : ℕ
  pub connection_strategy : ConnectionStrategy

-- The static defaults of `DefaultWsTransportConfig`.
abbrev pub default_ping_interval : ℕ
default_ping_interval = 60000

abbrev pub default_queue_worker : ℕ
default_queue_worker = 1

abbrev pub default_drain_timeout_ms : ℕ
default_drain_timeout_ms = 10000

abbrev pub default_messaging_retry_interval_ms : ℕ
default_messaging_retry_interval_ms = 100

abbrev pub default_messaging_max_retries : ℕ
default_messaging_max_retries = 10

abbrev pub default_connection_strategy : ConnectionStrategy
default_connection_strategy = leave_open

-- `config.x || fallback` at a number.
abbrev pub number_or : Option ℕ → ℕ → ℕ
number_or none fallback = fallback
number_or (some n) fallback = if n == 0 then fallback else n

-- The first strategy is 0, and falsy.
abbrev pub strategy_truthy : ConnectionStrategy → Bool
strategy_truthy leave_open = false
strategy_truthy _ = true

abbrev pub strategy_or : Option ConnectionStrategy → ConnectionStrategy → ConnectionStrategy
strategy_or none fallback = fallback
strategy_or (some s) fallback = if strategy_truthy s then s else fallback

unfoldable pub default_ws_config : WsConfigBase → WsConfig
default_ws_config c = record {
  connection_factory = c.connection_factory;
  ping_interval = number_or c.ping_interval default_ping_interval;
  queue_worker = number_or c.queue_worker default_queue_worker;
  drain_timeout_ms = number_or c.drain_timeout_ms default_drain_timeout_ms;
  messaging_retry_interval_ms =
      number_or c.messaging_retry_interval_ms default_messaging_retry_interval_ms;
  messaging_max_retries = number_or c.messaging_max_retries default_messaging_max_retries;
  connection_strategy = strategy_or c.connection_strategy default_connection_strategy;
}

abbrev override : ConnectionStrategy → WsConfig → WsConfig
override close_immediate c = record c { drain_timeout_ms = 100 }
override leave_open c = c
override close_after_timeout c = c

-- `adjustConfByConnectionStrategy`
unfoldable pub adjust_conf : WsConfig → WsConfig
adjust_conf c =
    if strategy_truthy c.connection_strategy then override c.connection_strategy c else c

-- Every number of a default configuration is positive: what is given as 0 is replaced by the
-- default, so that no retries, or an immediate drain timeout, cannot be asked for. The strategy is
-- the one given, or `leave_open`.
pub default_ws_config_positive :
    (c : WsConfigBase)
    → let d = default_ws_config c in
      (d.messaging_max_retries ≢ 0)
      × (d.drain_timeout_ms ≢ 0)
      × (d.messaging_retry_interval_ms ≢ 0)
      × (d.ping_interval ≢ 0)
      × (d.queue_worker ≢ 0)
      × ((c.connection_strategy ≡ some d.connection_strategy)
          ⊎ ((c.connection_strategy ≡ none) × (d.connection_strategy ≡ leave_open)))
unfolding default_ws_config
default_ws_config_positive c = ground arith
