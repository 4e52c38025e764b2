-- ===== src/Client/CsdsClient.antt =====
-- csds-client/src/client.ts
use lp_clients.Base.{
  ℕ, Bool, Option, none, some, String, if◌then◌else◌, Task, ok, err, error, modify, gets, ◌>>=◌,
  ◌>>◌,
}
use lp_clients.Platform.Timers.{set_timeout, clear_if_set}
use lp_clients.Csds.Resolver.{CsdsResponse}
use lp_clients.Client.Machine.{
  ClientState, started, ClientTransition, start, stop, refresh, transitions, same_state,
  StateMachine,
}
use lp_clients.Client.Services.{ClientConfig}
use lp_clients.Client.State.{Client, call, state_of, enter}

-- The methods that subclasses override.
pub record Hooks (O : Type 0) : Type 0 where
  pub on_start : Task O (Unit {0})
  pub on_stop : Task O (Unit {0})
  pub on_refresh : Task O (Unit {0})

-- The `methods` that the constructor hands to the library.
abbrev pub run_hook : {O : Type 0} → Hooks O → ClientTransition → Task O (Unit {0})
run_hook hooks start = hooks.on_start
run_hook hooks stop = hooks.on_stop
run_hook hooks refresh = hooks.on_refresh

module _ {O : Type 0} (machine : StateMachine O) (state : O → ClientState)
    (enters : ClientState → O → O) (hooks : Hooks O) where
  -- The public methods `start`, `stop` and `refresh`.
  abbrev pub transit : ClientTransition → Task O (Unit {0})
  transit t = machine.fire transitions state enters (run_hook hooks) t

module _ {W : Type 0} where
  unfoldable pub is_started : Client W → Bool
  is_started c = same_state c.state started

  unfoldable pub check_started : Task (Client W) (Unit {0})
  unfolding is_started
  check_started c =
      (if is_started c then ok tt else err (error "Client not started/initialized yet"), c)

  -- The getter `domains`: what it returns is `undefined` where the field is not set.
  unfoldable pub domains : Task (Client W) (Option CsdsResponse)
  unfolding check_started
  domains = do check_started; gets (λ c. c.csds_domains)

  unfoldable pub queue_refresh_task : ℕ → Client W → Client W
  unfolding set_timeout
  queue_refresh_task interval c =
      let (handle, timers) = set_timeout interval c.timers in
      record c { refresh_task = some handle; timers = timers }

module _ {W Credentials SendType TransportConfig : Type 0}
    (config : ClientConfig W Credentials SendType TransportConfig) where
  unfoldable pub account_id : String
  account_id = config.csds_config.account_id

  unfoldable pub csds_on_refresh : Task (Client W) (Unit {0})
  csds_on_refresh = do
    response ← call (config.csds_resolver.resolve config.csds_config)
    modify λ c. record c { csds_domains = some response }

  -- `onStart`, where `this.onRefresh` is the most derived one.
  unfoldable pub csds_on_start : Task (Client W) (Unit {0}) → Task (Client W) (Unit {0})
  unfolding queue_refresh_task
  csds_on_start on_refresh = do on_refresh; modify (queue_refresh_task config.refresh_interval)

  unfoldable pub csds_on_stop : Task (Client W) (Unit {0})
  csds_on_stop = modify λ c. record c {
    timers = clear_if_set c.refresh_task c.timers;
    refresh_task = none;
    csds_domains = none;
  }

  -- What the timer of `queueRefreshTask` runs when it fires.
  unfoldable pub refresh_fired :
      StateMachine (Client W) → Hooks (Client W) → Task (Client W) (Unit {0})
  unfolding queue_refresh_task
  refresh_fired machine hooks = do
    (λ c.
        if machine.can transitions c.state refresh
        then transit machine state_of enter hooks refresh c
        else (ok tt, c))
    modify (queue_refresh_task config.refresh_interval)
