-- ===== src/Ums/Client.antt =====
-- ums-client/src/client.ts: the object, which extends TransportClient. The world of its services
-- holds its requests; `change` applies an operation to them.
use lp_clients.Base.{◌≡◌, refl, some, Result, ok, err, Task, modify, ◌>>◌}
use lp_clients.Client.Machine.{started, stopped, ClientTransition, stop, transitions, StateMachine}
use lp_clients.Client.Services.{ClientConfig, dispatcher, UserSession, provider_options}
use lp_clients.Client.State.{Client, state_of, enter}
use lp_clients.Client.CsdsClient.{Hooks, run_hook, transit}
use lp_clients.Client.LeClient.{le_on_refresh}
use lp_clients.Client.TransportClient.{transport_on_start, transport_on_stop, on_message}
use lp_clients.Ums.Requests.{Requests, clear_handlers}

module _ {W Credentials SendType TransportConfig : Type 0}
    (config : ClientConfig W Credentials SendType TransportConfig)
    (change : (Requests SendType → Requests SendType) → W → W) where
  -- `onStart`: the callback of the messages is `dispatch`.
  unfoldable pub ums_on_start : Task (Client W) (Unit {0})
  unfolding transport_on_start on_message le_on_refresh
  ums_on_start = do transport_on_start config (le_on_refresh config); on_message config dispatcher

  unfoldable pub ums_on_stop : Task (Client W) (Unit {0})
  unfolding transport_on_stop
  ums_on_stop = do
    transport_on_stop config
    modify λ c. record c { world = change clear_handlers c.world }

  unfoldable pub ums_hooks : Hooks (Client W)
  unfolding ums_on_start ums_on_stop le_on_refresh
  ums_hooks = record {
    on_start = ums_on_start;
    on_stop = ums_on_stop;
    on_refresh = le_on_refresh config;
  }

  -- What a disconnect with that result leaves in the end.
  abbrev pub left_by : Result (Unit {0}) → W → W
  left_by (ok v) w = change clear_handlers w
  left_by (err e) w = w

  module _ (machine : StateMachine (Client W)) where
    abbrev pub run_ums : ClientTransition → Task (Client W) (Unit {0})
    run_ums t = transit machine state_of enter ums_hooks t

    on_stop_world :
        (c : Client W) (w w' : W) (r : Result (Unit {0})) (u : UserSession)
        → c.le_session ≡ some u
        → config.session_provider.logout u (provider_options config) c.world ≡ (ok tt, w)
        → config.transport.disconnect w ≡ (r, w')
        → ((ums_on_stop c).0 ≡ r) × ((ums_on_stop c).1.world ≡ left_by r w')
    unfolding ums_on_stop transport_on_stop
    on_stop_world c w w' (ok tt) u l o d = rw (l, o) (rw d (refl, refl))
    on_stop_world c w w' (err e) u l o d = rw (l, o) (rw d (refl, refl))

    -- A started client that stops clears the handlers of its requests if the transport has been
    -- disconnected: they are cleared in the world that the disconnect left. If the disconnect
    -- rejects, they are kept.
    ums_stop :
        (c : Client W) (w w' : W) (r : Result (Unit {0})) (u : UserSession)
        → c.state ≡ started
        → c.le_session ≡ some u
        → config.session_provider.logout u (provider_options config) c.world ≡ (ok tt, w)
        → config.transport.disconnect w ≡ (r, w')
        → ((run_ums stop c).0 ≡ r) × ((run_ums stop c).1.world ≡ left_by r w')
    unfolding ums_hooks
    ums_stop c w w' r u s l o d =
        let ran : run_ums stop c ≡ ums_on_stop (enter stopped c) =
          machine.fire_allowed transitions state_of enter (run_hook ums_hooks) stop c stopped
            (rw s refl) in
        rw ran (on_stop_world (enter stopped c) w w' r u l o d)
