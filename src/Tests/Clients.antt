-- ===== src/Tests/Clients.antt =====
-- Runs of a TransportClient (csds-client, le-client, transport-client). The world is the number of
-- the calls of the services; `answers` says how each call of a service ends.
use lp_clients.Base.{
  ℕ, suc, ◌==◌, ◌≡◌, refl, ◌≢◌, ◌⊎◌, true, false, Option, none, some, is_some, List, [], ◌∷◌,
  String, if◌then◌else◌, Result, ok, err, error, Failure, Task,
}
use lp_clients.Platform.Values.{str, end, field}
use lp_clients.Platform.Timers.{clear_if_set, is_armed}
use lp_clients.Csds.Config.{CsdsConfig}
use lp_clients.Csds.Resolver.{CsdsResponse}
use lp_clients.Client.Machine.{
  ClientState, started, stopped, ClientTransition, start, stop, Transition, leads_to, StateMachine,
}
use lp_clients.Client.Services.{UserSession, ClientConfig}
use lp_clients.Client.State.{Client}
use lp_clients.Client.CsdsClient.{domains}
use lp_clients.Client.TransportClient.{transport_hooks}
use lp_clients.Client.Lifecycle.{
  run, IsReady, task_armed, start-IsReady, start_failed, start_unresolved, stop_clears,
  stop_unlogged,
}
use lp_clients.Client.RefreshTask.{
  Inv, Event, calls, fires, elapses, steps, fired, Requeued, timers-Inv, fired_requeues,
}
use lp_clients.Client.Contract.{allows, target, replay, steps-refine}
use lp_clients.Client.CsdsClient.{run_hook}
use lp_clients.Client.State.{enter}

abbrev refused : Failure
refused = error "transition is invalid in current state"

module _ {O : Type 0} where
  abbrev fire_from :
      Option ClientState → (ClientState → O → O) → Task O (Unit {0}) → Task O (Unit {0})
  fire_from none enter hook o = (err refused, o)
  fire_from (some s) enter hook o = hook (enter s o)

  abbrev fire_machine :
      List Transition
      → (O → ClientState)
      → (ClientState → O → O)
      → (ClientTransition → Task O (Unit {0}))
      → ClientTransition
      → Task O (Unit {0})
  fire_machine ts state enter hook t o = fire_from (leads_to ts t (state o)) enter (hook t) o

  abbrev pub state_machine : StateMachine O
  state_machine = record {
    fire = fire_machine;
    can = λ ts s t. is_some (leads_to ts t s);
    refusal = refused;
    fire_allowed = λ ts state enter hook t o s e. rw e refl;
    fire_refused = λ ts state enter hook t o e. rw e refl;
    can_lem = λ ts s t. refl;
  }

-- A service that fails at the calls of one number.
abbrev answers : {A : Type 0} → Option ℕ → A → Task ℕ A
answers none a w = (ok a, suc w)
answers (some n) a w = (if w == n then err (error "unavailable") else ok a, suc w)

abbrev csds_config : CsdsConfig
csds_config = record { account_id = "a"; csds_domain = "csds.example.com"; service = none }

abbrev found : CsdsResponse
found = field "agentVep" (str "vep.example.com") end

abbrev session : UserSession
session = field "accountId" (str "a") (field "token" (str "t") end)

-- The services, of which the call numbered `failing` fails.
abbrev pub config : Option ℕ → ClientConfig ℕ String ℕ String
config failing = record {
  csds_config = csds_config;
  csds_resolver = record {
    resolve = λ o. answers failing found;
    resolve_service = λ o. answers failing (str "ws.example.com");
  };
  refresh_interval = 600000;
  credentials = "secret";
  session_provider = record {
    login = λ c o. answers failing session;
    refresh = λ u o. answers failing tt;
    logout = λ u o. answers failing tt;
  };
  transport = record {
    is_connected = λ w. true;
    connect = λ o. answers failing tt;
    disconnect = answers failing tt;
    send_message = λ m. answers failing tt;
    on_message = λ cb w. (ok tt, w);
    on_error = λ cb w. (ok tt, w);
  };
  transport_config = "ws";
}

abbrev pub new_client : Client ℕ
new_client = record {
  state = stopped;
  csds_domains = none;
  refresh_task = none;
  le_session = none;
  timers = record { fresh = 0; armed = [] };
  world = 0;
}

abbrev running : Client ℕ
running = record {
  state = started;
  csds_domains = some found;
  refresh_task = some 0;
  le_session = some session;
  timers = record { fresh = 1; armed = (0, 600000) ∷ [] };
  world = 4;
}

started_up : run state_machine (config none) start new_client ≡ (ok tt, running)
unfolding transport_hooks
started_up = refl

start-IsReady_example : IsReady running
start-IsReady_example = start-IsReady state_machine (config none) new_client running refl started_up

-- The client whose login failed: the domains are there and the timer is armed.
abbrev not_logged_in : Client ℕ
not_logged_in = record running { le_session = none; world = 2 }

login_failed :
    run state_machine (config (some 1)) start new_client
    ≡ (err (error "unavailable"), not_logged_in)
unfolding transport_hooks
login_failed = refl

start_failed_example :
    (not_logged_in.state ≡ started)
    × (run state_machine (config (some 1)) start not_logged_in ≡ (err refused, not_logged_in))
start_failed_example =
    start_failed state_machine (config (some 1)) new_client not_logged_in (error "unavailable") refl
      login_failed

start_unresolved_example :
    let c' : Client ℕ = record new_client { state = started; world = 1 } in
    (run state_machine (config (some 0)) start new_client ≡ (err (error "unavailable"), c'))
    × (domains c' ≡ (ok none, c'))
start_unresolved_example =
    start_unresolved state_machine (config (some 0)) new_client (error "unavailable") 1 refl refl
      refl

abbrev stopped_down : Client ℕ
stopped_down = record {
  state = stopped;
  csds_domains = none;
  refresh_task = none;
  le_session = none;
  timers = record { fresh = 1; armed = [] };
  world = 6;
}

abbrev went_well : Result (Unit {0})
went_well = ok tt

went_down : run state_machine (config none) stop running ≡ (went_well, stopped_down)
unfolding transport_hooks clear_if_set
went_down = refl

stop_clears_example :
    (stopped_down.state ≡ stopped)
    × (stopped_down.csds_domains ≡ none)
    × (stopped_down.refresh_task ≡ none)
    × (task_armed running.refresh_task stopped_down.timers ≡ false)
    × ((went_well ≢ ok tt) ⊎ (stopped_down.le_session ≡ none))
stop_clears_example =
    stop_clears state_machine (config none) running stopped_down went_well refl went_down

stop_unlogged_example :
    let c' : Client ℕ = record running {
      state = stopped;
      csds_domains = none;
      refresh_task = none;
      timers = clear_if_set running.refresh_task running.timers;
      world = 5;
    } in
    (run state_machine (config (some 4)) stop running ≡ (err (error "unavailable"), c'))
    × (run state_machine (config (some 4)) stop c' ≡ (err refused, c'))
stop_unlogged_example =
    stop_unlogged state_machine (config (some 4)) running session (error "unavailable") 5 refl refl
      refl

new_client-Inv : Inv new_client
new_client-Inv = record { single = tt; quiet = λ s. refl; cleared = λ s. (refl, refl) }

running-Inv : Inv running
running-Inv = record { single = refl; quiet = λ s. cc; cleared = λ s. cc }

-- A start, a refresh by the timer that fails, a stop and a start again.
abbrev life : List (Event ℕ)
life = calls start ∷ fires 0 ∷ calls stop ∷ elapses 9 ∷ calls start ∷ []

timers-Inv_example : Inv (steps state_machine (config (some 4)) life new_client)
timers-Inv_example = timers-Inv state_machine (config (some 4)) life new_client new_client-Inv

timer_armed : is_armed 0 running.timers.armed ≡ true
unfolding is_armed
timer_armed = refl

fired_requeues_example :
    Requeued state_machine (config (some 4)) 1 (fired state_machine (config (some 4)) 0 running)
fired_requeues_example =
    fired_requeues state_machine (config (some 4)) 0 running running-Inv timer_armed

steps-refine_example :
    let c' : Client ℕ = steps state_machine (config (some 4)) life new_client in
    (c'.state ≡ replay life stopped)
    × (run state_machine (config (some 4)) start c' ≡ (
        if allows start (replay life stopped)
        then run_hook (transport_hooks (config (some 4))) start (enter (target start) c')
        else (err refused, c')))
steps-refine_example = steps-refine state_machine (config (some 4)) life start new_client
