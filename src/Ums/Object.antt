-- ===== src/Ums/Object.antt =====
-- ums-client/src/client.ts: the object and its requests together, over histories of the calls of its
-- methods, its timers and the messages. Its services do not touch the handlers of the requests: they
-- are given a world that has the requests beside their own.
pub mod Refinement
use lp_clients.Base.{
  ℕ, ◌≡◌, refl, sym, ap, ◌∙◌, inl, inr, Bool, true, false, List, [], ◌∷◌, ◌++◌, String, Task, after,
  modify, Result, ok, err, Failure, if◌then◌else◌, Bool-cases, Option-cases, ◌⊎◌, arith,
}
use lp_clients.Platform.Values.{Value}
use lp_clients.Platform.Timers.{fire_timer, is_armed}
use lp_clients.Client.Machine.{
  ClientState, ClientTransition, start, stop, refresh, transitions, leads_to, StateMachine,
}
use lp_clients.Client.Services.{ClientConfig, provider_options}
use lp_clients.Client.State.{Client, state_of, enter}
use lp_clients.Client.CsdsClient.{
  Hooks, run_hook, transit, is_started, refresh_fired, queue_refresh_task,
}
use lp_clients.Client.LeClient.{le_on_refresh}
use lp_clients.Ums.Requests.{Requests, send_message, reject, time_out, dispatch, clear_handlers}
use lp_clients.Ums.Histories.{Event, requests, send_fails, times_out, receives, stops, step, steps}
use lp_clients.Ums.Client.{ums_on_start, ums_on_stop, ums_hooks, run_ums}

-- `setMaxListeners` of the constructor: with more listeners of an id than this, Node warns.
abbrev pub max_listeners : ℕ
max_listeners = 1

-- A task of a service, beside the requests.
abbrev pub beside : {W R A : Type 0} → Task W A → Task (W × R) A
beside m s = ((m s.0).0, ((m s.0).1, s.1))

abbrev pub change_requests : {W R : Type 0} → (R → R) → W × R → W × R
change_requests f s = (s.0, f s.1)

-- The same services. What a session provider is given is the configuration's resolver.
abbrev pub beside_requests :
    {W R Credentials SendType TransportConfig : Type 0}
    → ClientConfig W Credentials SendType TransportConfig
    → ClientConfig (W × R) Credentials SendType TransportConfig
beside_requests c = record {
  csds_config = c.csds_config;
  csds_resolver = record {
    resolve = λ config. beside (c.csds_resolver.resolve config);
    resolve_service = λ config. beside (c.csds_resolver.resolve_service config);
  };
  refresh_interval = c.refresh_interval;
  credentials = c.credentials;
  session_provider = record {
    login =
        λ credentials options. beside (c.session_provider.login credentials (provider_options c));
    refresh = λ session options. beside (c.session_provider.refresh session (provider_options c));
    logout = λ session options. beside (c.session_provider.logout session (provider_options c));
  };
  transport = record {
    is_connected = λ s. c.transport.is_connected s.0;
    connect = λ options. beside (c.transport.connect options);
    disconnect = beside c.transport.disconnect;
    send_message = λ m. beside (c.transport.send_message m);
    on_message = λ cb. beside (c.transport.on_message cb);
    on_error = λ cb. beside (c.transport.on_error cb);
  };
  transport_config = c.transport_config;
}

abbrev pub is_ok : {A : Type 0} → Result A → Bool
is_ok (ok a) = true
is_ok (err e) = false

module _ {W Credentials SendType TransportConfig : Type 0}
    (config : ClientConfig W Credentials SendType TransportConfig) where
  -- The object with its requests.
  abbrev pub Object : Type 0
  Object = Client (W × Requests SendType)

  abbrev pub hooks : Hooks Object
  hooks = ums_hooks (beside_requests config) change_requests

-- What happens to an object: the calls of its methods, the timer of its refresh task, what goes on in
-- the world meanwhile, and, for its requests, the events of Histories.
pub data ObjectEvent (W SendType : Type 0) : Type 0 where
  calls : ClientTransition → ObjectEvent W SendType
  fires : ℕ → ObjectEvent W SendType
  elapses : W → ObjectEvent W SendType
  asks : String → SendType → ObjectEvent W SendType
  fails : ℕ → Failure → ObjectEvent W SendType
  expires : ℕ → ObjectEvent W SendType
  hears : Value → ObjectEvent W SendType

-- An operation on the requests of an object.
abbrev pub on_requests : {W R : Type 0} → (R → R) → Client (W × R) → Client (W × R)
on_requests f c = record c { world = change_requests f c.world }

-- What a call does to the requests: a stop that succeeds clears them.
abbrev pub called : {SendType : Type 0} → ClientTransition → Bool → List (Event SendType)
called stop true = stops ∷ []
called t b = []

module _ {W Credentials SendType TransportConfig : Type 0}
    (config : ClientConfig W Credentials SendType TransportConfig)
    (machine : StateMachine (Client (W × Requests SendType))) where
  abbrev pub run_object : ClientTransition → Task (Object config) (Unit {0})
  run_object t = run_ums (beside_requests config) change_requests machine t

  -- The timer of the refresh task fires.
  unfoldable pub object_fired : ℕ → Task (Object config) (Unit {0})
  unfolding refresh_fired
  object_fired h c =
      if is_armed h c.timers.armed
      then refresh_fired (beside_requests config) machine (hooks config)
          (record c { timers = fire_timer h c.timers })
      else (ok tt, c)

  -- What an event of the object is for its requests.
  unfoldable pub seen : ObjectEvent W SendType → Object config → List (Event SendType)
  unfolding is_started
  seen (calls t) c = called t (is_ok (run_object t c).0)
  seen (fires h) c = []
  seen (elapses w) c = []
  seen (asks id req) c = requests (is_started c) id req ∷ []
  seen (fails n e) c = send_fails n e ∷ []
  seen (expires n) c = times_out n ∷ []
  seen (hears v) c = receives v ∷ []

  module _ (interval : String) where
    unfoldable pub object_step : ObjectEvent W SendType → Object config → Object config
    unfolding object_fired is_started
    object_step (calls t) c = (run_object t c).1
    object_step (fires h) c = (object_fired h c).1
    object_step (elapses w) c = record c { world = (w, c.world.1) }
    object_step (asks id req) c = on_requests (send_message (is_started c) id req) c
    object_step (fails n e) c = on_requests (reject n e) c
    object_step (expires n) c = on_requests (time_out interval n) c
    object_step (hears v) c = on_requests (λ r. (dispatch v r).1) c

    unfoldable pub object_steps : List (ObjectEvent W SendType) → Object config → Object config
    unfolding object_step
    object_steps [] c = c
    object_steps (e ∷ es) c = object_steps es (object_step e c)

    unfoldable pub all_seen : List (ObjectEvent W SendType) → Object config → List (Event SendType)
    unfolding seen
    all_seen [] c = []
    all_seen (e ∷ es) c = seen e c ++ all_seen es (object_step e c)
