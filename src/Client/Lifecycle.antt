-- ===== src/Client/Lifecycle.antt =====
-- csds-client/src/client.ts, le-client/src/client.ts, transport-client/src/client.ts: what starting
-- and stopping a TransportClient leaves behind.
use lp_clients.Base.{
  ℕ, is_some, ==_refl, ◌≡◌, refl, ◌≢◌, ◌⊎◌, inl, inr, Bool, true, false, Option, none, some, arith,
  Task, Result, ok, err, Failure,
}
use lp_clients.Platform.Timers.{Timers, clear_if_set, is_armed, is_armed-keep}
use lp_clients.Client.Machine.{
  started, stopped, ClientTransition, start, stop, refresh, transitions, leads_to, StateMachine,
}
use lp_clients.Client.Services.{ClientConfig, UserSession, provider_options}
use lp_clients.Client.State.{Client, state_of, enter}
use lp_clients.Client.CsdsClient.{run_hook, transit, domains}
use lp_clients.Client.LeClient.{le_on_refresh}
use lp_clients.Client.TransportClient.{transport_on_start, transport_on_stop, transport_hooks}

-- Whether a handle is kept and its timer is armed.
abbrev pub task_armed : Option ℕ → Timers → Bool
task_armed none t = false
task_armed (some h) t = is_armed h t.armed

-- What a started client has.
pub record IsReady {W : Type 0} (c : Client W) : Type 0 where
  pub in_state : c.state ≡ started
  pub has_domains : is_some c.csds_domains ≡ true
  pub has_session : is_some c.le_session ≡ true
  pub has_task : task_armed c.refresh_task c.timers ≡ true

-- Clearing the kept handle disarms its timer.
pub task_armed-clear : (h : Option ℕ) (t : Timers) → task_armed h (clear_if_set h t) ≡ false
unfolding clear_if_set
task_armed-clear none t = refl
task_armed-clear (some h) t = rw (is_armed-keep h h t.armed, ==_refl h)

module _ {W Credentials SendType TransportConfig : Type 0} (machine : StateMachine (Client W))
    (config : ClientConfig W Credentials SendType TransportConfig) where
  abbrev pub run : ClientTransition → Task (Client W) (Unit {0})
  run t = transit machine state_of enter (transport_hooks config) t

  pub on_start-state :
      (c : Client W) (r : Result (Unit {0})) (c' : Client W)
      → transport_on_start config (le_on_refresh config) c ≡ (r, c')
      → c'.state ≡ c.state
  unfolding transport_on_start le_on_refresh
  on_start-state c r c' h = ground arith

  pub on_stop_clears :
      (c c' : Client W) (r : Result (Unit {0}))
      → transport_on_stop config c ≡ (r, c')
      → c.state ≡ stopped
      → (c'.state ≡ stopped)
        × (c'.csds_domains ≡ none)
        × (c'.refresh_task ≡ none)
        × (task_armed c.refresh_task c'.timers ≡ false)
        × ((r ≢ ok tt) ⊎ (c'.le_session ≡ none))
  unfolding transport_on_stop
  on_stop_clears c c' r h s = ground (arith, task_armed-clear c.refresh_task c.timers)

  on_start-IsReady :
      (c c' : Client W)
      → transport_on_start config (le_on_refresh config) c ≡ (ok tt, c')
      → c.state ≡ started
      → IsReady c'
  unfolding transport_on_start le_on_refresh is_armed
  on_start-IsReady c c' h s = ground (arith)

  -- The transitions of the client's machine, as the library runs them.
  pub run-start :
      (c : Client W)
      → c.state ≡ stopped
      → run start c ≡ (transport_hooks config).on_start (enter started c)
  run-start c s =
      machine.fire_allowed transitions state_of enter (run_hook (transport_hooks config)) start c
        started (rw s refl)

  pub run-stop :
      (c : Client W)
      → c.state ≡ started
      → run stop c ≡ (transport_hooks config).on_stop (enter stopped c)
  run-stop c s =
      machine.fire_allowed transitions state_of enter (run_hook (transport_hooks config)) stop c
        stopped (rw s refl)

  pub run-refresh :
      (c : Client W)
      → c.state ≡ started
      → run refresh c ≡ (transport_hooks config).on_refresh (enter started c)
  run-refresh c s =
      machine.fire_allowed transitions state_of enter (run_hook (transport_hooks config)) refresh c
        started (rw s refl)

  refused :
      (t : ClientTransition) (c : Client W)
      → leads_to transitions t c.state ≡ none
      → run t c ≡ (err machine.refusal, c)
  refused t c h =
      machine.fire_refused transitions state_of enter (run_hook (transport_hooks config)) t c h

  -- A client that runs cannot be started, and one that is stopped can be neither stopped nor
  -- refreshed: the call rejects with the machine's error, and nothing changes or is sent.
  pub run_refused :
      (t : ClientTransition) (c : Client W)
      → ((t ≡ start) × (c.state ≡ started)) ⊎ ((t ≢ start) × (c.state ≡ stopped))
      → run t c ≡ (err machine.refusal, c)
  run_refused t c h = refused t c (ground arith)

  -- The start of a stopped client that succeeds leaves it ready: in the state "started", with the
  -- domains, with a session, and with an armed timer for the next refresh.
  pub start-IsReady : (c c' : Client W) → c.state ≡ stopped → run start c ≡ (ok tt, c') → IsReady c'
  unfolding transport_hooks
  start-IsReady c c' s h = on_start-IsReady (enter started c) c' (rw (run-start c s) at h) refl

  -- A start that fails, at whichever of its steps, leaves the client in the state "started": a
  -- second start is refused.
  pub start_failed :
      (c c' : Client W) (e : Failure)
      → c.state ≡ stopped
      → run start c ≡ (err e, c')
      → (c'.state ≡ started) × (run start c' ≡ (err machine.refusal, c'))
  unfolding transport_hooks
  start_failed c c' e s h =
      let still = on_start-state (enter started c) (err e) c' (rw (run-start c s) at h) in
      (still, run_refused start c' (inl (refl, still)))

  -- When the resolver rejects during the start of a stopped client without domains, the client is
  -- left in the state "started" with no domains: the getter `domains` then does not throw and returns
  -- `undefined`.
  pub start_unresolved :
      (c : Client W) (e : Failure) (w : W)
      → c.state ≡ stopped
      → c.csds_domains ≡ none
      → config.csds_resolver.resolve config.csds_config c.world ≡ (err e, w)
      → let c' : Client W = record c { state = started; world = w } in
        (run start c ≡ (err e, c')) × (domains c' ≡ (ok none, c'))
  unfolding transport_hooks domains
  start_unresolved c e w s d h = (rw (run-start c s) (rw (h) refl), ground arith)

  -- Stopping a started client leaves it in the state "stopped", with no domains and no refresh
  -- task, its timer no longer armed, whether the session's logout and the transport's disconnect
  -- succeed or not; if they do, the session is gone too.
  pub stop_clears :
      (c c' : Client W) (r : Result (Unit {0}))
      → c.state ≡ started
      → run stop c ≡ (r, c')
      → (c'.state ≡ stopped)
        × (c'.csds_domains ≡ none)
        × (c'.refresh_task ≡ none)
        × (task_armed c.refresh_task c'.timers ≡ false)
        × ((r ≢ ok tt) ⊎ (c'.le_session ≡ none))
  unfolding transport_hooks
  stop_clears c c' r s h = on_stop_clears (enter stopped c) c' r (rw (run-stop c s) at h) refl

  -- If the logout of the session rejects, the stop ends there with the same failure: the world is the
  -- one that the logout left, so the transport is not disconnected, and the session is kept. As the
  -- client is in the state "stopped", stopping it again is refused.
  pub stop_unlogged :
      (c : Client W) (u : UserSession) (e : Failure) (w : W)
      → c.state ≡ started
      → c.le_session ≡ some u
      → config.session_provider.logout u (provider_options config) c.world ≡ (err e, w)
      → let c' : Client W = record c {
        state = stopped;
        csds_domains = none;
        refresh_task = none;
        timers = clear_if_set c.refresh_task c.timers;
        world = w;
      } in
        (run stop c ≡ (err e, c')) × (run stop c' ≡ (err machine.refusal, c'))
  unfolding transport_hooks
  stop_unlogged c u e w s l h =
      (rw (run-stop c s, l, h) refl, run_refused stop _ (inr (ground arith, refl)))
