-- ===== src/Client/Contract.antt =====
-- csds-client/src/client.ts: what the life cycle promises, as a machine of two states, and that the
-- client behaves like it over any history.
use lp_clients.Base.{
  ℕ, ◌≡◌, refl, sym, ◌∙◌, ap, subst, Bool, true, false, List, [], ◌∷◌, if◌then◌else◌, Bool-cases,
  inl, inr, is_some, arith, Result, ok, err,
}
use lp_clients.Platform.Timers.{fire_timer, is_armed}
use lp_clients.Client.Machine.{
  ClientState, started, stopped, ClientTransition, start, stop, refresh, transitions, leads_to,
  StateMachine,
}
use lp_clients.Client.Services.{ClientConfig}
use lp_clients.Client.State.{Client, enter}
use lp_clients.Client.CsdsClient.{run_hook, refresh_fired, queue_refresh_task}
use lp_clients.Client.TransportClient.{transport_hooks}
use lp_clients.Client.Lifecycle.{
  run, run-start, run-stop, run-refresh, run_refused, on_start-state, on_stop_clears,
}
use lp_clients.Client.RefreshTask.{
  Event, calls, fires, elapses, step, steps, fired, state_cases, on_refresh-keeps,
  refresh_fired_lem, requeue,
}

-- The contract: a stopped client can be started; a started one can be stopped and refreshed.
abbrev pub allows : ClientTransition → ClientState → Bool
allows start stopped = true
allows stop started = true
allows refresh started = true
allows _ _ = false

abbrev pub target : ClientTransition → ClientState
target start = started
target stop = stopped
target refresh = started

abbrev pub called : ClientTransition → ClientState → ClientState
called t s = if allows t s then target t else s

-- The state after a history, by the contract: timers and the world do not change it.
unfoldable pub replay : {W : Type 0} → List (Event W) → ClientState → ClientState
replay [] s = s
replay (calls t ∷ es) s = replay es (called t s)
replay (fires h ∷ es) s = replay es s
replay (elapses w ∷ es) s = replay es s

module _ {W Credentials SendType TransportConfig : Type 0} (machine : StateMachine (Client W))
    (config : ClientConfig W Credentials SendType TransportConfig) where
  call_state :
      (t : ClientTransition) (c : Client W) → (run machine config t c).1.state ≡ called t c.state
  unfolding transport_hooks
  call_state start c = elim (state_cases c.state) [
    | inl s ↦ rw (run_refused machine config start c (inl (refl, s)), s) refl
    | inr s ↦
        rw (run-start machine config c s, s)
          (on_start-state machine config (enter started c) _ _ refl)
  ]
  call_state stop c = elim (state_cases c.state) [
    | inl s ↦
        rw (run-stop machine config c s, s)
          (on_stop_clears machine config (enter stopped c) _ _ refl refl).0
    | inr s ↦ rw (run_refused machine config stop c (inr (ground arith, s)), s) refl
  ]
  call_state refresh c = elim (state_cases c.state) [
    | inl s ↦
        rw (run-refresh machine config c s, s)
          (on_refresh-keeps machine config (enter started c) _ _ refl).0
    | inr s ↦ rw (run_refused machine config refresh c (inr (ground arith, s)), s) refl
  ]

  requeue-state :
      (c : Client W) (out : Result (Unit {0}) × Client W)
      → out.1.state ≡ c.state
      → (requeue machine config out).1.state ≡ c.state
  unfolding queue_refresh_task
  requeue-state c (ok u, d) h = h
  requeue-state c (err e, d) h = h

  stopped_fired :
      (c : Client W)
      → c.state ≡ stopped
      → refresh_fired config machine (transport_hooks config) c ≡ requeue machine config (ok tt, c)
  unfolding refresh_fired
  stopped_fired c s =
      let refused : machine.can transitions c.state refresh ≡ false =
        machine.can_lem transitions c.state refresh
        ∙ ap (λ t. is_some (leads_to transitions refresh t)) s in
      rw refused refl

  refresh_fired-state :
      (c : Client W) → (refresh_fired config machine (transport_hooks config) c).1.state ≡ c.state
  unfolding queue_refresh_task
  refresh_fired-state c = elim (state_cases c.state) [
    | inl s ↦
        rw (refresh_fired_lem machine config c s) (
          requeue-state c _
            ((on_refresh-keeps machine config (enter started c) _ _ refl).0 ∙ sym s))
    | inr s ↦ rw (stopped_fired c s) refl
  ]

  fired-state : (h : ℕ) (c : Client W) → (fired machine config h c).1.state ≡ c.state
  unfolding fired
  fired-state h c = elim (Bool-cases (is_armed h c.timers.armed)) [
    | inl on ↦ rw on (refresh_fired-state (record c { timers = fire_timer h c.timers }))
    | inr off ↦ rw off refl
  ]

  steps-state :
      (es : List (Event W)) (c : Client W) → (steps machine config es c).state ≡ replay es c.state
  unfolding steps step replay
  steps-state [] c = refl
  steps-state (calls t ∷ es) c =
      steps-state es (run machine config t c).1 ∙ ap (replay es) (call_state t c)
  steps-state (fires h ∷ es) c =
      steps-state es (fired machine config h c).1 ∙ ap (replay es) (fired-state h c)
  steps-state (elapses w ∷ es) c = steps-state es (record c { world = w })

  run_contract :
      (t : ClientTransition) (c : Client W)
      → run machine config t c ≡ (
          if allows t c.state
          then run_hook (transport_hooks config) t (enter (target t) c)
          else (err machine.refusal, c))
  run_contract start c = elim (state_cases c.state) [
    | inl s ↦ rw (run_refused machine config start c (inl (refl, s)), s) refl
    | inr s ↦ rw (run-start machine config c s, s) refl
  ]
  run_contract stop c = elim (state_cases c.state) [
    | inl s ↦ rw (run-stop machine config c s, s) refl
    | inr s ↦ rw (run_refused machine config stop c (inr (ground arith, s)), s) refl
  ]
  run_contract refresh c = elim (state_cases c.state) [
    | inl s ↦ rw (run-refresh machine config c s, s) refl
    | inr s ↦ rw (run_refused machine config refresh c (inr (ground arith, s)), s) refl
  ]

  -- The client refines the contract: after any history of calls, timer events and changes of the
  -- world its state is that of the contract, and the next call runs its method in the target state if
  -- the contract allows it there, and else rejects with the machine's error and changes nothing.
  pub steps-refine :
      (es : List (Event W)) (t : ClientTransition) (c : Client W)
      → let c' : Client W = steps machine config es c in
        (c'.state ≡ replay es c.state)
        × (run machine config t c' ≡ (
            if allows t (replay es c.state)
            then run_hook (transport_hooks config) t (enter (target t) c')
            else (err machine.refusal, c')))
  steps-refine es t c = (
    steps-state es c,
    subst
        (λ s. run machine config t (steps machine config es c) ≡ (
          if allows t s
          then run_hook (transport_hooks config) t (enter (target t) (steps machine config es c))
          else (err machine.refusal, steps machine config es c)))
        (steps-state es c) (run_contract t (steps machine config es c)),
  )
