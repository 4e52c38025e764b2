-- ===== src/Ums/Object/Refinement.antt =====
-- ums-client/src/client.ts: over its histories, the object does to its requests what Histories says.
use lp_clients.Base.{
  ℕ, ◌≡◌, refl, sym, ap, ◌∙◌, inl, inr, List, [], ◌∷◌, ◌++◌, String, after, modify, Result, ok, err,
  if◌then◌else◌, Bool-cases, Option-cases, ◌⊎◌, ◌≢◌, ◌≤◌, All, eq_iff, subst, arith,
}
use lp_clients.Platform.Timers.{fire_timer, is_armed}
use lp_clients.Client.Machine.{
  ClientState, ClientTransition, start, stop, refresh, transitions, leads_to, StateMachine,
}
use lp_clients.Client.Services.{ClientConfig}
use lp_clients.Client.State.{Client, state_of, enter}
use lp_clients.Client.CsdsClient.{run_hook, refresh_fired, queue_refresh_task}
use lp_clients.Client.LeClient.{le_on_refresh}
use lp_clients.Ums.Requests.{Requests, clear_handlers}
use lp_clients.Ums.Histories.{history-Inv, Event, step, steps}
use lp_clients.Ums.Client.{ums_on_start, ums_on_stop, ums_hooks}
use lp_clients.Platform.Emitter.{Emitter, listener_count}
use lp_clients.Ums.Invariant.{Inv, Single}
use lp_clients.Ums.Object.{
  max_listeners, change_requests, beside_requests, is_ok, Object, hooks, ObjectEvent, calls, fires,
  elapses, asks, fails, expires, hears, called, run_object, object_fired, object_step, object_steps,
  seen, all_seen,
}

Single-listener_count :
    (id : String) (em : Emitter ℕ) → Single em → listener_count id em ≤ max_listeners
unfolding listener_count
Single-listener_count id [] h = omega arith
Single-listener_count id (x ∷ em) (a, h) =
    ground (arith, Single-listener_count id em h, differs_unheard x.event em a, eq_iff x.event id)
  where
    differs_unheard :
        (e : String) (em : Emitter ℕ) → All (λ y. y.event ≢ e) em → listener_count e em ≡ 0
    differs_unheard e [] h = refl
    differs_unheard e (y ∷ em) (n, h) = ground (arith, differs_unheard e em h, eq_iff y.event e)

module _ {W Credentials SendType TransportConfig : Type 0}
    (config : ClientConfig W Credentials SendType TransportConfig) where
  on_refresh-requests :
      (c c' : Object config) (r : Result (Unit {0}))
      → le_on_refresh (beside_requests config) c ≡ (r, c')
      → c'.world.1 ≡ c.world.1
  unfolding le_on_refresh
  on_refresh-requests c c' r h = ground arith

  on_start-requests :
      (c c' : Object config) (r : Result (Unit {0}))
      → ums_on_start (beside_requests config) change_requests c ≡ (r, c')
      → c'.world.1 ≡ c.world.1
  unfolding ums_on_start
  on_start-requests c c' r h = ground arith

  on_stop-requests :
      (c c' : Object config) (r : Result (Unit {0}))
      → ums_on_stop (beside_requests config) change_requests c ≡ (r, c')
      → c'.world.1 ≡ (if is_ok r then clear_handlers c.world.1 else c.world.1)
  unfolding ums_on_stop
  on_stop-requests c c' r h = ground arith

module _ {W Credentials SendType TransportConfig : Type 0}
    (config : ClientConfig W Credentials SendType TransportConfig)
    (machine : StateMachine (Client (W × Requests SendType))) (interval : String) where
  -- A call is refused, or runs its method in some state.
  run_cases :
      (t : ClientTransition) (c : Object config)
      → (run_object config machine t c ≡ (err machine.refusal, c))
        ⊎ ((s : ClientState) × (run_object config machine t c
              ≡ run_hook (hooks config) t (enter s c)))
  run_cases t c = elim (Option-cases (leads_to transitions t c.state)) [
    | inl e ↦ inl (machine.fire_refused transitions state_of enter (run_hook (hooks config)) t c e)
    | inr (s, e) ↦
        inr (s, machine.fire_allowed transitions state_of enter (run_hook (hooks config)) t c s e)
  ]

  run-requests :
      (t : ClientTransition) (c : Object config)
      → (run_object config machine t c).1.world.1
        ≡ steps interval (called t (is_ok (run_object config machine t c).0)) c.world.1
  unfolding steps step ums_hooks
  run-requests start c = elim (run_cases start c) [
    | inl e ↦ rw e refl
    | inr (s, e) ↦ rw e (on_start-requests config (enter s c) _ _ refl)
  ]
  run-requests refresh c = elim (run_cases refresh c) [
    | inl e ↦ rw e refl
    | inr (s, e) ↦ rw e (on_refresh-requests config (enter s c) _ _ refl)
  ]
  run-requests stop c = elim (run_cases stop c) [
    | inl e ↦ rw e refl
    | inr (s, e) ↦ rw e (
        cleared (run_hook (hooks config) stop (enter s c))
          (on_stop-requests config (enter s c) _ _ refl))
  ]
    where
      cleared :
          (out : Result (Unit {0}) × Object config)
          → out.1.world.1 ≡ (if is_ok out.0 then clear_handlers c.world.1 else c.world.1)
          → out.1.world.1 ≡ steps interval (called stop (is_ok out.0)) c.world.1
      cleared (ok u, d) h = h
      cleared (err x, d) h = h

  queued-requests :
      (out : Result (Unit {0}) × Object config)
      → (after (λ u. modify (queue_refresh_task config.refresh_interval)) out).1.world.1
        ≡ out.1.world.1
  unfolding queue_refresh_task
  queued-requests (ok u, d) = refl
  queued-requests (err x, d) = refl

  refresh_fired-requests :
      (c : Object config)
      → (refresh_fired (beside_requests config) machine (hooks config) c).1.world.1 ≡ c.world.1
  unfolding refresh_fired steps
  refresh_fired-requests c = elim (Bool-cases (machine.can transitions c.state refresh)) [
    | inl e ↦ rw e (queued-requests (run_object config machine refresh c) ∙ run-requests refresh c)
    | inr e ↦ rw e (queued-requests (ok tt, c))
  ]

  object_fired-requests :
      (h : ℕ) (c : Object config) → (object_fired config machine h c).1.world.1 ≡ c.world.1
  unfolding object_fired
  object_fired-requests h c = elim (Bool-cases (is_armed h c.timers.armed)) [
    | inl e ↦ rw e (refresh_fired-requests (record c { timers = fire_timer h c.timers }))
    | inr e ↦ rw e refl
  ]

  step-requests :
      (e : ObjectEvent W SendType) (c : Object config)
      → (object_step config machine interval e c).world.1
        ≡ steps interval (seen config machine e c) c.world.1
  unfolding object_step seen steps step
  step-requests (calls t) c = run-requests t c
  step-requests (fires h) c = object_fired-requests h c
  step-requests (elapses w) c = refl
  step-requests (asks id req) c = refl
  step-requests (fails n e) c = refl
  step-requests (expires n) c = refl
  step-requests (hears v) c = refl

  steps-append :
      (es fs : List (Event SendType)) (r : Requests SendType)
      → steps interval (es ++ fs) r ≡ steps interval fs (steps interval es r)
  unfolding steps
  steps-append [] fs r = refl
  steps-append (e ∷ es) fs r = steps-append es fs (step interval e r)

  object_steps-requests :
      (es : List (ObjectEvent W SendType)) (c : Object config)
      → (object_steps config machine interval es c).world.1
        ≡ steps interval (all_seen config machine interval es c) c.world.1
  unfolding object_steps all_seen steps
  object_steps-requests [] c = refl
  object_steps-requests (e ∷ es) c =
      object_steps-requests es (object_step config machine interval e c)
      ∙ ap
          (steps interval
            (all_seen config machine interval es (object_step config machine interval e c)))
          (step-requests e c)
      ∙ sym (
          steps-append (seen config machine e c)
            (all_seen config machine interval es (object_step config machine interval e c))
            c.world.1)

  -- Over any history of its calls, its refresh timer, its requests and the messages, the requests of
  -- an object are what their own history makes of them: requests are taken as the state of the object
  -- has it at that moment, exactly the stops that succeed clear them, and starting and refreshing, by
  -- a call or by the timer, leave them alone. So they keep their invariant, and no id has more
  -- listeners than the constructor allows.
  pub object_steps-refine :
      (es : List (ObjectEvent W SendType)) (c : Object config) (id : String)
      → Inv c.world.1
      → let r = (object_steps config machine interval es c).world.1 in
        (r ≡ steps interval (all_seen config machine interval es c) c.world.1)
        × Inv r
        × (listener_count id r.responses ≤ max_listeners)
  object_steps-refine es c id v =
      let kept : Inv (object_steps config machine interval es c).world.1 =
        subst Inv (sym (object_steps-requests es c))
          (history-Inv interval (all_seen config machine interval es c) c.world.1 v) in
      (object_steps-requests es c, kept, Single-listener_count id _ kept.single)
