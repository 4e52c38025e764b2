-- ===== src/Client/RefreshTask.antt =====
-- csds-client/src/client.ts: the timer of the periodic refresh, over any sequence of calls and
-- timer events of a TransportClient, whatever its services answer.
use lp_clients.Base.{
  ℕ, ◌≡◌, refl, ◌∙◌, ap, ◌≢◌, ◌⊎◌, inl, inr, true, Option, none, some, List, [], ◌∷◌, arith, Task,
  Result, ok, err, after, modify, if◌then◌else◌, Bool-cases, is_some,
}
use lp_clients.Platform.Timers.{Timers, clear_if_set, fire_timer, is_armed}
use lp_clients.Client.Machine.{
  ClientState, started, stopped, ClientTransition, start, stop, refresh, transitions, leads_to,
  StateMachine,
}
use lp_clients.Client.Services.{ClientConfig}
use lp_clients.Client.State.{Client, enter}
use lp_clients.Client.CsdsClient.{refresh_fired, queue_refresh_task}
use lp_clients.Client.LeClient.{le_on_refresh}
use lp_clients.Client.TransportClient.{transport_on_start, transport_on_stop, transport_hooks}
use lp_clients.Client.Lifecycle.{run, run-start, run-stop, run-refresh, run_refused}

-- The armed timers are at most the one whose handle is kept.
abbrev pub AtMost : Option ℕ → List (ℕ × ℕ) → Type 0
AtMost o [] = Unit
AtMost o ((h, delay) ∷ []) = o ≡ some h
AtMost o (x ∷ y ∷ rest) = ⊥

clear-AtMost : (o : Option ℕ) (t : Timers) → AtMost o t.armed → (clear_if_set o t).armed ≡ []
unfolding clear_if_set
clear-AtMost o t h = emptied o t.armed h
  where
    emptied :
        (o : Option ℕ) (es : List (ℕ × ℕ))
        → AtMost o es
        → (clear_if_set o (record t { armed = es })).armed ≡ []
    emptied none [] h = refl
    emptied (some k) [] h = refl
    emptied none ((j, d) ∷ []) h = cc
    emptied (some k) ((j, d) ∷ []) h = ground arith
    emptied o (x ∷ y ∷ rest) h = absurd h

fire-AtMost :
    (h : ℕ) (o : Option ℕ) (t : Timers)
    → AtMost o t.armed
    → is_armed h t.armed ≡ true
    → (fire_timer h t).armed ≡ []
unfolding fire_timer is_armed
fire-AtMost h o t = emptied t.armed
  where
    emptied :
        (es : List (ℕ × ℕ))
        → AtMost o es
        → is_armed h es ≡ true
        → (fire_timer h (record t { armed = es })).armed ≡ []
    emptied [] a b = refl
    emptied ((j, d) ∷ []) a b = ground arith
    emptied (x ∷ y ∷ rest) a b = absurd a

pub state_cases : (s : ClientState) → (s ≡ started) ⊎ (s ≡ stopped)
state_cases started = inl refl
state_cases stopped = inr refl

-- What holds of the timers of a client between two events.
pub record Inv {W : Type 0} (c : Client W) : Type 0 where
  pub single : AtMost c.refresh_task c.timers.armed
  pub quiet : c.state ≡ stopped → c.timers.armed ≡ []
  pub cleared : c.state ≡ stopped → (c.refresh_task ≡ none) × (c.csds_domains ≡ none)

-- The events in the life of a client: calls of its public methods, a timer that fires, and what
-- goes on in the world meanwhile.
pub data Event (W : Type 0) : Type 0 where
  calls : ClientTransition → Event W
  fires : ℕ → Event W
  elapses : W → Event W

module _ {W Credentials SendType TransportConfig : Type 0} (machine : StateMachine (Client W))
    (config : ClientConfig W Credentials SendType TransportConfig) where
  -- The timer fires: it is armed no longer, and its function runs.
  unfoldable pub fired : ℕ → Task (Client W) (Unit {0})
  fired h c =
      if is_armed h c.timers.armed
      then refresh_fired config machine (transport_hooks config)
          (record c { timers = fire_timer h c.timers })
      else (ok tt, c)

  unfoldable pub step : Event W → Client W → Client W
  step (calls t) c = (run machine config t c).1
  step (fires h) c = (fired h c).1
  step (elapses w) c = record c { world = w }

  unfoldable pub steps : List (Event W) → Client W → Client W
  steps [] c = c
  steps (e ∷ es) c = steps es (step e c)

  pub on_refresh-keeps :
      (c c' : Client W) (r : Result (Unit {0}))
      → le_on_refresh config c ≡ (r, c')
      → (c'.state ≡ c.state) × (c'.timers ≡ c.timers) × (c'.refresh_task ≡ c.refresh_task)
  unfolding le_on_refresh
  on_refresh-keeps c c' r h = ground arith

  on_start-Inv :
      (c c' : Client W) (r : Result (Unit {0}))
      → c.state ≡ started
      → c.timers.armed ≡ []
      → transport_on_start config (le_on_refresh config) c ≡ (r, c')
      → Inv c'
  unfolding transport_on_start le_on_refresh
  on_start-Inv c c' r s q h = ground arith

  on_stop-Inv :
      (c c' : Client W) (r : Result (Unit {0}))
      → AtMost c.refresh_task c.timers.armed
      → transport_on_stop config c ≡ (r, c')
      → Inv c'
  unfolding transport_on_stop
  on_stop-Inv c c' r a h = ground (arith, clear-AtMost c.refresh_task c.timers)

  calls-Inv : (t : ClientTransition) (c : Client W) → Inv c → Inv (run machine config t c).1
  unfolding transport_hooks
  calls-Inv start c v = elim (state_cases c.state) [
    | inl s ↦ rw (run_refused machine config start c (inl (refl, s))) v
    | inr s ↦
        rw (run-start machine config c s) (on_start-Inv (enter started c) _ _ refl (v.quiet s) refl)
  ]
  calls-Inv stop c v = elim (state_cases c.state) [
    | inl s ↦ rw (run-stop machine config c s) (on_stop-Inv (enter stopped c) _ _ v.single refl)
    | inr s ↦ rw (run_refused machine config stop c (inr (ground arith, s))) v
  ]
  calls-Inv refresh c v = elim (state_cases c.state) [
    | inl s ↦ rw (run-refresh machine config c s) (
        ground (
          arith,
          on_refresh-keeps (enter started c) (le_on_refresh config (enter started c)).1 _ refl,
        ))
    | inr s ↦ rw (run_refused machine config refresh c (inr (ground arith, s))) v
  ]

  abbrev pub requeue : Result (Unit {0}) × Client W → Result (Unit {0}) × Client W
  requeue = after λ _. modify (queue_refresh_task config.refresh_interval)

  -- A timer that fires while the client runs refreshes it, and is queued again if that succeeds.
  pub refresh_fired_lem :
      (c : Client W)
      → c.state ≡ started
      → refresh_fired config machine (transport_hooks config) c
        ≡ requeue (le_on_refresh config (enter started c))
  unfolding refresh_fired transport_hooks
  refresh_fired_lem c s =
      let allowed : machine.can transitions c.state refresh ≡ true =
        machine.can_lem transitions c.state refresh
        ∙ ap (λ t. is_some (leads_to transitions refresh t)) s in
      rw allowed (ap requeue (run-refresh machine config c s))

  queue_after :
      (c : Client W) (r : Result (Unit {0})) (c' : Client W)
      → c.state ≡ started
      → c.timers.armed ≡ []
      → le_on_refresh config c ≡ (r, c')
      → Inv (requeue (r, c')).1
  unfolding queue_refresh_task
  queue_after c (ok u) c' s a h = ground (arith, on_refresh-keeps c c' (ok u) h)
  queue_after c (err e) c' s a h = ground (arith, on_refresh-keeps c c' (err e) h)

  armed_runs : (h : ℕ) (c : Client W) → Inv c → is_armed h c.timers.armed ≡ true → c.state ≡ started
  unfolding is_armed
  armed_runs h c v on = elim (state_cases c.state) [ inl s ↦ s | inr s ↦ ground (arith, v.quiet s) ]

  fires-Inv : (h : ℕ) (c : Client W) → Inv c → Inv (fired h c).1
  unfolding fired
  fires-Inv h c v = elim (Bool-cases (is_armed h c.timers.armed)) [
    | inr off ↦ rw off v
    | inl on ↦
        let runs : c.state ≡ started = armed_runs h c v on in
        let none_left : (fire_timer h c.timers).armed ≡ [] =
          fire-AtMost h c.refresh_task c.timers v.single on in
        let c₁ : Client W = record c { timers = fire_timer h c.timers } in
        rw (on, refresh_fired_lem c₁ runs) (queue_after (enter started c₁) _ _ refl none_left refl)
  ]

  step-Inv : (e : Event W) (c : Client W) → Inv c → Inv (step e c)
  unfolding step
  step-Inv (calls t) c v = calls-Inv t c v
  step-Inv (fires h) c v = fires-Inv h c v
  step-Inv (elapses w) c v = ground arith

  -- Any history of calls, timer events and changes of the world keeps this: at most one refresh timer
  -- is armed, namely the one whose handle is kept; a stopped client has none armed, keeps no handle
  -- and no domains.
  pub timers-Inv : (es : List (Event W)) (c : Client W) → Inv c → Inv (steps es c)
  unfolding steps
  timers-Inv [] c v = v
  timers-Inv (e ∷ es) c v = timers-Inv es (step e c) (step-Inv e c v)

  -- What a timer event can end in.
  abbrev pub Requeued : ℕ → Result (Unit {0}) × Client W → Type 0
  Requeued fresh out =
      (out.1.state ≡ started)
      × (((out.0 ≡ ok tt)
            × (out.1.timers.armed ≡ (fresh, config.refresh_interval) ∷ [])
            × (out.1.refresh_task ≡ some fresh))
          ⊎ ((out.0 ≢ ok tt) × (out.1.timers.armed ≡ [])))

  queue_outcome :
      (c : Client W) (r : Result (Unit {0})) (c' : Client W)
      → c.state ≡ started
      → c.timers.armed ≡ []
      → le_on_refresh config c ≡ (r, c')
      → Requeued c.timers.fresh (requeue (r, c'))
  unfolding queue_refresh_task
  queue_outcome c (ok u) c' s a h = ground (arith, on_refresh-keeps c c' (ok u) h)
  queue_outcome c (err e) c' s a h = ground (arith, on_refresh-keeps c c' (err e) h)

  -- When the armed timer of a client fires that satisfies the invariant of all histories, and the
  -- refresh succeeds, the next one is queued with the configured interval. When it fails, the client
  -- stays in the state "started" and no timer is armed: the periodic refresh has ended.
  pub fired_requeues :
      (h : ℕ) (c : Client W)
      → Inv c
      → is_armed h c.timers.armed ≡ true
      → Requeued c.timers.fresh (fired h c)
  unfolding fired fire_timer
  fired_requeues h c v on =
      let runs : c.state ≡ started = armed_runs h c v on in
      let none_left : (fire_timer h c.timers).armed ≡ [] =
        fire-AtMost h c.refresh_task c.timers v.single on in
      let c₁ : Client W = record c { timers = fire_timer h c.timers } in
      rw (on, refresh_fired_lem c₁ runs) (queue_outcome (enter started c₁) _ _ refl none_left refl)
