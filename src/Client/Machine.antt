-- ===== src/Client/Machine.antt =====
-- csds-client/src/client.ts: the life cycle. The library `javascript-state-machine` is the
-- parameter `StateMachine`, with the laws that its documentation gives.
use lp_clients.Base.{
  ◌≡◌, Bool, true, false, ◌&&◌, Option, none, some, is_some, List, [], ◌∷◌, if◌then◌else◌, Task,
  err, Failure,
}

pub data ClientState : Type 0 where
  started stopped : ClientState

pub data ClientTransition : Type 0 where
  start stop refresh : ClientTransition

pub record Transition : Type 0 where
  pub name : ClientTransition
  pub source : ClientState
  pub target : ClientState

abbrev pub same_state : ClientState → ClientState → Bool
same_state started started = true
same_state stopped stopped = true
same_state _ _ = false

abbrev pub same_transition : ClientTransition → ClientTransition → Bool
same_transition start start = true
same_transition stop stop = true
same_transition refresh refresh = true
same_transition _ _ = false

-- The `transitions` that the constructor hands to the library.
abbrev pub transitions : List Transition
transitions =
    record { name = start; source = stopped; target = started }
    ∷ record { name = stop; source = started; target = stopped }
    ∷ record { name = refresh; source = started; target = started }
    ∷ []

-- Where a transition leads from a state, if one is listed.
abbrev pub leads_to : List Transition → ClientTransition → ClientState → Option ClientState
leads_to [] t s = none
leads_to (x ∷ xs) t s =
    if same_transition x.name t && same_state x.source s then some x.target else leads_to xs t s

-- The library over the objects `O`. A transition that is listed for the current state first enters
-- its target state, then runs the method `on` + its name and returns what that returns; one that is
-- not listed is refused with an error and runs nothing. Transitions do not overlap: the library
-- refuses one while another is pending, so each runs as a whole.
pub record StateMachine (O : Type 0) : Type 0 where
  pub fire :
      List Transition
      → (O → ClientState)
      → (ClientState → O → O)
      → (ClientTransition → Task O (Unit {0}))
      → ClientTransition
      → Task O (Unit {0})
  pub can : List Transition → ClientState → ClientTransition → Bool
  pub refusal : Failure
  pub fire_allowed :
      (ts : List Transition) (state : O → ClientState) (enter : ClientState → O → O)
      (hook : ClientTransition → Task O (Unit {0})) (t : ClientTransition) (o : O) (s : ClientState)
      → leads_to ts t (state o) ≡ some s
      → fire ts state enter hook t o ≡ hook t (enter s o)
  pub fire_refused :
      (ts : List Transition) (state : O → ClientState) (enter : ClientState → O → O)
      (hook : ClientTransition → Task O (Unit {0})) (t : ClientTransition) (o : O)
      → leads_to ts t (state o) ≡ none
      → fire ts state enter hook t o ≡ (err refusal, o)
  pub can_lem :
      (ts : List Transition) (s : ClientState) (t : ClientTransition)
      → can ts s t ≡ is_some (leads_to ts t s)
