-- ===== src/Tests/Objects.antt =====
-- A run of a UmsClient with its requests.
use lp_clients.Base.{ℕ, ◌≡◌, ◌≤◌, none, List, [], ◌∷◌}
use lp_clients.Platform.Values.{Value, str, obj, end, field}
use lp_clients.Platform.Emitter.{listener_count}
use lp_clients.Client.Machine.{stopped, start, stop}
use lp_clients.Client.State.{Client}
use lp_clients.Ums.Requests.{Requests}
use lp_clients.Ums.Invariant.{Inv}
use lp_clients.Ums.Histories.{fresh_requests, fresh-Inv, steps}
use lp_clients.Ums.Object.{max_listeners, ObjectEvent, calls, asks, hears, object_steps, all_seen}
use lp_clients.Ums.Object.Refinement.{object_steps-refine}
use lp_clients.Tests.Clients.{state_machine, config}

abbrev new_object : Client (ℕ × Requests ℕ)
new_object = record {
  state = stopped;
  csds_domains = none;
  refresh_task = none;
  le_session = none;
  timers = record { fresh = 0; armed = [] };
  world = (0, fresh_requests);
}

abbrev answer : Value
answer = obj (field "reqId" (str "1") end)

-- Two requests, one of which is answered before the stop.
abbrev life : List (ObjectEvent ℕ ℕ)
life = calls start ∷ asks "1" 7 ∷ asks "2" 8 ∷ hears answer ∷ calls stop ∷ []

object_steps-refine_example :
    let r = (object_steps (config none) state_machine "10000" life new_object).world.1 in
    (r
      ≡ steps "10000" (all_seen (config none) state_machine "10000" life new_object) fresh_requests)
    × Inv r
    × (listener_count "2" r.responses ≤ max_listeners)
object_steps-refine_example =
    object_steps-refine (config none) state_machine "10000" life new_object "2" fresh-Inv
