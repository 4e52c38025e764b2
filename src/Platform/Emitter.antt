-- ===== src/Platform/Emitter.antt =====
-- Node's EventEmitter, as util-types/src/event_emitter.ts passes its methods on.
-- The listeners of every event stand in one list, in the order in which `emit` calls them; a
-- listener is known by a value of `L`, and what it does when called is up to the emitter's user.
-- The events `newListener` and `removeListener`, which Node emits by itself, are left out.
pub mod Laws
use Prim.Native.String.{String}
use lp_clients.Base.{
  ℕ, zero, suc, ◌+◌, ◌≡◌, refl, Bool, true, false, Option, none, some, List, [], ◌∷◌, ◌++◌, arith,
  ◌==◌, if◌then◌else◌, not, ◌&&◌, ◌||◌, keep, length, map, str_eq, Result, ok, err, error,
}

pub record Entry (L : Type 0) : Type 0 where
  pub event : String
  pub listener : L
  pub is_once : Bool

abbrev pub Emitter : Type 0 → Type 0
Emitter L = List (Entry L)

module _ {L : Type 0} where
  unfoldable pub add_listener : String → L → Emitter L → Emitter L
  add_listener e l em = em ++ record { event = e; listener = l; is_once = false } ∷ []

  unfoldable pub on : String → L → Emitter L → Emitter L
  unfolding add_listener
  on e l em = add_listener e l em

  unfoldable pub once : String → L → Emitter L → Emitter L
  once e l em = em ++ record { event = e; listener = l; is_once = true } ∷ []

  unfoldable pub prepend_listener : String → L → Emitter L → Emitter L
  prepend_listener e l em = record { event = e; listener = l; is_once = false } ∷ em

  unfoldable pub prepend_once_listener : String → L → Emitter L → Emitter L
  prepend_once_listener e l em = record { event = e; listener = l; is_once = true } ∷ em

  abbrev pub listens_to : String → Entry L → Bool
  listens_to e x = str_eq x.event e

  unfoldable pub listeners : String → Emitter L → List L
  listeners e em = map (λ x. x.listener) (keep (listens_to e) em)

  unfoldable pub listener_count : String → Emitter L → ℕ
  listener_count e em = length (keep (listens_to e) em)

  unfoldable pub remove_all_listeners : Option String → Emitter L → Emitter L
  remove_all_listeners none em = []
  remove_all_listeners (some e) em = keep (λ x. not (listens_to e x)) em

  abbrev pub outlives : String → Entry L → Bool
  outlives e x = not (listens_to e x && x.is_once)

  -- The listeners that `emit` calls, in order, and the emitter that it leaves, from which the
  -- once-listeners are gone. An "error" event that nobody listens to is thrown.
  unfoldable pub emit : String → Emitter L → Result (List L × Bool) × Emitter L
  unfolding listeners listener_count
  emit e em =
      if listener_count e em == 0
      then (if str_eq e "error" then err (error "Unhandled error.") else ok ([], false), em)
      else (ok (listeners e em, true), keep (outlives e) em)

  -- The names with at least one listener, each once.
  unfoldable pub event_names : Emitter L → List String
  event_names [] = []
  event_names (x ∷ em) = x.event ∷ keep (λ s. not (str_eq s x.event)) (event_names em)

module _ {L : Type 0} (same : L → L → Bool) where
  -- `removeListener` takes away one instance, the one added last.
  remove_first : String → L → Emitter L → Emitter L × Bool
  remove_first e l [] = ([], false)
  remove_first e l (x ∷ em) =
      let (rest, found) = remove_first e l em in
      if found
      then (x ∷ rest, true)
      else if listens_to e x && same x.listener l
      then (em, true)
      else (x ∷ em, false)

  unfoldable pub remove_listener : String → L → Emitter L → Emitter L
  unfolding remove_first
  remove_listener e l em = (remove_first e l em).0
