-- ===== src/Platform/Timers.antt =====
-- `setTimeout` and `clearTimeout` of Node's timers. A handle is a number that is never used again;
-- `armed` holds the handles that have neither fired nor been cleared, with their delays.
use lp_clients.Base.{
  ℕ, suc, ◌≡◌, Bool, true, false, Option, none, some, List, [], ◌∷◌, arith, ◌==◌, if◌then◌else◌,
  not, keep,
}

pub record Timers : Type 0 where
  pub fresh : ℕ
  pub armed : List (ℕ × ℕ)

unfoldable pub set_timeout : ℕ → Timers → ℕ × Timers
set_timeout delay t = (t.fresh, record { fresh = suc t.fresh; armed = (t.fresh, delay) ∷ t.armed })

abbrev pub other_than : ℕ → ℕ × ℕ → Bool
other_than h e = not (e.0 == h)

unfoldable pub clear_timeout : ℕ → Timers → Timers
clear_timeout h t = record t { armed = keep (other_than h) t.armed }

-- `if (this.handle) clearTimeout(this.handle)`: a handle is an object, hence truthy.
unfoldable pub clear_if_set : Option ℕ → Timers → Timers
unfolding clear_timeout
clear_if_set none t = t
clear_if_set (some h) t = clear_timeout h t

-- A timer that fires is armed no longer.
unfoldable pub fire_timer : ℕ → Timers → Timers
unfolding clear_timeout
fire_timer h t = clear_timeout h t

unfoldable pub is_armed : ℕ → List (ℕ × ℕ) → Bool
is_armed h [] = false
is_armed h (e ∷ es) = if e.0 == h then true else is_armed h es

pub is_armed-keep :
    (h k : ℕ) (es : List (ℕ × ℕ))
    → is_armed h (keep (other_than k) es) ≡ (if h == k then false else is_armed h es)
unfolding is_armed
is_armed-keep h k [] = ground arith
is_armed-keep h k (e ∷ es) = ground (arith, is_armed-keep h k es)
