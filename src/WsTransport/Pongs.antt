-- ===== src/WsTransport/Pongs.antt =====
-- transport-ws/src/transport.ts: the heart beat that waits for a pong.
use lp_clients.Base.{
  ℕ, zero, suc, ◌+◌, ◌≡◌, refl, ap, ◌∙◌, inl, inr, true, some, List, [], ◌∷◌, ◌++◌, Bool-cases,
  ◌==◌, if◌then◌else◌, arith,
}
use lp_clients.Platform.Timers.{clear_timeout, clear_if_set, set_timeout}
use lp_clients.WsTransport.State.{AsyncQueue}
use lp_clients.WsTransport.Handlers.{
  Ws, heart_beat_check, stop_heart_beat, wait_for_pong, next_heart_beat, hear_pong, pong_received,
}

-- How many of the waits are for a socket.
unfoldable pub waits_on : ℕ → List (ℕ × ℕ) → ℕ
waits_on s [] = 0
waits_on s (e ∷ es) = let rest = waits_on s es in if e.0 == s then suc rest else rest

waits_on-append :
    (s h : ℕ) (es : List (ℕ × ℕ)) → waits_on s (es ++ (s, h) ∷ []) ≡ suc (waits_on s es)
unfolding waits_on
waits_on-append s h [] = ground arith
waits_on-append s h (e ∷ es) = ground (arith, waits_on-append s h es)

module _ {SendType : Type 0} (lib : AsyncQueue SendType) where
  -- The check is asked for a number of times.
  unfoldable pub checks : ℕ → ℕ → Ws lib → Ws lib
  checks timeout zero w = w
  checks timeout (suc n) w = heart_beat_check lib true timeout (checks timeout n w)

  hear_pong-fresh :
      (s : ℕ) (waits : List (ℕ × ℕ)) (w : Ws lib)
      → (hear_pong lib s waits w).timers.fresh ≡ w.timers.fresh + waits_on s waits
  unfolding hear_pong waits_on next_heart_beat set_timeout clear_timeout
  hear_pong-fresh s [] w = omega arith
  hear_pong-fresh s ((k, h) ∷ es) w = elim (Bool-cases (k == s)) [
    | inl e ↦ rw e (
        hear_pong-fresh s es (next_heart_beat lib (record w { timers = clear_timeout h w.timers }))
        ∙ omega arith)
    | inr e ↦ rw e (hear_pong-fresh s es w)
  ]

  check-ws :
      (timeout s : ℕ) (w : Ws lib)
      → w.ws ≡ some s
      → (heart_beat_check lib true timeout w).ws ≡ some s
  unfolding heart_beat_check stop_heart_beat wait_for_pong set_timeout
  check-ws timeout s w e = rw e refl

  check-waits :
      (timeout s : ℕ) (w : Ws lib)
      → w.ws ≡ some s
      → waits_on s (heart_beat_check lib true timeout w).pong_waits ≡ suc (waits_on s w.pong_waits)
  unfolding heart_beat_check stop_heart_beat wait_for_pong set_timeout
  check-waits timeout s w e =
      rw e (waits_on-append s (clear_if_set w.heart_beat_handle w.timers).fresh w.pong_waits)

  checks-ws : (timeout s n : ℕ) (w : Ws lib) → w.ws ≡ some s → (checks timeout n w).ws ≡ some s
  unfolding checks
  checks-ws timeout s zero w e = e
  checks-ws timeout s (suc n) w e =
      check-ws timeout s (checks timeout n w) (checks-ws timeout s n w e)

  checks-waits :
      (timeout s n : ℕ) (w : Ws lib)
      → w.ws ≡ some s
      → waits_on s (checks timeout n w).pong_waits ≡ n + waits_on s w.pong_waits
  unfolding checks
  checks-waits timeout s zero w e = omega arith
  checks-waits timeout s (suc n) w e =
      check-waits timeout s (checks timeout n w) (checks-ws timeout s n w e)
      ∙ ap suc (checks-waits timeout s n w e)
      ∙ omega arith

  -- Where the heart beat of a transport with a socket is checked n times with a wait for a pong, the
  -- next pong on that socket sets one timer for each of the n checks and for each wait there was
  -- before: the listeners are never taken off.
  pub pong_received_multiplies :
      (timeout s n : ℕ) (w : Ws lib)
      → w.ws ≡ some s
      → (pong_received lib s (checks timeout n w)).timers.fresh
        ≡ (checks timeout n w).timers.fresh + (n + waits_on s w.pong_waits)
  unfolding pong_received
  pong_received_multiplies timeout s n w e =
      hear_pong-fresh s (checks timeout n w).pong_waits (checks timeout n w)
      ∙ ap (λ k. (checks timeout n w).timers.fresh + k) (checks-waits timeout s n w e)
