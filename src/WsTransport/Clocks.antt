-- ===== src/WsTransport/Clocks.antt =====
-- transport-ws/src/transport.ts: the timers of the heart beat and of the drain handler, and the
-- handles that the transport keeps of them.
use lp_clients.Base.{
  ℕ, ◌≡◌, refl, sym, subst, ◌⊎◌, inl, inr, false, Option, none, some, List, [], ◌∷◌, String, Result,
  ok, err, Failure, arith, Bool-cases, All, All-map, keep, ◌==◌,
}
use lp_clients.Platform.Values.{Value}
use lp_clients.Platform.Timers.{Timers, clear_if_set, set_timeout, other_than}
use lp_clients.WsTransport.Config.{strategy_truthy}
use lp_clients.WsTransport.State.{AsyncQueue}
use lp_clients.WsTransport.Handlers.{
  cleanup, Ws, emit_event, stop_heart_beat, next_heart_beat, heart_beat_check, drain_handler,
  on_connected_handler, on_closed_handler, on_error_handler, strategy_of, drain_timeout_of,
  ping_interval_of, ping, on_message_handler, parsed, pause_queue, resume_queue, settle_promise,
}
use lp_clients.WsTransport.Emission.{settle_promise-part, emit_event-part}

-- A timer is one of two whose handles are kept, or its handle is of some kind.
abbrev pub Held : (ℕ → Type 0) → Option ℕ → Option ℕ → ℕ × ℕ → Type 0
Held R a b e = ((a ≡ some e.0) ⊎ (b ≡ some e.0)) ⊎ R e.0

module _ (R : ℕ → Type 0) where
  pub no_timer_left : (es : List (ℕ × ℕ)) → All (Held R none none) es → All (λ e. R e.0) es
  no_timer_left [] h = tt
  no_timer_left (e ∷ es) (inl (inl x), h) = cc
  no_timer_left (e ∷ es) (inl (inr x), h) = cc
  no_timer_left (e ∷ es) (inr x, h) = (x, no_timer_left es h)

  other_timer :
      (k : ℕ) (b : Option ℕ) (e : ℕ × ℕ)
      → Held R (some k) b e
      → (e.0 == k) ≡ false
      → Held R none b e
  other_timer k b e (inl (inl x)) other = absurd (ground (arith, x, other))
  other_timer k b e (inl (inr x)) other = inl (inr x)
  other_timer k b e (inr x) other = inr x

  pub clear_first :
      (a b : Option ℕ) (t : Timers)
      → All (Held R a b) t.armed
      → All (Held R none b) (clear_if_set a t).armed
  unfolding clear_if_set
  clear_first none b t h = h
  clear_first (some k) b t h = cleared t.armed h
    where
      cleared :
          (es : List (ℕ × ℕ))
          → All (Held R (some k) b) es
          → All (Held R none b) (keep (other_than k) es)
      cleared [] h = tt
      cleared (e ∷ es) (x, h) = elim (Bool-cases (e.0 == k)) [
        | inl same ↦ rw same (cleared es h)
        | inr other ↦ rw other (other_timer k b e x other, cleared es h)
      ]

  Held-flip : (a b : Option ℕ) (e : ℕ × ℕ) → Held R a b e → Held R b a e
  Held-flip a b e (inl (inl h)) = inl (inr h)
  Held-flip a b e (inl (inr h)) = inl (inl h)
  Held-flip a b e (inr h) = inr h

  pub clear_second :
      (a b : Option ℕ) (t : Timers)
      → All (Held R a b) t.armed
      → All (Held R a none) (clear_if_set b t).armed
  clear_second a b t h =
      All-map (Held-flip none a) _ (clear_first b a t (All-map (Held-flip a b) t.armed h))

  pub set_first :
      (b : Option ℕ) (delay : ℕ) (t : Timers)
      → All (Held R none b) t.armed
      → All (Held R (some (set_timeout delay t).0) b) (set_timeout delay t).1.armed
  unfolding set_timeout
  set_first b delay t h = (inl (inl refl), All-map weaker t.armed h)
    where
      weaker : (e : ℕ × ℕ) → Held R none b e → Held R (some t.fresh) b e
      weaker e (inl (inl x)) = cc
      weaker e (inl (inr x)) = inl (inr x)
      weaker e (inr x) = inr x

  pub set_second :
      (a : Option ℕ) (delay : ℕ) (t : Timers)
      → All (Held R a none) t.armed
      → All (Held R a (some (set_timeout delay t).0)) (set_timeout delay t).1.armed
  set_second a delay t h =
      All-map (Held-flip _ a) _ (set_first a delay t (All-map (Held-flip a none) t.armed h))

module _ {SendType : Type 0} (lib : AsyncQueue SendType) (R : ℕ → Type 0) where
  -- Every armed timer of the transport is the heart beat's or the drain handler's whose handle is
  -- kept, or its handle is of the kind.
  abbrev pub AllHeld : Ws lib → Type 0
  AllHeld w = All (Held R w.heart_beat_handle w.drain_timeout_handle) w.timers.armed

  abbrev clock_part : Ws lib → Timers × Option ℕ × Option ℕ
  clock_part w = (w.timers, w.heart_beat_handle, w.drain_timeout_handle)

  same_part : (v w : Ws lib) → clock_part w ≡ clock_part v → AllHeld v → AllHeld w
  same_part v w e h = subst (λ p. All (Held R p.1 p.2) p.0.armed) (sym e) h

  pub settle_promise-AllHeld :
      (n : ℕ) (r : Result (Unit {0})) (w : Ws lib) → AllHeld w → AllHeld (settle_promise lib n r w)
  unfolding cleanup
  settle_promise-AllHeld n r w h =
      same_part w (settle_promise lib n r w)
        (settle_promise-part lib clock_part (λ n v. refl) (λ event v. refl) (λ v ps. refl)
          (λ w k arg. refl) n r w)
        h

  pub emit_event-AllHeld :
      (event : String) (arg : Result Value) (w : Ws lib)
      → AllHeld w
      → AllHeld (emit_event lib event arg w)
  unfolding cleanup
  emit_event-AllHeld event arg w h =
      same_part w (emit_event lib event arg w)
        (emit_event-part lib clock_part (λ n v. refl) (λ event v. refl) (λ v ps. refl)
          (λ w k arg. refl) event arg w)
        h

  stopped-AllHeld : (w : Ws lib) → AllHeld w → AllHeld (pause_queue lib (stop_heart_beat lib w))
  unfolding pause_queue stop_heart_beat
  stopped-AllHeld w h = clear_first R w.heart_beat_handle w.drain_timeout_handle w.timers h

  pub on_closed_handler-AllHeld : (w : Ws lib) → AllHeld w → AllHeld (on_closed_handler lib w)
  unfolding on_closed_handler
  on_closed_handler-AllHeld w h =
      emit_event-AllHeld _ _ (pause_queue lib (stop_heart_beat lib w)) (stopped-AllHeld w h)

  pub on_error_handler-AllHeld :
      (e : Failure) (w : Ws lib) → AllHeld w → AllHeld (on_error_handler lib e w)
  unfolding on_error_handler
  on_error_handler-AllHeld e w h =
      emit_event-AllHeld _ _ (pause_queue lib (stop_heart_beat lib w)) (stopped-AllHeld w h)

  pub on_connected_handler-AllHeld : (w : Ws lib) → AllHeld w → AllHeld (on_connected_handler lib w)
  unfolding on_connected_handler resume_queue
  on_connected_handler-AllHeld w h = emit_event-AllHeld _ _ w h

  pub on_message_handler-AllHeld :
      (parse : String → Result Value) (raw : String) (w : Ws lib)
      → AllHeld w
      → AllHeld (on_message_handler lib parse raw w)
  unfolding on_message_handler
  on_message_handler-AllHeld parse raw w h = by_result (parse raw)
    where
      by_result : (r : Result Value) → AllHeld (parsed lib r w)
      by_result (ok v) = emit_event-AllHeld _ _ w h
      by_result (err e) = h

  pub drain_handler-AllHeld : (w : Ws lib) → AllHeld w → AllHeld (drain_handler lib w)
  unfolding drain_handler
  drain_handler-AllHeld w h =
      let cleared : All (Held R w.heart_beat_handle none)
          (clear_if_set w.drain_timeout_handle w.timers).armed =
        clear_second R w.heart_beat_handle w.drain_timeout_handle w.timers h in
      elim (Bool-cases (strategy_truthy (strategy_of lib w.conf))) [
        | inl e ↦ rw e (
            set_second R w.heart_beat_handle (drain_timeout_of lib w.conf)
              (clear_if_set w.drain_timeout_handle w.timers) cleared)
        | inr e ↦ rw e cleared
      ]

  next_heart_beat-AllHeld :
      (w : Ws lib)
      → All (Held R none w.drain_timeout_handle) w.timers.armed
      → AllHeld (next_heart_beat lib w)
  unfolding next_heart_beat
  next_heart_beat-AllHeld w h =
      set_first R w.drain_timeout_handle (ping_interval_of lib w.conf) w.timers h

  ping-part : (o : Option ℕ) (w : Ws lib) → clock_part (ping lib o w) ≡ clock_part w
  ping-part none w = refl
  ping-part (some s) w = refl

  pub heart_beat_check-AllHeld :
      (w : Ws lib) → AllHeld w → AllHeld (heart_beat_check lib false 100 w)
  unfolding heart_beat_check stop_heart_beat
  heart_beat_check-AllHeld w h = next_heart_beat-AllHeld (ping lib w.ws (stop_heart_beat lib w)) (
      subst (λ p. All (Held R none p.2) p.0.armed) (sym (ping-part w.ws (stop_heart_beat lib w)))
        (clear_first R w.heart_beat_handle w.drain_timeout_handle w.timers h))
