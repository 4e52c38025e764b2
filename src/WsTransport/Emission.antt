-- ===== src/WsTransport/Emission.antt =====
-- transport-ws/src/transport.ts: what an event of the transport leaves as it is. Its listeners change
-- the emitter, the promises and the calls of the users' callbacks, and nothing else.
use lp_clients.Base.{
  ℕ, ◌≡◌, refl, ◌∙◌, Bool, is_some, List, [], ◌∷◌, String, Result, ok, err, Option, Bool-cases, inl,
  inr,
}
use lp_clients.Platform.Values.{Value}
use lp_clients.Platform.Emitter.{Emitter, emit}
use lp_clients.WsTransport.State.{
  AsyncQueue, calls_back, Listener, message_callback, error_callback, resolves, rejects,
}
use lp_clients.WsTransport.Handlers.{
  Ws, emit_event, emitted, settle_promise, run_listener, run_listeners, cleanup,
}

module _ {SendType X : Type 0} (lib : AsyncQueue SendType) (part : Ws lib → X)
    (cleanup_apart : (n : ℕ) (w : Ws lib) → part (cleanup lib n w) ≡ part w)
    (emit_apart : (event : String) (w : Ws lib)
      → part (record w { emitter = (emit event w.emitter).1 }) ≡ part w)
    (promises_apart : (w : Ws lib) (ps : ℕ → Option (Result (Unit {0})))
      → part (record w { promises = ps }) ≡ part w)
    (calls_apart : (w : Ws lib) (k : ℕ) (arg : Result Value)
      → part (record w { actions = calls_back k arg ∷ w.actions }) ≡ part w) where
  pub settle_promise-part :
      (n : ℕ) (r : Result (Unit {0})) (w : Ws lib) → part (settle_promise lib n r w) ≡ part w
  settle_promise-part n r w = elim (Bool-cases (is_some (w.promises n))) [
    | inl e ↦ rw e refl
    | inr e ↦ rw e (promises_apart w _)
  ]

  run_listener-part :
      (arg : Result Value) (l : Listener) (w : Ws lib) → part (run_listener lib arg l w) ≡ part w
  unfolding run_listener
  run_listener-part arg (message_callback k) w = calls_apart w k arg
  run_listener-part arg (error_callback k) w = calls_apart w k arg
  run_listener-part arg (resolves n) w = settle_promise-part n _ _ ∙ cleanup_apart n w
  run_listener-part (ok v) (rejects n) w = settle_promise-part n _ _ ∙ cleanup_apart n w
  run_listener-part (err e) (rejects n) w = settle_promise-part n _ _ ∙ cleanup_apart n w

  run_listeners-part :
      (arg : Result Value) (ls : List Listener) (w : Ws lib)
      → part (run_listeners lib arg ls w) ≡ part w
  unfolding run_listeners
  run_listeners-part arg [] w = refl
  run_listeners-part arg (l ∷ ls) w =
      run_listeners-part arg ls (run_listener lib arg l w) ∙ run_listener-part arg l w

  emitted-part :
      (arg : Result Value) (out : Result (List Listener × Bool) × Emitter Listener) (w : Ws lib)
      → part (record w { emitter = out.1 }) ≡ part w
      → part (emitted lib arg out w) ≡ part w
  emitted-part arg (ok (called, heard), em) w h =
      run_listeners-part arg called (record w { emitter = em }) ∙ h
  emitted-part arg (err e, em) w h = refl

  pub emit_event-part :
      (event : String) (arg : Result Value) (w : Ws lib)
      → part (emit_event lib event arg w) ≡ part w
  unfolding emit_event
  emit_event-part event arg w = emitted-part arg (emit event w.emitter) w (emit_apart event w)
