-- ===== src/WsTransport/Connection/Leaks.antt =====
-- transport-ws/src/transport.ts: the listeners that `disconnect` leaves behind.
use lp_clients.Base.{
  ℕ, ◌≡◌, refl, ap, ◌∙◌, Bool, true, Option, none, is_some, List, [], ◌∷◌, ◌++◌, Result, ok, err,
  error, ==_refl, arith, Bool-cases, inl, inr,
}
use lp_clients.Platform.Values.{Value, null}
use lp_clients.Platform.Emitter.{Emitter, emit, listeners, on, remove_listener}
use lp_clients.Platform.Emitter.Laws.{
  lasting, lasting-on, listeners-on, listeners-emit, listeners-remove_other,
}
use lp_clients.WsTransport.State.{
  AsyncQueue, Listener, message_callback, error_callback, resolves, rejects, on_closed_event,
  on_error_event, on_connected_event,
}
use lp_clients.WsTransport.Handlers.{
  Ws, settle_promise, cleanup, run_listener, run_listeners, emitted, emit_event, pause_queue,
  stop_heart_beat, on_closed_handler, drain_handler, same_listener,
}
use lp_clients.WsTransport.Connection.{
  disconnect, flush, close_socket, await_closed, forget, clear_timers,
}

module _ {SendType : Type 0} (lib : AsyncQueue SendType) where
  abbrev on_closed : Ws lib → List Listener
  on_closed w = listeners on_closed_event w.emitter

  settle-on_closed :
      (n : ℕ) (r : Result (Unit {0})) (w : Ws lib)
      → on_closed (settle_promise lib n r w) ≡ on_closed w
  settle-on_closed n r w = ground arith

  settle-settled :
      (n : ℕ) (r : Result (Unit {0})) (w : Ws lib)
      → is_some ((settle_promise lib n r w).promises n) ≡ true
  settle-settled n r w = elim (Bool-cases (is_some (w.promises n))) [
    | inl e ↦ rw e e
    | inr e ↦ rw (e, ==_refl n) refl
  ]

  cleanup-on_closed : (n : ℕ) (w : Ws lib) → on_closed (cleanup lib n w) ≡ on_closed w
  unfolding cleanup
  cleanup-on_closed n w =
      listeners-remove_other same_listener on_closed_event on_error_event (rejects n)
        (remove_listener same_listener on_connected_event (resolves n) w.emitter) refl
      ∙ listeners-remove_other same_listener on_closed_event on_connected_event (resolves n)
          w.emitter refl

  run_listener-on_closed :
      (arg : Result Value) (l : Listener) (w : Ws lib)
      → on_closed (run_listener lib arg l w) ≡ on_closed w
  unfolding run_listener
  run_listener-on_closed arg (message_callback k) w = refl
  run_listener-on_closed arg (error_callback k) w = refl
  run_listener-on_closed arg (resolves n) w =
      settle-on_closed n (ok tt) (cleanup lib n w) ∙ cleanup-on_closed n w
  run_listener-on_closed (ok v) (rejects n) w =
      settle-on_closed n (err (error "")) (cleanup lib n w) ∙ cleanup-on_closed n w
  run_listener-on_closed (err e) (rejects n) w =
      settle-on_closed n (err e) (cleanup lib n w) ∙ cleanup-on_closed n w

  -- The last of the listeners is the one that resolves promise `n`.
  run_listeners-last :
      (arg : Result Value) (ls : List Listener) (n : ℕ) (w : Ws lib)
      → let w' = run_listeners lib arg (ls ++ resolves n ∷ []) w in
        (on_closed w' ≡ on_closed w) × (is_some (w'.promises n) ≡ true)
  unfolding run_listeners
  run_listeners-last arg [] n w =
      (run_listener-on_closed arg (resolves n) w, settle-settled n (ok tt) (cleanup lib n w))
  run_listeners-last arg (l ∷ ls) n w =
      let (kept, settled) = run_listeners-last arg ls n (run_listener lib arg l w) in
      (kept ∙ run_listener-on_closed arg l w, settled)

  -- The event's listeners end with the one that resolves promise `n`.
  emitted-last :
      (ls : List Listener) (n : ℕ) (w : Ws lib)
      (r : Result (List Listener × Bool) × Emitter Listener)
      → emit on_closed_event w.emitter ≡ r
      → on_closed w ≡ ls ++ resolves n ∷ []
      → let w' = emitted lib (ok null) r w in
        (on_closed w' ≡ lasting on_closed_event w.emitter) × (is_some (w'.promises n) ≡ true)
  unfolding emit
  emitted-last ls n w (ok (called, heard), em) h e =
      let (calls, left, heard_none) =
        listeners-emit on_closed_event on_closed_event w.emitter em called heard h in
      rw (calls ∙ e) (
        (run_listeners-last (ok null) ls n (record w { emitter = em })).0 ∙ left,
        (run_listeners-last (ok null) ls n (record w { emitter = em })).1,
      )
  emitted-last ls n w (err f, em) h e = absurd (ground (arith, h))

  flush-emitter : (flush_queue : Bool) (w : Ws lib) → (flush lib flush_queue w).emitter ≡ w.emitter
  unfolding flush drain_handler
  flush-emitter flush_queue w = ground arith

  closed-settles :
      (n : ℕ) (v : Ws lib)
      → let w' = on_closed_handler lib (await_closed lib n v) in
        (on_closed w' ≡ lasting on_closed_event v.emitter ++ resolves n ∷ [])
        × (is_some (w'.promises n) ≡ true)
  unfolding on_closed_handler emit_event await_closed pause_queue stop_heart_beat
  closed-settles n v =
      let paused : Ws lib = pause_queue lib (stop_heart_beat lib (await_closed lib n v)) in
      let em : Emitter Listener = on on_closed_event (resolves n) v.emitter in
      let (left, settled) =
        emitted-last (on_closed v) n paused (emit on_closed_event paused.emitter) refl (
          listeners-on on_closed_event on_error_event (rejects n) em
          ∙ listeners-on on_closed_event on_closed_event (resolves n) v.emitter) in
      (
        left
            ∙ lasting-on on_closed_event on_error_event (rejects n) em
            ∙ lasting-on on_closed_event on_closed_event (resolves n) v.emitter,
        settled,
      )

  close_none-settles :
      (o : Option ℕ) (n : ℕ) (v : Ws lib)
      → o ≡ none
      → let w' = close_socket lib o (await_closed lib n v) in
        (is_some (w'.promises n) ≡ true)
        × (on_closed w' ≡ lasting on_closed_event v.emitter ++ resolves n ∷ [])
  unfolding close_socket
  close_none-settles o n v e = rw e ((closed-settles n v).1, (closed-settles n v).0)

  -- `disconnect` of a transport without a socket settles its promise at once, but the listener of
  -- `ON_CLOSED` that did so stays: afterwards the event's listeners are the ones of before that are
  -- not once-listeners, and that one.
  pub disconnect-leaks :
      (flush_queue : Bool) (w : Ws lib)
      → w.ws ≡ none
      → let (w', n) = disconnect lib flush_queue w in
        (is_some (w'.promises n) ≡ true)
        × (listeners on_closed_event w'.emitter
            ≡ lasting on_closed_event w.emitter ++ resolves n ∷ [])
  unfolding disconnect
  disconnect-leaks flush_queue w h =
      let v : Ws lib = forget lib (clear_timers lib (flush lib flush_queue w)) in
      let (settled, left) = close_none-settles w.ws w.next_promise v h in
      (
        settled,
        left
            ∙ ap (λ em. lasting on_closed_event em ++ resolves w.next_promise ∷ [])
                (flush-emitter flush_queue w),
      )
