-- ===== src/Ums/Timeouts.antt =====
-- ums-client/src/client.ts: every request has a timer, and is settled when it fires at the latest.
use lp_clients.Base.{
  ℕ, suc, inl, inr, ◌<◌, ◌≡◌, refl, ap, Bool, true, false, not, Option, none, some, is_some, List,
  [], ◌∷◌, String, if◌then◌else◌, ◌==◌, ==_refl, ==→eq, ltb, member, keep, Result, ok, err, Failure,
  arith, Bool-cases, Option-cases,
}
use lp_clients.Platform.Values.{Value}
use lp_clients.Platform.Emitter.{Emitter, listeners, listener_count, outlives}
use lp_clients.Ums.Requests.{
  Requests, settle, resolve_all, reject, open_promise, ums_request, send_message, time_out,
  dispatch, clear_handlers, in_progress, not_started, timed_out,
}
use lp_clients.Ums.Invariant.{resolve_all-fields, settle-fields}
use lp_clients.Ums.Preservation.{dispatch_cases}
use lp_clients.Ums.Histories.{
  Event, requests, send_fails, times_out, receives, stops, fresh_requests, steps,
}

pub member-keep :
    (n m : ℕ) (ws : List ℕ)
    → member n (keep (λ k. not (k == m)) ws) ≡ (if n == m then false else member n ws)
unfolding member
member-keep n m [] = ground arith
member-keep n m (w ∷ ws) = ground (arith, member-keep n m ws)

below_next : (n k : ℕ) → n < suc k → (n == k) ≡ false → n < k
below_next n k l d = ground arith

listed :
    (n k : ℕ) (ws : List ℕ) → ((n == k) ≡ false → member n ws ≡ true) → member n (k ∷ ws) ≡ true
unfolding member
listed n k ws h = ground (arith, h)

-- The result of a promise, if it has one, else the given one.
abbrev pub settled_or : Option (Result Value) → Result Value → Result Value
settled_or none fallback = fallback
settled_or (some result) fallback = result

module _ {SendType : Type 0} where
  -- Every pending promise has a timer that is still to fire.
  abbrev pub Awaited : Requests SendType → Type 0
  Awaited r = (n : ℕ) → n < r.next → r.outcome n ≡ none → member n r.waiting ≡ true

  reject-pending :
      (m n : ℕ) (e : Failure) (r : Requests SendType)
      → (reject m e r).outcome n ≡ none
      → (r.outcome n ≡ none) × ((n == m) ≡ false)
  unfolding reject
  reject-pending m n e r h = elim (Bool-cases (n == m)) [
    | inl same ↦ absurd (let p : n ≡ m = ==→eq n m same in ground (arith, ap r.outcome p))
    | inr differs ↦ ground arith
  ]

  settle-pending :
      (m n : ℕ) (q : Result Value) (r : Requests SendType)
      → (settle m q r).outcome n ≡ none
      → (r.outcome n ≡ none) × ((n == m) ≡ false)
  unfolding settle
  settle-pending m n q r h = elim (Bool-cases (n == m)) [
    | inl same ↦ absurd (let p : n ≡ m = ==→eq n m same in ground (arith, ap r.outcome p))
    | inr differs ↦ ground arith
  ]

  resolve_all-pending :
      (ns : List ℕ) (n : ℕ) (v : Value) (r : Requests SendType)
      → (resolve_all ns v r).outcome n ≡ none
      → r.outcome n ≡ none
  unfolding resolve_all
  resolve_all-pending [] n v r h = h
  resolve_all-pending (m ∷ ns) n v r h =
      (settle-pending m n (ok v) r (resolve_all-pending ns n v (settle m (ok v) r) h)).0

  reject-fields :
      (m : ℕ) (e : Failure) (r : Requests SendType)
      → ((reject m e r).next ≡ r.next) × ((reject m e r).waiting ≡ r.waiting)
  unfolding reject
  reject-fields m e r = elim (Bool-cases (is_some (r.outcome m))) [
    | inl done ↦ rw (done, reject) (refl, refl)
    | inr pending ↦ rw (pending, reject) (refl, refl)
  ]

  reject-Awaited :
      (m : ℕ) (e : Failure) (r : Requests SendType) → Awaited r → Awaited (reject m e r)
  reject-Awaited m e r a n l h =
      let (p, q) = reject-fields m e r in rw q (a n (rw p at l) (reject-pending m n e r h).0)

  opened_pending :
      (id : String) (r : Requests SendType) (n : ℕ)
      → Awaited r
      → n < suc r.next
      → (n == r.next) ≡ false
      → (open_promise id r).outcome n ≡ none
      → member n r.waiting ≡ true
  unfolding open_promise
  opened_pending id r n a l d h = a n (below_next n r.next l d) (rw d at h)

  send_message-Awaited :
      (b : Bool) (id : String) (req : SendType) (r : Requests SendType)
      → Awaited r
      → Awaited (send_message b id req r)
  unfolding send_message ums_request
  send_message-Awaited b id req r a n = elim (Bool-cases (ltb 0 (listener_count id r.responses))) [
    | inl taken ↦ rw taken (refused n)
    | inr unused ↦ rw unused (ended b n)
  ]
    where
      refused :
          (n : ℕ)
          → n < (settle r.next (err (in_progress id)) (open_promise id r)).next
          → (settle r.next (err (in_progress id)) (open_promise id r)).outcome n ≡ none
          → member n (settle r.next (err (in_progress id)) (open_promise id r)).waiting ≡ true
      refused n l h =
          let (x, y, p, q, z) = settle-fields r.next (err (in_progress id)) (open_promise id r) in
          let (still, differs) = settle-pending r.next n _ (open_promise id r) h in
          rw q (opened_pending id r n a (rw p at l) differs still)

      ended : (b : Bool) → Awaited (ums_request b r.next id req (open_promise id r))
      ended true n l h = listed n r.next r.waiting (λ d. opened_pending id r n a l d h)
      ended false n l h =
          reject-Awaited r.next not_started _
            (λ m k p. listed m r.next r.waiting (λ d. opened_pending id r m a k d p)) n l h

  time_out-Awaited :
      (i : String) (m : ℕ) (r : Requests SendType) → Awaited r → Awaited (time_out i m r)
  unfolding time_out
  time_out-Awaited i m r a n = elim (Bool-cases (member m r.waiting)) [
    | inr off ↦ rw off (a n)
    | inl armed ↦ rw armed (fired n)
  ]
    where
      rest : Requests SendType
      rest = record r { waiting = keep (λ k. not (k == m)) r.waiting }

      fired : Awaited (reject m (timed_out i (r.id_of m)) rest)
      fired n l h =
          let (p, q) = reject-fields m (timed_out i (r.id_of m)) rest in
          let (still, differs) = reject-pending m n _ rest h in
          rw (q, member-keep n m r.waiting, differs) (a n (rw p at l) still)

  dispatch-Awaited : (v : Value) (r : Requests SendType) → Awaited r → Awaited (dispatch v r).1
  dispatch-Awaited v r a =
      dispatch_cases Awaited r a (λ em. a) v
        (λ id. answered (listeners id r.responses) (keep (outlives id) r.responses))
    where
      answered :
          (ns : List ℕ) (em : Emitter ℕ) → Awaited (resolve_all ns v (record r { responses = em }))
      answered ns em n l h =
          let (x, y, p, q, z) = resolve_all-fields ns v (record r { responses = em }) in
          rw q (a n (rw p at l) (resolve_all-pending ns n v (record r { responses = em }) h))

  steps-Awaited :
      (i : String) (es : List (Event SendType)) (r : Requests SendType)
      → Awaited r
      → Awaited (steps i es r)
  unfolding steps clear_handlers
  steps-Awaited i [] r a = a
  steps-Awaited i (requests b id req ∷ es) r a =
      steps-Awaited i es _ (send_message-Awaited b id req r a)
  steps-Awaited i (send_fails n e ∷ es) r a = steps-Awaited i es _ (reject-Awaited n e r a)
  steps-Awaited i (times_out n ∷ es) r a = steps-Awaited i es _ (time_out-Awaited i n r a)
  steps-Awaited i (receives v ∷ es) r a = steps-Awaited i es _ (dispatch-Awaited v r a)
  steps-Awaited i (stops ∷ es) r a = steps-Awaited i es _ a

  reject-settled :
      (n : ℕ) (e : Failure) (r : Requests SendType)
      → (reject n e r).outcome n ≡ some (settled_or (r.outcome n) (err e))
  unfolding reject
  reject-settled n e r = elim (Option-cases (r.outcome n)) [
    | inr (o, done) ↦ rw (done, reject) done
    | inl pending ↦ rw (pending, reject) (rw (==_refl n))
  ]

  time_out_settled :
      (i : String) (n : ℕ) (r : Requests SendType)
      → Awaited r
      → n < r.next
      → (time_out i n r).outcome n ≡ some (settled_or (r.outcome n) (err (timed_out i (r.id_of n))))
  unfolding time_out
  time_out_settled i n r a l = elim (Option-cases (r.outcome n)) [
    | inl pending ↦ rw (a n l pending) (reject-settled n (timed_out i (r.id_of n)) rest)
    | inr (o, done) ↦ elim (Bool-cases (member n r.waiting)) [
      | inl armed ↦ rw armed (reject-settled n (timed_out i (r.id_of n)) rest)
      | inr off ↦ rw (off, done)
    ]
  ]
    where
      rest : Requests SendType
      rest = record r { waiting = keep (λ k. not (k == n)) r.waiting }

  -- After any history of a new client, the firing of the timer of a request made in it leaves the
  -- request's promise settled: with the result that it had, or else rejected with the timeout's
  -- error.
  pub time_out-settles :
      (i : String) (es : List (Event SendType)) (n : ℕ)
      → n < (steps i es fresh_requests).next
      → let r = steps i es fresh_requests in
        (time_out i n r).outcome n ≡ some (settled_or (r.outcome n) (err (timed_out i (r.id_of n))))
  unfolding fresh_requests
  time_out-settles i es n l =
      time_out_settled i n _ (steps-Awaited i es fresh_requests (λ m k p. absurd (omega arith))) l
