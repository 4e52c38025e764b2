-- ===== src/Request/Retry.antt =====
-- util-request/src/request.ts: how often a request is sent, and what comes back.
use lp_clients.Base.{
  Bool-cases, after, ℕ, suc, ◌+◌, ◌≡◌, refl, ◌≢◌, ◌⊎◌, inl, inr, Bool, false, Option, String,
  str_eq, eq_iff, if◌then◌else◌, arith, Task, Result, ok, err, Failure,
}
use lp_clients.Platform.Values.{Fields}
use lp_clients.Request.{
  GotFn, Response, request_options, failure_of, conclude, second_request, do_request,
}

module _ {W : Type 0} (send : GotFn → String → Fields → Task W Response) where
  conclude_cases :
      (r : Response) (w : W)
      → ((r.status_code ≡ "200") × (conclude send r w ≡ (ok r, w)))
        ⊎ ((r.status_code ≢ "200") × (conclude send r w ≡ (err (failure_of r), w)))
  unfolding conclude
  conclude_cases r w = elim (Bool-cases (str_eq r.status_code "200")) [
    | inl h ↦ inl ((eq_iff _ _).0 h, rw h)
    | inr h ↦ inr (λ e. cc (h, (eq_iff r.status_code "200").1 e), rw h)
  ]

  -- How an exchange with the server ends: with a response of status 200, with a failure of the
  -- connection, or with the failure that a last response of another status is turned into.
  abbrev pub Ends : String → GotFn → Fields → Result Response × W → Type 0
  Ends url f options out =
      (u : W) × (((r : Response) × (send f url options u ≡ (ok r, out.1))
          × (r.status_code ≡ "200")
          × (out.0 ≡ ok r))
        ⊎ ((r : Response) × (send f url options u ≡ (ok r, out.1))
            × (r.status_code ≢ "200")
            × (out.0 ≡ err (failure_of r)))
        ⊎ ((e : Failure) × (send f url options u ≡ (err e, out.1)) × (out.0 ≡ err e)))

  Ends-after :
      (url : String) (f : GotFn) (options : Fields) (u : W) (answer : Result Response × W)
      → send f url options u ≡ answer
      → Ends url f options (after (conclude send) answer)
  Ends-after url f options u (ok r, v) sent = elim (conclude_cases r v) [
    | inl (good, e) ↦ rw e (u, inl (r, sent, good, refl))
    | inr (bad, e) ↦ rw e (u, inr (inl (r, sent, bad, refl)))
  ]
  Ends-after url f options u (err x, v) sent = (u, inr (inr (x, sent, refl)))

  after_first :
      (url : String) (f : GotFn) (opts : Option Fields) (u : W) (answer : Result Response × W)
      → send f url (request_options opts) u ≡ answer
      → Ends url f (request_options opts) (
          after
            (λ r.
              if str_eq r.status_code "503"
              then second_request send f url opts
              else conclude send r)
            answer)
  unfolding second_request
  after_first url f opts u (ok r, v) sent = elim (Bool-cases (str_eq r.status_code "503")) [
    | inl h ↦ rw h (Ends-after url f (request_options opts) v _ refl)
    | inr h ↦ rw h (Ends-after url f (request_options opts) u (ok r, v) sent)
  ]
  after_first url f opts u (err x, v) sent =
      Ends-after url f (request_options opts) u (err x, v) sent

  -- Every request ends by its last exchange, made with the given URL, function and merged options:
  -- it resolves with that response exactly if the status is 200, rejects with the failure made from
  -- the response if the status is another one, and rejects with the connection's own failure.
  pub do_request-Ends :
      (f : GotFn) (url : String) (opts : Option Fields) (w : W)
      → Ends url f (request_options opts) (do_request send f url opts w)
  unfolding do_request
  do_request-Ends f url opts w = after_first url f opts w _ refl

  -- Whether a first answer asks for a retry.
  pub asks_retry : Result Response → Bool
  asks_retry (ok r) = str_eq r.status_code "503"
  asks_retry (err e) = false

  module _ (sends : W → ℕ)
      (counted : (f : GotFn) (url : String) (options : Fields) (w : W)
        → sends (send f url options w).1 ≡ suc (sends w)) where
    conclude_silent :
        (answer : Result Response × W) → sends (after (conclude send) answer).1 ≡ sends answer.1
    unfolding conclude
    conclude_silent (ok r, v) = ground arith
    conclude_silent (err x, v) = refl

    retry_once :
        (f : GotFn) (url : String) (opts : Option Fields) (answer : Result Response × W)
        → sends
            (after
              (λ r.
                if str_eq r.status_code "503"
                then second_request send f url opts
                else conclude send r)
              answer).1
          ≡ sends answer.1 + (if asks_retry answer.0 then 1 else 0)
    unfolding second_request asks_retry
    retry_once f url opts (ok r, v) = elim (Bool-cases (str_eq r.status_code "503")) [
      | inl h ↦ rw h (
          omega (
            arith,
            conclude_silent (send f url (request_options opts) v),
            counted f url (request_options opts) v,
          ))
      | inr h ↦ rw h (omega (arith, conclude_silent (ok r, v)))
    ]
    retry_once f url opts (err x, v) = omega arith

    -- Counting by any measure that each exchange raises by one: a request makes two exchanges if
    -- the first answer has status 503, and one otherwise, also when the second has 503 again.
    pub do_request_count :
        (f : GotFn) (url : String) (opts : Option Fields) (w : W)
        → sends (do_request send f url opts w).1
          ≡ sends w + (if asks_retry (send f url (request_options opts) w).0 then 2 else 1)
    unfolding do_request
    do_request_count f url opts w = ground (
      arith,
      retry_once f url opts (send f url (request_options opts) w),
      counted f url (request_options opts) w,
    )
