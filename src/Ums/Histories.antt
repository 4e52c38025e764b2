-- ===== src/Ums/Histories.antt =====
-- ums-client/src/client.ts: requests over any sequence of events.
use lp_clients.Base.{
  ℕ, ◌≡◌, sym, ◌∙◌, ap, inl, inr, Bool, false, Option, none, some, is_some, List, [], ◌∷◌, String,
  ◌==◌, ==→eq, update, Result, Failure, arith, Bool-cases,
}
use lp_clients.Platform.Values.{Value}
use lp_clients.Ums.Requests.{Requests, reject, send_message, time_out, dispatch, clear_handlers}
use lp_clients.Ums.Invariant.{Inv}
use lp_clients.Ums.Preservation.{
  reject-Inv, send_message-Inv, time_out-Inv, dispatch-Inv, clear_handlers-Inv,
}

-- What can happen to the requests of a client: a request, with whether the client is started; the
-- transport's failure to send the request of a promise; the timer of a promise; a message from the
-- server; the end of `onStop`.
pub data Event (SendType : Type 0) : Type 0 where
  requests : Bool → String → SendType → Event SendType
  send_fails : ℕ → Failure → Event SendType
  times_out : ℕ → Event SendType
  receives : Value → Event SendType
  stops : Event SendType

kept_by_update :
    (f : ℕ → Option (Result Value)) (m n : ℕ) (q o : Result Value)
    → is_some (f m) ≡ false
    → f n ≡ some o
    → update m (some q) f n ≡ some o
kept_by_update f m n q o pending e = elim (Bool-cases (n == m)) [
  | inl same ↦ let e' : f m ≡ some o = ap f (sym (==→eq n m same)) ∙ e in ground arith
  | inr differs ↦ rw differs e
]

module _ {SendType : Type 0} where
  -- A client whose handlers are new.
  unfoldable pub fresh_requests : Requests SendType
  fresh_requests = record {
    responses = [];
    notifications = [];
    outcome = λ n. none;
    id_of = λ n. "";
    next = 0;
    waiting = [];
    sent = [];
  }

  module _ (interval : String) where
    unfoldable pub step : Event SendType → Requests SendType → Requests SendType
    step (requests b id req) r = send_message b id req r
    step (send_fails n e) r = reject n e r
    step (times_out n) r = time_out interval n r
    step (receives v) r = (dispatch v r).1
    step stops r = clear_handlers r

    unfoldable pub steps : List (Event SendType) → Requests SendType → Requests SendType
    unfolding step
    steps [] r = r
    steps (e ∷ es) r = steps es (step e r)

    step-Inv : (e : Event SendType) (r : Requests SendType) → Inv r → Inv (step e r)
    unfolding step
    step-Inv (requests b id req) r v = send_message-Inv b id req r v
    step-Inv (send_fails n e) r v = reject-Inv n e r v
    step-Inv (times_out n) r v = time_out-Inv interval n r v
    step-Inv (receives x) r v = dispatch-Inv x r v
    step-Inv stops r v = clear_handlers-Inv r

    -- Any history keeps this: each listener waits once, for the answer to a pending request, under
    -- that request's id; and no two listeners wait for the same id.
    pub history-Inv :
        (es : List (Event SendType)) (r : Requests SendType) → Inv r → Inv (steps es r)
    unfolding steps
    history-Inv [] r v = v
    history-Inv (e ∷ es) r v = history-Inv es (step e r) (step-Inv e r v)

  pub fresh-Inv : Inv fresh_requests
  unfolding fresh_requests
  fresh-Inv = record { serving = tt; single = tt }
