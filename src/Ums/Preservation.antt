-- ===== src/Ums/Preservation.antt =====
-- ums-client/src/client.ts: every operation keeps the invariant of the requests.
use lp_clients.Base.{
  ℕ, ◌<◌, ◌≡◌, refl, sym, ◌∙◌, ap, ◌≢◌, inl, inr, Bool, true, false, not, none, some, is_some, List,
  [], ◌∷◌, String, str_eq, ◌==◌, ltb, update, member, keep, All, All-map, All-append, All-keep,
  Result, ok, err, Failure, arith, Bool-cases, All-both, ==→eq, ==_refl,
}
use lp_clients.Platform.Values.{property, Value, truthy, to_text}
use lp_clients.Platform.Emitter.{
  Entry, Emitter, once, listens_to, listeners, listener_count, outlives, emit,
}
use lp_clients.Ums.Requests.{
  Requests, settle, resolve_all, reject, open_promise, ums_request, send_message, time_out,
  dispatch, clear_handlers, heard, notified, notify, is_response_type, text_of, in_progress,
  not_started,
}
use lp_clients.Ums.Invariant.{
  Serves, Inv, Single-keep, Single-concat, unheard_differs, removed_differs, outlived_differs,
  resolve_all-fields, resolve_all-other, listeners_served,
}

module _ {SendType : Type 0} where
  pub reject-Inv : (n : ℕ) (e : Failure) (r : Requests SendType) → Inv r → Inv (reject n e r)
  unfolding reject
  reject-Inv n e r v = elim (Bool-cases (is_some (r.outcome n))) [
    | inl done ↦ rw done v
    | inr open_ ↦ rw open_ (record {
      serving = All-map keeps _ (
          All-both (λ y. y.event ≢ r.id_of n) (Serves r) _ (removed_differs (r.id_of n) r.responses)
            (All-keep (Serves r) (λ x. not (listens_to (r.id_of n) x)) r.responses v.serving));
      single = Single-keep (λ x. not (listens_to (r.id_of n) x)) r.responses v.single;
    })
  ]
    where
      keeps :
          (x : Entry ℕ)
          → (x.event ≢ r.id_of n) × Serves r x
          → Serves (record r { outcome = update n (some (err e)) r.outcome; responses = [] }) x
      keeps x (other, (o, p, q, l)) = (
        o,
        elim (Bool-cases (x.listener == n)) [
          | inl same ↦ absurd (other (sym q ∙ ap r.id_of (==→eq _ _ same)))
          | inr differs ↦ rw differs p
        ],
        q,
        l,
      )

  heard-Inv :
      (id : String) (v : Value) (r : Requests SendType)
      → Inv r
      → Inv (
          resolve_all
            (listeners id r.responses)
            v
            (record r { responses = keep (outlives id) r.responses }))
  heard-Inv id v r w =
      let r₁ : Requests SendType = record r { responses = keep (outlives id) r.responses } in
      let (a, b, c, d, e) = resolve_all-fields (listeners id r.responses) v r₁ in
      record {
        serving =
            rw (a, b, c)
              (All-map keeps _ (
                All-both (λ y. y.event ≢ id) (Serves r) _
                  (outlived_differs id r.responses (All-map (λ x s. s.0) _ w.serving))
                  (All-keep (Serves r) (outlives id) r.responses w.serving)));
        single = rw a (Single-keep (outlives id) r.responses w.single);
      }
    where
      keeps :
          (x : Entry ℕ)
          → (x.event ≢ id) × Serves r x
          → (x.is_once ≡ true)
            × ((resolve_all
                    (listeners id r.responses)
                    v
                    (record r { responses = keep (outlives id) r.responses })).outcome
                  x.listener
                ≡ none)
            × (r.id_of x.listener ≡ x.event)
            × (x.listener < r.next)
      keeps x (other, (o, p, q, l)) = (
        o,
        resolve_all-other (listeners id r.responses) v
              (record r { responses = keep (outlives id) r.responses }) x.listener id
              (listeners_served id r r.responses w.serving) (λ e. other (sym q ∙ e))
            ∙ p,
        q,
        l,
      )

  -- The listeners of a state go on serving when a new promise is opened, and none is that one.
  opened_serving :
      (id : String) (r : Requests SendType)
      → Inv r
      → All (λ x. Serves (open_promise id r) x × ((x.listener == r.next) ≡ false)) r.responses
  unfolding open_promise
  opened_serving id r v = All-map keeps r.responses v.serving
    where
      keeps :
          (x : Entry ℕ)
          → Serves r x
          → Serves (open_promise id r) x × ((x.listener == r.next) ≡ false)
      keeps x (o, p, q, l) =
          let old : (x.listener == r.next) ≡ false = ground arith in
          ((o, rw old p, rw old q, omega arith), old)

  refuse-Inv :
      (id : String) (o : Result Value) (r : Requests SendType)
      → Inv r
      → Inv (settle r.next o (open_promise id r))
  unfolding settle open_promise
  refuse-Inv id o r v = record {
    serving = rw (==_refl r.next) (All-map keeps r.responses (opened_serving id r v));
    single = rw (==_refl r.next) v.single;
  }
    where
      keeps :
          (x : Entry ℕ)
          → Serves (open_promise id r) x × ((x.listener == r.next) ≡ false)
          → Serves
              (record (open_promise id r) {
                outcome = update r.next (some o) (open_promise id r).outcome;
              })
              x
      keeps x ((a, p, q, l), differs) = (a, rw differs (rw differs at p), q, l)

  ums_request-Inv :
      (b : Bool) (id : String) (req : SendType) (r : Requests SendType)
      → Inv r
      → listener_count id r.responses ≡ 0
      → Inv (ums_request b r.next id req (open_promise id r))
  unfolding ums_request open_promise
  ums_request-Inv b id req r v unheard = ended b
    where
      listening : Requests SendType
      listening = record (open_promise id r) {
        responses = once id r.next r.responses;
        waiting = r.next ∷ r.waiting;
      }

      served : Inv listening
      served = record {
        serving =
            All-append (Serves listening) r.responses _
              (All-map (λ x s. s.0) r.responses (opened_serving id r v))
              ((refl, rw (==_refl r.next), rw (==_refl r.next), omega arith), tt);
        single = Single-concat r.responses _ (unheard_differs id r.responses unheard) v.single;
      }

      ended : (b : Bool) → Inv (ums_request b r.next id req (open_promise id r))
      ended true = record { serving = served.serving; single = served.single }
      ended false = reject-Inv r.next not_started listening served

  pub send_message-Inv :
      (b : Bool) (id : String) (req : SendType) (r : Requests SendType)
      → Inv r
      → Inv (send_message b id req r)
  unfolding send_message
  send_message-Inv b id req r v = elim (Bool-cases (ltb 0 (listener_count id r.responses))) [
    | inl taken ↦ rw taken (refuse-Inv id (err (in_progress id)) r v)
    | inr unused ↦ rw unused (ums_request-Inv b id req r v (ground arith))
  ]

  pub time_out-Inv : (i : String) (n : ℕ) (r : Requests SendType) → Inv r → Inv (time_out i n r)
  unfolding time_out
  time_out-Inv i n r v = elim (Bool-cases (member n r.waiting)) [
    | inl armed ↦ rw armed (reject-Inv n _ _ (record { serving = v.serving; single = v.single }))
    | inr off ↦ rw off v
  ]

  pub clear_handlers-Inv : (r : Requests SendType) → Inv (clear_handlers r)
  unfolding clear_handlers
  clear_handlers-Inv r = record { serving = tt; single = tt }

  -- A message leaves the requests as they are, changes the notification listeners, or answers the
  -- listeners of one id.
  module _ {κ} (P : Requests SendType → Type κ) (r : Requests SendType) (same : P r)
      (notifies : (em : Emitter ℕ) → P (record r { notifications = em })) (v : Value)
      (answers : (id : String)
        → P (
            resolve_all
              (listeners id r.responses)
              v
              (record r { responses = keep (outlives id) r.responses }))) where
    heard_cases : (id : String) → P (heard v (emit id r.responses) r).1
    unfolding emit resolve_all
    heard_cases id = elim (Bool-cases (listener_count id r.responses == 0)) [
      | inr some_ ↦ rw some_ (answers id)
      | inl none_ ↦ elim (Bool-cases (str_eq id "error")) [
        | inl thrown ↦ rw (none_, thrown) same
        | inr quiet ↦ rw (none_, quiet) same
      ]
    ]

    notified_cases : (out : Result (List ℕ × Bool) × Emitter ℕ) → P (notified out r).1
    notified_cases (ok (called, found), em) = notifies em
    notified_cases (err e, em) = same

    notify_cases : (kind : Result String) → P (notify kind r).1
    notify_cases (ok kind) = notified_cases (emit kind r.notifications)
    notify_cases (err e) = same

    pub dispatch_cases : P (dispatch v r).1
    unfolding dispatch
    dispatch_cases = elim (Bool-cases (truthy v)) [
      | inr falsy ↦ rw falsy same
      | inl full ↦ elim (Bool-cases (is_response_type v)) [
        | inl response ↦ rw (full, response) (heard_cases (text_of (property "reqId" v)))
        | inr other ↦ elim (Bool-cases (truthy (property "type" v))) [
          | inl typed ↦ rw (full, other, typed) (notify_cases (to_text (property "type" v)))
          | inr untyped ↦ rw (full, other, untyped) same
        ]
      ]
    ]

  pub dispatch-Inv : (v : Value) (r : Requests SendType) → Inv r → Inv (dispatch v r).1
  dispatch-Inv v r w =
      dispatch_cases Inv r w (λ em. record { serving = w.serving; single = w.single }) v
        (λ id. heard-Inv id v r w)
