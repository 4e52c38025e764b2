-- ===== src/Ums/Invariant.antt =====
-- ums-client/src/client.ts: what holds of the requests between two events.
use lp_clients.Base.{
  ℕ, ◌<◌, ◌≡◌, refl, sym, ◌∙◌, ap, ◌≢◌, inl, inr, Bool, true, false, none, some, is_some, List, [],
  ◌∷◌, ◌++◌, String, eq_iff, ◌==◌, keep, All, All-append, All-keep, Result, ok, arith, Bool-cases,
  ==→eq,
}
use lp_clients.Platform.Values.{Value}
use lp_clients.Platform.Emitter.{
  Entry, Emitter, listeners, listener_count, remove_all_listeners, outlives,
}
use lp_clients.Ums.Requests.{Requests, settle, resolve_all}

-- No two listeners wait for the same id.
abbrev pub Single : Emitter ℕ → Type 0
Single [] = Unit
Single (x ∷ em) = All (λ y. y.event ≢ x.event) em × Single em

module _ {SendType : Type 0} where
  -- A listener waits for the answer to a request that is pending, under the request's own id.
  abbrev pub Serves : Requests SendType → Entry ℕ → Type 0
  Serves r x =
      (x.is_once ≡ true)
      × (r.outcome x.listener ≡ none)
      × (r.id_of x.listener ≡ x.event)
      × (x.listener < r.next)

  pub record Inv (r : Requests SendType) : Type 0 where
    pub serving : All (Serves r) r.responses
    pub single : Single r.responses

pub Single-keep : (p : Entry ℕ → Bool) (em : Emitter ℕ) → Single em → Single (keep p em)
Single-keep p [] h = tt
Single-keep p (x ∷ em) (a, h) = elim (Bool-cases (p x)) [
  | inl e ↦ rw e (All-keep (λ y. y.event ≢ x.event) p em a, Single-keep p em h)
  | inr e ↦ rw e (Single-keep p em h)
]

pub Single-concat :
    (em : Emitter ℕ) (x : Entry ℕ)
    → All (λ y. y.event ≢ x.event) em
    → Single em
    → Single (em ++ x ∷ [])
Single-concat [] x a h = (tt, tt)
Single-concat (y ∷ em) x (b, a) (c, h) = (
  All-append (λ z. z.event ≢ y.event) em (x ∷ []) c ((λ e. b (sym e)), tt),
  Single-concat em x a h,
)

pub unheard_differs :
    (id : String) (em : Emitter ℕ) → listener_count id em ≡ 0 → All (λ y. y.event ≢ id) em
unfolding listener_count
unheard_differs id [] h = tt
unheard_differs id (x ∷ em) h = ground (arith, unheard_differs id em, eq_iff x.event id)

pub removed_differs :
    (id : String) (em : Emitter ℕ) → All (λ y. y.event ≢ id) (remove_all_listeners (some id) em)
unfolding remove_all_listeners
removed_differs id [] = tt
removed_differs id (x ∷ em) = ground (arith, removed_differs id em, eq_iff x.event id)

pub outlived_differs :
    (id : String) (em : Emitter ℕ)
    → All (λ x. x.is_once ≡ true) em
    → All (λ y. y.event ≢ id) (keep (outlives id) em)
outlived_differs id [] h = tt
outlived_differs id (x ∷ em) (p, h) = ground (arith, outlived_differs id em h, eq_iff x.event id)

module _ {SendType : Type 0} where
  -- What settling a promise leaves alone.
  abbrev pub SameButOutcome : Requests SendType → Requests SendType → Type 0
  SameButOutcome r r' =
      (r'.responses ≡ r.responses)
      × (r'.id_of ≡ r.id_of)
      × (r'.next ≡ r.next)
      × (r'.waiting ≡ r.waiting)
      × (r'.notifications ≡ r.notifications)

  pub settle-fields :
      (n : ℕ) (o : Result Value) (r : Requests SendType) → SameButOutcome r (settle n o r)
  unfolding settle
  settle-fields n o r = elim (Bool-cases (is_some (r.outcome n))) [
    | inl done ↦ rw (done, settle) (refl, refl, refl, refl, refl)
    | inr pending ↦ rw (pending, settle) (refl, refl, refl, refl, refl)
  ]

  pub resolve_all-fields :
      (ns : List ℕ) (v : Value) (r : Requests SendType) → SameButOutcome r (resolve_all ns v r)
  unfolding resolve_all
  resolve_all-fields [] v r = (refl, refl, refl, refl, refl)
  resolve_all-fields (n ∷ ns) v r =
      let (a, b, c, d, e) = settle-fields n (ok v) r in
      let (a', b', c', d', e') = resolve_all-fields ns v (settle n (ok v) r) in
      (a' ∙ a, b' ∙ b, c' ∙ c, d' ∙ d, e' ∙ e)

  pub settle-other :
      (n m : ℕ) (o : Result Value) (r : Requests SendType)
      → (m == n) ≡ false
      → (settle n o r).outcome m ≡ r.outcome m
  unfolding settle
  settle-other n m o r h = elim (Bool-cases (is_some (r.outcome n))) [
    | inl done ↦ rw (done, settle)
    | inr pending ↦ rw (pending, settle, h)
  ]

  -- Promises of other ids are not touched.
  pub resolve_all-other :
      (ns : List ℕ) (v : Value) (r : Requests SendType) (m : ℕ) (id : String)
      → All (λ n. r.id_of n ≡ id) ns
      → r.id_of m ≢ id
      → (resolve_all ns v r).outcome m ≡ r.outcome m
  unfolding resolve_all
  resolve_all-other [] v r m id h k = refl
  resolve_all-other (n ∷ ns) v r m id (p, h) k =
      let same_ids : (settle n (ok v) r).id_of ≡ r.id_of = (settle-fields n (ok v) r).1 in
      resolve_all-other ns v (settle n (ok v) r) m id (rw same_ids h) (rw same_ids k)
      ∙ settle-other n m (ok v) r differs
    where
      differs : (m == n) ≡ false
      differs = elim (Bool-cases (m == n)) [
        | inl same ↦ absurd (k (ap r.id_of (==→eq _ _ same) ∙ p))
        | inr other ↦ other
      ]

  pub listeners_served :
      (id : String) (r : Requests SendType) (em : Emitter ℕ)
      → All (Serves r) em
      → All (λ n. r.id_of n ≡ id) (listeners id em)
  unfolding listeners
  listeners_served id r [] h = tt
  listeners_served id r (x ∷ em) ((o, p, q, l), h) =
      ground (arith, listeners_served id r em h, eq_iff x.event id)
