-- ===== src/WsTransport/Waiting.antt =====
-- transport-ws/src/transport.ts: the wait for the socket with its retries.
use lp_clients.Base.{
  ℕ, zero, suc, ◌+◌, ◌≡◌, refl, ◌≢◌, Bool, true, false, Option, none, some, String, if◌then◌else◌,
  arith, ◌<◌, ◌≤◌, ◌⊎◌, inl, inr, Bool-cases, subst,
}
use lp_clients.WsTransport.State.{ReadyState}
use lp_clients.WsTransport.Handlers.{is_open}

-- The number of retries that are left: it is counted down below zero.
pub data ℤ : Type 0 where
  pos negsuc : ℕ → ℤ

abbrev is_negative : ℤ → Bool
is_negative (pos n) = false
is_negative (negsuc n) = true

abbrev decrement : ℤ → ℤ
decrement (pos zero) = negsuc zero
decrement (pos (suc n)) = pos n
decrement (negsuc n) = negsuc (suc n)

-- What `waitForSocketConnection` does with its callback: it calls it, or polls again later with the
-- retries that are left.
pub data Poll : Type 0 where
  calls : Option String → Poll
  later : ℤ → Poll

abbrev max_timeout_reached : String
max_timeout_reached = "Waited for sockets to reconnect. Max timeout reached!"

unfoldable pub poll : ReadyState → ℤ → Poll
poll state max_retries =
    if is_negative max_retries
    then calls (some max_timeout_reached)
    else if is_open state
    then calls none
    else later (decrement max_retries)

unfoldable wait_retries : (ℕ → ReadyState) → ℕ → ℕ → Option String × ℕ
wait_retries states zero k =
    if is_open (states k) then (none, k) else (some max_timeout_reached, suc k)
wait_retries states (suc m) k =
    let rest = wait_retries states m (suc k) in if is_open (states k) then (none, k) else rest

-- `waitForSocketConnection` with its retries: its callback's argument and the number of the poll
-- that calls it. `states k` is what `readyState` is at poll k.
unfoldable pub wait_for_socket : (ℕ → ReadyState) → ℤ → ℕ → Option String × ℕ
unfolding wait_retries
wait_for_socket states (negsuc n) k = (some max_timeout_reached, k)
wait_for_socket states (pos m) k = wait_retries states m k

abbrev followed : (ℕ → ReadyState) → ℕ → Poll → Option String × ℕ
followed states k (calls r) = (r, k)
followed states k (later m) = wait_for_socket states m (suc k)

-- The wait is its first poll and, where that asks for a later one, the wait from there.
wait_for_socket-poll :
    (states : ℕ → ReadyState) (m : ℤ) (k : ℕ)
    → wait_for_socket states m k ≡ followed states k (poll (states k) m)
unfolding wait_for_socket wait_retries poll
wait_for_socket-poll states (negsuc n) k = refl
wait_for_socket-poll states (pos zero) k = elim (Bool-cases (is_open (states k))) [
  | inl e ↦ rw e refl
  | inr e ↦ rw e refl
]
wait_for_socket-poll states (pos (suc m)) k = elim (Bool-cases (is_open (states k))) [
  | inl e ↦ rw e refl
  | inr e ↦ rw e refl
]

next_or_later : (k i : ℕ) → k ≤ i → (k ≡ i) ⊎ (suc k ≤ i)
next_or_later k i h = grind arith

-- How often the socket is looked at, at most.
abbrev pub polls_of : ℤ → ℕ
polls_of (pos m) = suc m
polls_of (negsuc n) = 0

abbrev Waits : (ℕ → ReadyState) → ℕ → ℕ → Option String × ℕ → Type 0
Waits states polls k (result, at) =
    ((result ≡ none)
      × (k ≤ at)
      × (at < polls + k)
      × (is_open (states at) ≡ true)
      × ((i : ℕ) → k ≤ i → i < at → is_open (states i) ≡ false))
    ⊎ ((result ≢ none)
        × (at ≡ polls + k)
        × ((i : ℕ) → k ≤ i → i < polls + k → is_open (states i) ≡ false))

-- A poll that finds the socket open, before others that are not made.
open_now :
    (states : ℕ → ReadyState) (m k : ℕ)
    → is_open (states k) ≡ true
    → Waits states (suc m) k (none, k)
open_now states m k e = inl (refl, omega arith, omega arith, e, λ i p q. absurd (omega arith))

wait_retries_lem :
    (states : ℕ → ReadyState) (m k : ℕ) → Waits states (suc m) k (wait_retries states m k)
unfolding wait_retries
wait_retries_lem states zero k = elim (Bool-cases (is_open (states k))) [
  | inl e ↦ rw e (open_now states zero k e)
  | inr e ↦ rw e (
      inr (
        ground arith,
        omega arith,
        λ i a b. let same : k ≡ i = omega arith in subst (λ x. is_open (states x) ≡ false) same e,
      ))
]
wait_retries_lem states (suc m) k = elim (Bool-cases (is_open (states k))) [
  | inl e ↦ rw e (open_now states (suc m) k e)
  | inr e ↦ rw e (elim (wait_retries_lem states m (suc k)) [
    | inl (r, p, q, o, before) ↦ inl (
      r,
      omega arith,
      omega arith,
      o,
      λ i a b. elim (next_or_later k i a) [
        | inl same ↦ subst (λ x. is_open (states x) ≡ false) same e
        | inr after ↦ before i after b
      ],
    )
    | inr (r, p, before) ↦ inr (
      r,
      omega arith,
      λ i a b. elim (next_or_later k i a) [
        | inl same ↦ subst (λ x. is_open (states x) ≡ false) same e
        | inr after ↦ before i after (omega arith)
      ],
    )
  ])
]

-- With some number of retries, and the polls numbered from `k` on: when one of the polls that the
-- retries allow (one more than the retries, none if that is negative) finds the socket open, the
-- callback is called without an error at the first such poll; when none does, it is called with an
-- error behind the last one.
pub wait_for_socket_lem :
    (states : ℕ → ReadyState) (max_retries : ℤ) (k : ℕ)
    → let (result, at) = wait_for_socket states max_retries k in
      ((result ≡ none)
        × (k ≤ at)
        × (at < polls_of max_retries + k)
        × (is_open (states at) ≡ true)
        × ((i : ℕ) → k ≤ i → i < at → is_open (states i) ≡ false))
      ⊎ ((result ≢ none)
          × (at ≡ polls_of max_retries + k)
          × ((i : ℕ) → k ≤ i → i < polls_of max_retries + k → is_open (states i) ≡ false))
unfolding wait_for_socket
wait_for_socket_lem states (negsuc n) k =
    inr (ground arith, omega arith, λ i p q. absurd (omega arith))
wait_for_socket_lem states (pos m) k = wait_retries_lem states m k
