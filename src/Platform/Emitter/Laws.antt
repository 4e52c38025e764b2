-- ===== src/Platform/Emitter/Laws.antt =====
-- util-types/src/event_emitter.ts: how registration, removal and `emit` act on the listeners.
use lp_clients.Base.{
  suc, ◌≡◌, refl, ap, inl, inr, ◌↔◌, subst, Bool, true, false, some, List, [], ◌∷◌, ◌++◌, map,
  arith, if◌then◌else◌, not, ◌&&◌, keep, keep-append, length, str_eq, eq_iff, String, ok, All,
  Bool-cases,
}
use mathlib.Core.List.{map-append, append-nil}
use lp_clients.Platform.Emitter.{
  Entry, Emitter, on, once, listens_to, listeners, listener_count, remove_all_listeners, outlives,
  emit, remove_first, remove_listener,
}

module _ {L : Type 0} where
  listeners-concat :
      (d : String) (em : Emitter L) (x : Entry L)
      → listeners d (em ++ x ∷ [])
        ≡ (if str_eq x.event d then listeners d em ++ x.listener ∷ [] else listeners d em)
  unfolding listeners
  listeners-concat d em x = elim (Bool-cases (str_eq x.event d)) [
    | inl h ↦ rw (keep-append (listens_to d) em _, h) (rw map-append)
    | inr h ↦ rw (keep-append (listens_to d) em _, h) (rw append-nil)
  ]

  -- A listener that `on` adds is called last by its event, and no other event's listeners change.
  pub listeners-on :
      (d e : String) (l : L) (em : Emitter L)
      → listeners d (on e l em) ≡ (if str_eq e d then listeners d em ++ l ∷ [] else listeners d em)
  unfolding on
  listeners-on d e l em = listeners-concat d em _

  pub listeners-once :
      (d e : String) (l : L) (em : Emitter L)
      → listeners d (once e l em)
        ≡ (if str_eq e d then listeners d em ++ l ∷ [] else listeners d em)
  unfolding once
  listeners-once d e l em = listeners-concat d em _

  pub keep-remove_all :
      (d e : String) (em : Emitter L)
      → keep (listens_to d) (remove_all_listeners (some e) em)
        ≡ (if str_eq e d then [] else keep (listens_to d) em)
  unfolding remove_all_listeners
  keep-remove_all d e [] = ground arith
  keep-remove_all d e (x ∷ em) =
      ground (arith, keep-remove_all d e em, eq_iff x.event e, eq_iff x.event d, eq_iff e d)

  pub keep-outlives :
      (d e : String) (em : Emitter L)
      → keep (listens_to d) (keep (outlives e) em) ≡ (
          if str_eq e d
          then keep (λ x. not x.is_once) (keep (listens_to d) em)
          else keep (listens_to d) em)
  keep-outlives d e [] = ground arith
  keep-outlives d e (x ∷ em) =
      ground (arith, keep-outlives d e em, eq_iff x.event e, eq_iff x.event d, eq_iff e d)

  -- The listeners of `d` that stay after they are called.
  pub lasting : String → Emitter L → List L
  lasting d em = map (λ x. x.listener) (keep (λ x. not x.is_once) (keep (listens_to d) em))

  lasting_none :
      (e : String) (em : Emitter L) → listener_count e em ≡ 0 → listeners e em ≡ lasting e em
  unfolding listener_count listeners lasting
  lasting_none e em h = none_listen (keep (listens_to e) em) h
    where
      none_listen :
          (xs : Emitter L)
          → length xs ≡ 0
          → map (λ (x : Entry L). x.listener) xs
            ≡ map (λ (x : Entry L). x.listener) (keep (λ x. not x.is_once) xs)
      none_listen [] k = refl
      none_listen (x ∷ xs) k = absurd (omega arith)

  count-listeners : (e : String) (em : Emitter L) → length (listeners e em) ≡ listener_count e em
  unfolding listener_count listeners
  count-listeners e em = count_all (keep (listens_to e) em)
    where
      count_all : (xs : Emitter L) → length (map (λ (x : Entry L). x.listener) xs) ≡ length xs
      count_all [] = refl
      count_all (x ∷ xs) = ap suc (count_all xs)

  listeners-outlives :
      (d e : String) (em : Emitter L)
      → listeners d (keep (outlives e) em) ≡ (if str_eq e d then lasting d em else listeners d em)
  unfolding listeners lasting
  listeners-outlives d e em = elim (Bool-cases (str_eq e d)) [
    | inl h ↦ rw (keep-outlives d e em, h)
    | inr h ↦ rw (keep-outlives d e em, h)
  ]

  listeners-unheard :
      (d e : String) (em : Emitter L)
      → listener_count e em ≡ 0
      → listeners d em ≡ (if str_eq e d then lasting d em else listeners d em)
  listeners-unheard d e em silent = elim (Bool-cases (str_eq e d)) [
    | inl h ↦
        rw h
          (subst (λ s. listeners s em ≡ lasting s em) ((eq_iff e d).0 h) (lasting_none e em silent))
    | inr h ↦ rw h
  ]

  nil_of_count : (xs : List L) → length xs ≡ 0 → xs ≡ []
  nil_of_count [] h = refl
  nil_of_count (x ∷ xs) h = absurd (omega arith)

  -- An emit that does not throw calls the event's listeners in order, once each; afterwards the
  -- event has its lasting listeners left, and every other event all of its own.
  pub listeners-emit :
      (d e : String) (em em' : Emitter L) (called : List L) (heard : Bool)
      → emit e em ≡ (ok (called, heard), em')
      → (called ≡ listeners e em)
        × (listeners d em' ≡ (if str_eq e d then lasting d em else listeners d em))
        × ((heard ≡ false) ↔ (called ≡ []))
  unfolding emit
  listeners-emit d e em em' called heard h = ground (
    arith,
    listeners-unheard d e em,
    listeners-outlives d e em,
    count-listeners e em,
    nil_of_count (listeners e em),
  )

module _ {L : Type 0} (same : L → L → Bool) where
  abbrev pub Is : String → L → Entry L → Bool
  Is e l x = listens_to e x && same x.listener l

  remove_first_absent :
      (e : String) (l : L) (em : Emitter L)
      → All (λ x. Is e l x ≡ false) em
      → remove_first same e l em ≡ (em, false)
  unfolding remove_first
  remove_first_absent e l [] h = refl
  remove_first_absent e l (x ∷ em) (p, h) = rw (remove_first_absent e l em h, p)

  remove_first_present :
      (e : String) (l : L) (x : Entry L) (front rest : Emitter L)
      → Is e l x ≡ true
      → All (λ y. Is e l y ≡ false) rest
      → remove_first same e l (front ++ x ∷ rest) ≡ (front ++ rest, true)
  unfolding remove_first
  remove_first_present e l x [] rest p h = rw (remove_first_absent e l rest h, p)
  remove_first_present e l x (y ∷ front) rest p h = rw (remove_first_present e l x front rest p h)

  -- `removeListener` takes away the latest registration of the listener for the event, if there is
  -- one, and keeps all others in their order.
  pub remove_listener_lem :
      (e : String) (l : L) (x : Entry L) (front rest : Emitter L)
      → Is e l x ≡ true
      → All (λ y. Is e l y ≡ false) rest
      → (remove_listener same e l (front ++ x ∷ rest) ≡ front ++ rest)
        × (remove_listener same e l rest ≡ rest)
  unfolding remove_listener
  remove_listener_lem e l x front rest p h = (
    ap (λ r. r.0) (remove_first_present e l x front rest p h),
    ap (λ r. r.0) (remove_first_absent e l rest h),
  )

module _ {L : Type 0} (same : L → L → Bool) where
  -- The listeners of another event are untouched.
  pub listeners-remove_other :
      (d e : String) (l : L) (em : Emitter L)
      → str_eq e d ≡ false
      → listeners d (remove_listener same e l em) ≡ listeners d em
  unfolding remove_listener listeners remove_first
  listeners-remove_other d e l [] h = refl
  listeners-remove_other d e l (x ∷ em) h =
      ground
        (arith, listeners-remove_other d e l em h, eq_iff x.event e, eq_iff x.event d, eq_iff e d)

module _ {L : Type 0} where
  pub lasting-on :
      (d e : String) (l : L) (em : Emitter L)
      → lasting d (on e l em) ≡ (if str_eq e d then lasting d em ++ l ∷ [] else lasting d em)
  unfolding on lasting
  lasting-on d e l [] = ground arith
  lasting-on d e l (x ∷ em) = ground (arith, lasting-on d e l em, eq_iff x.event d)

  lasting-outlives :
      (d e : String) (em : Emitter L) → lasting d (keep (outlives e) em) ≡ lasting d em
  unfolding lasting
  lasting-outlives d e [] = refl
  lasting-outlives d e (x ∷ em) = ground (arith, lasting-outlives d e em)

  -- No event takes lasting listeners away.
  pub lasting-emit : (d e : String) (em : Emitter L) → lasting d (emit e em).1 ≡ lasting d em
  unfolding emit
  lasting-emit d e em = ground (arith, lasting-outlives d e em)

module _ {L : Type 0} (same : L → L → Bool) where
  pub lasting-remove_other :
      (d e : String) (l : L) (em : Emitter L)
      → str_eq e d ≡ false
      → lasting d (remove_listener same e l em) ≡ lasting d em
  unfolding remove_listener lasting remove_first
  lasting-remove_other d e l [] h = refl
  lasting-remove_other d e l (x ∷ em) h =
      ground
        (arith, lasting-remove_other d e l em h, eq_iff x.event e, eq_iff x.event d, eq_iff e d)
