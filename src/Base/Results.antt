-- ===== src/Base/Results.antt =====
-- Thrown values, results of fallible code, and asynchronous methods that run to completion over
-- the state that they change: a settled promise is a `Result`, `await` is the bind of `Task`.
use Prim.Native.String.{String}
use mathlib.Core.Path.{◌≡◌, refl}

-- What the program throws or a promise rejects with.
pub data Failure : Type 0 where
  error : String → Failure
  type_error : String → Failure

pub data Result {ℓ} (A : Type ℓ) : Type ℓ where
  ok : A → Result A
  err : Failure → Result A

abbrev pub Task : Type 0 → Type 0 → Type 0
Task S A = S → Result A × S

abbrev pub pure : {S A : Type 0} → A → Task S A
pure a s = (ok a, s)

abbrev pub throw : {S A : Type 0} → Failure → Task S A
throw e s = (err e, s)

abbrev pub after : {S A B : Type 0} → (A → Task S B) → Result A × S → Result B × S
after f (ok a, s) = f a s
after f (err e, s) = (err e, s)

infixl 5 ◌>>=◌ ◌>>◌
abbrev pub ◌>>=◌ : {S A B : Type 0} → Task S A → (A → Task S B) → Task S B
◌>>=◌ m f s = after f (m s)

abbrev pub ◌>>◌ : {S B : Type 0} → Task S (Unit {0}) → Task S B → Task S B
◌>>◌ m k = m >>= λ _. k

-- A change of the state that cannot fail.
abbrev pub modify : {S : Type 0} → (S → S) → Task S (Unit {0})
modify f s = (ok tt, f s)

abbrev pub gets : {S A : Type 0} → (S → A) → Task S A
gets f s = (ok (f s), s)

-- `await` at a value that is settled already.
abbrev pub settled : {S A : Type 0} → Result A → Task S A
settled r s = (r, s)

-- Inversion of a chain that succeeded.
pub >>=-eq-ok :
    {S A B : Type 0} (m : Task S A) (f : A → Task S B) (s : S) {b : B} {t : S}
    → (m >>= f) s ≡ (ok b, t)
    → (a : A) × (u : S) × (m s ≡ (ok a, u)) × (f a u ≡ (ok b, t))
>>=-eq-ok {S} {A} {B} m f s {b} {t} = split (m s) refl
  where
    split :
        (r : Result A × S)
        → m s ≡ r
        → after f r ≡ (ok b, t)
        → (a : A) × (u : S) × (m s ≡ (ok a, u)) × (f a u ≡ (ok b, t))
    split (ok a, u) e h = (a, u, e, h)
    split (err x, u) e h = cc
