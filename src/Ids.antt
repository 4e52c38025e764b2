-- ===== src/Ids.antt =====
-- ums-id-generator/src/generator.ts: the random ids of requests. A text is a list of symbols; the k-th
-- draw is the whole part of 16 times the k-th random number.
use Prim.Native.Nat.{bit_xor}
use lp_clients.Base.{
  ℕ, zero, suc, ◌/◌, ◌^◌, ◌≤◌, ◌<◌, ◌≡◌, refl, sym, subst, Bool, true, ◌&&◌, ◌||◌, List, [], ◌∷◌,
  ◌++◌, map, if◌then◌else◌, ◌==◌, ltb, leb, ltb→lt, leb→le, arith, Bool-cases, inl, inr, ==→eq,
}

pub data Symbol : Type 0 where
  hex : ℕ → Symbol
  hyphen : Symbol

-- `("" + 1e7 + -1e3 + -4e3 + -8e3 + -1e11)`
abbrev pub template : List Symbol
template =
    map hex (1 ∷ 0 ∷ 0 ∷ 0 ∷ 0 ∷ 0 ∷ 0 ∷ 0 ∷ [])
    ++ hyphen ∷ map hex (1 ∷ 0 ∷ 0 ∷ 0 ∷ [])
    ++ hyphen ∷ map hex (4 ∷ 0 ∷ 0 ∷ 0 ∷ [])
    ++ hyphen ∷ map hex (8 ∷ 0 ∷ 0 ∷ 0 ∷ [])
    ++ hyphen ∷ map hex (1 ∷ 0 ∷ 0 ∷ 0 ∷ 0 ∷ 0 ∷ 0 ∷ 0 ∷ 0 ∷ 0 ∷ 0 ∷ 0 ∷ [])

-- `a ^ Math.random() * 16 >> a / 4`
unfoldable pub random_digit : ℕ → ℕ → ℕ
random_digit a draw = bit_xor a (draw / 2 ^ (a / 4))

-- `replace(/[018]/g, generate)`, from the k-th draw on.
unfoldable pub replaced : (ℕ → ℕ) → ℕ → List Symbol → List Symbol
unfolding random_digit
replaced draws k [] = []
replaced draws k (hyphen ∷ ss) = hyphen ∷ replaced draws k ss
replaced draws k (hex a ∷ ss) =
    if a == 0 || (a == 1 || a == 8)
    then hex (random_digit a (draws k)) ∷ replaced draws (suc k) ss
    else hex a ∷ replaced draws k ss

unfoldable pub generate_id : (ℕ → ℕ) → List Symbol
unfolding replaced
generate_id draws = replaced draws 0 template

-- A version 4 UUID by its specification: the third group starts with the version, and the fourth
-- with one of 8, 9, a and b.
pub data Slot : Type 0 where
  any variant : Slot
  exactly : Symbol → Slot

abbrev pub uuid_v4 : List Slot
uuid_v4 =
    any
    ∷ any
    ∷ any
    ∷ any
    ∷ any
    ∷ any
    ∷ any
    ∷ any
    ∷ exactly hyphen
    ∷ any
    ∷ any
    ∷ any
    ∷ any
    ∷ exactly hyphen
    ∷ exactly (hex 4)
    ∷ any
    ∷ any
    ∷ any
    ∷ exactly hyphen
    ∷ variant
    ∷ any
    ∷ any
    ∷ any
    ∷ exactly hyphen
    ∷ any
    ∷ any
    ∷ any
    ∷ any
    ∷ any
    ∷ any
    ∷ any
    ∷ any
    ∷ any
    ∷ any
    ∷ any
    ∷ any
    ∷ []

pub data Fits : Slot → Symbol → Type 0 where
  fits_any : (d : ℕ) → d < 16 → Fits any (hex d)
  fits_variant : (d : ℕ) → 8 ≤ d → d < 12 → Fits variant (hex d)
  fits_exactly : (s : Symbol) → Fits (exactly s) s

pub data FitsAll : List Slot → List Symbol → Type 0 where
  fits_end : FitsAll [] []
  fits_next :
      {slot : Slot} {s : Symbol} {slots : List Slot} {ss : List Symbol}
      → Fits slot s
      → FitsAll slots ss
      → FitsAll (slot ∷ slots) (s ∷ ss)

abbrev all_below : ℕ → (ℕ → Bool) → Bool
all_below zero p = true
all_below (suc n) p = p n && all_below n p

-- What is tested for all numbers below a bound holds of each of them.
all_below_lem : (n : ℕ) (p : ℕ → Bool) (d : ℕ) → all_below n p ≡ true → d < n → p d ≡ true
all_below_lem zero p d h l = absurd (omega arith)
all_below_lem (suc n) p d h l = elim (Bool-cases (d == n)) [
  | inl e ↦ subst (λ k. p k ≡ true) (sym (==→eq d n e)) (ground (arith, h))
  | inr e ↦ all_below_lem n p d (ground (arith, h)) (ground (arith, e))
]

plain_digit : (d : ℕ) → d < 16 → (random_digit 0 d < 16) × (random_digit 1 d < 16)
unfolding random_digit
plain_digit d l = (
  ltb→lt _ _ (all_below_lem 16 (λ k. ltb (random_digit 0 k) 16) d refl l),
  ltb→lt _ _ (all_below_lem 16 (λ k. ltb (random_digit 1 k) 16) d refl l),
)

variant_digit : (d : ℕ) → d < 16 → (8 ≤ random_digit 8 d) × (random_digit 8 d < 12)
unfolding random_digit
variant_digit d l = (
  leb→le _ _ (all_below_lem 16 (λ k. leb 8 (random_digit 8 k)) d refl l),
  ltb→lt _ _ (all_below_lem 16 (λ k. ltb (random_digit 8 k) 12) d refl l),
)

-- The slot that a symbol of the template becomes.
abbrev slot_of : Symbol → Slot
slot_of hyphen = exactly hyphen
slot_of (hex a) = if a == 0 || a == 1 then any else if a == 8 then variant else exactly (hex a)

first_slot :
    (a k : ℕ) (draws : ℕ → ℕ) (ss : List Symbol) (slots : List Slot)
    → draws k < 16
    → ((j : ℕ) → FitsAll slots (replaced draws j ss))
    → FitsAll (slot_of (hex a) ∷ slots) (replaced draws k (hex a ∷ ss))
unfolding replaced
first_slot a k draws ss slots l rest = elim (Bool-cases (a == 0)) [
  | inl e ↦
      subst (λ b. FitsAll (slot_of (hex b) ∷ slots) (replaced draws k (hex b ∷ ss)))
        (sym (==→eq a 0 e)) (fits_next (fits_any _ (plain_digit (draws k) l).0) (rest (suc k)))
  | inr e ↦ elim (Bool-cases (a == 1)) [
    | inl f ↦
        subst (λ b. FitsAll (slot_of (hex b) ∷ slots) (replaced draws k (hex b ∷ ss)))
          (sym (==→eq a 1 f)) (fits_next (fits_any _ (plain_digit (draws k) l).1) (rest (suc k)))
    | inr f ↦ elim (Bool-cases (a == 8)) [
      | inl g ↦
          subst (λ b. FitsAll (slot_of (hex b) ∷ slots) (replaced draws k (hex b ∷ ss)))
            (sym (==→eq a 8 g))
            (fits_next (fits_variant _ (variant_digit (draws k) l).0 (variant_digit (draws k) l).1)
              (rest (suc k)))
      | inr g ↦ rw (e, f, g) (fits_next (fits_exactly (hex a)) (rest k))
    ]
  ]
]

replaced-FitsAll :
    (draws : ℕ → ℕ) (ss : List Symbol) (k : ℕ)
    → ((j : ℕ) → draws j < 16)
    → FitsAll (map slot_of ss) (replaced draws k ss)
unfolding replaced
replaced-FitsAll draws [] k l = fits_end
replaced-FitsAll draws (hyphen ∷ ss) k l =
    fits_next (fits_exactly hyphen) (replaced-FitsAll draws ss k l)
replaced-FitsAll draws (hex a ∷ ss) k l =
    first_slot a k draws ss (map slot_of ss) (l k) λ j. replaced-FitsAll draws ss j l

-- Whatever is drawn, an id has the form of a version 4 UUID: five groups of 8, 4, 4, 4 and 12
-- hexadecimal digits with hyphens between them, the version 4 first in the third group, and a digit
-- from 8 to 11 first in the fourth.
pub generate_id-FitsAll :
    (draws : ℕ → ℕ) → ((k : ℕ) → draws k < 16) → FitsAll uuid_v4 (generate_id draws)
unfolding generate_id
generate_id-FitsAll draws l = replaced-FitsAll draws template 0 l
