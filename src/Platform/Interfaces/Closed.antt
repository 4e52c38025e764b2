-- ===== src/Platform/Interfaces/Closed.antt =====
-- Interfaces whose references end: how often they are followed then does not matter.
use lp_clients.Base.{
  ℕ, zero, suc, ◌≤◌, ◌≡◌, refl, ap, Bool, true, false, ◌&&◌, ◌||◌, Option, none, some, List, [],
  ◌∷◌, String, and_both, arith,
}
use mathlib.Core.Path.{fun_ext, ap₂}
use lp_clients.Platform.Values.{Value, Fields, get}
use lp_clients.Platform.Interfaces.{
  TsType, any_type, string_type, number_type, boolean_type, literal, number_literal, reference,
  array_of, one_of, object, dictionary, all_fields, Alternatives, no_alternative, alternative,
  Members, no_member, member, TypeDeclaration, items_fit, fields_fit, is_undefined, fits, fits_one,
  fits_members, fits_all, fits_declaration, find_declaration, fits_within,
}

-- Whether all interfaces that a type refers to are of a kind.
unfoldable mutual
  pub refers : (String → Bool) → TsType → Bool
  refers ends (reference name) = ends name
  refers ends (array_of t) = refers ends t
  refers ends (one_of ts) = refers_each ends ts
  refers ends (object ms) = refers_members ends ms
  refers ends (dictionary t) = refers ends t
  refers ends _ = true

  pub refers_each : (String → Bool) → Alternatives → Bool
  refers_each ends no_alternative = true
  refers_each ends (alternative t ts) = refers ends t && refers_each ends ts

  pub refers_members : (String → Bool) → Members → Bool
  refers_members ends no_member = true
  refers_members ends (member name is_optional t ms) = refers ends t && refers_members ends ms

unfoldable pub all_named : (String → Bool) → List String → Bool
all_named ends [] = true
all_named ends (name ∷ names) = ends name && all_named ends names

unfoldable pub refers_declaration : (String → Bool) → Option TypeDeclaration → Bool
unfolding refers_members all_named
refers_declaration ends none = false
refers_declaration ends (some d) = all_named ends d.extends && refers_members ends d.properties

-- Whether the references of an interface end, at declared interfaces, within so many steps.
unfoldable pub ends_within : List TypeDeclaration → ℕ → String → Bool
unfolding refers_declaration find_declaration
ends_within ds zero name = false
ends_within ds (suc n) name = refers_declaration (ends_within ds n) (find_declaration name ds)

module _ (ends : String → Bool) (named other : String → Value → Bool)
    (same : (name : String) (v : Value) → ends name ≡ true → named name v ≡ other name v) where
  mutual
    unfolding refers refers_each refers_members fits fits_one fits_members

    fits_same : (t : TsType) (v : Value) → refers ends t ≡ true → fits named t v ≡ fits other t v
    fits_same any_type v r = refl
    fits_same string_type v r = refl
    fits_same number_type v r = refl
    fits_same boolean_type v r = refl
    fits_same (literal s) v r = refl
    fits_same (number_literal s) v r = refl
    fits_same (reference name) v r = same name v r
    fits_same (array_of t) v r = ap (λ test. items_fit test v) (fun_ext (λ w. fits_same t w r))
    fits_same (one_of ts) v r = fits_one_same ts v r
    fits_same (dictionary t) v r =
        ap (λ test. fields_fit (all_fields test) v) (fun_ext (λ w. fits_same t w r))
    fits_same (object ms) v r =
        ap (λ test. fields_fit test v) (fun_ext (λ fs. fits_members_same ms fs r))

    fits_one_same :
        (ts : Alternatives) (v : Value)
        → refers_each ends ts ≡ true
        → fits_one named ts v ≡ fits_one other ts v
    fits_one_same no_alternative v r = refl
    fits_one_same (alternative t ts) v r =
        let (here, there) = and_both (refers ends t) (refers_each ends ts) r in
        ap₂ (λ a b. a || b) (fits_same t v here) (fits_one_same ts v there)

    fits_members_same :
        (ms : Members) (fs : Fields)
        → refers_members ends ms ≡ true
        → fits_members named ms fs ≡ fits_members other ms fs
    fits_members_same no_member fs r = refl
    fits_members_same (member name is_optional t ms) fs r =
        let (here, there) = and_both (refers ends t) (refers_members ends ms) r in
        ap₂ (λ a b. (is_optional && is_undefined (get name fs) || a) && b)
          (fits_same t (get name fs) here) (fits_members_same ms fs there)

  fits_all_same :
      (names : List String) (v : Value)
      → all_named ends names ≡ true
      → fits_all named names v ≡ fits_all other names v
  unfolding all_named fits_all
  fits_all_same [] v r = refl
  fits_all_same (name ∷ names) v r =
      let (here, there) = and_both (ends name) (all_named ends names) r in
      ap₂ (λ a b. a && b) (same name v here) (fits_all_same names v there)

  fits_declaration_same :
      (o : Option TypeDeclaration) (v : Value)
      → refers_declaration ends o ≡ true
      → fits_declaration named o v ≡ fits_declaration other o v
  unfolding refers_declaration fits_declaration
  fits_declaration_same none v r = refl
  fits_declaration_same (some d) v r =
      let (here, there) =
        and_both (all_named ends d.extends) (refers_members ends d.properties) r in
      ap₂ (λ a b. a && b) (fits_all_same d.extends v here)
        (ap (λ test. fields_fit test v) (fun_ext (λ fs. fits_members_same d.properties fs there)))

-- If the references of an interface end within n steps, following more of them changes nothing.
pub fits_within-enough :
    (ds : List TypeDeclaration) (n m : ℕ) (name : String) (v : Value)
    → ends_within ds n name ≡ true
    → n ≤ m
    → fits_within ds m name v ≡ fits_within ds n name v
unfolding ends_within fits_within
fits_within-enough ds zero m name v r h = absurd (ground (arith, r))
fits_within-enough ds (suc n) zero name v r h = absurd (omega (arith, h))
fits_within-enough ds (suc n) (suc m) name v r h =
    fits_declaration_same (ends_within ds n) (fits_within ds m) (fits_within ds n)
      (λ other w e. fits_within-enough ds n m other w e (omega (arith, h)))
      (find_declaration name ds) v r
