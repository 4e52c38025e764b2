-- ===== src/Platform/Interfaces/Fitting.antt =====
-- What a value carries that has an interface.
use lp_clients.Base.{
  ℕ, suc, ◌≡◌, refl, sym, ap, subst, Bool, true, false, ◌&&◌, ◌||◌, Option, none, some, List, [],
  ◌∷◌, String, str_eq, eq_iff, if◌then◌else◌, and_both, arith, Bool-cases, inl, inr,
}
use lp_clients.Platform.Values.{
  property, Value, undefined, null, bool, num, str, arr, obj, Fields, get,
}
use lp_clients.Platform.Interfaces.{
  TsType, any_type, Members, no_member, member, TypeDeclaration, fits, fits_members, fits_all,
  fits_declaration, find_declaration, fits_within, fields_fit, is_literal, is_text, is_undefined,
}

-- The first property of a name, and whether it is optional.
unfoldable pub find_member : String → Members → Option (Bool × TsType)
find_member name no_member = none
find_member name (member n is_optional t ms) =
    if str_eq n name then some (is_optional, t) else find_member name ms

abbrev pub found : Bool → TsType → Option (Bool × TsType)
found is_optional t = some (is_optional, t)

-- A property that must be there.
abbrev pub required : TsType → Option (Bool × TsType)
required t = found false t

abbrev type_found : Option (Bool × TsType) → TsType
type_found none = any_type
type_found (some (is_optional, t)) = t

same_member :
    (named : String → Value → Bool) (is_optional missing : Bool) (u t : TsType) (v : Value)
    → found is_optional u ≡ required t
    → (is_optional && missing || fits named u v) ≡ true
    → fits named t v ≡ true
same_member named true missing u t v f h = absurd (ground (arith, f))
same_member named false missing u t v f h = subst (λ x. fits named x v ≡ true) (ap type_found f) h

fits_members-fits :
    (named : String → Value → Bool) (name : String) (t : TsType) (ms : Members) (fs : Fields)
    → find_member name ms ≡ required t
    → fits_members named ms fs ≡ true
    → fits named t (get name fs) ≡ true
unfolding find_member fits_members
fits_members-fits named name t no_member fs f h = absurd (ground (arith, f))
fits_members-fits named name t (member n is_optional u ms) fs f h =
    let (here, there) = and_both _ (fits_members named ms fs) h in
    elim (Bool-cases (str_eq n name)) [
      | inl e ↦ same_member named is_optional _ u t (get name fs) (rw e at f) (
          subst (λ k. (is_optional && is_undefined (get k fs) || fits named u (get k fs)) ≡ true)
            ((eq_iff n name).0 e) here)
      | inr e ↦ fits_members-fits named name t ms fs (rw e at f) there
    ]

is_object :
    (test : Fields → Bool) (v : Value)
    → fields_fit test v ≡ true
    → (fs : Fields) × (v ≡ obj fs) × (test fs ≡ true)
is_object test (obj fs) h = (fs, refl, h)
is_object test undefined h = absurd (ground (arith, h))
is_object test null h = absurd (ground (arith, h))
is_object test (bool b) h = absurd (ground (arith, h))
is_object test (num s) h = absurd (ground (arith, h))
is_object test (str s) h = absurd (ground (arith, h))
is_object test (arr xs) h = absurd (ground (arith, h))

pub is_text-text : (v : Value) → is_text v ≡ true → (s : String) × (v ≡ str s)
is_text-text (str s) h = (s, refl)
is_text-text (obj fs) h = absurd (ground (arith, h))
is_text-text undefined h = absurd (ground (arith, h))
is_text-text null h = absurd (ground (arith, h))
is_text-text (bool b) h = absurd (ground (arith, h))
is_text-text (num s) h = absurd (ground (arith, h))
is_text-text (arr xs) h = absurd (ground (arith, h))

pub is_literal-text : (s : String) (v : Value) → is_literal s v ≡ true → v ≡ str s
is_literal-text s (str t) h = ap str (sym ((eq_iff s t).0 h))
is_literal-text s (obj fs) h = absurd (ground (arith, h))
is_literal-text s undefined h = absurd (ground (arith, h))
is_literal-text s null h = absurd (ground (arith, h))
is_literal-text s (bool b) h = absurd (ground (arith, h))
is_literal-text s (num t) h = absurd (ground (arith, h))
is_literal-text s (arr xs) h = absurd (ground (arith, h))

-- A value of an interface has its properties, and the interfaces that it extends.
pub fits_within-parts :
    (ds : List TypeDeclaration) (n : ℕ) (name : String) (d : TypeDeclaration) (v : Value)
    → find_declaration name ds ≡ some d
    → fits_within ds (suc n) name v ≡ true
    → (fits_all (fits_within ds n) d.extends v ≡ true)
      × ((fs : Fields) × (v ≡ obj fs) × (fits_members (fits_within ds n) d.properties fs ≡ true))
unfolding fits_within fits_declaration
fits_within-parts ds n name d v f h =
    let (parents, own) = and_both _ _ (rw f at h) in
    (parents, is_object (fits_members (fits_within ds n) d.properties) v own)

-- A value of an interface that extends another one has it.
pub fits_within-extends :
    (ds : List TypeDeclaration) (n : ℕ) (name parent : String) (d : TypeDeclaration) (v : Value)
    → find_declaration name ds ≡ some d
    → d.extends ≡ parent ∷ []
    → fits_within ds (suc n) name v ≡ true
    → fits_within ds n parent v ≡ true
unfolding fits_all
fits_within-extends ds n name parent d v f e h =
    (and_both _ _ (rw e at (fits_within-parts ds n name d v f h).0)).0

-- A value of an interface has each property that must be there.
pub fits_within-member :
    (ds : List TypeDeclaration) (n : ℕ) (name k : String) (t : TsType) (d : TypeDeclaration)
    (v : Value)
    → find_declaration name ds ≡ some d
    → find_member k d.properties ≡ required t
    → fits_within ds (suc n) name v ≡ true
    → fits (fits_within ds n) t (property k v) ≡ true
fits_within-member ds n name k t d v f m h =
    let (parents, (fs, e, own)) = fits_within-parts ds n name d v f h in
    rw e (fits_members-fits (fits_within ds n) k t d.properties fs m own)
