-- ===== src/Platform/Values/Objects.antt =====
-- How `set` and `Object.assign` act on the properties of an object.
use lp_clients.Base.{
  ◌≡◌, refl, Bool-cases, inl, inr, str_eq-false, true, false, String, str_eq, eq_iff, if◌then◌else◌,
  arith,
}
use lp_clients.Platform.Values.{Value, undefined, Fields, end, field, get, has, set, assign}

pub get-set :
    (k j : String) (v : Value) (fs : Fields)
    → get j (set k v fs) ≡ (if str_eq k j then v else get j fs)
unfolding get set
get-set k j v end = refl
get-set k j v (field i w fs) = ground (arith, eq_iff k j, eq_iff i k, eq_iff i j, get-set k j v fs)

pub has-set :
    (k j : String) (v : Value) (fs : Fields)
    → has j (set k v fs) ≡ (if str_eq k j then true else has j fs)
unfolding has set
has-set k j v end = refl
has-set k j v (field i w fs) = ground (arith, eq_iff k j, eq_iff i k, eq_iff i j, has-set k j v fs)

-- The properties of an object have distinct names.
abbrev pub Distinct : Fields → Type 0
Distinct end = Unit
Distinct (field k v fs) = (has k fs ≡ false) × Distinct fs

pub get_absent : (k : String) (fs : Fields) → has k fs ≡ false → get k fs ≡ undefined
unfolding get has
get_absent k end h = refl
get_absent k (field j v fs) h = ground (arith, get_absent k fs)

pub get-assign :
    (j : String) (target source : Fields)
    → Distinct source
    → get j (assign target source) ≡ (if has j source then get j source else get j target)
unfolding get has assign
get-assign j target end d = refl
get-assign j target (field k v fs) d =
    ground (arith, get-assign j (set k v target) fs d.1, get-set k j v target, eq_iff k j)

pub has-assign :
    (j : String) (target source : Fields)
    → has j (assign target source) ≡ (if has j source then true else has j target)
unfolding has assign
has-assign j target end = refl
has-assign j target (field k v fs) =
    ground (arith, has-assign j (set k v target) fs, has-set k j v target, eq_iff k j)

pub set-Distinct : (k : String) (v : Value) (fs : Fields) → Distinct fs → Distinct (set k v fs)
unfolding set has
set-Distinct k v end d = (refl, tt)
set-Distinct k v (field j w fs) d = elim (Bool-cases (str_eq j k)) [
  | inl e ↦ rw e d
  | inr e ↦ rw e (
    ground (arith, has-set k j v fs, d.0, str_eq-false j k, eq_iff j k, eq_iff k j),
    set-Distinct k v fs d.1,
  )
]

pub assign-Distinct : (target source : Fields) → Distinct target → Distinct (assign target source)
unfolding assign
assign-Distinct target end d = d
assign-Distinct target (field k v fs) d =
    assign-Distinct (set k v target) fs (set-Distinct k v target d)
