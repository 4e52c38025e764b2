-- ===== src/Generate/Lookup.antt =====
-- What the source file of the build script (ums-generated/build/generate_interfaces.ts) finds by a
-- name, after a declaration is added or an interface is extended.
use lp_clients.Base.{
  ◌≡◌, refl, true, false, Option, none, some, List, [], ◌∷◌, ◌++◌, String, str_eq, eq_iff, arith,
  Option-cases, inl, inr, is_some,
}
use lp_clients.Generate.Structures.{
  Declaration, import_declaration, type_alias, enum_declaration, interface_declaration,
  const_statement, function_declaration, Interface, extend_first, find_interface, has_type_alias,
  find_enum,
}

-- An interface of the name is there.
abbrev pub Declared : List Declaration → String → Type 0
Declared ds name = is_some (find_interface name ds) ≡ true

abbrev pub or_else {ℓ} : {A : Type ℓ} → Option A → Option A → Option A
or_else none o = o
or_else (some a) o = some a

abbrev pub with_parent : String → Option Interface → Option Interface
with_parent parent none = none
with_parent parent (some i) = some (record i { extends = i.extends ++ parent ∷ [] })

pub find_interface-append :
    (n : String) (ds es : List Declaration)
    → find_interface n (ds ++ es) ≡ or_else (find_interface n ds) (find_interface n es)
unfolding find_interface
find_interface-append n [] es = refl
find_interface-append n (interface_declaration i ∷ ds) es =
    ground (arith, find_interface-append n ds es)
find_interface-append n (import_declaration _ _ ∷ ds) es = find_interface-append n ds es
find_interface-append n (type_alias _ _ _ ∷ ds) es = find_interface-append n ds es
find_interface-append n (enum_declaration _ _ ∷ ds) es = find_interface-append n ds es
find_interface-append n (const_statement _ ∷ ds) es = find_interface-append n ds es
find_interface-append n (function_declaration _ ∷ ds) es = find_interface-append n ds es

pub find_enum-append :
    (n : String) (ds es : List Declaration)
    → find_enum n (ds ++ es) ≡ or_else (find_enum n ds) (find_enum n es)
unfolding find_enum
find_enum-append n [] es = refl
find_enum-append n (enum_declaration m _ ∷ ds) es = ground (arith, find_enum-append n ds es)
find_enum-append n (import_declaration _ _ ∷ ds) es = find_enum-append n ds es
find_enum-append n (type_alias _ _ _ ∷ ds) es = find_enum-append n ds es
find_enum-append n (interface_declaration _ ∷ ds) es = find_enum-append n ds es
find_enum-append n (const_statement _ ∷ ds) es = find_enum-append n ds es
find_enum-append n (function_declaration _ ∷ ds) es = find_enum-append n ds es

pub has_type_alias-append :
    (n : String) (ds es : List Declaration)
    → has_type_alias n es ≡ true
    → has_type_alias n (ds ++ es) ≡ true
unfolding has_type_alias
has_type_alias-append n [] es h = h
has_type_alias-append n (type_alias _ _ _ ∷ ds) es h =
    ground (arith, has_type_alias-append n ds es h)
has_type_alias-append n (import_declaration _ _ ∷ ds) es h = has_type_alias-append n ds es h
has_type_alias-append n (enum_declaration _ _ ∷ ds) es h = has_type_alias-append n ds es h
has_type_alias-append n (interface_declaration _ ∷ ds) es h = has_type_alias-append n ds es h
has_type_alias-append n (const_statement _ ∷ ds) es h = has_type_alias-append n ds es h
has_type_alias-append n (function_declaration _ ∷ ds) es h = has_type_alias-append n ds es h

pub find_enum-extend_first :
    (n name parent : String) (ds : List Declaration)
    → find_enum n (extend_first name parent ds) ≡ find_enum n ds
unfolding find_enum extend_first
find_enum-extend_first n name parent [] = refl
find_enum-extend_first n name parent (interface_declaration i ∷ ds) =
    ground (arith, find_enum-extend_first n name parent ds)
find_enum-extend_first n name parent (enum_declaration _ _ ∷ ds) =
    ground (arith, find_enum-extend_first n name parent ds)
find_enum-extend_first n name parent (import_declaration _ _ ∷ ds) =
    find_enum-extend_first n name parent ds
find_enum-extend_first n name parent (type_alias _ _ _ ∷ ds) =
    find_enum-extend_first n name parent ds
find_enum-extend_first n name parent (const_statement _ ∷ ds) =
    find_enum-extend_first n name parent ds
find_enum-extend_first n name parent (function_declaration _ ∷ ds) =
    find_enum-extend_first n name parent ds

-- The interface that is extended has its new parent.
pub find_interface-extend_first :
    (n parent : String) (ds : List Declaration)
    → find_interface n (extend_first n parent ds) ≡ with_parent parent (find_interface n ds)
unfolding find_interface extend_first
find_interface-extend_first n parent [] = refl
find_interface-extend_first n parent (interface_declaration i ∷ ds) =
    ground (arith, find_interface-extend_first n parent ds)
find_interface-extend_first n parent (import_declaration _ _ ∷ ds) =
    find_interface-extend_first n parent ds
find_interface-extend_first n parent (type_alias _ _ _ ∷ ds) =
    find_interface-extend_first n parent ds
find_interface-extend_first n parent (enum_declaration _ _ ∷ ds) =
    find_interface-extend_first n parent ds
find_interface-extend_first n parent (const_statement _ ∷ ds) =
    find_interface-extend_first n parent ds
find_interface-extend_first n parent (function_declaration _ ∷ ds) =
    find_interface-extend_first n parent ds

-- Every other interface is as it was.
pub find_interface-extend_first-other :
    (n name parent : String) (ds : List Declaration)
    → str_eq name n ≡ false
    → find_interface n (extend_first name parent ds) ≡ find_interface n ds
unfolding find_interface extend_first
find_interface-extend_first-other n name parent [] h = refl
find_interface-extend_first-other n name parent (interface_declaration i ∷ ds) h = ground (
  arith,
  find_interface-extend_first-other n name parent ds h,
  eq_iff i.name name,
  eq_iff i.name n,
  eq_iff name n,
)
find_interface-extend_first-other n name parent (import_declaration _ _ ∷ ds) h =
    find_interface-extend_first-other n name parent ds h
find_interface-extend_first-other n name parent (type_alias _ _ _ ∷ ds) h =
    find_interface-extend_first-other n name parent ds h
find_interface-extend_first-other n name parent (enum_declaration _ _ ∷ ds) h =
    find_interface-extend_first-other n name parent ds h
find_interface-extend_first-other n name parent (const_statement _ ∷ ds) h =
    find_interface-extend_first-other n name parent ds h
find_interface-extend_first-other n name parent (function_declaration _ ∷ ds) h =
    find_interface-extend_first-other n name parent ds h

pub Declared-append :
    (n : String) (ds es : List Declaration) → Declared es n → Declared (ds ++ es) n
Declared-append n ds es h = rw (find_interface-append n ds es) (either (find_interface n ds))
  where
    either : (o : Option Interface) → is_some (or_else o (find_interface n es)) ≡ true
    either none = h
    either (some i) = refl

pub Declared-found :
    (ds : List Declaration) (n : String)
    → Declared ds n
    → (i : Interface) × (find_interface n ds ≡ some i)
Declared-found ds n h = elim (Option-cases (find_interface n ds)) [
  | inl e ↦ absurd (ground (arith, e))
  | inr found ↦ found
]
