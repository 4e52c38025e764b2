-- ===== src/Platform/Interfaces.antt =====
-- Interfaces of TypeScript. A type is known by its parts, and `fits` tells whether a JSON value has
-- it. Index signatures `[k: string]: any` are left out: they allow any further property, as does
-- `fits` where there is none.
pub mod Closed
pub mod Fitting
use lp_clients.Base.{
  ℕ, zero, suc, Bool, true, false, ◌&&◌, ◌||◌, Option, none, some, List, [], ◌∷◌, map, String,
  str_eq, if◌then◌else◌,
}
use lp_clients.Platform.Values.{
  Value, undefined, null, bool, num, str, arr, obj, Items, nil, cons, Fields, end, field, get,
}

mutual
  -- A number literal is known by its text, as numbers are.
  pub data TsType : Type 0 where
    any_type string_type number_type boolean_type : TsType
    literal number_literal reference : String → TsType
    array_of : TsType → TsType
    one_of : Alternatives → TsType
    object : Members → TsType
    -- `{ [key: string]: type }`
    dictionary : TsType → TsType

  pub data Alternatives : Type 0 where
    no_alternative : Alternatives
    alternative : TsType → Alternatives → Alternatives

  -- A property by its name, and whether it is optional.
  pub data Members : Type 0 where
    no_member : Members
    member : String → Bool → TsType → Members → Members

-- `A | B`
abbrev pub union : List TsType → TsType
union ts = one_of (alternatives ts)
  where
    alternatives : List TsType → Alternatives
    alternatives [] = no_alternative
    alternatives (t ∷ ts) = alternative t (alternatives ts)

-- `"a" | "b"`
abbrev pub literals : List String → TsType
literals ss = union (map literal ss)

-- `name: type` and `name?: type`
abbrev pub must : String → TsType → String × Bool × TsType
must name type = (name, false, type)

abbrev pub may : String → TsType → String × Bool × TsType
may name type = (name, true, type)

abbrev pub members : List (String × Bool × TsType) → Members
members [] = no_member
members ((name, is_optional, type) ∷ ms) = member name is_optional type (members ms)

abbrev pub object_type : List (String × Bool × TsType) → TsType
object_type ms = object (members ms)

-- An interface: its name, those that it extends, and its own properties.
pub record TypeDeclaration : Type 0 where
  pub name : String
  pub extends : List String
  pub properties : Members

abbrev pub interface : String → List String → List (String × Bool × TsType) → TypeDeclaration
interface name extends ms = record { name = name; extends = extends; properties = members ms }

abbrev pub is_text : Value → Bool
is_text (str s) = true
is_text v = false

abbrev is_number : Value → Bool
is_number (num t) = true
is_number v = false

abbrev is_bool : Value → Bool
is_bool (bool b) = true
is_bool v = false

abbrev pub is_undefined : Value → Bool
is_undefined undefined = true
is_undefined v = false

abbrev pub is_literal : String → Value → Bool
is_literal s (str t) = str_eq s t
is_literal s v = false

abbrev is_number_literal : String → Value → Bool
is_number_literal s (num t) = str_eq s t
is_number_literal s v = false

unfoldable pub all_items : (Value → Bool) → Items → Bool
all_items test nil = true
all_items test (cons v vs) = test v && all_items test vs

unfoldable pub all_fields : (Value → Bool) → Fields → Bool
all_fields test end = true
all_fields test (field k v fs) = test v && all_fields test fs

abbrev pub items_fit : (Value → Bool) → Value → Bool
items_fit test (arr vs) = all_items test vs
items_fit test v = false

abbrev pub fields_fit : (Fields → Bool) → Value → Bool
fields_fit test (obj fs) = test fs
fields_fit test v = false

-- Whether a value has a type, where `named` tells it for the interfaces.
unfoldable mutual
  pub fits : (String → Value → Bool) → TsType → Value → Bool
  fits named any_type v = true
  fits named string_type v = is_text v
  fits named number_type v = is_number v
  fits named boolean_type v = is_bool v
  fits named (literal s) v = is_literal s v
  fits named (number_literal s) v = is_number_literal s v
  fits named (reference name) v = named name v
  fits named (array_of t) v = items_fit (fits named t) v
  fits named (one_of ts) v = fits_one named ts v
  fits named (object ms) v = fields_fit (fits_members named ms) v
  fits named (dictionary t) v = fields_fit (all_fields (fits named t)) v

  pub fits_one : (String → Value → Bool) → Alternatives → Value → Bool
  fits_one named no_alternative v = false
  fits_one named (alternative t ts) v = fits named t v || fits_one named ts v

  pub fits_members : (String → Value → Bool) → Members → Fields → Bool
  fits_members named no_member fs = true
  fits_members named (member name is_optional t ms) fs =
      (is_optional && is_undefined (get name fs) || fits named t (get name fs))
      && fits_members named ms fs

unfoldable pub fits_all : (String → Value → Bool) → List String → Value → Bool
fits_all named [] v = true
fits_all named (name ∷ names) v = named name v && fits_all named names v

-- An interface has the properties of those that it extends.
unfoldable pub fits_declaration : (String → Value → Bool) → Option TypeDeclaration → Value → Bool
unfolding fits fits_members fits_all
fits_declaration named none v = false
fits_declaration named (some d) v =
    fits_all named d.extends v && fields_fit (fits_members named d.properties) v

unfoldable pub find_declaration : String → List TypeDeclaration → Option TypeDeclaration
find_declaration name [] = none
find_declaration name (d ∷ ds) = if str_eq d.name name then some d else find_declaration name ds

-- Whether a value has the interface of a name, where interfaces refer to each other at most so many
-- times.
unfoldable pub fits_within : List TypeDeclaration → ℕ → String → Value → Bool
unfolding fits_declaration find_declaration
fits_within ds zero name v = false
fits_within ds (suc n) name v = fits_declaration (fits_within ds n) (find_declaration name ds) v
