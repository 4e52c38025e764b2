-- ===== src/Generate/Structures.antt =====
-- What the build script takes from the library `ts-simple-ast`: the structures of declarations, and
-- the source file that they are added to.
use Prim.Native.String.{◌++◌ as ◌+++◌}
use lp_clients.Base.{
  ◌≡◌, Bool, true, false, Option, none, some, List, [], ◌∷◌, ◌++◌, String, str_eq, if◌then◌else◌,
  Task, ok, err, error,
}

pub record Parameter : Type 0 where
  pub name : String
  pub type_text : Option String
  pub is_rest_parameter : Bool

pub record TypeParameter : Type 0 where
  pub name : String
  pub constraint : String

pub record Method : Type 0 where
  pub name : String
  pub is_public : Bool
  pub type_parameters : List TypeParameter
  pub parameters : List Parameter
  pub body_text : Option String
  pub return_type : String

pub record Interface : Type 0 where
  pub name : String
  pub type_parameters : List TypeParameter
  pub extends : List String
  pub properties : List (String × String)
  pub methods : List Method

pub record Class : Type 0 where
  pub name : String
  pub extends : String
  pub implements : List String
  pub ctor_parameters : List Parameter
  pub ctor_body_text : String
  pub methods : List Method

-- A function whose body is a class and a statement behind it.
pub record Function : Type 0 where
  pub name : String
  pub type_parameters : List TypeParameter
  pub parameters : List Parameter
  pub return_type : String
  pub body_class : Class
  pub body_text : String

-- All but imports are exported; an enumeration is constant, and a member may lack its value.
pub data Declaration : Type 0 where
  import_declaration : String → List String → Declaration
  type_alias : String → List TypeParameter → String → Declaration
  enum_declaration : String → List (String × Option String) → Declaration
  interface_declaration : Interface → Declaration
  const_statement : List (String × String) → Declaration
  function_declaration : Function → Declaration

-- `addExtends` at the first interface of a name.
unfoldable pub extend_first : String → String → List Declaration → List Declaration
extend_first name parent [] = []
extend_first name parent (interface_declaration i ∷ ds) =
    if str_eq i.name name
    then interface_declaration (record i { extends = i.extends ++ parent ∷ [] }) ∷ ds
    else interface_declaration i ∷ extend_first name parent ds
extend_first name parent (d ∷ ds) = d ∷ extend_first name parent ds

-- A source file is known by its declarations. What is added stands last.
pub record SourceFiles : Type 1 where
  pub File : Type 0
  pub declarations : File → List Declaration
  pub add : Declaration → File → File
  pub add_extends : String → String → File → File
  pub declarations-add :
      (d : Declaration) (f : File) → declarations (add d f) ≡ declarations f ++ d ∷ []
  pub declarations-add_extends :
      (name parent : String) (f : File)
      → declarations (add_extends name parent f) ≡ extend_first name parent (declarations f)

unfoldable pub find_interface : String → List Declaration → Option Interface
find_interface name [] = none
find_interface name (interface_declaration i ∷ ds) =
    if str_eq i.name name then some i else find_interface name ds
find_interface name (d ∷ ds) = find_interface name ds

unfoldable pub has_type_alias : String → List Declaration → Bool
has_type_alias name [] = false
has_type_alias name (type_alias n ps t ∷ ds) =
    if str_eq n name then true else has_type_alias name ds
has_type_alias name (d ∷ ds) = has_type_alias name ds

unfoldable pub find_enum : String → List Declaration → Option (List (String × Option String))
find_enum name [] = none
find_enum name (enum_declaration n ms ∷ ds) = if str_eq n name then some ms else find_enum name ds
find_enum name (d ∷ ds) = find_enum name ds

unfoldable pub has_member : String → List (String × Option String) → Bool
has_member name [] = false
has_member name (m ∷ ms) = if str_eq m.0 name then true else has_member name ms

abbrev pub or_throw : {S A : Type 0} → String → Option A → Task S A
or_throw what none s = (err (error (what +++ " not found")), s)
or_throw what (some a) s = (ok a, s)

abbrev pub check : {S : Type 0} → String → Bool → Task S (Unit {0})
check what true s = (ok tt, s)
check what false s = (err (error (what +++ " not found")), s)

module _ (lib : SourceFiles) where
  open lib use {File, declarations}

  -- `getInterfaceOrThrow`, `getTypeAliasOrThrow`, `getEnumOrThrow` and `getMemberOrThrow`. The text of
  -- the error is the library's own.
  unfoldable pub get_interface : String → Task File Interface
  get_interface name f = or_throw name (find_interface name (declarations f)) f

  unfoldable pub get_type_alias : String → Task File (Unit {0})
  get_type_alias name f = check name (has_type_alias name (declarations f)) f

  unfoldable pub get_enum : String → Task File (List (String × Option String))
  get_enum name f = or_throw name (find_enum name (declarations f)) f

unfoldable pub get_member :
    {S : Type 0} → String → List (String × Option String) → Task S (Unit {0})
get_member name members = check name (has_member name members)

-- `texts.join(separator)`
unfoldable pub join_texts : String → List String → String
join_texts separator [] = ""
join_texts separator (s ∷ []) = s
join_texts separator (s ∷ t ∷ ts) = s +++ (separator +++ join_texts separator (t ∷ ts))
