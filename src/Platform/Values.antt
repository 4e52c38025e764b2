-- ===== src/Platform/Values.antt =====
-- JavaScript values as JSON carries them (util-types/src/json.ts), with `undefined` for a property
-- that is not there. A number is known by the text that `String()` gives for it, which tells any
-- two numbers apart that the program tells apart; 0 and NaN are the falsy ones.
pub mod Objects
use lp_clients.Base.{
  ◌≡◌, refl, Bool, true, false, ◌&&◌, ◌||◌, not, List, [], ◌∷◌, String, str_eq, if◌then◌else◌,
  Result, ok, err, type_error,
}
use Prim.Native.String.{◌++◌}

mutual
  -- The own properties of an object, in the order of their insertion.
  pub data Fields : Type 0 where
    end : Fields
    field : String → Value → Fields → Fields

  pub data Value : Type 0 where
    undefined null : Value
    bool : Bool → Value
    num : String → Value
    str : String → Value
    arr : Items → Value
    obj : Fields → Value

  pub data Items : Type 0 where
    nil : Items
    cons : Value → Items → Items

unfoldable pub truthy : Value → Bool
truthy undefined = false
truthy null = false
truthy (bool b) = b
truthy (num t) = not (str_eq t "0" || str_eq t "NaN")
truthy (str s) = not (str_eq s "")
truthy (arr xs) = true
truthy (obj fs) = true

unfoldable pub is_json_array : Value → Bool
is_json_array (arr xs) = true
is_json_array _ = false

-- The `typeof` operator at the values of JSON.
unfoldable pub type_of : Value → String
type_of undefined = "undefined"
type_of null = "object"
type_of (bool b) = "boolean"
type_of (num t) = "number"
type_of (str s) = "string"
type_of (arr xs) = "object"
type_of (obj fs) = "object"

abbrev is_null : Value → Bool
is_null null = true
is_null _ = false

unfoldable pub is_json_object : Value → Bool
unfolding type_of is_json_array
is_json_object v = not (is_null v) && str_eq (type_of v) "object" && not (is_json_array v)

unfoldable pub get : String → Fields → Value
get k end = undefined
get k (field j v fs) = if str_eq j k then v else get k fs

-- A property of a value: of an object its own, of any other value none that the code asks for.
abbrev pub property : String → Value → Value
property k (obj fs) = get k fs
property k _ = undefined

unfoldable pub has : String → Fields → Bool
has k end = false
has k (field j v fs) = if str_eq j k then true else has k fs

-- Assignment to a property: in place if it is there, else behind the others.
unfoldable pub set : String → Value → Fields → Fields
set k v end = field k v end
set k v (field j w fs) = if str_eq j k then field j v fs else field j w (set k v fs)

-- `Object.assign(target, source)`.
unfoldable pub assign : Fields → Fields → Fields
unfolding set
assign target end = target
assign target (field k v fs) = assign (set k v target) fs

abbrev bool_text : Bool → String
bool_text true = "true"
bool_text false = "false"

infixl 5 ◌>>=◌
abbrev ◌>>=◌ : {A B : Type 0} → Result A → (A → Result B) → Result B
ok a >>= f = f a
err e >>= f = err e

-- An element of an array in its text: `undefined` and `null` count as empty.
abbrev element : Value → Result String → Result String
element undefined t = ok ""
element null t = ok ""
element _ t = t

-- `String(value)`. An own property `toString` of parsed JSON is no function, so the conversion of
-- the object that has it throws. `join` is `Array.prototype.join` with a comma.
unfoldable mutual
  unfolding has

  pub to_text : Value → Result String
  to_text undefined = ok "undefined"
  to_text null = ok "null"
  to_text (bool b) = ok (bool_text b)
  to_text (num t) = ok t
  to_text (str s) = ok s
  to_text (arr xs) = join xs
  to_text (obj fs) =
      if has "toString" fs
      then err (type_error "Cannot convert object to primitive value")
      else ok "[object Object]"

  pub join : Items → Result String
  join nil = ok ""
  join (cons x nil) = element x (to_text x)
  join (cons x (cons y xs)) =
      element x (to_text x) >>= λ s. join (cons y xs) >>= λ t. ok (s ++ ("," ++ t))
