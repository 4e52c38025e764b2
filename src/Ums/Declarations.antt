-- ===== src/Ums/Declarations.antt =====
-- ums-generated/generated/index.ts: the declarations behind the messages' interfaces, in the order of
-- the file and in the structures that the build script adds. Spaces are those of the script, which
-- are the file's but for the space that the formatting puts behind `new`.
pub mod Typings
pub mod Requests
pub mod Notifications
use lp_clients.Base.{Bool, true, false, Option, none, some, List, [], ◌∷◌, map, String}
use lp_clients.Generate.Structures.{
  Declaration, import_declaration, type_alias, enum_declaration, interface_declaration,
  const_statement, function_declaration, Interface, Method, Parameter, TypeParameter, Class,
  Function,
}

abbrev pub events_interface : String → List String → List (String × String) → Declaration
events_interface name extends properties = interface_declaration (record {
  name = name;
  type_parameters = [];
  extends = extends;
  properties = properties;
  methods = [];
})

abbrev pub wrapper : String → List Method → Interface
wrapper name methods = record {
  name = name;
  type_parameters = [];
  extends = [];
  properties = [];
  methods = methods;
}

-- A method of a wrapper: its name, its parameter with a type, its body and what it returns.
abbrev pub wrapper_method : String → String → String → String → String → Method
wrapper_method name parameter type_text body returns = record {
  name = name;
  is_public = true;
  type_parameters = [];
  parameters =
      record { name = parameter; type_text = some type_text; is_rest_parameter = false } ∷ [];
  body_text = some body;
  return_type = returns;
}

-- A class within the function that wraps it.
abbrev pub wrapped : String → String → String → String → String → String → List Method → Function
wrapped name constraint returns class_name interface_name body_text methods = record {
  name = name;
  type_parameters = record { name = "T"; constraint = constraint } ∷ [];
  parameters = record { name = "Base"; type_text = some "T"; is_rest_parameter = false } ∷ [];
  return_type = returns;
  body_class = record {
    name = class_name;
    extends = "Base";
    implements = interface_name ∷ [];
    ctor_parameters = record { name = "args"; type_text = none; is_rest_parameter = true } ∷ [];
    ctor_body_text = "super(...args);";
    methods = methods;
  };
  body_text = body_text;
}

-- Of a method of an interface the file shows no body and no `public`.
abbrev pub signature : Method → Method
signature m = record m { is_public = false; body_text = none }

abbrev pub interface_method : String → String → String → String → Method
interface_method name parameter type_text returns =
    signature (wrapper_method name parameter type_text "" returns)

-- A declaration as the file shows it.
abbrev pub as_printed : Declaration → Declaration
as_printed (interface_declaration i) =
    interface_declaration (record i { methods = map signature i.methods })
as_printed d = d
