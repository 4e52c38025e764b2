-- ===== src/Generate/Typings.antt =====
-- ums-generated/build/generate_interfaces.ts: the typings that do not depend on a schema.
use Prim.Native.String.{◌++◌ as ◌+++◌}
use lp_clients.Base.{false, none, some, List, [], ◌∷◌, String, Task, modify}
use lp_clients.Generate.Structures.{
  Declaration, import_declaration, type_alias, interface_declaration, Interface, Method, Parameter,
  TypeParameter, SourceFiles,
}
use lp_clients.Generate.Common.{
  notification_type_name, notification_types_name, notification_handler_name,
  on_notification_fn_name, send_message_handler_name, send_message_fn_name, i_response_type_name,
  i_send_type_name,
}

-- An interface of properties, of type `string`, behind those of `ITyped`.
abbrev typed_interface : String → List String → List (String × String) → Interface
typed_interface name extends properties = record {
  name = name;
  type_parameters = [];
  extends = extends;
  properties = properties;
  methods = [];
}

abbrev handler_interface : String → List TypeParameter → Method → Interface
handler_interface name type_parameters method = record {
  name = name;
  type_parameters = type_parameters;
  extends = [];
  properties = [];
  methods = method ∷ [];
}

abbrev typed_parameter : String → String → Parameter
typed_parameter name type_text = record {
  name = name;
  type_text = some type_text;
  is_rest_parameter = false;
}

unfoldable pub on_notification_method : Method
on_notification_method = record {
  name = on_notification_fn_name;
  is_public = false;
  type_parameters = record { name = "K"; constraint = "keyof NotificationTypes" } ∷ [];
  parameters =
      typed_parameter "notificationType" "K"
      ∷ typed_parameter "cb" "(notification: NotificationTypes[K]) => void"
      ∷ [];
  body_text = none;
  return_type = "void";
}

unfoldable pub send_message_method : Method
send_message_method = record {
  name = send_message_fn_name;
  is_public = false;
  type_parameters = [];
  parameters = typed_parameter "req" "SendType" ∷ [];
  body_text = none;
  return_type = "Promise<ResponseType>";
}

unfoldable pub generic_declarations : List Declaration
unfolding on_notification_method send_message_method
generic_declarations =
    import_declaration "type-zoo" ("Omit" ∷ [])
    ∷ interface_declaration (typed_interface "ITyped" [] (("type", "string") ∷ []))
    ∷ interface_declaration
        (typed_interface i_send_type_name ("ITyped" ∷ []) (("id", "string") ∷ []))
    ∷ interface_declaration
        (typed_interface i_response_type_name ("ITyped" ∷ []) (("reqId", "string") ∷ []))
    ∷ interface_declaration (typed_interface notification_type_name ("ITyped" ∷ []) [])
    ∷ type_alias notification_types_name
        (record { name = "NotificationType"; constraint = notification_type_name } ∷ [])
        "{ [key: string]: NotificationType }"
    ∷ interface_declaration (
        handler_interface notification_handler_name
          (record {
            name = "NotificationTypes";
            constraint = notification_types_name +++ "<NotificationType>";
          }
            ∷ record { name = "NotificationType"; constraint = notification_type_name }
            ∷ [])
          on_notification_method)
    ∷ interface_declaration (
        handler_interface send_message_handler_name
          (record { name = "SendType"; constraint = i_send_type_name }
            ∷ record { name = "ResponseType"; constraint = i_response_type_name }
            ∷ [])
          send_message_method)
    ∷ []

module _ (lib : SourceFiles) where
  open lib use {File, add}

  unfoldable pub add_all : List Declaration → File → File
  add_all [] f = f
  add_all (d ∷ ds) f = add_all ds (add d f)

  unfoldable pub generate_generic_typings : Task File (Unit {0})
  unfolding add_all generic_declarations
  generate_generic_typings = modify (add_all generic_declarations)
