-- ===== src/Ums/Declarations/Typings.antt =====
-- ums-generated/generated/index.ts: the interfaces that stand before those of the schemas. The build
-- script's import stands at the top of the file.
use lp_clients.Base.{false, none, some, String, List, [], ◌∷◌}
use lp_clients.Generate.Structures.{
  Declaration, import_declaration, type_alias, interface_declaration, Parameter, Method,
  TypeParameter,
}
use lp_clients.Ums.Declarations.{events_interface}

abbrev typed : String → String → Parameter
typed name type_text = record { name = name; type_text = some type_text; is_rest_parameter = false }

abbrev constrained : String → String → TypeParameter
constrained name constraint = record { name = name; constraint = constraint }

-- An interface of one method.
abbrev handler : String → List TypeParameter → Method → Declaration
handler name type_parameters method = interface_declaration (record {
  name = name;
  type_parameters = type_parameters;
  extends = [];
  properties = [];
  methods = method ∷ [];
})

-- From `ITyped` to `ISendHandler`.
unfoldable pub typings_declarations : List Declaration
typings_declarations =
    import_declaration "type-zoo" ("Omit" ∷ [])
    ∷ events_interface "ITyped" [] (("type", "string") ∷ [])
    ∷ events_interface "ISendType" ("ITyped" ∷ []) (("id", "string") ∷ [])
    ∷ events_interface "IResponseType" ("ITyped" ∷ []) (("reqId", "string") ∷ [])
    ∷ events_interface "INotificationType" ("ITyped" ∷ []) []
    ∷ type_alias "INotificationsType" (constrained "NotificationType" "INotificationType" ∷ [])
        "{ [key: string]: NotificationType }"
    ∷ handler "INotificationHandler"
        (constrained "NotificationTypes" "INotificationsType<NotificationType>"
          ∷ constrained "NotificationType" "INotificationType"
          ∷ [])
        (record {
          name = "onNotification";
          is_public = false;
          type_parameters = constrained "K" "keyof NotificationTypes" ∷ [];
          parameters =
              typed "notificationType" "K"
              ∷ typed "cb" "(notification: NotificationTypes[K]) => void"
              ∷ [];
          body_text = none;
          return_type = "void";
        })
    ∷ handler "ISendHandler"
        (constrained "SendType" "ISendType" ∷ constrained "ResponseType" "IResponseType" ∷ [])
        (record {
          name = "sendMessage";
          is_public = false;
          type_parameters = [];
          parameters = typed "req" "SendType" ∷ [];
          body_text = none;
          return_type = "Promise<ResponseType>";
        })
    ∷ []
