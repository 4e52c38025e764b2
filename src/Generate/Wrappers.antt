-- ===== src/Generate/Wrappers.antt =====
-- ums-generated/build/generate_interfaces.ts: the declarations for the requests, the responses and
-- the notifications of a schema. `base` is the name of the schema's file, in Pascal case.
use Prim.Native.String.{◌++◌ as ◌+++◌}
use lp_clients.Base.{
  ℕ, true, false, Option, none, some, List, [], ◌∷◌, map, String, Task, pure, modify, ◌>>=◌, ◌>>◌,
}
use lp_clients.Platform.Values.{Value}
use lp_clients.Generate.Structures.{
  Declaration, type_alias, interface_declaration, function_declaration, Interface, Method,
  Parameter, Class, Function, SourceFiles, get_interface, get_type_alias, get_enum, get_member,
}
use lp_clients.Generate.Common.{
  common_data, notification_type_name, notification_types_name, notification_handler_name,
  on_notification_fn_name, send_message_handler_name, send_message_fn_name, i_response_type_name,
  i_send_type_name,
}

abbrev parameter : String → String → Parameter
parameter name type_text = record {
  name = name;
  type_text = some type_text;
  is_rest_parameter = false;
}

-- `...args`
abbrev rest_parameter : String → Parameter
rest_parameter name = record { name = name; type_text = none; is_rest_parameter = true }

-- A class that extends `Base` and hands its arguments on.
unfoldable pub wrapper_class : String → List Method → Class
wrapper_class base methods = record {
  name = base +++ "Wrapper";
  extends = "Base";
  implements = ("I" +++ (base +++ "Wrapper")) ∷ [];
  ctor_parameters = rest_parameter "args" ∷ [];
  ctor_body_text = "super(...args);";
  methods = methods;
}

unfoldable pub wrapper_interface : String → List Method → Interface
wrapper_interface base methods = record {
  name = "I" +++ (base +++ "Wrapper");
  type_parameters = [];
  extends = [];
  properties = [];
  methods = methods;
}

-- `…Constructor` and `…WrapperConstructor`
unfoldable pub constructor_alias : String → String → Declaration
constructor_alias base constraint =
    type_alias (base +++ "Constructor") (record { name = "T"; constraint = constraint } ∷ [])
      "new(...args: any[]) => T"

unfoldable pub wrapper_constructor_alias : String → Declaration
wrapper_constructor_alias base =
    type_alias (base +++ "WrapperConstructor") []
      ("new(...args: any[]) => I" +++ (base +++ "Wrapper"))

unfoldable pub wrap_function : String → String → Class → Function
wrap_function base constraint body_class = record {
  name = "wrap" +++ base;
  type_parameters =
      record { name = "T"; constraint = base +++ ("Constructor<" +++ (constraint +++ ">")) } ∷ [];
  parameters = parameter "Base" "T" ∷ [];
  return_type = "T & " +++ (base +++ "WrapperConstructor");
  body_class = body_class;
  body_text = "return " +++ (base +++ "Wrapper;");
}

-- `INotificationHandler<I…Type, …>`
unfoldable pub handler_constraint : String → String
handler_constraint base =
    notification_handler_name +++ ("<I" +++ (base +++ ("Type, " +++ (base +++ ">"))))

unfoldable pub sender_constraint : String → String → String
sender_constraint requests base =
    send_message_handler_name +++ ("<" +++ (requests +++ (", " +++ (base +++ ">"))))

-- `mapping`: the response to each request.
abbrev pub response_mapping : List (String × String)
response_mapping =
    ("InitConnection", "StringResp")
    ∷ ("UpdateConversationField", "StringResp")
    ∷ ("ConsumerRequestConversation", "RequestConversationResponse")
    ∷ ("PublishEvent", "PublishEventResponse")
    ∷ ("SubscribeMessagingEvents", "GenericSubscribeResponse")
    ∷ ("SubscribeExConversations", "SubscribeExConversationsResponse")
    ∷ ("UnsubscribeExConversations", "StringResp")
    ∷ []

module _ (pascal : String → Option ℕ → String) where
  -- The method of a wrapper for an event.
  unfoldable pub notification_method : String → String → Method
  notification_method base event = record {
    name = "on" +++ pascal event none;
    is_public = true;
    type_parameters = [];
    parameters = parameter "cb" ("(notification: " +++ (pascal event none +++ ") => void")) ∷ [];
    body_text = some (
        "this."
        +++ (on_notification_fn_name +++ ("(" +++ (base +++ ("Event." +++ (event +++ ", cb);"))))));
    return_type = "void";
  }

  -- The method for a request, with the type of its response.
  unfoldable pub request_method : String → String × String → Method
  request_method requests (req, res) = record {
    name = "do" +++ pascal req none;
    is_public = true;
    type_parameters = [];
    parameters = parameter "data" ("Omit<" +++ (req +++ ", \"type\">")) ∷ [];
    body_text = some (
        "return this."
        +++ (send_message_fn_name
            +++ ("(Object.assign(data, { type: "
                +++ (requests +++ ("Event." +++ (req +++ (" }) as " +++ (req +++ ");"))))))));
    return_type = "Promise<" +++ (res +++ ">");
  }

  module _ (query : Value → String → List String) (lib : SourceFiles) where
    open lib use {File, add, add_extends}

    unfoldable pub notification_methods :
        String → List (String × Option String) → List String → Task File (List Method)
    unfolding get_member
    notification_methods base members [] = pure []
    notification_methods base members (event ∷ events) = do
      get_member event members
      methods ← notification_methods base members events
      pure (notification_method base event ∷ methods)

    unfoldable pub custom_notification_data : String → Value → Task File (Unit {0})
    unfolding common_data get_type_alias get_enum get_interface notification_methods
    custom_notification_data base schema = do
      events ← common_data pascal query lib base schema notification_type_name
      get_type_alias lib base
      members ← get_enum lib (base +++ "Event")
      notification_type ← get_interface lib ("I" +++ (base +++ "Type"))
      modify (
          add_extends ("I" +++ (base +++ "Type"))
            (notification_types_name +++ ("<" +++ (base +++ ">"))))
      modify (add (constructor_alias base (handler_constraint base)))
      modify (add (wrapper_constructor_alias base))
      methods ← notification_methods base members events
      modify (add (interface_declaration (wrapper_interface base methods)))
      modify (
          add (
            function_declaration
              (wrap_function base (handler_constraint base) (wrapper_class base methods))))

    unfoldable pub custom_consumer_request_data : String → Value → Task File (Unit {0})
    unfolding common_data
    custom_consumer_request_data base schema = do
      events ← common_data pascal query lib base schema i_send_type_name
      pure tt

    -- The wrapping function is prepared and not added.
    unfoldable pub custom_consumer_response_data : String → Value → Task File (Unit {0})
    unfolding common_data
    custom_consumer_response_data base schema = do
      events ← common_data pascal query lib base schema i_response_type_name
      modify (
          add (
            interface_declaration
              (wrapper_interface base (map (request_method "ConsumerRequests") response_mapping))))
      modify (add (constructor_alias base (sender_constraint "ConsumerRequests" base)))
      modify (add (wrapper_constructor_alias base))

    unfoldable pub custom_agent_response_data : String → Value → Task File (Unit {0})
    unfolding common_data
    custom_agent_response_data base schema = do
      events ← common_data pascal query lib base schema i_response_type_name
      pure tt
