-- ===== src/Generate/Common.antt =====
-- ums-generated/build/generate_interfaces.ts: the names of the events of a schema, and what is
-- declared for every schema. The library `pascal-case` is the parameter `pascal`, whose second
-- argument is the locale; `query` is the library `jsonpath`, for the texts that a path finds.
use Prim.Native.String.{◌++◌ as ◌+++◌}
use lp_clients.Base.{
  ℕ, suc, Option, none, some, List, [], ◌∷◌, map, String, Task, pure, modify, ◌>>=◌, ◌>>◌,
}
use lp_clients.Platform.Values.{Value}
use lp_clients.Generate.Structures.{
  Declaration, type_alias, enum_declaration, interface_declaration, const_statement, Interface,
  SourceFiles, get_interface, join_texts,
}

-- The constants of the script.
abbrev pub notification_type_name : String
notification_type_name = "INotificationType"

abbrev pub notification_types_name : String
notification_types_name = "INotificationsType"

abbrev pub notification_handler_name : String
notification_handler_name = "INotificationHandler"

abbrev pub on_notification_fn_name : String
on_notification_fn_name = "onNotification"

abbrev pub send_message_handler_name : String
send_message_handler_name = "ISendHandler"

abbrev pub send_message_fn_name : String
send_message_fn_name = "sendMessage"

abbrev pub i_response_type_name : String
i_response_type_name = "IResponseType"

abbrev pub i_send_type_name : String
i_send_type_name = "ISendType"

-- An element of `mappings`; the name is `undefined` where the schema has none.
abbrev pub Mapping : Type 0
Mapping = String × Option String

abbrev pub name_text : Option String → String
name_text none = "undefined"
name_text (some name) = name

abbrev pub quoted : String → String
quoted s = "\"" +++ (s +++ "\"")

abbrev head : List String → Option String
head [] = none
head (s ∷ ss) = some s

module _ (query : Value → String → List String) where
  unfoldable pub query_events : Value → List String
  query_events schema = query schema "$.anyOf[*].title"

  unfoldable pub query_event_name : Value → String → Option String
  query_event_name schema event = head (
      query schema
        ("$.anyOf[?(@.title == '" +++ (event +++ "')].allOf[*].properties.type.default")))

  unfoldable pub mappings_of : Value → List String → List Mapping
  mappings_of schema events = map (λ event. (event, query_event_name schema event)) events

module _ (lib : SourceFiles) where
  open lib use {File, add_extends}

  -- The interface of an event extends the given one, unless it extends another already.
  abbrev pub extend_if_bare : String → String → List String → Task File (Unit {0})
  extend_if_bare name parent [] = modify (add_extends name parent)
  extend_if_bare name parent (e ∷ es) = pure tt

  unfoldable pub extend_events : List String → String → Task File (Unit {0})
  unfolding get_interface
  extend_events [] parent = pure tt
  extend_events (name ∷ names) parent = do
    i ← get_interface lib name
    extend_if_bare name parent i.extends
    extend_events names parent

module _ (pascal : String → Option ℕ → String) where
  -- `events.map(pascalCase)`: the index of an event is passed on as the locale.
  unfoldable pub pascal_each : ℕ → List String → List String
  pascal_each i [] = []
  pascal_each i (s ∷ ss) = pascal s (some i) ∷ pascal_each (suc i) ss

  -- What is declared behind the interfaces of the events.
  unfoldable pub alias_of_events : String → List String → Declaration
  unfolding pascal_each join_texts
  alias_of_events base events =
      type_alias (pascal base none) [] (join_texts " | " (pascal_each 0 events))

  unfoldable pub enum_of_events : String → List Mapping → Declaration
  enum_of_events base mappings = enum_declaration (pascal base none +++ "Event") mappings

  unfoldable pub interface_of_events : String → List Mapping → Interface
  interface_of_events base mappings = record {
    name = "I" +++ (pascal base none +++ "Type");
    type_parameters = [];
    extends = [];
    properties = map (λ m. (quoted (name_text m.1), pascal m.0 none)) mappings;
    methods = [];
  }

  unfoldable pub alias_of_types : String → List Mapping → Declaration
  unfolding join_texts
  alias_of_types base mappings =
      type_alias (pascal base none +++ "Type") []
        (join_texts " | " (map (λ m. quoted (name_text m.1)) mappings))

  unfoldable pub lists_of_events : String → List String → List Mapping → Declaration
  unfolding join_texts
  lists_of_events base events mappings = const_statement (
      (pascal base none +++ "Events", "[" +++ (join_texts ", " (map quoted events) +++ "]"))
      ∷ (
        pascal base none +++ "Types",
        "[" +++ (join_texts ", " (map (λ m. quoted (name_text m.1)) mappings) +++ "]"),
      )
      ∷ [])

  module _ (query : Value → String → List String) (lib : SourceFiles) where
    open lib use {File, add}

    unfoldable pub common_data : String → Value → String → Task File (List String)
    unfolding extend_events get_interface
    common_data base schema parent = do
      let events : List String = query_events query schema
      let mappings : List Mapping = mappings_of query schema events
      i ← get_interface lib parent
      extend_events lib (map (λ event. pascal event none) events) parent
      modify (add (alias_of_events base events))
      modify (add (enum_of_events base mappings))
      modify (add (interface_declaration (interface_of_events base mappings)))
      modify (add (alias_of_types base mappings))
      modify (add (lists_of_events base events mappings))
      pure events
