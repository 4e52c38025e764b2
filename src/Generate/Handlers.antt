-- ===== src/Generate/Handlers.antt =====
-- ums-generated/build/generate_interfaces.ts: the wrapper of the handlers of notifications.
use Prim.Native.String.{◌++◌ as ◌+++◌}
use lp_clients.Base.{
  ℕ, ◌≡◌, refl, ap, ◌∙◌, true, Option, none, some, List, [], ◌∷◌, ◌++◌, map, String, str_eq_refl,
  arith, All, All-map, ok,
}
use lp_clients.Platform.Values.{Value}
use lp_clients.Generate.Structures.{
  Declaration, interface_declaration, function_declaration, Interface, Method, SourceFiles,
  find_interface, find_enum, has_type_alias, has_member, get_interface, get_type_alias, get_enum,
  get_member, extend_first,
}
use lp_clients.Generate.Common.{
  query_events, mappings_of, alias_of_events, enum_of_events, interface_of_events, common_data,
  notification_type_name, notification_types_name,
}
use lp_clients.Generate.Typings.{add_all}
use lp_clients.Generate.Wrappers.{
  notification_method, notification_methods, custom_notification_data, handler_constraint,
  constructor_alias, wrapper_constructor_alias, wrapper_interface, wrap_function, wrapper_class,
}
use lp_clients.Generate.Lookup.{
  Declared, Declared-append, Declared-found, or_else, find_enum-append, has_type_alias-append,
}
use lp_clients.Generate.Extends.{Extends}
use lp_clients.Generate.Declares.{
  interface_names, common_declarations, common_data-declares, declarations-add_all,
}

abbrev HasMember : List (String × Option String) → String → Type 0
HasMember members event = has_member event members ≡ true

-- `INotificationsType<…>`
abbrev pub events_parent : String → String
events_parent base = notification_types_name +++ ("<" +++ (base +++ ">"))

abbrev pub handlers_of : String → List Method → List Declaration
handlers_of base methods =
    constructor_alias base (handler_constraint base)
    ∷ wrapper_constructor_alias base
    ∷ interface_declaration (wrapper_interface base methods)
    ∷ function_declaration
        (wrap_function base (handler_constraint base) (wrapper_class base methods))
    ∷ []

module _ (query : Value → String → List String) where
  -- The enumeration of the events has each of them.
  mappings_of-HasMember :
      (schema : Value) (events : List String)
      → All (HasMember (mappings_of query schema events)) events
  unfolding has_member mappings_of
  mappings_of-HasMember schema [] = tt
  mappings_of-HasMember schema (e ∷ es) = (
    rw (str_eq_refl e) refl,
    All-map (λ n h. ground (arith, h)) es (mappings_of-HasMember schema es),
  )

  module _ (pascal : String → Option ℕ → String) where
    notification_methods_lem :
        (lib : SourceFiles) (base : String) (members : List (String × Option String))
        (events : List String) (f : lib.File)
        → All (HasMember members) events
        → notification_methods pascal query lib base members events f
          ≡ (ok (map (notification_method pascal base) events), f)
    unfolding notification_methods get_member
    notification_methods_lem lib base members [] f h = refl
    notification_methods_lem lib base members (e ∷ es) f (x, h) =
        rw (x, notification_methods_lem lib base members es f h) refl

    common_alias :
        (base : String) (schema : Value)
        → pascal base none ≡ base
        → has_type_alias base (common_declarations pascal query base schema) ≡ true
    unfolding has_type_alias alias_of_events
    common_alias base schema stable = rw (stable, str_eq_refl base) refl

    common_enum :
        (base : String) (schema : Value)
        → pascal base none ≡ base
        → find_enum (base +++ "Event") (common_declarations pascal query base schema)
          ≡ some (mappings_of query schema (query_events query schema))
    unfolding find_enum alias_of_events enum_of_events
    common_enum base schema stable = rw (stable, str_eq_refl (base +++ "Event")) refl

    common_interface :
        (base : String) (schema : Value)
        → pascal base none ≡ base
        → Declared (common_declarations pascal query base schema) ("I" +++ (base +++ "Type"))
    unfolding find_interface alias_of_events enum_of_events interface_of_events
    common_interface base schema stable = rw (stable, str_eq_refl ("I" +++ (base +++ "Type"))) refl

    -- The wrapper's declarations, with a method for each of the events.
    abbrev pub handler_declarations : String → List String → List Declaration
    handler_declarations base events =
        handlers_of base (map (notification_method pascal base) events)

    module _ (lib : SourceFiles) where
      open lib use {File, declarations, add_extends, declarations-add_extends}

      custom_notification_data_run :
          (base : String) (schema : Value) (events : List String) (f g : File)
          (members : List (String × Option String)) (i : Interface)
          → common_data pascal query lib base schema notification_type_name f ≡ (ok events, g)
          → has_type_alias base (declarations g) ≡ true
          → find_enum (base +++ "Event") (declarations g) ≡ some members
          → find_interface ("I" +++ (base +++ "Type")) (declarations g) ≡ some i
          → All (HasMember members) events
          → custom_notification_data pascal query lib base schema f ≡ (
            ok tt,
            add_all lib
                (handler_declarations base events)
                (add_extends ("I" +++ (base +++ "Type")) (events_parent base) g),
          )
      unfolding custom_notification_data get_type_alias get_enum get_interface add_all
      custom_notification_data_run base schema events f g members i c a e t all =
          rw (c, a, e, t, notification_methods_lem lib base members events _ all) refl

      -- The name of a schema is in Pascal case, and no enumeration has the name of its events yet. If
      -- `INotificationType` and the interfaces of all events are there, then `customNotificationData`
      -- succeeds: what `commonData` declares is there, the interface of the events' types has one
      -- more parent, and behind it stand the constructors' types, and the interface and the function
      -- of the wrapper, with one method for each event, in the order of the schema.
      pub custom_notification_data_complete :
          (base : String) (schema : Value) (f : File)
          → pascal base none ≡ base
          → find_enum (base +++ "Event") (declarations f) ≡ none
          → Declared (declarations f) notification_type_name
          → All (Declared (declarations f)) (interface_names pascal query schema)
          → (g h : File) × (custom_notification_data pascal query lib base schema f ≡ (ok tt, h))
            × Extends lib (interface_names pascal query schema) notification_type_name f g
            × (declarations h
                ≡ extend_first
                    ("I" +++ (base +++ "Type"))
                    (events_parent base)
                    (declarations g ++ common_declarations pascal query base schema)
                  ++ handler_declarations base (query_events query schema))
      custom_notification_data_complete base schema f stable fresh d all =
          let common : (g h : File) × (common_data pascal query lib base schema
                  notification_type_name f
                ≡ (ok (query_events query schema), h))
              × Extends lib (interface_names pascal query schema) notification_type_name f g
              × (declarations h ≡ declarations g ++ common_declarations pascal query base schema) =
            common_data-declares pascal query lib base schema notification_type_name f d all in
          let ds : List Declaration = common_declarations pascal query base schema in
          let enums : find_enum (base +++ "Event") (declarations common.1)
              ≡ some (mappings_of query schema (query_events query schema)) =
            ap (find_enum (base +++ "Event")) common.4
            ∙ find_enum-append (base +++ "Event") (declarations common.0) ds
            ∙ ap (λ o. or_else o (find_enum (base +++ "Event") ds))
                (common.3.enums (base +++ "Event") ∙ fresh)
            ∙ common_enum base schema stable in
          let typed : (i : Interface) × (find_interface ("I" +++ (base +++ "Type"))
                  (declarations common.1)
                ≡ some i) =
            Declared-found _ _ (
              rw common.4 (
                Declared-append _ (declarations common.0) ds
                  (common_interface base schema stable))) in
          (
            common.0,
            _,
            custom_notification_data_run base schema _ f common.1 _ typed.0 common.2
                (rw common.4 (
                  has_type_alias-append base (declarations common.0) ds
                    (common_alias base schema stable)))
                enums typed.1 (mappings_of-HasMember schema (query_events query schema)),
            common.3,
            declarations-add_all lib _ _
                ∙ ap (λ t. t ++ handler_declarations base (query_events query schema))
                    (declarations-add_extends _ _ common.1
                      ∙ ap (extend_first ("I" +++ (base +++ "Type")) (events_parent base))
                          common.4),
          )
