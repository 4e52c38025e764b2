-- ===== src/Tests/Scripts.antt =====
-- Runs of the build script of the generated types, with a source file that is a list.
use lp_clients.Base.{
  map, arith, ℕ, ◌≡◌, refl, Option, none, some, List, [], ◌∷◌, ◌++◌, String, str_eq, if◌then◌else◌,
  All, ok,
}
use lp_clients.Platform.Values.{Value, undefined, obj, end}
use lp_clients.Generate.Structures.{
  Declaration, interface_declaration, SourceFiles, extend_first, find_interface, find_enum,
  get_interface,
}
use lp_clients.Generate.Common.{common_data, query_events, extend_events, notification_type_name}
use lp_clients.Generate.Whole.{parsed as parsed_job}
use lp_clients.Generate.Written.{Prepared, service_jobs, schema_type_of, generate_index_completes}
use lp_clients.Generate.Typings.{add_all}
use lp_clients.Generate.Wrappers.{custom_notification_data}
use lp_clients.Generate.Lookup.{Declared}
use lp_clients.Generate.Extends.{Extends}
use lp_clients.Generate.Declares.{interface_names, common_declarations, common_data-declares}
use lp_clients.Generate.Handlers.{
  handler_declarations, events_parent, custom_notification_data_complete,
}
use lp_clients.Generate.Main.{
  json_schema_urls, Disk, Tools, generate_index, generate_all, base_of, ParsedSchemaType,
}
use lp_clients.Ids.{FitsAll, uuid_v4, generate_id, generate_id-FitsAll}

abbrev lists : SourceFiles
lists = record {
  File = List Declaration;
  declarations = λ f. f;
  add = λ d f. f ++ d ∷ [];
  add_extends = extend_first;
  declarations-add = λ d f. refl;
  declarations-add_extends = λ name parent f. refl;
}

abbrev pascal : String → Option ℕ → String
pascal s locale = s

-- A schema of one event.
abbrev query : Value → String → List String
query schema path = if str_eq path "$.anyOf[*].title" then "Opened" ∷ [] else "ms.Opened" ∷ []

abbrev plain : String → Declaration
plain name =
    interface_declaration
      (record { name = name; type_parameters = []; extends = []; properties = []; methods = [] })

abbrev typings : List Declaration
typings = plain "INotificationType" ∷ plain "Opened" ∷ []

typings-Declared : Declared typings notification_type_name
unfolding find_interface
typings-Declared = refl

events-Declared : All (Declared typings) (interface_names pascal query undefined)
unfolding find_interface query_events
events-Declared = (refl, tt)

no_enum : find_enum "OpeningsEvent" typings ≡ none
unfolding find_enum
no_enum = refl

common_data-declares_example :
    (g h : List Declaration) × (common_data pascal query lists "Openings" undefined
        notification_type_name typings
      ≡ (ok (query_events query undefined), h))
    × Extends lists (interface_names pascal query undefined) notification_type_name typings g
    × (h ≡ g ++ common_declarations pascal query "Openings" undefined)
common_data-declares_example =
    common_data-declares pascal query lists "Openings" undefined notification_type_name typings
      typings-Declared events-Declared

common_data_returns :
    common_data pascal query lists "Openings" undefined notification_type_name typings ≡ (
      ok ("Opened" ∷ []),
      add_all lists
          (common_declarations pascal query "Openings" undefined)
          (extend_first "Opened" notification_type_name typings),
    )
unfolding common_data get_interface find_interface extend_events query_events add_all
common_data_returns = refl

custom_notification_data_complete_example :
    (g h : List Declaration) × (custom_notification_data pascal query lists "Openings" undefined
        typings
      ≡ (ok tt, h))
    × Extends lists (interface_names pascal query undefined) notification_type_name typings g
    × (h
        ≡ extend_first "IOpeningsType"
            (events_parent "Openings")
            (g ++ common_declarations pascal query "Openings" undefined)
          ++ handler_declarations query pascal "Openings" (query_events query undefined))
custom_notification_data_complete_example =
    custom_notification_data_complete query pascal lists "Openings" undefined typings refl no_enum
      typings-Declared events-Declared

-- Every call of a library succeeds, and the typings declare nothing.
abbrev tools : Tools (List Declaration)
tools = record {
  dereference = λ url. ok (obj end);
  merge = λ v. ok v;
  compile = λ v. ok "";
  basename = λ url ext. url;
  extname = λ url. "";
  write_json = λ v. ok tt;
  remove = ok tt;
  save = ok tt;
  create_source_file = λ text. [];
  insert_text = λ text f. f;
  format_text = λ f. f;
  text_of = λ f. "";
}

abbrev disk : Disk
disk = record { schema_json = none; index = some "old"; log = [] }

-- The typings have the one interface, which all schemas name.
abbrev full_tools : Tools (List Declaration)
full_tools = record tools { create_source_file = λ text. typings }

opened : All (Declared typings) (interface_names pascal query undefined)
unfolding find_interface query_events
opened = (refl, tt)

prepared :
    Prepared pascal query lists full_tools
      (service_jobs pascal query lists full_tools undefined undefined undefined undefined undefined)
      typings
unfolding find_enum base_of
prepared = (
  (refl, opened, refl),
  (refl, (refl, (refl, (refl, tt)))),
  (
    (refl, opened, refl),
    (refl, (refl, (refl, tt))),
    (
      (refl, opened, refl),
      (refl, (refl, tt)),
      ((refl, opened, refl), (refl, tt), ((refl, opened, refl), tt, tt)),
    ),
  ),
)

generate_index_completes_example :
    let jobs : List (ParsedSchemaType (List Declaration)) =
      map (parsed_job pascal query lists full_tools) (
        service_jobs pascal query lists full_tools undefined undefined undefined undefined
          undefined) in
    (map (schema_type_of pascal query lists full_tools) jobs
      ≡ json_schema_urls pascal query lists full_tools)
    × ((f : List Declaration) × (generate_all pascal query lists full_tools jobs typings
          ≡ (ok tt, f))
        × (generate_index pascal query lists full_tools jobs undefined disk
            ≡ (ok tt, record disk { index = some "" })))
generate_index_completes_example =
    generate_index_completes pascal query lists full_tools undefined undefined undefined undefined
      undefined undefined "" disk refl refl refl prepared

-- All random numbers lie between 5/8 and 11/16.
generate_id-FitsAll_example : FitsAll uuid_v4 (generate_id (λ k. 10))
generate_id-FitsAll_example = generate_id-FitsAll (λ k. 10) (λ k. omega arith)
