-- ===== src/Generate/Main.antt =====
-- ums-generated/build/generate_interfaces.ts: the script itself, over what is on the disk. The
-- libraries json-schema-ref-parser, json-schema-merge-allof, json-schema-to-typescript, fs-extra and
-- path are the parameter `Tools`; a list under `anyOf` is taken to be an array, as in every schema.
use Prim.Native.String.{◌++◌ as ◌+++◌}
use lp_clients.Base.{
  ℕ, Option, none, some, List, [], ◌∷◌, ◌++◌, String, Task, Result, ok, err, type_error, Failure,
  pure, modify, settled, ◌>>=◌, ◌>>◌,
}
use lp_clients.Platform.Values.{Value, obj, arr, Items, nil, cons, field, end, get}
use lp_clients.Generate.Structures.{SourceFiles}
use lp_clients.Generate.Typings.{generate_generic_typings}
use lp_clients.Generate.Wrappers.{
  custom_consumer_request_data, custom_consumer_response_data, custom_notification_data,
  custom_agent_response_data,
}

-- The files that the script writes, and what it has put on the console.
pub record Disk : Type 0 where
  pub schema_json : Option Value
  pub index : Option String
  pub log : List Failure

pub record Tools (File : Type 0) : Type 0 where
  pub dereference : String → Result Value
  pub merge : Value → Result Value
  pub compile : Value → Result String
  pub basename : String → String → String
  pub extname : String → String
  pub write_json : Value → Result (Unit {0})
  pub remove : Result (Unit {0})
  pub save : Result (Unit {0})
  pub create_source_file : String → File
  pub insert_text : String → File → File
  pub format_text : File → File
  pub text_of : File → String

abbrev pub header : String
header = "/* tslint:disable */\n\n"

abbrev pub autogenerated_banner : String
autogenerated_banner =
    "/** THIS FILE IS AUTOGENERATED FROM THE UMS JSON SCHEMA FILES. DO NOT EDIT MANUALLY. */"

-- `ISchemaType`, over the generators of code.
pub record SchemaType (File : Type 0) : Type 0 where
  pub url : String
  pub fn : Option (String → Value → Task File (Unit {0}))

-- `IParsedSchemaType`
pub record ParsedSchemaType (File : Type 0) : Type 0 where
  pub schema_type : SchemaType File
  pub schema : Value

unfoldable pub append_items : Items → Items → Items
append_items nil ys = ys
append_items (cons x xs) ys = cons x (append_items xs ys)

-- `...schema.anyOf`
unfoldable pub any_of : Value → Result Items
unfolding get
any_of (obj fs) = spread (get "anyOf" fs)
  where
    spread : Value → Result Items
    spread (arr xs) = ok xs
    spread _ = err (type_error "schema.anyOf is not iterable")
any_of _ = err (type_error "schema.anyOf is not iterable")

module _ (pascal : String → Option ℕ → String) (query : Value → String → List String)
    (lib : SourceFiles) (tools : Tools lib.File) where
  open lib use {File}

  abbrev schema_base : String
  schema_base = "https://developers.liveperson.com/assets/schema/ws/"

  unfoldable pub json_schema_urls : List (SchemaType File)
  unfolding custom_consumer_request_data custom_consumer_response_data custom_notification_data
      custom_agent_response_data
  json_schema_urls =
      record {
        url = schema_base +++ "consumerRequests.json";
        fn = some (custom_consumer_request_data pascal query lib);
      }
      ∷ record {
        url = schema_base +++ "consumerResponses.json";
        fn = some (custom_consumer_response_data pascal query lib);
      }
      ∷ record {
        url = schema_base +++ "consumerNotifications.json";
        fn = some (custom_notification_data pascal query lib);
      }
      ∷ record {
        url = schema_base +++ "agentResponses.json";
        fn = some (custom_agent_response_data pascal query lib);
      }
      ∷ record {
        url = schema_base +++ "agentNotifications.json";
        fn = some (custom_notification_data pascal query lib);
      }
      ∷ []

  -- All schemas, or the failure of one that is not loaded: the first of the list.
  unfoldable pub generate_schemas :
      List (SchemaType File) → Task Disk (List (ParsedSchemaType File))
  generate_schemas [] = pure []
  generate_schemas (t ∷ ts) = do
    schema ← settled (tools.dereference t.url)
    parsed ← generate_schemas ts
    pure (record { schema_type = t; schema = schema } ∷ parsed)

  -- The schemas' alternatives, those of the last schema first.
  unfoldable pub alternatives : Items → List (ParsedSchemaType File) → Task Disk Items
  unfolding any_of append_items
  alternatives previous [] = pure previous
  alternatives previous (p ∷ ps) = do
    xs ← settled (any_of p.schema)
    alternatives (append_items xs previous) ps

  abbrev pub run_fn :
      Option (String → Value → Task File (Unit {0})) → String → Value → Task File (Unit {0})
  run_fn none base schema = pure tt
  run_fn (some fn) base schema = fn base schema

  -- The name of a schema's file, in Pascal case.
  unfoldable pub base_of : String → String
  base_of url = pascal (tools.basename url (tools.extname url)) none

  unfoldable pub run_generators : List (ParsedSchemaType File) → Task File (Unit {0})
  unfolding base_of
  run_generators [] = pure tt
  run_generators (p ∷ ps) = do
    run_fn p.schema_type.fn (base_of p.schema_type.url) p.schema
    run_generators ps

  unfoldable pub generate_all : List (ParsedSchemaType File) → Task File (Unit {0})
  unfolding generate_generic_typings run_generators
  generate_all parsed = do generate_generic_typings lib; run_generators parsed

  -- The source file as it is saved.
  unfoldable pub finished : File → File
  finished f =
      tools.format_text (tools.insert_text (header +++ (autogenerated_banner +++ "\n\n")) f)

  -- The part of the script behind the merged schema.
  unfoldable pub generate_index : List (ParsedSchemaType File) → Value → Task Disk (Unit {0})
  unfolding generate_all finished
  generate_index parsed merged = do
    typings ← settled (tools.compile merged)
    settled tools.remove
    modify (λ d. record d { index = none })
    let generated : Result (Unit {0}) × File =
        generate_all parsed (tools.create_source_file typings)
    settled generated.0
    settled tools.save
    modify (λ d. record d { index = some (tools.text_of (finished generated.1)) })

  unfoldable pub generate_interfaces : List (SchemaType File) → Task Disk (Unit {0})
  unfolding generate_schemas alternatives generate_index
  generate_interfaces types = do
    parsed ← generate_schemas types
    test ← alternatives nil parsed
    merged ← settled (tools.merge (obj (field "anyOf" (arr test) end)))
    settled (tools.write_json merged)
    modify (λ d. record d { schema_json = some merged })
    generate_index parsed merged

  -- `catch`: what is thrown is put out and returned.
  abbrev pub caught : Result (Unit {0}) × Disk → Option Failure × Disk
  caught (ok tt, d) = (none, d)
  caught (err e, d) = (some e, record d { log = d.log ++ e ∷ [] })

  unfoldable pub main : Disk → Option Failure × Disk
  unfolding generate_interfaces json_schema_urls
  main d = caught (generate_interfaces json_schema_urls d)
