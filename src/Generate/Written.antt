-- ===== src/Generate/Written.antt =====
-- ums-generated/build/generate_interfaces.ts: the script behind the loading of the schemas, where it
-- succeeds.
use Prim.Native.String.{◌++◌ as ◌+++◌}
use lp_clients.Base.{
  ◌≡◌, refl, sym, ap, subst, ◌∙◌, false, none, some, List, [], ◌∷◌, ◌++◌, map, String, str_eq, All,
  All-map, ok, Option, ℕ,
}
use lp_clients.Platform.Values.{Value}
use lp_clients.Generate.Structures.{Declaration, SourceFiles, find_interface, find_enum}
use lp_clients.Generate.Typings.{generic_declarations, generate_generic_typings, add_all}
use lp_clients.Generate.Lookup.{Declared, Declared-append, or_else, find_enum-append}
use lp_clients.Generate.Declares.{interface_names, declarations-add_all}
use lp_clients.Generate.Complete.{Declared-before}
use lp_clients.Generate.Main.{
  Disk, Tools, SchemaType, ParsedSchemaType, generate_all, finished, generate_index,
  json_schema_urls,
}
use lp_clients.Generate.Whole.{
  Kind, of_requests, of_responses, of_notifications, of_agent_responses, parent_of, Job, parsed,
  base, event, Ready, jobs_complete,
}

-- The address of a schema.
abbrev schema_url : String → String
schema_url file = "https://developers.liveperson.com/assets/schema/ws/" +++ file

module _ (pascal : String → Option ℕ → String) (query : Value → String → List String)
    (lib : SourceFiles) (tools : Tools lib.File) where
  open lib use {File, declarations}

  -- What the source file of the compiled typings has for the jobs: names in Pascal case, the
  -- interfaces of all events, no enumerations for them, and different enumerations for all jobs.
  abbrev pub Prepared : List Job → List Declaration → Type 0
  Prepared [] ds = Unit
  Prepared (j ∷ js) ds =
      ((pascal (base pascal query lib tools j) none ≡ base pascal query lib tools j)
        × All (Declared ds) (interface_names pascal query j.schema)
        × (find_enum (event pascal query lib tools j) ds ≡ none))
      × All (λ k. str_eq (event pascal query lib tools j) (event pascal query lib tools k) ≡ false)
          js
      × Prepared js ds

  -- The generic typings bring the parents.
  parent-Declared :
      (k : Kind) (ds : List Declaration) → Declared (ds ++ generic_declarations) (parent_of k)
  unfolding generic_declarations find_interface
  parent-Declared of_requests ds = Declared-append _ ds generic_declarations refl
  parent-Declared of_responses ds = Declared-append _ ds generic_declarations refl
  parent-Declared of_notifications ds = Declared-append _ ds generic_declarations refl
  parent-Declared of_agent_responses ds = Declared-append _ ds generic_declarations refl

  generic_fresh : (n : String) → find_enum n generic_declarations ≡ none
  unfolding generic_declarations find_enum
  generic_fresh n = refl

  Prepared-Ready :
      (js : List Job) (ds : List Declaration)
      → Prepared js ds
      → Ready pascal query lib tools js (ds ++ generic_declarations)
  Prepared-Ready [] ds p = tt
  Prepared-Ready (j ∷ js) ds ((stable, events, unnamed), others, p) = (
    record {
      stable = stable;
      based = parent-Declared j.kind ds;
      events =
          All-map (λ n. Declared-before n ds generic_declarations)
            (interface_names pascal query j.schema) events;
      unnamed =
          find_enum-append (event pascal query lib tools j) ds generic_declarations
          ∙ ap (λ o. or_else o (find_enum (event pascal query lib tools j) generic_declarations))
              unnamed
          ∙ generic_fresh (event pascal query lib tools j);
    },
    others,
    Prepared-Ready js ds p,
  )

  generated :
      (js : List Job) (f : File)
      → Prepared js (declarations f)
      → (h : File) × (generate_all pascal query lib tools (map (parsed pascal query lib tools) js) f
          ≡ (ok tt, h))
  unfolding generate_all generate_generic_typings
  generated js f p = jobs_complete pascal query lib tools js (add_all lib generic_declarations f) (
      subst (Ready pascal query lib tools js)
        (sym (declarations-add_all lib generic_declarations f))
        (Prepared-Ready js (declarations f) p))

  -- The five schemas of the service, as they are loaded.
  abbrev pub service_jobs : Value → Value → Value → Value → Value → List Job
  service_jobs requests responses notifications agent_answers agent_news =
      record { kind = of_requests; url = schema_url "consumerRequests.json"; schema = requests }
      ∷ record {
        kind = of_responses;
        url = schema_url "consumerResponses.json";
        schema = responses;
      }
      ∷ record {
        kind = of_notifications;
        url = schema_url "consumerNotifications.json";
        schema = notifications;
      }
      ∷ record {
        kind = of_agent_responses;
        url = schema_url "agentResponses.json";
        schema = agent_answers;
      }
      ∷ record {
        kind = of_notifications;
        url = schema_url "agentNotifications.json";
        schema = agent_news;
      }
      ∷ []

  abbrev pub schema_type_of : ParsedSchemaType File → SchemaType File
  schema_type_of p = p.schema_type

  service_urls :
      (a b c d e : Value)
      → map schema_type_of (map (parsed pascal query lib tools) (service_jobs a b c d e))
        ≡ json_schema_urls pascal query lib tools
  unfolding json_schema_urls
  service_urls a b c d e = refl

  index_written :
      (jobs : List (ParsedSchemaType File)) (merged : Value) (typings : String) (f : File)
      (disk : Disk)
      → tools.compile merged ≡ ok typings
      → tools.remove ≡ ok tt
      → tools.save ≡ ok tt
      → generate_all pascal query lib tools jobs (tools.create_source_file typings) ≡ (ok tt, f)
      → generate_index pascal query lib tools jobs merged disk
        ≡ (ok tt, record disk { index = some (tools.text_of (finished pascal query lib tools f)) })
  unfolding generate_index
  index_written jobs merged typings f disk compiled removed saved run =
      simp (compiled, removed, run, saved)

  -- When the merged schema compiles, to typings that have the interfaces of all events of the five
  -- schemas and no enumerations for them, the names of the schemas are in Pascal case and different,
  -- and the old file can be removed and the new one saved, then the script succeeds: every generator
  -- of its list runs to its end, and the file is the text of what they made.
  pub generate_index_completes :
      (a b c d e merged : Value) (typings : String) (disk : Disk)
      → tools.compile merged ≡ ok typings
      → tools.remove ≡ ok tt
      → tools.save ≡ ok tt
      → Prepared (service_jobs a b c d e) (declarations (tools.create_source_file typings))
      → let jobs : List (ParsedSchemaType File) =
          map (parsed pascal query lib tools) (service_jobs a b c d e) in
        (map schema_type_of jobs ≡ json_schema_urls pascal query lib tools)
        × ((f : File) × (generate_all pascal query lib tools jobs (tools.create_source_file typings)
              ≡ (ok tt, f))
            × (generate_index pascal query lib tools jobs merged disk ≡ (
              ok tt,
              record disk { index = some (tools.text_of (finished pascal query lib tools f)) },
            )))
  unfolding generate_index
  generate_index_completes a b c d e merged typings disk compiled removed saved p =
      let (f, run) = generated (service_jobs a b c d e) (tools.create_source_file typings) p in
      (
        service_urls a b c d e,
        (
          f,
          run,
          index_written (map (parsed pascal query lib tools) (service_jobs a b c d e)) merged
              typings f disk compiled removed saved run,
        ),
      )
