-- ===== src/Generate/Runs.antt =====
-- ums-generated/build/generate_interfaces.ts: how a run of the script ends.
use lp_clients.Base.{
  ℕ, ◌≡◌, ◌⊎◌, Option, none, some, List, String, Task, Result, ok, err, settled, ◌>>◌, modify,
}
use lp_clients.Platform.Values.{Value, Items, nil, obj, arr, field, end}
use lp_clients.Generate.Structures.{SourceFiles}
use lp_clients.Generate.Loaded.{Loaded}
use lp_clients.Generate.Main.{
  Disk, Tools, SchemaType, ParsedSchemaType, alternatives, generate_all, finished, json_schema_urls,
}

module _ (pascal : String → Option ℕ → String) (query : Value → String → List String)
    (lib : SourceFiles) (tools : Tools lib.File) where
  -- What is saved is the text of a source file: the one of the compiled typings, to which the
  -- generators of all the schemas have added what they declare, without a failure.
  pub record Indexed (parsed : List (ParsedSchemaType lib.File)) (merged : Value)
      (index : Option String) : Type 0 where
    pub typings : String
    pub file : lib.File
    pub compiled : tools.compile merged ≡ ok typings
    pub generated :
        generate_all pascal query lib tools parsed (tools.create_source_file typings)
        ≡ (ok tt, file)
    pub written : index ≡ some (tools.text_of (finished pascal query lib tools file))

  -- The schemas are loaded, their alternatives merged, and the result is compiled and saved.
  pub record Saved (types : List (SchemaType lib.File)) (d : Disk) (index : Option String)
      : Type 0 where
    pub parsed : List (ParsedSchemaType lib.File)
    pub options : Items
    pub merged : Value
    pub loaded : Loaded pascal query lib tools types parsed
    pub joined : (alternatives pascal query lib tools nil parsed d).0 ≡ ok options
    pub merges : tools.merge (obj (field "anyOf" (arr options) end)) ≡ ok merged
    pub indexed : Indexed parsed merged index

  abbrev Outcome : (Option String → Type 0) → Disk → Result (Unit {0}) × Disk → Type 0
  Outcome P d (ok tt, t) = P t.index × (t.log ≡ d.log)
  Outcome P d (err e, t) = (t.log ≡ d.log) × ((t.index ≡ d.index) ⊎ (t.index ≡ none))

  abbrev saves : Result (Unit {0}) × lib.File → Result (Unit {0}) → Task Disk (Unit {0})
  saves g s =
      settled g.0
      >> (settled s
          >> modify
              λ t. record t { index = some (tools.text_of (finished pascal query lib tools g.1)) })

  abbrev SavedAll : Disk → Option String → Type 0
  SavedAll d = Saved (json_schema_urls pascal query lib tools) d
