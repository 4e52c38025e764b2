-- ===== src/Generate/Loaded.antt =====
-- ums-generated/build/generate_interfaces.ts: what the script loads.
use lp_clients.Base.{
  ℕ, ◌≡◌, refl, ap, Option, List, [], ◌∷◌, map, All, String, Result, ok, err, settled, after, pure,
}
use lp_clients.Platform.Values.{Value}
use lp_clients.Generate.Structures.{SourceFiles}
use lp_clients.Generate.Main.{Disk, Tools, SchemaType, ParsedSchemaType, generate_schemas}

module _ (pascal : String → Option ℕ → String) (query : Value → String → List String)
    (lib : SourceFiles) (tools : Tools lib.File) where
  -- The schemas are those of the given kinds, all of them and in their order, as the library loads
  -- them.
  pub record Loaded (types : List (SchemaType lib.File)) (parsed : List (ParsedSchemaType lib.File))
      : Type 0 where
    pub kinds : map ParsedSchemaType.schema_type parsed ≡ types
    pub schemas : All (λ p. tools.dereference p.schema_type.url ≡ ok p.schema) parsed

  abbrev pub LoadedBy :
      List (SchemaType lib.File) → Result (List (ParsedSchemaType lib.File)) → Type 0
  LoadedBy types (ok parsed) = Loaded types parsed
  LoadedBy types (err e) = Unit

  -- The rest of a load behind its first schema.
  abbrev behind_schema :
      SchemaType lib.File
      → Value
      → Result (List (ParsedSchemaType lib.File)) × Disk
      → Result (List (ParsedSchemaType lib.File)) × Disk
  behind_schema t schema = after (λ ps. pure (record { schema_type = t; schema = schema } ∷ ps))

  pub generate_schemas-Loaded :
      (types : List (SchemaType lib.File)) (d : Disk)
      → LoadedBy types (generate_schemas pascal query lib tools types d).0
  unfolding generate_schemas
  generate_schemas-Loaded [] d = record { kinds = refl; schemas = tt }
  generate_schemas-Loaded (t ∷ ts) d =
      by_schema (tools.dereference t.url) refl (generate_schemas-Loaded ts d)
    where
      by_rest :
          (schema : Value)
          → tools.dereference t.url ≡ ok schema
          → (r : Result (List (ParsedSchemaType lib.File)) × Disk) → LoadedBy ts r.0
          → LoadedBy (t ∷ ts) (behind_schema t schema r).0
      by_rest schema e (ok ps, u) l = record {
        kinds = ap (λ xs. t ∷ xs) l.kinds;
        schemas = (e, l.schemas);
      }
      by_rest schema e (err x, u) l = tt

      by_schema :
          (r : Result Value)
          → tools.dereference t.url ≡ r
          → LoadedBy ts (generate_schemas pascal query lib tools ts d).0
          → LoadedBy
              (t ∷ ts)
              (after
                (λ schema d'.
                  behind_schema t schema (generate_schemas pascal query lib tools ts d'))
                (settled r d)).0
      by_schema (ok v) e l = by_rest v e (generate_schemas pascal query lib tools ts d) l
      by_schema (err x) e l = tt
