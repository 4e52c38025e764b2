-- ===== src/Generate/Checked.antt =====
-- ums-generated: the declarations that build/generate_interfaces.ts adds for the schemas of the
-- service, against those in generated/index.ts.
use Prim.Native.String.{◌++◌ as ◌+++◌}
use lp_clients.Base.{ℕ, suc, ◌≡◌, refl, ap, Option, none, some, List, [], ◌∷◌, map, String, ◌∙◌}
use lp_clients.Platform.Values.{Value}
use lp_clients.Generate.Structures.{
  Declaration, interface_declaration, type_alias, enum_declaration, const_statement, join_texts,
}
use lp_clients.Generate.Common.{
  Mapping, quoted, name_text, query_events, query_event_name, mappings_of, pascal_each,
  alias_of_events, enum_of_events, interface_of_events, alias_of_types, lists_of_events,
}
use lp_clients.Generate.Wrappers.{notification_method}
use lp_clients.Generate.Declares.{common_declarations}

-- What is known of a schema whose events are of the type `E`: their names, the Pascal case of these,
-- and their types on the wire.
pub record SchemaFacts {E : Type 0} (pascal : String → Option ℕ → String)
    (query : Value → String → List String) (schema : Value) (base : String)
    (name pascal_name wire_type : E → String) (es : List E) : Type 0 where
  pub base_stable : pascal base none ≡ base
  pub titles : query_events query schema ≡ map name es
  pub spelled : (e : E) (locale : Option ℕ) → pascal (name e) locale ≡ pascal_name e
  pub typed : (e : E) → query_event_name query schema (name e) ≡ some (wire_type e)

module _ {E : Type 0} {pascal : String → Option ℕ → String} {query : Value → String → List String}
    {schema : Value} {base : String} {name pascal_name wire_type : E → String} {es : List E}
    (facts : SchemaFacts pascal query schema base name pascal_name wire_type es) where
  -- The declarations for such a schema, without the libraries.
  abbrev pub plain_mappings : List E → List Mapping
  plain_mappings xs = map (λ e. (name e, some (wire_type e))) xs

  pascal_each-names :
      (xs : List E) (i : ℕ) → pascal_each pascal i (map name xs) ≡ map pascal_name xs
  unfolding pascal_each
  pascal_each-names [] i = refl
  pascal_each-names (x ∷ xs) i = rw (facts.spelled x (some i), pascal_each-names xs (suc i)) refl

  mappings_of-names : (xs : List E) → mappings_of query schema (map name xs) ≡ plain_mappings xs
  unfolding mappings_of
  mappings_of-names [] = refl
  mappings_of-names (x ∷ xs) =
      ap (λ o. (name x, o) ∷ mappings_of query schema (map name xs)) (facts.typed x)
      ∙ ap (λ ms. (name x, some (wire_type x)) ∷ ms) (mappings_of-names xs)

  abbrev pub plain_properties : List E → List (String × String)
  plain_properties xs = map (λ e. (quoted (wire_type e), pascal_name e)) xs

  abbrev pub property_of : Mapping → String × String
  property_of m = (quoted (name_text m.1), pascal m.0 none)

  pascal_properties : (xs : List E) → map property_of (plain_mappings xs) ≡ plain_properties xs
  pascal_properties [] = refl
  pascal_properties (x ∷ xs) =
      ap (λ n. (quoted (wire_type x), n) ∷ map property_of (plain_mappings xs))
        (facts.spelled x none)
      ∙ ap (λ ps. (quoted (wire_type x), pascal_name x) ∷ ps) (pascal_properties xs)

  abbrev pub plain_declarations : List E → List Declaration
  plain_declarations xs =
      type_alias base [] (join_texts " | " (map pascal_name xs))
      ∷ enum_declaration (base +++ "Event") (plain_mappings xs)
      ∷ interface_declaration (record {
        name = "I" +++ (base +++ "Type");
        type_parameters = [];
        extends = [];
        properties = plain_properties xs;
        methods = [];
      })
      ∷ type_alias (base +++ "Type") []
          (join_texts " | " (map (λ m. quoted (name_text m.1)) (plain_mappings xs)))
      ∷ const_statement (
          (base +++ "Events", "[" +++ (join_texts ", " (map quoted (map name xs)) +++ "]"))
          ∷ (
            base +++ "Types",
            "["
                +++ (join_texts ", " (map (λ m. quoted (name_text m.1)) (plain_mappings xs))
                    +++ "]"),
          )
          ∷ [])
      ∷ []

  pub common_declarations-plain :
      common_declarations pascal query base schema ≡ plain_declarations es
  unfolding alias_of_events enum_of_events interface_of_events alias_of_types lists_of_events
  common_declarations-plain =
      rw
        (
          facts.titles,
          mappings_of-names es,
          facts.base_stable,
          pascal_each-names es 0,
          pascal_properties es,
        )
        refl

  pub methods_of_names :
      (xs : List E)
      → map (notification_method pascal base) (map name xs)
        ≡ map (λ e. notification_method (λ s locale. pascal_name e) base (name e)) xs
  unfolding notification_method
  methods_of_names [] = refl
  methods_of_names (x ∷ xs) = rw (facts.spelled x none, methods_of_names xs) refl
