-- ===== src/Generate/Declares.antt =====
-- ums-generated/build/generate_interfaces.ts: what `commonData` declares, and when it succeeds.
use lp_clients.Base.{
  ℕ, ◌≡◌, refl, sym, ap, ◌∙◌, Option, none, List, [], ◌∷◌, ◌++◌, map, String, arith, Option-cases,
  All, ok, Task, inl, inr, ◌>>◌, subst, >>=-eq-ok,
}
use mathlib.Core.List.{append-nil, append_assoc}
use lp_clients.Platform.Values.{Value}
use lp_clients.Generate.Structures.{
  Declaration, interface_declaration, Interface, SourceFiles, find_interface, get_interface,
}
use lp_clients.Generate.Common.{
  query_events, mappings_of, Mapping, alias_of_events, enum_of_events, interface_of_events,
  alias_of_types, lists_of_events, extend_events, common_data,
}
use lp_clients.Generate.Typings.{add_all}
use lp_clients.Generate.Lookup.{Declared}
use lp_clients.Generate.Extends.{Extends, extend_events-Extends, extend_events-Declared}

pub declarations-add_all :
    (lib : SourceFiles) (ds : List Declaration) (f : lib.File)
    → lib.declarations (add_all lib ds f) ≡ lib.declarations f ++ ds
unfolding add_all
declarations-add_all lib [] f = sym (append-nil (lib.declarations f))
declarations-add_all lib (d ∷ ds) f =
    declarations-add_all lib ds (lib.add d f)
    ∙ ap (λ t. t ++ ds) (lib.declarations-add d f)
    ∙ append_assoc (lib.declarations f) (d ∷ []) ds

pub get_interface-Declared :
    (lib : SourceFiles) (name : String) (f g : lib.File) (i : Interface)
    → get_interface lib name f ≡ (ok i, g)
    → Declared (lib.declarations f) name × (g ≡ f)
unfolding get_interface
get_interface-Declared lib name f g i e = ground arith

module _ (pascal : String → Option ℕ → String) (query : Value → String → List String) where
  -- The names of the interfaces of the events.
  abbrev pub interface_names : Value → List String
  interface_names schema = map (λ event. pascal event none) (query_events query schema)

  -- What is declared for a schema behind its interfaces.
  abbrev pub common_declarations : String → Value → List Declaration
  common_declarations base schema =
      let events : List String = query_events query schema in
      let mappings : List Mapping = mappings_of query schema events in
      alias_of_events pascal base events
      ∷ enum_of_events pascal base mappings
      ∷ interface_declaration (interface_of_events pascal base mappings)
      ∷ alias_of_types pascal base mappings
      ∷ lists_of_events pascal base events mappings
      ∷ []

  module _ (lib : SourceFiles) where
    open lib use {File, declarations}

    common_data_run :
        (base : String) (schema : Value) (parent : String) (f g : File)
        → Declared (declarations f) parent
        → extend_events lib (interface_names schema) parent f ≡ (ok tt, g)
        → common_data pascal query lib base schema parent f
          ≡ (ok (query_events query schema), add_all lib (common_declarations base schema) g)
    unfolding common_data add_all get_interface
    common_data_run base schema parent f g d e =
        elim (Option-cases (find_interface parent (declarations f))) [
          | inl n ↦ absurd (ground (arith, n))
          | inr (i, s) ↦ rw (s, e) refl
        ]

    -- If the parent and the interfaces of all events are there, `commonData` returns the events of the
    -- schema. Of the interfaces of the events, those that extend nothing then extend the parent,
    -- all other interfaces and the enumerations are as before, and behind all declarations stand
    -- those of the schema.
    pub common_data-declares :
        (base : String) (schema : Value) (parent : String) (f : File)
        → Declared (declarations f) parent
        → All (Declared (declarations f)) (interface_names schema)
        → (g h : File) × (common_data pascal query lib base schema parent f
            ≡ (ok (query_events query schema), h))
          × Extends lib (interface_names schema) parent f g
          × (declarations h ≡ declarations g ++ common_declarations base schema)
    common_data-declares base schema parent f d all =
        let extended : (g : File) × (extend_events lib (interface_names schema) parent f
              ≡ (ok tt, g))
            × Extends lib (interface_names schema) parent f g =
          extend_events-Extends lib (interface_names schema) parent f all in
        (
          extended.0,
          add_all lib (common_declarations base schema) extended.0,
          common_data_run base schema parent f extended.0 d extended.1,
          extended.2,
          declarations-add_all lib (common_declarations base schema) extended.0,
        )

    abbrev declares : String → Value → Task File (List String)
    declares base schema f =
        (ok (query_events query schema), add_all lib (common_declarations base schema) f)

    -- If `commonData` does not throw, the parent and the interfaces of all events were there.
    pub common_data-Declared :
        (base : String) (schema : Value) (parent : String) (f h : File) (events : List String)
        → common_data pascal query lib base schema parent f ≡ (ok events, h)
        → Declared (declarations f) parent
          × All (Declared (declarations f)) (interface_names schema)
    unfolding common_data get_interface add_all
    common_data-Declared base schema parent f h events e =
        let found : (i : Interface) × (g : File) × (get_interface lib parent f ≡ (ok i, g))
            × ((extend_events lib (interface_names schema) parent >> declares base schema) g
                ≡ (ok events, h)) =
          >>=-eq-ok (get_interface lib parent)
            (λ i. extend_events lib (interface_names schema) parent >> declares base schema) f e in
        let extended : (u : Unit {0}) × (g : File) × (extend_events lib (interface_names schema)
                parent found.1
              ≡ (ok u, g))
            × (declares base schema g ≡ (ok events, h)) =
          >>=-eq-ok (extend_events lib (interface_names schema) parent) (λ u. declares base schema)
            found.1 found.3 in
        let here : Declared (declarations f) parent × (found.1 ≡ f) =
          get_interface-Declared lib parent f found.1 found.0 found.2 in
        (
          here.0,
          subst (λ k. All (Declared (declarations k)) (interface_names schema)) here.1
              (extend_events-Declared lib (interface_names schema) parent found.1 extended.1
                extended.2),
        )
