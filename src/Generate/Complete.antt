-- ===== src/Generate/Complete.antt =====
-- ums-generated/build/generate_interfaces.ts: a run of all generators that succeeds.
use Prim.Native.String.{◌++◌ as ◌+++◌}
use lp_clients.Base.{
  ℕ, ◌≡◌, refl, sym, ap, ◌∙◌, subst, true, false, Option, none, some, is_some, List, [], ◌∷◌, ◌++◌,
  map, String, str_eq, eq_iff, arith, All, ok, Task, Bool-cases, inl, inr,
}
use lp_clients.Platform.Values.{Value}
use lp_clients.Generate.Structures.{
  Declaration, Interface, SourceFiles, find_interface, find_enum, interface_declaration,
  extend_first,
}
use lp_clients.Generate.Common.{
  query_events, alias_of_events, enum_of_events, alias_of_types, lists_of_events, common_data,
  i_send_type_name, i_response_type_name, notification_type_name,
}
use lp_clients.Generate.Typings.{add_all}
use lp_clients.Generate.Wrappers.{
  custom_consumer_request_data, custom_consumer_response_data, custom_notification_data,
  custom_agent_response_data, wrapper_interface, request_method, response_mapping,
  sender_constraint, constructor_alias, wrapper_constructor_alias,
}
use lp_clients.Generate.Lookup.{
  Declared, or_else, find_interface-append, find_enum-append, find_enum-extend_first, with_parent,
  find_interface-extend_first, find_interface-extend_first-other,
}
use lp_clients.Generate.Extends.{Extends, Extends-declared}
use lp_clients.Generate.Declares.{
  interface_names, common_declarations, common_data-declares, declarations-add_all,
}
use lp_clients.Generate.Handlers.{events_parent, custom_notification_data_complete}

-- Declarations that come behind others take no interface away.
pub Declared-before :
    (n : String) (ds es : List Declaration) → Declared ds n → Declared (ds ++ es) n
Declared-before n ds es h = rw (find_interface-append n ds es) (kept (find_interface n ds) h)
  where
    kept :
        (o : Option Interface) → is_some o ≡ true → is_some (or_else o (find_interface n es)) ≡ true
    kept (some i) h = refl
    kept none h = absurd (ground (arith, h))

Declared-extend_first :
    (n name parent : String) (ds : List Declaration)
    → Declared ds n
    → Declared (extend_first name parent ds) n
Declared-extend_first n name parent ds h = elim (Bool-cases (str_eq name n)) [
  | inl e ↦
      subst (λ m. Declared (extend_first m parent ds) n) (sym ((eq_iff name n).0 e))
        (rw (find_interface-extend_first n parent ds) (kept (find_interface n ds) h))
  | inr e ↦ rw (find_interface-extend_first-other n name parent ds e) h
]
  where
    kept : (o : Option Interface) → is_some o ≡ true → is_some (with_parent parent o) ≡ true
    kept (some i) h = refl
    kept none h = absurd (ground (arith, h))

-- What a generator does to the names that the next ones look up: interfaces stay, and no
-- enumeration comes but one.
pub record Grows (event : String) (ds es : List Declaration) : Type 0 where
  pub keeps : (n : String) → Declared ds n → Declared es n
  pub fresh : (n : String) → str_eq event n ≡ false → find_enum n ds ≡ none → find_enum n es ≡ none

Grows-append :
    (event : String) (ds es : List Declaration)
    → ((n : String) → str_eq event n ≡ false → find_enum n es ≡ none)
    → Grows event ds (ds ++ es)
Grows-append event ds es h = record {
  keeps = λ n. Declared-before n ds es;
  fresh = λ n e f. find_enum-append n ds es ∙ ap (λ o. or_else o (find_enum n es)) f ∙ h n e;
}

Grows-trans :
    (event : String) (ds es fs : List Declaration)
    → Grows event ds es
    → Grows event es fs
    → Grows event ds fs
Grows-trans event ds es fs a b = record {
  keeps = λ n d. b.keeps n (a.keeps n d);
  fresh = λ n e f. b.fresh n e (a.fresh n e f);
}

Grows-extend_first :
    (event name parent : String) (ds : List Declaration)
    → Grows event ds (extend_first name parent ds)
Grows-extend_first event name parent ds = record {
  keeps = λ n. Declared-extend_first n name parent ds;
  fresh = λ n e f. find_enum-extend_first n name parent ds ∙ f;
}

module _ (pascal : String → Option ℕ → String) (query : Value → String → List String)
    (lib : SourceFiles) where
  open lib use {File, declarations}

  Extends-Grows :
      (names : List String) (parent event : String) (f g : File)
      → Extends lib names parent f g
      → Grows event (declarations f) (declarations g)
  Extends-Grows names parent event f g a = record {
    keeps = λ n d. Extends-declared lib names parent f g a n ∙ d;
    fresh = λ n e h. a.enums n ∙ h;
  }

  common_fresh :
      (base n : String) (schema : Value)
      → pascal base none ≡ base
      → str_eq (base +++ "Event") n ≡ false
      → find_enum n (common_declarations pascal query base schema) ≡ none
  unfolding find_enum alias_of_events enum_of_events alias_of_types lists_of_events
  common_fresh base n schema stable e = rw (stable, e) refl

  -- What a generator needs: its parent, the interfaces of its events, and no enumeration for them.
  pub record Needs (base parent : String) (schema : Value) (ds : List Declaration) : Type 0 where
    pub stable : pascal base none ≡ base
    pub based : Declared ds parent
    pub events : All (Declared ds) (interface_names pascal query schema)
    pub unnamed : find_enum (base +++ "Event") ds ≡ none

  -- A generator that succeeds.
  abbrev pub Completes : String → Task File (Unit {0}) → File → Type 0
  Completes event task f =
      (h : File) × (task f ≡ (ok tt, h)) × Grows event (declarations f) (declarations h)

  common_data-Grows :
      (base parent : String) (schema : Value) (f : File)
      → Needs base parent schema (declarations f)
      → (h : File) × (common_data pascal query lib base schema parent f
          ≡ (ok (query_events query schema), h))
        × Grows (base +++ "Event") (declarations f) (declarations h)
  common_data-Grows base parent schema f needs =
      let (g, h, run, extends, added) =
        common_data-declares pascal query lib base schema parent f needs.based needs.events in
      (
        h,
        run,
        Grows-trans (base +++ "Event") (declarations f) (declarations g) (declarations h)
            (Extends-Grows (interface_names pascal query schema) parent (base +++ "Event") f g
              extends)
            (subst (Grows (base +++ "Event") (declarations g)) (sym added) (
              Grows-append (base +++ "Event") (declarations g) _
                (λ n. common_fresh base n schema needs.stable))),
      )

  pub requests_complete :
      (base : String) (schema : Value) (f : File)
      → Needs base i_send_type_name schema (declarations f)
      → Completes (base +++ "Event") (custom_consumer_request_data pascal query lib base schema) f
  unfolding custom_consumer_request_data
  requests_complete base schema f needs =
      let (h, run, grows) = common_data-Grows base i_send_type_name schema f needs in
      (h, rw run refl, grows)

  pub agent_responses_complete :
      (base : String) (schema : Value) (f : File)
      → Needs base i_response_type_name schema (declarations f)
      → Completes (base +++ "Event") (custom_agent_response_data pascal query lib base schema) f
  unfolding custom_agent_response_data
  agent_responses_complete base schema f needs =
      let (h, run, grows) = common_data-Grows base i_response_type_name schema f needs in
      (h, rw run refl, grows)

  pub responses_complete :
      (base : String) (schema : Value) (f : File)
      → Needs base i_response_type_name schema (declarations f)
      → Completes (base +++ "Event") (custom_consumer_response_data pascal query lib base schema) f
  unfolding custom_consumer_response_data add_all find_enum constructor_alias
      wrapper_constructor_alias
  responses_complete base schema f needs =
      let (h, run, grows) = common_data-Grows base i_response_type_name schema f needs in
      let behind : List Declaration =
        interface_declaration
          (wrapper_interface base (map (request_method pascal "ConsumerRequests") response_mapping))
        ∷ constructor_alias base (sender_constraint "ConsumerRequests" base)
        ∷ wrapper_constructor_alias base
        ∷ [] in
      (
        add_all lib behind h,
        rw run refl,
        Grows-trans (base +++ "Event") (declarations f) (declarations h) _ grows (
            subst (Grows (base +++ "Event") (declarations h))
              (sym (declarations-add_all lib behind h))
              (Grows-append (base +++ "Event") (declarations h) behind (λ n e. refl))),
      )

  pub notifications_complete :
      (base : String) (schema : Value) (f : File)
      → Needs base notification_type_name schema (declarations f)
      → Completes (base +++ "Event") (custom_notification_data pascal query lib base schema) f
  unfolding find_enum constructor_alias wrapper_constructor_alias
  notifications_complete base schema f needs =
      let (g, h, run, extends, added) =
        custom_notification_data_complete query pascal lib base schema f needs.stable needs.unnamed
          needs.based needs.events in
      let event : String = base +++ "Event" in
      let plain : List Declaration =
        declarations g ++ common_declarations pascal query base schema in
      let extended : List Declaration =
        extend_first ("I" +++ (base +++ "Type")) (events_parent base) plain in
      (
        h,
        run,
        subst (Grows event (declarations f)) (sym added) (
            Grows-trans event (declarations f) (declarations g) _
              (Extends-Grows (interface_names pascal query schema) notification_type_name event f g
                extends)
              (Grows-trans event (declarations g) plain _
                (Grows-append event (declarations g) _
                  (λ n. common_fresh base n schema needs.stable))
                (Grows-trans event plain extended _
                  (Grows-extend_first event ("I" +++ (base +++ "Type")) (events_parent base) plain)
                  (Grows-append event extended _ (λ n e. refl))))),
      )
