-- ===== src/Generate/Whole.antt =====
-- ums-generated/build/generate_interfaces.ts: a run of the generators for several schemas.
use Prim.Native.String.{◌++◌ as ◌+++◌}
use lp_clients.Base.{
  ◌≡◌, refl, false, some, List, [], ◌∷◌, map, String, str_eq, All, All-map, ok, Task, Option, ℕ,
}
use lp_clients.Platform.Values.{Value}
use lp_clients.Generate.Structures.{Declaration, SourceFiles}
use lp_clients.Generate.Common.{i_send_type_name, i_response_type_name, notification_type_name}
use lp_clients.Generate.Wrappers.{
  custom_consumer_request_data, custom_consumer_response_data, custom_notification_data,
  custom_agent_response_data,
}
use lp_clients.Generate.Declares.{interface_names}
use lp_clients.Generate.Complete.{
  Grows, Needs, Completes, requests_complete, responses_complete, notifications_complete,
  agent_responses_complete,
}
use lp_clients.Generate.Main.{Tools, ParsedSchemaType, base_of, run_generators}

-- The generators for the kinds of schemas.
pub data Kind : Type 0 where
  of_requests of_responses of_notifications of_agent_responses : Kind

abbrev pub parent_of : Kind → String
parent_of of_requests = i_send_type_name
parent_of of_responses = i_response_type_name
parent_of of_notifications = notification_type_name
parent_of of_agent_responses = i_response_type_name

-- A schema that is loaded.
pub record Job : Type 0 where
  pub kind : Kind
  pub url : String
  pub schema : Value

module _ (pascal : String → Option ℕ → String) (query : Value → String → List String)
    (lib : SourceFiles) (tools : Tools lib.File) where
  open lib use {File, declarations}

  abbrev pub generator : Kind → String → Value → Task File (Unit {0})
  generator of_requests = custom_consumer_request_data pascal query lib
  generator of_responses = custom_consumer_response_data pascal query lib
  generator of_notifications = custom_notification_data pascal query lib
  generator of_agent_responses = custom_agent_response_data pascal query lib

  abbrev pub parsed : Job → ParsedSchemaType File
  parsed j = record {
    schema_type = record { url = j.url; fn = some (generator j.kind) };
    schema = j.schema;
  }

  abbrev pub base : Job → String
  base j = base_of pascal query lib tools j.url

  abbrev pub event : Job → String
  event j = base j +++ "Event"

  generator-Completes :
      (k : Kind) (b : String) (schema : Value) (f : File)
      → Needs pascal query lib b (parent_of k) schema (declarations f)
      → Completes pascal query lib (b +++ "Event") (generator k b schema) f
  generator-Completes of_requests = requests_complete pascal query lib
  generator-Completes of_responses = responses_complete pascal query lib
  generator-Completes of_notifications = notifications_complete pascal query lib
  generator-Completes of_agent_responses = agent_responses_complete pascal query lib

  -- What the jobs need, each of them and of the ones before it.
  abbrev pub Ready : List Job → List Declaration → Type 0
  Ready [] ds = Unit
  Ready (j ∷ js) ds =
      Needs pascal query lib (base j) (parent_of j.kind) j.schema ds
      × All (λ k. str_eq (event j) (event k) ≡ false) js
      × Ready js ds

  Grows-Ready :
      (e : String) (ds es : List Declaration)
      → Grows e ds es
      → (js : List Job) → All (λ k. str_eq e (event k) ≡ false) js
      → Ready js ds
      → Ready js es
  Grows-Ready e ds es grows [] a r = tt
  Grows-Ready e ds es grows (j ∷ js) (differs, a) (needs, others, r) = (
    record {
      stable = needs.stable;
      based = grows.keeps (parent_of j.kind) needs.based;
      events = All-map (λ n. grows.keeps n) (interface_names pascal query j.schema) needs.events;
      unnamed = grows.fresh (event j) differs needs.unnamed;
    },
    others,
    Grows-Ready e ds es grows js a r,
  )

  pub jobs_complete :
      (js : List Job) (f : File)
      → Ready js (declarations f)
      → (h : File) × (run_generators pascal query lib tools (map parsed js) f ≡ (ok tt, h))
  unfolding run_generators
  jobs_complete [] f r = (f, refl)
  jobs_complete (j ∷ js) f (needs, others, r) =
      let (g, run, grows) = generator-Completes j.kind (base j) j.schema f needs in
      let (h, rest) =
        jobs_complete js g
          (Grows-Ready (event j) (declarations f) (declarations g) grows js others r) in
      (h, rw run rest)
