-- ===== src/Csds/Resolver.antt =====
-- csds-resolver/src/resolver.ts: the interface of the resolvers, and what the abstract class adds.
use lp_clients.Base.{Bool, Option, none, some, is_some, String, Task, ◌>>=◌, pure}
use lp_clients.Platform.Values.{Value, Fields, get}
use lp_clients.Csds.Config.{CsdsConfig}

-- `CsdsResponse`, a dictionary from services to domains, is an object. A look-up of a name that is
-- not there gives `undefined`; the names of `Object.prototype` count as ordinary names.
abbrev pub CsdsResponse : Type 0
CsdsResponse = Fields

-- `ICsdsResolver`, over the world `W` that its methods change.
pub record CsdsResolver (W : Type 0) : Type 0 where
  pub resolve : CsdsConfig → Task W CsdsResponse
  pub resolve_service : CsdsConfig → Task W Value

unfoldable pub has_service : CsdsConfig → Bool
has_service options = is_some options.service

-- The key `config.service`: a missing property reads as "undefined".
abbrev pub service_key : Option String → String
service_key none = "undefined"
service_key (some s) = s

-- `resolveService`, over the method `resolve` of the object.
unfoldable pub resolve_service :
    {W : Type 0} → (CsdsConfig → Task W CsdsResponse) → CsdsConfig → Task W Value
resolve_service resolve config = do
  response ← resolve config
  pure (get (service_key config.service) response)

-- What a subclass of `AbstractCsdsResolver` is, once it defines `resolve`.
unfoldable pub abstract_csds_resolver :
    {W : Type 0} → (CsdsConfig → Task W CsdsResponse) → CsdsResolver W
unfolding resolve_service
abstract_csds_resolver resolve = record {
  resolve = resolve;
  resolve_service = resolve_service resolve;
}
