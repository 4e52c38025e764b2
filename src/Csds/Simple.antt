-- ===== src/Csds/Simple.antt =====
-- csds-simple-resolver/src/resolver.ts: asks the CSDS server for the domains of an account.
pub mod Lookup
use Prim.Native.String.{◌++◌}
use lp_clients.Base.{
  Bool, true, false, Option, none, some, String, str_eq, if◌then◌else◌, Task, settled, ◌>>=◌,
  Result, ok, err, type_error, List, [], ◌∷◌,
}
use lp_clients.Platform.Values.{
  property, Value, undefined, null, bool, num, str, arr, obj, Items, nil, cons, Fields, end, field,
  truthy, get, set, to_text,
}
use lp_clients.Request.{GotFn, Response, get_request}
use lp_clients.Csds.Config.{CsdsConfig}
use lp_clients.Csds.Resolver.{CsdsResponse, CsdsResolver, has_service, abstract_csds_resolver}

-- `csdsService ? `${csdsService}/` : ""`, where `null` stands for a missing service.
abbrev pub service_path : Option String → String
service_path none = ""
service_path (some s) = if str_eq s "" then "" else s ++ "/"

unfoldable pub base_uri_url : CsdsConfig → String
base_uri_url o =
    "https://"
    ++ (o.csds_domain
        ++ ("/api/account/"
            ++ (o.account_id
                ++ ("/service/" ++ (service_path o.service ++ "baseURI.json?version=1.0")))))

-- One round of the reduction: `obj[service] = baseURI`. The entry is taken apart first, which
-- throws at `null` and `undefined`; then the service is turned into the name of a property.
abbrev named : CsdsResponse → Value → Result String → Result CsdsResponse
named res uri (ok key) = ok (set key uri res)
named res uri (err e) = err e

abbrev pub add_entry : CsdsResponse → Value → Result CsdsResponse
add_entry res undefined = err (type_error "Cannot destructure property `service` of undefined")
add_entry res null = err (type_error "Cannot destructure property `service` of null")
add_entry res entry = named res (property "baseURI" entry) (to_text (property "service" entry))

abbrev then_reduce :
    (CsdsResponse → Result CsdsResponse) → Result CsdsResponse → Result CsdsResponse
then_reduce k (ok res) = k res
then_reduce k (err e) = err e

unfoldable pub reduce_entries : Items → CsdsResponse → Result CsdsResponse
unfolding to_text
reduce_entries nil res = ok res
reduce_entries (cons entry rest) res =
    then_reduce (λ r. reduce_entries rest r) (add_entry res entry)

-- `response.reduce(…, {})`, which only an array has.
abbrev reduce_value : Value → Result CsdsResponse
reduce_value (arr entries) = reduce_entries entries end
reduce_value _ = err (type_error "response.reduce is not a function")

-- What `resolve` makes of the body of the answer.
unfoldable pub read_body : Value → Result CsdsResponse
unfolding reduce_entries
read_body body =
    if truthy body
    then (if truthy (property "baseURIs" body)
        then reduce_value (property "baseURIs" body)
        else reduce_value (arr (cons body nil)))
    else ok end

module _ {W : Type 0} (send : GotFn → String → Fields → Task W Response) where
  unfoldable pub simple_resolve : CsdsConfig → Task W CsdsResponse
  simple_resolve options = do
    response ← get_request send (base_uri_url options) none
    settled (read_body response.body)

  unfoldable pub simple_csds_resolver : CsdsResolver W
  unfolding simple_resolve
  simple_csds_resolver = abstract_csds_resolver simple_resolve
