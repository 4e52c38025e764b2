-- ===== src/Csds/Simple/Lookup.antt =====
-- csds-simple-resolver/src/resolver.ts: which domain the resolver gives for a service.
use lp_clients.Base.{◌≡◌, refl, false, none, String, str_eq, if◌then◌else◌, Task, ok, List, [], ◌∷◌}
use lp_clients.Platform.Values.{
  Value, undefined, str, arr, obj, Items, nil, cons, Fields, end, field, get, set, truthy,
}
use lp_clients.Platform.Values.Objects.{get-set}
use lp_clients.Request.{GotFn, Response, get_request}
use lp_clients.Csds.Config.{CsdsConfig}
use lp_clients.Csds.Resolver.{CsdsResponse, service_key, resolve_service}
use lp_clients.Csds.Simple.{base_uri_url, reduce_entries, read_body, simple_resolve}

-- `ICsdsEntry`
pub record CsdsEntry : Type 0 where
  pub service : String
  pub account : String
  pub base_uri : String

abbrev pub entry_value : CsdsEntry → Value
entry_value e = obj (
    field "service" (str e.service)
      (field "account" (str e.account) (field "baseURI" (str e.base_uri) end)))

abbrev pub entry_items : List CsdsEntry → Items
entry_items [] = nil
entry_items (e ∷ es) = cons (entry_value e) (entry_items es)

-- The base URI of the last entry for the service.
abbrev pub last_uri : String → List CsdsEntry → Value → Value
last_uri s [] found = found
last_uri s (e ∷ es) found = last_uri s es (if str_eq e.service s then str e.base_uri else found)

pub reduce_entries-last_uri :
    (s : String) (es : List CsdsEntry) (res : CsdsResponse)
    → (out : CsdsResponse) × (reduce_entries (entry_items es) res ≡ ok out)
      × (get s out ≡ last_uri s es (get s res))
unfolding reduce_entries get
reduce_entries-last_uri s [] res = (res, refl, refl)
reduce_entries-last_uri s (e ∷ es) res =
    rw (← get-set e.service s (str e.base_uri) res)
      (reduce_entries-last_uri s es (set e.service (str e.base_uri) res))

-- The answers of the CSDS server: all services of an account, the entry of one service, or nothing.
pub data Lists : Value → List CsdsEntry → Type 0 where
  many :
      {fs : Fields} {es : List CsdsEntry}
      → get "baseURIs" fs ≡ arr (entry_items es)
      → Lists (obj fs) es
  one : {e : CsdsEntry} {v : Value} → v ≡ entry_value e → Lists v (e ∷ [])
  empty : {v : Value} → truthy v ≡ false → Lists v []

read_body-last_uri :
    (s : String) {v : Value} {es : List CsdsEntry}
    → Lists v es
    → (out : CsdsResponse) × (read_body v ≡ ok out) × (get s out ≡ last_uri s es undefined)
unfolding read_body truthy get
read_body-last_uri s (many {es} e) = rw e (reduce_entries-last_uri s es end)
read_body-last_uri s (one {e} p) = rw p (reduce_entries-last_uri s (e ∷ []) end)
read_body-last_uri s (empty h) = rw h (end, refl, refl)

module _ {W : Type 0} (send : GotFn → String → Fields → Task W Response) where
  -- If the server's answer lists entries, the service resolves to the base URI of the last entry
  -- that names it, and to `undefined` if none does; nothing is sent but that one request.
  pub resolve_service-last_uri :
      (o : CsdsConfig) (w w' : W) (r : Response) {es : List CsdsEntry}
      → get_request send (base_uri_url o) none w ≡ (ok r, w')
      → Lists r.body es
      → resolve_service (simple_resolve send) o w
        ≡ (ok (last_uri (service_key o.service) es undefined), w')
  unfolding resolve_service simple_resolve
  resolve_service-last_uri o w w' r {es} sent lists =
      let (out, read, found) = read_body-last_uri (service_key o.service) lists in
      rw (sent, read, found)
