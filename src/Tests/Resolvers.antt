-- ===== src/Tests/Resolvers.antt =====
-- Runs of util-request, csds-config, csds-simple-resolver and csds-caching-resolver. The world is
-- the number of the exchanges so far, which is the clock as well.
use lp_clients.Base.{
  ℕ, suc, ◌+◌, ◌<◌, ◌≤◌, ◌==◌, ltb, ◌≡◌, refl, ◌⊎◌, inl, inr, true, false, Option, none, some, List,
  [], ◌∷◌, String, str_eq, str_eq_refl, if◌then◌else◌, Result, ok, Task, arith,
}
use lp_clients.Platform.Values.{
  Value, undefined, str, arr, obj, nil, cons, Fields, end, field, get, set, truthy,
}
use lp_clients.Request.{GotFn, get_fn, Response, request_options, do_request, get_request}
use lp_clients.Request.Retry.{Ends, asks_retry, do_request-Ends, do_request_count}
use lp_clients.Csds.Config.{CsdsConfigBase, CsdsConfig}
use lp_clients.Csds.Resolver.{CsdsResponse, resolve_service}
use lp_clients.Csds.Simple.{read_body, simple_resolve, base_uri_url}
use lp_clients.Csds.Simple.Lookup.{CsdsEntry, Lists, many, resolve_service-last_uri}
use lp_clients.Csds.Caching.{Memoizer, kept_of, caching_resolve}
use lp_clients.Csds.Caching.Sharing.{caching_resolve_mixes}

abbrev entries : List CsdsEntry
entries =
    record { service = "agentVep"; account = "a"; base_uri = "vep.example.com" }
    ∷ record { service = "idp"; account = "a"; base_uri = "idp.example.com" }
    ∷ []

abbrev listing : Value
listing = obj (
    field "baseURIs"
      (arr (
        cons
          (obj (
            field "service" (str "agentVep")
              (field "account" (str "a") (field "baseURI" (str "vep.example.com") end))))
          (cons
            (obj (
              field "service" (str "idp")
                (field "account" (str "a") (field "baseURI" (str "idp.example.com") end))))
            nil)))
      end)

abbrev response_of : String → Response
response_of code = record {
  body = listing;
  status_code = code;
  status_message = undefined;
  headers = end;
}

-- A server that is unavailable at the first exchange.
abbrev server : GotFn → String → Fields → Task ℕ Response
server f url options w = (ok (response_of (if w == 0 then "503" else "200")), suc w)

do_request-Ends_example :
    Ends server "https://a" get_fn
      (request_options none)
      (do_request server get_fn "https://a" none 0)
do_request-Ends_example = do_request-Ends server get_fn "https://a" none 0

do_request_count_example :
    (do_request server get_fn "https://a" none 0).1
    ≡ 0
      + (if asks_retry server (server get_fn "https://a" (request_options none) 0).0 then 2 else 1)
do_request_count_example =
    do_request_count server (λ w. w) (λ f url options w. refl) get_fn "https://a" none 0

abbrev base : CsdsConfigBase
base = record { account_id = "le1"; csds_domain = none; service = some "idp" }

abbrev config : CsdsConfig
config = record { account_id = "a"; csds_domain = "csds.example.com"; service = some "idp" }

listed : Lists listing entries
unfolding get
listed = many refl

fetched : get_request server (base_uri_url config) none 1 ≡ (ok (response_of "200"), 2)
unfolding get_request do_request
fetched = refl

resolve_service-last_uri_example :
    resolve_service (simple_resolve server) config 1 ≡ (ok (str "idp.example.com"), 2)
resolve_service-last_uri_example =
    resolve_service-last_uri server config 1 2 (response_of "200") fetched listed

-- A cache that maps keys to results.
abbrev Kept : Type 0
Kept = String → Option (CsdsResponse × ℕ)

abbrev called :
    (CsdsConfig → Task ℕ CsdsResponse) → String → CsdsConfig → Task (ℕ × Kept) CsdsResponse
called fn key o (w, c) =
    ((fn o w).0, ((fn o w).1, λ k. if str_eq k key then kept_of (fn o w).0 w else c k))

abbrev recalled :
    (CsdsConfig → Task ℕ CsdsResponse)
    → ℕ
    → String
    → CsdsConfig
    → Option (CsdsResponse × ℕ)
    → Task (ℕ × Kept) CsdsResponse
recalled fn age key o none s = called fn key o s
recalled fn age key o (some (r, t)) (w, c) =
    if ltb w (t + age) then (ok r, (w, c)) else called fn key o (w, c)

abbrev memoized :
    (CsdsConfig → Task ℕ CsdsResponse)
    → ℕ
    → (CsdsConfig → String)
    → CsdsConfig
    → Task (ℕ × Kept) CsdsResponse
memoized fn age key o (w, c) = recalled fn age (key o) o (c (key o)) (w, c)

recalled_again :
    (fn : CsdsConfig → Task ℕ CsdsResponse) (age : ℕ) (key : String) (o : CsdsConfig) (w : ℕ)
    (c : Kept) (r : CsdsResponse) (t : ℕ)
    → c key ≡ some (r, t)
    → w < t + age
    → recalled fn age key o (c key) (w, c) ≡ (ok r, (w, c))
recalled_again fn age key o w c r t e soon =
    let within : ltb w (t + age) ≡ true = ground arith in rw (e, within) refl

recalled_miss :
    (fn : CsdsConfig → Task ℕ CsdsResponse) (age : ℕ) (key : String) (o : CsdsConfig) (w : ℕ)
    (c : Kept)
    → (c key ≡ none) ⊎ ((r : CsdsResponse) × (t : ℕ) × (c key ≡ some (r, t)) × (t + age ≤ w))
    → (c' : Kept) × (recalled fn age key o (c key) (w, c) ≡ ((fn o w).0, ((fn o w).1, c')))
      × (c' key ≡ kept_of (fn o w).0 w)
recalled_miss fn age key o w c (inl e) =
    rw e ((called fn key o (w, c)).1.1, refl, rw (str_eq_refl key) refl)
recalled_miss fn age key o w c (inr (r, t, e, late)) =
    let over : ltb w (t + age) ≡ false = ground arith in
    rw (e, over) ((called fn key o (w, c)).1.1, refl, rw (str_eq_refl key) refl)

abbrev memoizer : Memoizer ℕ
memoizer = record {
  Cache = Kept;
  now = λ w. w;
  kept = λ c k. c k;
  memorize = memoized;
  fresh_hit = λ fn age key o w c r t e soon. recalled_again fn age (key o) o w c r t e soon;
  miss = λ fn age key o w c h. recalled_miss fn age (key o) o w c h;
}

abbrev nothing_kept : Kept
nothing_kept key = none

abbrev idp_simple : Result CsdsResponse × ℕ
idp_simple = simple_resolve server config 1

abbrev idp_entries : CsdsResponse
idp_entries = field "agentVep" (str "vep.example.com") (field "idp" (str "idp.example.com") end)

idp_resolved : idp_simple.0 ≡ ok idp_entries
unfolding simple_resolve get_request do_request read_body truthy get set
idp_resolved = refl

caching_resolve_mixes_example :
    let p : CsdsConfig = record {
      account_id = "a_idp";
      csds_domain = "other.example.com";
      service = none;
    } in
    (c' : Kept) × (caching_resolve memoizer server 600000 config (1, nothing_kept)
      ≡ (ok idp_entries, (idp_simple.1, c')))
    × (caching_resolve memoizer server 600000 p (5, c') ≡ (ok idp_entries, (5, c')))
caching_resolve_mixes_example =
    caching_resolve_mixes memoizer server 600000 "a" "idp" "csds.example.com" "other.example.com" 1
      5 nothing_kept idp_entries (λ e. cc) refl idp_resolved (omega arith)
