-- ===== src/Csds/Caching.antt =====
-- csds-caching-resolver/src/resolver.ts: the simple resolver behind a cache. The library `mem`
-- is the parameter `Memoizer`, with the laws that its documentation gives.
pub mod Sharing
use Prim.Native.String.{◌++◌}
use lp_clients.Base.{
  ℕ, ◌+◌, ◌*◌, ◌≤◌, ◌<◌, ◌≡◌, ◌≢◌, ◌⊎◌, Bool, true, false, Option, none, some, String, str_eq,
  if◌then◌else◌, Task, Result, ok, err,
}
use lp_clients.Request.{GotFn, Response}
use lp_clients.Platform.Values.{Fields}
use lp_clients.Csds.Config.{CsdsConfig}
use lp_clients.Csds.Resolver.{CsdsResponse, CsdsResolver, abstract_csds_resolver}
use lp_clients.Csds.Simple.{simple_resolve}

-- What is kept of the result of a call.
abbrev pub kept_of : Result CsdsResponse → ℕ → Option (CsdsResponse × ℕ)
kept_of (ok r) t = some (r, t)
kept_of (err e) t = none

-- `mem`: a memoised function keeps, under the key of its argument, what a call resolved with, and the
-- time of the call. Within the maximal age the kept value is returned and the function is not
-- called; otherwise it is called, and what it resolves with is kept. A rejection is not kept, as the
-- option `cachePromiseRejection` is false by default. `W` is the world, with the clock `now`.
pub record Memoizer (W : Type 0) : Type 1 where
  pub Cache : Type 0
  pub now : W → ℕ
  pub kept : Cache → String → Option (CsdsResponse × ℕ)
  pub memorize :
      (CsdsConfig → Task W CsdsResponse)
      → ℕ
      → (CsdsConfig → String)
      → CsdsConfig
      → Task (W × Cache) CsdsResponse
  pub fresh_hit :
      (fn : CsdsConfig → Task W CsdsResponse) (age : ℕ) (key : CsdsConfig → String) (o : CsdsConfig)
      (w : W) (c : Cache) (r : CsdsResponse) (t : ℕ)
      → kept c (key o) ≡ some (r, t)
      → now w < t + age
      → memorize fn age key o (w, c) ≡ (ok r, (w, c))
  pub miss :
      (fn : CsdsConfig → Task W CsdsResponse) (age : ℕ) (key : CsdsConfig → String) (o : CsdsConfig)
      (w : W) (c : Cache)
      → (kept c (key o) ≡ none)
        ⊎ ((r : CsdsResponse) × (t : ℕ) × (kept c (key o) ≡ some (r, t)) × (t + age ≤ now w))
      → (c' : Cache) × (memorize fn age key o (w, c) ≡ ((fn o w).0, ((fn o w).1, c')))
        × (kept c' (key o) ≡ kept_of (fn o w).0 (now w))

abbrev pub default_cache_max_age : ℕ
default_cache_max_age = 1000 * 60 * 10

-- `options.service ? `${options.accountId}_${options.service}` : options.accountId`
abbrev keyed : String → Option String → String
keyed account_id none = account_id
keyed account_id (some s) = if str_eq s "" then account_id else account_id ++ ("_" ++ s)

unfoldable pub cache_key : CsdsConfig → String
cache_key options = keyed options.account_id options.service

module _ {W : Type 0} (mem : Memoizer W) (send : GotFn → String → Fields → Task W Response) where
  open mem use {Cache, memorize}

  -- The method `resolve` that the constructor puts in place of the inherited one.
  unfoldable pub caching_resolve : ℕ → CsdsConfig → Task (W × Cache) CsdsResponse
  caching_resolve max_age = memorize (simple_resolve send) max_age cache_key

  unfoldable pub caching_csds_resolver : ℕ → CsdsResolver (W × Cache)
  unfolding caching_resolve
  caching_csds_resolver max_age = abstract_csds_resolver (caching_resolve max_age)
