-- ===== src/Csds/Caching/Sharing.antt =====
-- csds-caching-resolver/src/resolver.ts: which calls are answered from the cache.
use Prim.Native.String.{◌++◌}
use lp_clients.Base.{
  ℕ, ◌+◌, ◌<◌, ◌≡◌, ◌≢◌, refl, sym, inl, none, some, String, str_eq-false, Task, ok,
}
use lp_clients.Request.{GotFn, Response}
use lp_clients.Platform.Values.{Fields}
use lp_clients.Csds.Resolver.{CsdsResponse}
use lp_clients.Csds.Config.{CsdsConfig}
use lp_clients.Csds.Simple.{simple_resolve}
use lp_clients.Csds.Caching.{Memoizer, cache_key, caching_resolve}

module _ {W : Type 0} (mem : Memoizer W) (send : GotFn → String → Fields → Task W Response) where
  open mem use {Cache, now, kept, fresh_hit, miss}

  -- After a first call that the cache does not know and that resolves, a call whose key is the same, within the
  -- maximal age of the first, resolves with what the first resolved with, and sends nothing.
  caching_resolve_again :
      (age : ℕ) (o p : CsdsConfig) (w later : W) (c : Cache) (r : CsdsResponse)
      → kept c (cache_key o) ≡ none
      → (simple_resolve send o w).0 ≡ ok r
      → cache_key p ≡ cache_key o
      → now later < now w + age
      → (c' : Cache) × (caching_resolve mem send age o (w, c)
          ≡ (ok r, ((simple_resolve send o w).1, c')))
        × (caching_resolve mem send age p (later, c') ≡ (ok r, (later, c')))
  unfolding caching_resolve
  caching_resolve_again age o p w later c r unknown resolved same soon =
      let (c', first, stored) = miss (simple_resolve send) age cache_key o w c (inl unknown) in
      (
        c',
        rw resolved at first,
        fresh_hit (simple_resolve send) age cache_key p later c' r (now w)
            (rw same (rw resolved at stored)) soon,
      )

  -- Two accounts can share an entry of the cache: if a call for the service `s`, which is not empty,
  -- of the account `a` resolves while the cache keeps nothing under its key, then within the maximal
  -- age a call for all services of the account named `a ++ "_" ++ s` is answered, without a request,
  -- with what the first call resolved to, whatever the domains of the two servers are.
  pub caching_resolve_mixes :
      (age : ℕ) (a s domain other : String) (w later : W) (c : Cache) (r : CsdsResponse)
      → s ≢ ""
      → kept c (a ++ ("_" ++ s)) ≡ none
      → (simple_resolve send
          (record { account_id = a; csds_domain = domain; service = some s })
          w).0
        ≡ ok r
      → now later < now w + age
      → let o : CsdsConfig = record { account_id = a; csds_domain = domain; service = some s } in
        let p : CsdsConfig = record {
          account_id = a ++ ("_" ++ s);
          csds_domain = other;
          service = none;
        } in
        (c' : Cache) × (caching_resolve mem send age o (w, c)
          ≡ (ok r, ((simple_resolve send o w).1, c')))
        × (caching_resolve mem send age p (later, c') ≡ (ok r, (later, c')))
  unfolding cache_key
  caching_resolve_mixes age a s domain other w later c r filled unknown resolved soon =
      let o : CsdsConfig = record { account_id = a; csds_domain = domain; service = some s } in
      let p : CsdsConfig = record {
        account_id = a ++ ("_" ++ s);
        csds_domain = other;
        service = none;
      } in
      let key : cache_key o ≡ a ++ ("_" ++ s) = rw (str_eq-false s "" filled) refl in
      caching_resolve_again age o p w later c r (rw key unknown) resolved (sym key) soon
