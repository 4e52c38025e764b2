-- ===== src/Csds/Config.antt =====
-- csds-config/src/config.ts: configurations with their defaults.
use lp_clients.Base.{
  Bool-cases, ◌⊎◌, inl, inr, ◌≡◌, refl, false, ◌||◌, Option, none, some, String, str_eq, eq_iff,
  if◌then◌else◌,
}
use text.Mathlib.Text.{starts_with}
use text.Mathlib.TextEquality.{starts_with_iff}
use text.Mathlib.TextBridge.{IsPrefix}

-- `ICsdsConfigBase` and `ICsdsServiceConfigBase`: a missing property is `none`.
pub record CsdsConfigBase : Type 0 where
  pub account_id : String
  pub csds_domain : Option String
  pub service : Option String

-- `ICsdsConfig`, or `ICsdsServiceConfig` where the property `service` is present.
pub record CsdsConfig : Type 0 where
  pub account_id : String
  pub csds_domain : String
  pub service : Option String

unfoldable pub get_csds_domain : String → String
get_csds_domain account_id =
    if starts_with account_id "le" || starts_with account_id "qa"
    then "hc1n.dev.lrnd.net"
    else "adminlogin.liveperson.net"

-- `text || fallback`
abbrev pub text_or : Option String → String → String
text_or none fallback = fallback
text_or (some s) fallback = if str_eq s "" then fallback else s

unfoldable pub default_csds_config : CsdsConfigBase → CsdsConfig
unfolding get_csds_domain
default_csds_config c = record {
  account_id = c.account_id;
  csds_domain = text_or c.csds_domain (get_csds_domain c.account_id);
  service = none;
}

unfoldable pub default_csds_service_config : CsdsConfigBase → CsdsConfig
unfolding default_csds_config
default_csds_service_config c = record (default_csds_config c) { service = c.service }

-- The account's name begins with "le" or "qa".
abbrev pub IsDevAccount : String → Type 0
IsDevAccount a = IsPrefix "le" a ⊎ IsPrefix "qa" a

-- No domain is given: the property is missing or empty.
abbrev pub LacksDomain : CsdsConfigBase → Type 0
LacksDomain c = (c.csds_domain ≡ none) ⊎ (c.csds_domain ≡ some "")

abbrev pub IsDomainFor : CsdsConfigBase → String → Type 0
IsDomainFor c d =
    (c.csds_domain ≡ some d)
    ⊎ (LacksDomain c × IsDevAccount c.account_id × (d ≡ "hc1n.dev.lrnd.net"))
    ⊎ (LacksDomain c × (¬ IsDevAccount c.account_id) × (d ≡ "adminlogin.liveperson.net"))

get_csds_domain_cases :
    (a : String)
    → (IsDevAccount a × (get_csds_domain a ≡ "hc1n.dev.lrnd.net"))
      ⊎ ((¬ IsDevAccount a) × (get_csds_domain a ≡ "adminlogin.liveperson.net"))
unfolding get_csds_domain
get_csds_domain_cases a = elim (Bool-cases (starts_with a "le")) [
  | inl le ↦ inl (inl ((starts_with_iff a "le").0 le), rw le)
  | inr not_le ↦ elim (Bool-cases (starts_with a "qa")) [
    | inl qa ↦ inl (inr ((starts_with_iff a "qa").0 qa), rw (not_le, qa))
    | inr not_qa ↦ inr (neither not_le not_qa, rw (not_le, not_qa))
  ]
]
  where
    neither : starts_with a "le" ≡ false → starts_with a "qa" ≡ false → ¬ IsDevAccount a
    neither p q (inl h) = cc (p, (starts_with_iff a "le").1 h)
    neither p q (inr h) = cc (q, (starts_with_iff a "qa").1 h)

domain_or_default :
    (a : String) (given : Option String) (s : Option String)
    → IsDomainFor
        (record { account_id = a; csds_domain = given; service = s })
        (text_or given (get_csds_domain a))
domain_or_default a none s = elim (get_csds_domain_cases a) [
  | inl (dev, e) ↦ inr (inl (inl refl, dev, e))
  | inr (prod, e) ↦ inr (inr (inl refl, prod, e))
]
domain_or_default a (some d) s = elim (Bool-cases (str_eq d "")) [
  | inl h ↦ rw ((eq_iff d "").0 h) (elim (get_csds_domain_cases a) [
    | inl (dev, e) ↦ inr (inl (inr refl, dev, e))
    | inr (prod, e) ↦ inr (inr (inr refl, prod, e))
  ])
  | inr h ↦ rw h (inl refl)
]

-- The domain of a default configuration is the one given, unless that is missing or empty: then it
-- is the development domain for accounts whose name begins with "le" or "qa", and the production
-- domain for all others. A service configuration has the same domain, and keeps its service.
pub default_domain :
    (c : CsdsConfigBase)
    → IsDomainFor c (default_csds_config c).csds_domain
      × ((default_csds_service_config c).csds_domain ≡ (default_csds_config c).csds_domain)
      × ((default_csds_service_config c).service ≡ c.service)
unfolding default_csds_config default_csds_service_config
default_domain c = (domain_or_default c.account_id c.csds_domain c.service, refl, refl)
