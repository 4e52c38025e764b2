-- ===== src/Sessions/Cookies.antt =====
-- le-agent-session-provider/src/provider.ts: the cookies of a session, on their way back to the
-- server.
use lp_clients.Base.{◌≡◌, inl, inr, Bool-cases, String, str_eq, List, [], ◌∷◌, Result, ok, err}
use lp_clients.Platform.Values.{Value, str, arr, Fields, end, field, set, assign}
use lp_clients.Platform.Values.Objects.{Distinct, assign-Distinct}
use lp_clients.Sessions.Agent.{merge_cookies, header_texts, cookie_items}

-- The properties are cookies: their names are the ones that can be read back, and their values texts.
abbrev pub AreCookies : (String → Type 0) → Fields → Type 0
AreCookies IsName end = Unit
AreCookies IsName (field k v fs) = (IsName k × ((s : String) × (v ≡ str s))) × AreCookies IsName fs

set-AreCookies :
    (IsName : String → Type 0) (k : String) (v : Value) (fs : Fields)
    → IsName k × ((s : String) × (v ≡ str s))
    → AreCookies IsName fs
    → AreCookies IsName (set k v fs)
unfolding set
set-AreCookies IsName k v end e t = (e, tt)
set-AreCookies IsName k v (field j w fs) e t = elim (Bool-cases (str_eq j k)) [
  | inl c ↦ rw c ((t.0.0, e.1), t.1)
  | inr c ↦ rw c (t.0, set-AreCookies IsName k v fs e t.1)
]

assign-AreCookies :
    (IsName : String → Type 0) (target source : Fields)
    → AreCookies IsName target
    → AreCookies IsName source
    → AreCookies IsName (assign target source)
unfolding assign
assign-AreCookies IsName target end t s = t
assign-AreCookies IsName target (field k v fs) t s =
    assign-AreCookies IsName (set k v target) fs (set-AreCookies IsName k v target s.0 t) s.1

-- The properties of an object behind those of another.
unfoldable behind : Fields → Fields → Fields
behind end gs = gs
behind (field k v fs) gs = field k v (behind fs gs)

-- What the library reads back from what it writes for a property is that property, for all of them.
abbrev pub ReadBack : (String → Fields) → (String → Value → String) → Fields → Type 0
ReadBack parse_cookie serialize end = Unit
ReadBack parse_cookie serialize (field k v fs) =
    (parse_cookie (serialize k v) ≡ field k v end) × ReadBack parse_cookie serialize fs

module _ (parse_cookie : String → Fields) (serialize : String → Value → String) where
  -- The header that a request of the session sends.
  abbrev sent : Fields → List String
  sent cookies = header_texts (arr (cookie_items serialize cookies))

pub merge_cookies-Good :
    (IsName : String → Type 0) (parse_cookie : String → Fields)
    → ((s : String) → AreCookies IsName (parse_cookie s))
    → (ss : List String) (cookies : Fields) → Distinct cookies × AreCookies IsName cookies
    → Distinct (merge_cookies parse_cookie ss cookies)
      × AreCookies IsName (merge_cookies parse_cookie ss cookies)
unfolding merge_cookies
merge_cookies-Good IsName parse_cookie parsed [] cookies good = good
merge_cookies-Good IsName parse_cookie parsed (s ∷ ss) cookies (d, t) =
    merge_cookies-Good IsName parse_cookie parsed ss (assign cookies (parse_cookie s)) (
      assign-Distinct cookies (parse_cookie s) d,
      assign-AreCookies IsName cookies (parse_cookie s) t (parsed s),
    )

abbrev session_fields : Result Fields → Fields
session_fields (ok session) = session
session_fields (err e) = end
