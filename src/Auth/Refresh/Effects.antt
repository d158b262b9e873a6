-- ===== src/Auth/Refresh/Effects.antt =====
-- How a refresh ends: it has nothing to do, it fails, or it installs the entry of the token response.
use grok_auth_proxy.Prelude.{
  ◌≡◌, refl, ◌⊎◌, inl, inr, Bool, true, false, not, ◌&&◌, List, [], ◌∷◌, ◌++◌, Result, ok, err,
  is_empty, arith, Bool-cases, Result-cases,
}
use grok_auth_proxy.Text.{Str, is_blank}
use grok_auth_proxy.Auth.Manager.{
  AuthError, no_refresh_token, Event, http_get, http_post, Manager, JsonLib, TokenResponse,
}
use grok_auth_proxy.Auth.Refresh.{
  HttpAnswer, no_request, failed, answered, RefreshEnv, discover, discover_token_endpoint,
  read_token, install, exchange, is_fresh, used_client_id, used_issuer, exchange_at, refresh, form,
  sent,
}

abbrev Ends : Type 0
Ends = Result AuthError (Unit {0}) × Manager × List Event

-- The same manager, but for the cached token endpoint.
abbrev pub with_endpoint : Manager → Str → Manager
with_endpoint m endpoint = record m { token_endpoint = endpoint }

-- The token request that a refresh of `m` sends to `url`.
abbrev pub token_request : Manager → Str → Event
token_request m url = http_post url (form m.entry.refresh_token (used_client_id m))

-- The events of a discovery: none or one request for the discovery document.
abbrev pub IsDiscovery : List Event → Type 0
IsDiscovery events = (events ≡ []) ⊎ ((url : Str) × (events ≡ http_get url ∷ []))

-- Nothing is persisted, written or measured.
abbrev pub OnlyRequests : List Event → Type 0
OnlyRequests [] = Unit
OnlyRequests (http_get url ∷ events) = OnlyRequests events
OnlyRequests (http_post url fields ∷ events) = OnlyRequests events
OnlyRequests (_ ∷ events) = ⊥

pub data Refreshed (json : JsonLib) (env : RefreshEnv) (force : Bool) (m : Manager) (r : Ends)
    : Type 0 where
  nothing :
      force ≡ false
      → is_fresh env.now_check m ≡ true
      → r ≡ (ok tt, m, [])
      → Refreshed json env force m r
  not_done :
      (e : AuthError) (endpoint : Str) (events : List Event)
      → OnlyRequests events
      → r ≡ (err e, with_endpoint m endpoint, events)
      → Refreshed json env force m r
  done :
      (tr : TokenResponse) (url endpoint : Str) (before after : List Event)
      → read_token json env.token ≡ ok tr
      → IsDiscovery before
      → after ≡ (install env tr m.map_key m.entry (with_endpoint m endpoint)).1
      → r ≡ (
        ok tt,
        (install env tr m.map_key m.entry (with_endpoint m endpoint)).0,
        before ++ token_request m url ∷ after,
      )
      → Refreshed json env force m r

data Discovered (m : Manager) (r : Result AuthError Str × Manager × List Event) : Type 0 where
  found :
      (url endpoint : Str) (events : List Event)
      → IsDiscovery events
      → r ≡ (ok url, with_endpoint m endpoint, events)
      → Discovered m r
  missed : (e : AuthError) → r ≡ (err e, m, []) → Discovered m r

discover_cases :
    (json : JsonLib) (issuer : Str) (answer : HttpAnswer) (m : Manager)
    → Discovered m (discover json issuer answer m)
unfolding discover
discover_cases json issuer no_request m = missed _ refl
discover_cases json issuer failed m = found _ _ _ (inr (_, refl)) refl
discover_cases json issuer (answered status body) m = found _ _ _ (inr (_, refl)) refl

discover_token_endpoint_cases :
    (json : JsonLib) (issuer : Str) (answer : HttpAnswer) (m : Manager)
    → Discovered m (discover_token_endpoint json issuer answer m)
unfolding discover_token_endpoint
discover_token_endpoint_cases json issuer answer m = elim (Bool-cases (is_empty m.token_endpoint)) [
  | inl unknown ↦ rw unknown (discover_cases json issuer answer m)
  | inr cached ↦ rw cached (found m.token_endpoint m.token_endpoint [] (inl refl) refl)
]

tries-OnlyRequests :
    (events : List Event) (answer : HttpAnswer) (url : Str) (fields : List (Str × Str))
    → IsDiscovery events
    → OnlyRequests (events ++ sent answer (http_post url fields))
tries-OnlyRequests events no_request url fields (inl e) = rw e tt
tries-OnlyRequests events no_request url fields (inr (u, e)) = rw e tt
tries-OnlyRequests events _ url fields (inl e) = rw e tt
tries-OnlyRequests events _ url fields (inr (u, e)) = rw e tt

sent_of_ok :
    (json : JsonLib) (answer : HttpAnswer) (event : Event) {tr : TokenResponse}
    → read_token json answer ≡ ok tr
    → sent answer event ≡ event ∷ []
unfolding read_token
sent_of_ok json no_request event h = cc
sent_of_ok json _ event h = refl

exchange_at_cases :
    (json : JsonLib) (env : RefreshEnv) (force : Bool) (m : Manager)
    (r : Result AuthError Str × Manager × List Event)
    → Discovered m r
    → Refreshed json env force m (exchange_at json env m r)
unfolding exchange_at exchange
exchange_at_cases json env force m r (missed e p) = rw p (not_done e m.token_endpoint [] tt refl)
exchange_at_cases json env force m r (found url endpoint events d p) =
    elim (Result-cases (read_token json env.token)) [
      | inl (e, refused) ↦ rw p (
          rw (refused, exchange)
            (not_done e endpoint _ (tries-OnlyRequests events env.token _ _ d) refl))
      | inr (tr, accepted) ↦ rw p (
          rw (accepted, exchange)
            (rw (sent_of_ok json env.token (token_request m url) accepted)
              (done tr url endpoint events _ accepted d refl refl)))
    ]

pub refresh_cases :
    (json : JsonLib) (env : RefreshEnv) (force : Bool) (m : Manager)
    → Refreshed json env force m (refresh json env force m)
unfolding refresh
refresh_cases json env force m = elim (Bool-cases (not force && is_fresh env.now_check m)) [
  | inl fresh ↦ rw fresh (nothing (ground arith) (ground arith) refl)
  | inr stale ↦ rw stale (elim (Bool-cases (is_blank m.entry.refresh_token)) [
    | inl blank ↦ rw blank (not_done no_refresh_token m.token_endpoint [] tt refl)
    | inr there ↦ rw there (
        exchange_at_cases json env force m _
          (discover_token_endpoint_cases json (used_issuer m) env.discovery m))
  ])
]
