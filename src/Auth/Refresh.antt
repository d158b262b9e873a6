-- ===== src/Auth/Refresh.antt =====
-- internal/auth/auth.go: discovery of the token endpoint and the exchange of the refresh token.
-- What the outside answers during one call is a parameter: `RefreshEnv`.
pub mod Effects
pub mod Failure
pub mod Install
pub mod Waiting
pub mod Expiry
pub mod Stale
use grok_auth_proxy.Prelude.{
  ℕ, ◌*◌, ◌%◌, ◌^◌, ◌-◌, Bool, true, false, not, ◌&&◌, ◌||◌, Option, none, some, List, [], ◌∷◌,
  ◌++◌, Result, ok, err, is_empty, take, ltb, leb, eqb, if◌then◌else◌,
}
use grok_auth_proxy.Prelude.Int.{ℤ, pos, negsuc, pos_part, is_positive}
use grok_auth_proxy.Text.{Str, codes, is_blank, trim_slashes}
use grok_auth_proxy.Clock.{Time, second, is_zero, before, add}
use grok_auth_proxy.Auth.Entry.{
  Entry, FileData, first_non_empty, resolved_client_id, resolved_issuer, put, clone_file_data,
  sanitize_err_body,
}
use grok_auth_proxy.Auth.Manager.{
  AuthError, bad_request, request_failed, bad_status, bad_token_response, missing_access_token,
  no_refresh_token, Event, inc_auth_refresh, http_get, http_post, persist, write_file,
  TokenResponse, JsonLib, Manager, Act, publish_metrics,
}

-- What becomes of an HTTP request: it cannot be built, it fails, or it has a status and a body.
pub data HttpAnswer : Type 0 where
  no_request failed : HttpAnswer
  answered : (status : ℕ) (body : Str) → HttpAnswer

-- The clock at the freshness test and at the computation of the new expiry, the answers to the
-- discovery and to the token request, and whether writeAuthFileAtomic succeeds.
pub record RefreshEnv : Type 0 where
  pub now_check : Time
  pub now_issue : Time
  pub discovery : HttpAnswer
  pub token : HttpAnswer
  pub write_ok : Bool

-- io.LimitReader(resp.Body, 1<<20)
abbrev pub body_limit : ℕ
body_limit = 2 ^ 20

abbrev pub fallback_endpoint : Str → Str
fallback_endpoint issuer = trim_slashes issuer ++ codes "/oauth/token"

abbrev pub discovery_url : Str → Str
discovery_url issuer = trim_slashes issuer ++ codes "/.well-known/openid-configuration"

-- The endpoint in the body of a discovery answer: missing, unreadable and empty are alike.
unfoldable pub discovered : Str → Option Str → Str
discovered issuer none = fallback_endpoint issuer
discovered issuer (some endpoint) = if is_empty endpoint then fallback_endpoint issuer else endpoint

-- discoverTokenEndpoint past its cache.
unfoldable pub discover : JsonLib → Str → HttpAnswer → Act Str
discover json issuer no_request m = (err bad_request, m, [])
discover json issuer failed m =
    let endpoint = fallback_endpoint issuer in
    (ok endpoint, record m { token_endpoint = endpoint }, http_get (discovery_url issuer) ∷ [])
discover json issuer (answered status body) m =
    let endpoint =
      if eqb status 200
      then discovered issuer (json.token_endpoint (take body_limit body))
      else fallback_endpoint issuer in
    (ok endpoint, record m { token_endpoint = endpoint }, http_get (discovery_url issuer) ∷ [])

-- discoverTokenEndpoint
unfoldable pub discover_token_endpoint : JsonLib → Str → HttpAnswer → Act Str
discover_token_endpoint json issuer answer m =
    if not (is_empty m.token_endpoint)
    then (ok m.token_endpoint, m, [])
    else discover json issuer answer m

-- The parse of a token response and its check.
unfoldable pub checked_token : Option TokenResponse → Result AuthError TokenResponse
checked_token none = err bad_token_response
checked_token (some tr) = if is_empty tr.access_token then err missing_access_token else ok tr

-- What the answer to the token request says.
unfoldable pub read_token : JsonLib → HttpAnswer → Result AuthError TokenResponse
read_token json no_request = err bad_request
read_token json failed = err request_failed
read_token json (answered status body) =
    let text = take body_limit body in
    if ltb status 200 || leb 300 status
    then err (bad_status status (sanitize_err_body text))
    else checked_token (json.token_response text)

-- int64 arithmetic on a product of two numbers that are not negative.
abbrev pub wrap_int64 : ℕ → ℤ
wrap_int64 x = let r = x % 2 ^ 64 in if ltb r (2 ^ 63) then pos r else negsuc (2 ^ 64 - r - 1)

-- time.Duration(n) * time.Second for n > 0
abbrev pub seconds : ℤ → ℤ
seconds n = wrap_int64 (pos_part n * second)

unfoldable pub new_expiry : Time → ℤ → Time
new_expiry now expires_in =
    if is_positive expires_in then add now (seconds expires_in) else add now (pos (3600 * second))

unfoldable pub new_entry : Time → TokenResponse → Entry → Entry
new_entry now tr e = record e {
  key = tr.access_token;
  refresh_token = if is_empty tr.refresh_token then e.refresh_token else tr.refresh_token;
  expires_at = new_expiry now tr.expires_in;
}

abbrev pub or_empty : Option FileData → FileData
or_empty none = []
or_empty (some fd) = fd

-- The persisting and the write-back at the end of refresh. A failed write clears the flag at once;
-- after a write that succeeds the flag stays until `write_settled`.
unfoldable pub store_back : Bool → Manager → FileData → Manager × List Event
store_back write_ok m fd =
    let saved = if m.has_persist then persist fd ∷ [] else [] in
    if m.file_writable
    then (record m { writing = write_ok }, saved ++ write_file fd ∷ [])
    else (record m { writing = false }, saved)

-- The timer that refresh starts after a write, 500 ms later.
unfoldable pub write_settled : Manager → Manager
write_settled m = record m { writing = false }

-- What refresh does with a valid token response.
unfoldable pub install : RefreshEnv → TokenResponse → Str → Entry → Manager → Manager × List Event
install env tr map_key entry m =
    let e = new_entry env.now_issue tr entry in
    let fd = put map_key e (or_empty m.file_data) in
    store_back env.write_ok (record m { entry = e; file_data = some fd; writing = true })
      (clone_file_data fd)

abbrev pub client_id_field : Str → List (Str × Str)
client_id_field client_id = if is_empty client_id then [] else (codes "client_id", client_id) ∷ []

abbrev pub form : Str → Str → List (Str × Str)
form refresh_token client_id =
    (codes "grant_type", codes "refresh_token")
    ∷ (codes "refresh_token", refresh_token)
    ∷ client_id_field client_id

-- The event of the token request: nothing is sent where the request cannot be built.
abbrev pub sent : HttpAnswer → Event → List Event
sent no_request event = []
sent _ event = event ∷ []

-- The token request of refresh and what follows it.
unfoldable pub exchange : JsonLib → RefreshEnv → Event → Str → Entry → Act (Unit {0})
exchange json env post map_key entry m = elim (read_token json env.token) [
  | err e ↦ (err e, m, sent env.token post)
  | ok tr ↦
      let (m', events) = install env tr map_key entry m in
      (ok tt, m', sent env.token post ++ events)
]

-- `!entry.ExpiresAt.IsZero() && time.Now().Add(skew).Before(entry.ExpiresAt)`
abbrev pub is_fresh : Time → Manager → Bool
is_fresh now m =
    not (is_zero m.entry.expires_at) && before (add now m.refresh_skew) m.entry.expires_at

abbrev pub used_client_id : Manager → Str
used_client_id m = first_non_empty (resolved_client_id m.entry ∷ m.client_id ∷ [])

abbrev pub used_issuer : Manager → Str
used_issuer m = first_non_empty (resolved_issuer m.entry ∷ m.issuer ∷ [])

-- The rest of refresh, on the token endpoint or the error of its discovery.
unfoldable pub exchange_at :
    JsonLib
    → RefreshEnv
    → Manager
    → Result AuthError Str × Manager × List Event
    → Result AuthError (Unit {0}) × Manager × List Event
exchange_at json env m (err e, m', events) = (err e, m', events)
exchange_at json env m (ok url, m', events) =
    let post = http_post url (form m.entry.refresh_token (used_client_id m)) in
    let (r, m'', more) = exchange json env post m.map_key m.entry m' in (r, m'', events ++ more)

-- refresh, under refreshMu
unfoldable pub refresh : JsonLib → RefreshEnv → (force : Bool) → Act (Unit {0})
refresh json env force m =
    if not force && is_fresh env.now_check m
    then (ok tt, m, [])
    else if is_blank m.entry.refresh_token
    then (err no_refresh_token, m, [])
    else exchange_at json env m (discover_token_endpoint json (used_issuer m) env.discovery m)

abbrev pub is_ok : Result AuthError (Unit {0}) → Bool
is_ok (ok _) = true
is_ok (err _) = false

-- doRefresh
unfoldable pub do_refresh : JsonLib → RefreshEnv → (force : Bool) → Act (Unit {0})
do_refresh json env force m =
    let (r, m', events) = refresh json env force m in
    let counted = if m'.has_metrics then inc_auth_refresh (is_ok r) ∷ [] else [] in
    (r, m', events ++ counted ++ (if is_ok r then publish_metrics m' else []))
