-- ===== src/Middleware/Keys.antt =====
-- internal/middleware/middleware.go: who may pass: bearer tokens, API keys and the admin key; and the
-- request id and the mask of the access log.
pub mod Admin
use grok_auth_proxy.Prelude.{
  ℕ, not, ◌||◌, List, [], ◌∷◌, ◌++◌, Result, ok, err, leb, length, take, drop, is_empty,
  if◌then◌else◌,
}
use grok_auth_proxy.Text.{Str, codes, ◌==◌, has_prefix, trim_space, is_blank}
use grok_auth_proxy.Auth.Entry.{ellipsis}
use grok_auth_proxy.Http.{Headers, values, set}

-- What a middleware does with a request: it lets it pass, with a value for the context, or answers
-- itself with a status and the message of an error object.
pub data Verdict {ℓ} (A : Type ℓ) : Type ℓ where
  passes : A → Verdict A
  aborts : (status : ℕ) (message : Str) → Verdict A

abbrev first_value : List Str → Str
first_value [] = []
first_value (v ∷ vs) = v

-- c.GetHeader(k) for a key in canonical form
unfoldable pub get_header : Str → Headers → Str
get_header k h = first_value (values k h)

abbrev pub bearer : Str
bearer = codes "Bearer "

-- extractBearer on the value of the header
unfoldable pub bearer_of : Str → Str
bearer_of h =
    if is_empty h
    then []
    else if not (has_prefix h bearer)
    then []
    else trim_space (drop (length bearer) h)

-- extractBearer
unfoldable pub extract_bearer : Headers → Str
extract_bearer header = bearer_of (get_header (codes "Authorization") header)

-- APIKeyAuth; the argument is ValidatePlaintext on the state of the store.
unfoldable pub api_key_auth :
    {E K S : Type 0} → (Str → S → Result E K × S) → Headers → S → Verdict K × S
api_key_auth validate header s =
    let raw = extract_bearer header in
    if is_empty raw
    then (aborts 401 (codes "missing API key"), s)
    else (let (r, s') = validate raw s in
        (elim r [ ok key ↦ passes key | err e ↦ aborts 401 (codes "invalid API key") ], s'))

-- The key that an administrator presents.
unfoldable pub presented_key : Headers → Str
presented_key header =
    let got = get_header (codes "X-Admin-Key") header in
    if is_empty got then extract_bearer header else got

-- AdminAuth; `sha256` is sha256.Sum256.
unfoldable pub admin_auth : (sha256 : Str → Str) → (admin_key : Str) → Headers → Verdict (Unit {0})
admin_auth sha256 admin_key header =
    let configured = not (is_blank admin_key) in
    let ok = sha256 (presented_key header) == sha256 admin_key in
    if not configured || not ok then aborts 401 (codes "unauthorized") else passes tt

-- RequestID; `new_id` is what uuid.NewString gives.
unfoldable pub request_id : (new_id : Str) → (header response : Headers) → Str × Headers
request_id new_id header response =
    let got = get_header (codes "X-Request-Id") header in
    let id = if is_empty got then new_id else got in (id, set (codes "X-Request-ID") id response)

-- maskBearer
unfoldable pub mask_bearer : Str → Str
mask_bearer h =
    if not (has_prefix h bearer)
    then codes "***"
    else (let tok = drop (length bearer) h in
        if leb (length tok) 12 then bearer ++ codes "***" else bearer ++ take 8 tok ++ ellipsis)
