-- ===== src/Middleware/Cors.antt =====
-- internal/middleware/middleware.go: CORS.
pub mod Origin
use grok_auth_proxy.Prelude.{Bool, true, false, List, [], ◌∷◌, any, is_empty, if◌then◌else◌}
use grok_auth_proxy.Text.{Str, codes, ◌==◌}
use grok_auth_proxy.Http.{Headers, add, set, del}
use grok_auth_proxy.Middleware.Keys.{get_header}

-- `len(allowed) == 0 || (len(allowed) == 1 && allowed[0] == "*")`
unfoldable pub allows_all : List Str → Bool
allows_all [] = true
allows_all (o ∷ []) = o == codes "*"
allows_all (o ∷ p ∷ os) = false

-- c.Header(k, v)
unfoldable pub set_header : Str → Str → Headers → Headers
set_header k v h = if is_empty v then del k h else set k v h

-- The header for the origin.
unfoldable pub allow_origin : List Str → (origin : Str) → Headers → Headers
allow_origin allowed origin h =
    if allows_all allowed
    then set_header (codes "Access-Control-Allow-Origin") (codes "*") h
    else (let h' = add (codes "Vary") (codes "Origin") h in
        if is_empty origin
        then h'
        else if any (λ o. o == origin) allowed
        then set_header (codes "Access-Control-Allow-Origin") origin h'
        else h')

-- CORS: the response headers, and whether the request ends here, with status 204.
unfoldable pub cors : List Str → (method : Str) → (header response : Headers) → Headers × Bool
cors allowed method header response =
    let h = allow_origin allowed (get_header (codes "Origin") header) response in
    (
      set_header (codes "Access-Control-Expose-Headers") (codes "X-Request-ID") (
          set_header (codes "Access-Control-Allow-Headers")
            (codes "Authorization, Content-Type, X-Admin-Key, X-Request-ID")
            (set_header (codes "Access-Control-Allow-Methods") (codes "GET, POST, DELETE, OPTIONS")
              h)),
      method == codes "OPTIONS",
    )
