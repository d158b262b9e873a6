-- ===== src/Proxy/Headers.antt =====
-- internal/proxy/proxy.go: which headers are relayed.
-- A range over a header map goes through the list in its order.
pub mod Relayed
use grok_auth_proxy.Prelude.{List, [], ◌∷◌, any, if◌then◌else◌}
use grok_auth_proxy.Text.{Str, codes, ◌==◌, to_lower}
use grok_auth_proxy.Http.{Headers, add}

-- The inner loop: every value is added.
unfoldable pub add_all : Str → List Str → Headers → Headers
add_all k [] dst = dst
add_all k (v ∷ vals) dst = add_all k vals (add k v dst)

-- The shape of both copies: a header is skipped if its name, in lower case, is in the list.
unfoldable pub copy_except : List Str → (dst src : Headers) → Headers
copy_except dropped dst [] = dst
copy_except dropped dst ((k, vals) ∷ src) =
    copy_except dropped
      (if any (λ name. to_lower k == name) dropped then dst else add_all k vals dst) src

abbrev pub dropped_from_request : List Str
dropped_from_request =
    codes "authorization"
    ∷ codes "x-admin-key"
    ∷ codes "proxy-authorization"
    ∷ codes "cookie"
    ∷ codes "host"
    ∷ codes "content-length"
    ∷ codes "connection"
    ∷ codes "transfer-encoding"
    ∷ codes "keep-alive"
    ∷ codes "te"
    ∷ codes "trailer"
    ∷ codes "upgrade"
    ∷ []

abbrev pub dropped_from_response : List Str
dropped_from_response =
    codes "connection"
    ∷ codes "transfer-encoding"
    ∷ codes "keep-alive"
    ∷ codes "proxy-authenticate"
    ∷ codes "proxy-authorization"
    ∷ codes "te"
    ∷ codes "trailers"
    ∷ codes "upgrade"
    ∷ codes "set-cookie"
    ∷ []

-- copyHeaders
unfoldable pub copy_headers : (dst src : Headers) → Headers
copy_headers dst src = copy_except dropped_from_request dst src

-- filterResponseHeaders
unfoldable pub filter_response_headers : (dst src : Headers) → Headers
filter_response_headers dst src = copy_except dropped_from_response dst src
