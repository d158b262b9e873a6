-- ===== src/Http.antt =====
-- Package net/http: header maps and their canonical keys.
pub mod Laws
use grok_auth_proxy.Prelude.{
  ℕ, ◌+◌, ◌-◌, Bool, true, ◌&&◌, ◌||◌, Option, none, some, List, [], ◌∷◌, ◌++◌, leb, eqb, any,
  if◌then◌else◌,
}
use grok_auth_proxy.Text.{Str, codes, ◌==◌}
use grok_auth_proxy.Assoc.{lookup, put, delete_if}

abbrev pub Headers : Type 0
Headers = List (Str × List Str)

abbrev is_upper : ℕ → Bool
is_upper c = leb b'A' c && leb c b'Z'

abbrev is_lower : ℕ → Bool
is_lower c = leb b'a' c && leb c b'z'

-- The bytes of a header field name (RFC 9110, token).
abbrev pub is_token : ℕ → Bool
is_token c =
    is_upper c || is_lower c || (leb b'0' c && leb c b'9') || any (eqb c) (codes "!#$%&'*+-.^_`|~")

-- Upper case at the start and behind a dash, lower case elsewhere.
canonical_from : Bool → Str → Str
canonical_from start [] = []
canonical_from start (c ∷ s) =
    (if start then (if is_lower c then c - 32 else c) else (if is_upper c then c + 32 else c))
    ∷ canonical_from (eqb c b'-') s

abbrev pub all_token : Str → Bool
all_token [] = true
all_token (c ∷ s) = is_token c && all_token s

-- http.CanonicalHeaderKey
unfoldable pub canonical_key : Str → Str
unfolding canonical_from
canonical_key s = if all_token s then canonical_from true s else s

abbrev pub or_no_values : Option (List Str) → List Str
or_no_values none = []
or_no_values (some vs) = vs

-- h.Values(k) for a key in canonical form
unfoldable pub values : Str → Headers → List Str
values k h = or_no_values (lookup k h)

-- h.Add(k, v)
unfoldable pub add : Str → Str → Headers → Headers
add k v h = put (canonical_key k) (values (canonical_key k) h ++ v ∷ []) h

-- h.Set(k, v)
unfoldable pub set : Str → Str → Headers → Headers
set k v h = put (canonical_key k) (v ∷ []) h

-- h.Del(k)
unfoldable pub del : Str → Headers → Headers
del k h = delete_if (λ j _. j == canonical_key k) h
