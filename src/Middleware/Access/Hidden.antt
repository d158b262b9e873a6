-- ===== src/Middleware/Access/Hidden.antt =====
-- internal/middleware/middleware.go: what the access log does not show of a client's credentials.
use grok_auth_proxy.Prelude.{◌≡◌, refl, Bool, true, ◌++◌, leb, length, take}
use grok_auth_proxy.Text.{Str, codes, strings, has_prefix}
use grok_auth_proxy.Http.{Headers}
use grok_auth_proxy.Middleware.Keys.{bearer, get_header, mask_bearer}
use grok_auth_proxy.Middleware.Access.{Served, authorization_of, access_log}

-- With redaction, the line does not depend on the headers.
pub access_log_redacted :
    (served : Served) (header : Headers)
    → access_log true served ≡ access_log true (record served { header = header })
unfolding access_log authorization_of
access_log_redacted served header = refl

mask_bearer_agrees :
    (t t' : Str)
    → take 8 t ≡ take 8 t'
    → leb (length t) 12 ≡ leb (length t') 12
    → mask_bearer (bearer ++ t) ≡ mask_bearer (bearer ++ t')
unfolding mask_bearer strings has_prefix
mask_bearer_agrees t t' start long = rw (start, long) refl

-- Without it, two tokens that agree in their first eight bytes, and in whether they have more than
-- twelve, leave the same line.
pub access_log_masked :
    (redact : Bool) (served : Served) (header header' : Headers) (t t' : Str)
    → get_header (codes "Authorization") header ≡ bearer ++ t
    → get_header (codes "Authorization") header' ≡ bearer ++ t'
    → take 8 t ≡ take 8 t'
    → leb (length t) 12 ≡ leb (length t') 12
    → access_log redact (record served { header = header })
      ≡ access_log redact (record served { header = header' })
unfolding access_log authorization_of strings
access_log_masked redact served header header' t t' h h' start long =
    rw (h, h', mask_bearer_agrees t t' start long) refl
