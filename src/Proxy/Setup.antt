-- ===== src/Proxy/Setup.antt =====
-- internal/proxy/proxy.go: NewWithOptions, with the options that internal/server/server.go gives it.
-- The HTTP client, the tokens and the logger are left out, as in Upstream.
use grok_auth_proxy.Prelude.{ℕ, ◌≡◌, refl, Bool, true, ◌&&◌, Option, none, some, if◌then◌else◌}
use grok_auth_proxy.Prelude.Int.{ℤ, pos_part, is_positive}
use grok_auth_proxy.Text.{Str}
use grok_auth_proxy.Net.{Url, NetLib}
use grok_auth_proxy.Config.{Config}
use grok_auth_proxy.Config.Validation.{IsSettled}
use grok_auth_proxy.Proxy.Body.{request_limit}
use grok_auth_proxy.Proxy.Context.{Upstream}

abbrev pub default_audit_max_body : ℕ
default_audit_max_body = 65536

pub record Options : Type 0 where
  pub base_url : Str
  pub has_auditor : Bool
  pub audit_enabled : Bool
  pub max_body_bytes : ℤ
  pub max_request_bytes : ℤ

abbrev pub audit_limit : ℤ → ℕ
audit_limit max = if is_positive max then pos_part max else default_audit_max_body

abbrev pub upstream_at : Options → Option Url → Option Upstream
upstream_at opts none = none
upstream_at opts (some u) = some (record {
  base = u;
  audit_enabled = opts.audit_enabled && opts.has_auditor;
  max_body = audit_limit opts.max_body_bytes;
  max_request = request_limit opts.max_request_bytes;
})

-- NewWithOptions; `none` where the base does not parse.
unfoldable pub new_with_options : NetLib → Options → Option Upstream
new_with_options net opts = upstream_at opts (net.parse opts.base_url)

-- The options of New in internal/server, whose auditor is the store.
abbrev pub proxy_options : Config → Options
proxy_options c = record {
  base_url = c.auth.upstream_base;
  has_auditor = true;
  audit_enabled = c.audit.enabled;
  max_body_bytes = c.audit.max_body_bytes;
  max_request_bytes = c.server.max_request_bytes;
}

-- Of settings that have been validated, no default is taken: the limits of the proxy are those of the
-- settings.
pub new_with_options-settled :
    (net : NetLib) (c : Config) (base : Url)
    → IsSettled c
    → net.parse c.auth.upstream_base ≡ some base
    → new_with_options net (proxy_options c)
      ≡ some (record {
        base = base;
        audit_enabled = c.audit.enabled && true;
        max_body = pos_part c.audit.max_body_bytes;
        max_request = pos_part c.server.max_request_bytes;
      })
unfolding new_with_options
new_with_options-settled net c base settled parsed =
    rw (parsed, settled.max_body_bytes, settled.max_request_bytes) refl
