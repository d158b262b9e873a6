-- ===== src/Server/Revocation/Tests.antt =====
-- A key that is revoked and then presented.
use grok_auth_proxy.Server.Samples.{env, key}
use grok_auth_proxy.Prelude.{ℕ, List, [], ◌∷◌, ok}
use grok_auth_proxy.Prelude.Int.{pos}
use grok_auth_proxy.Float.{finite}
use grok_auth_proxy.Text.{codes, strings}
use grok_auth_proxy.Assoc.{lookup, put, delete_if}
use grok_auth_proxy.Auth.Samples.{start, late, manager_of}
use grok_auth_proxy.Http.{Headers, values, canonical_key, add, set, del}
use grok_auth_proxy.Middleware.Keys.{
  get_header, bearer_of, extract_bearer, presented_key, admin_auth,
}
use grok_auth_proxy.Middleware.Cors.{allows_all, set_header, allow_origin, cors}
use grok_auth_proxy.Middleware.RateLimit.{new_rate_limiter}
use grok_auth_proxy.Store.Cache.{invalidate_cache_by_id}
use grok_auth_proxy.Store.Keys.{revoke_key}
use grok_auth_proxy.Store.Audit.{AuditLog}
use grok_auth_proxy.Store.Audit.Samples.{list_audit_table}
use grok_auth_proxy.Store.Table.{ApiKey}
use grok_auth_proxy.Store.Table.Samples.{list_table, plain_crypto}
use grok_auth_proxy.Store.Keys.Operations.{Op, validate, write_last_used, run_ops}
use grok_auth_proxy.Admin.{revoke_key_handler}
use grok_auth_proxy.Proxy.Samples.{ctx_at}
use grok_auth_proxy.Server.{Service}
use grok_auth_proxy.Server.Console.{Reply, revoke, Console, run_handler, on_admin, serve_admin}

revoking : Unit {0}
unfolding strings lookup put delete_if values canonical_key add set del get_header bearer_of
    extract_bearer presented_key admin_auth allows_all set_header allow_origin cors run_handler
    on_admin serve_admin revoke_key_handler revoke_key invalidate_cache_by_id
revoking = tt

abbrev console : Console (List ApiKey) (List AuditLog)
console = record {
  keys = record { db = key ∷ []; cache = []; pending = [] };
  manager = manager_of late;
  events = [];
  log = [];
}

abbrev admin : Headers
admin = (codes "X-Admin-Key", codes "secret" ∷ []) ∷ []

abbrev done : Reply × Console (List ApiKey) (List AuditLog)
done =
    serve_admin plain_crypto list_table list_audit_table env (λ s. ok s.db)
      (revoke (codes "01") start) (codes "DELETE") admin [] console

abbrev since : List Op
since = validate (codes "sk-gap-1") start start ∷ write_last_used ∷ []

abbrev service : Service ℕ (List ApiKey) ℕ
service = record {
  limiter = new_rate_limiter (finite (pos 1) (pos 0)) (pos 1);
  keys = run_ops plain_crypto list_table since done.1.keys;
  ctx = ctx_at 0;
}
