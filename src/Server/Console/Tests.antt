-- ===== src/Server/Console/Tests.antt =====
-- Requests to the group /admin with and without the key.
use grok_auth_proxy.Server.Samples.{env}
use grok_auth_proxy.Prelude.{◌≡◌, refl, List, [], ◌∷◌, ok}
use grok_auth_proxy.Text.{Str, codes, strings}
use grok_auth_proxy.Assoc.{lookup, put, delete_if}
use grok_auth_proxy.Auth.Samples.{start, late, manager_of}
use grok_auth_proxy.Http.{Headers, values, canonical_key, add, set, del}
use grok_auth_proxy.Middleware.Keys.{
  get_header, bearer_of, extract_bearer, presented_key, admin_auth,
}
use grok_auth_proxy.Middleware.Cors.{allows_all, set_header, allow_origin, cors}
use grok_auth_proxy.Store.Audit.{AuditLog}
use grok_auth_proxy.Store.Audit.Samples.{list_audit_table}
use grok_auth_proxy.Store.Table.{ApiKey}
use grok_auth_proxy.Store.Table.Samples.{list_table, plain_crypto}
use grok_auth_proxy.Server.Console.{revoke, rejected, Console, run_handler, on_admin, serve_admin}
use grok_auth_proxy.Server.Console.Locked.{IsLocked, serve_admin-IsLocked}

administering : Unit {0}
unfolding strings lookup put delete_if values canonical_key add set del get_header bearer_of
    extract_bearer presented_key admin_auth allows_all set_header allow_origin cors run_handler
    on_admin serve_admin
administering = tt

abbrev console : Console (List ApiKey) (List AuditLog)
console = record {
  keys = record { db = []; cache = []; pending = [] };
  manager = manager_of late;
  events = [];
  log = [];
}

abbrev headers : Str → Headers
headers key = (codes "X-Admin-Key", key ∷ []) ∷ []

turned_away :
    serve_admin plain_crypto list_table list_audit_table env
      (λ s. ok s.db)
      (revoke (codes "01") start)
      (codes "DELETE")
      (headers (codes "guess"))
      []
      console
    ≡ (rejected 401 (codes "unauthorized"), console)
unfolding administering
turned_away = refl

serve_admin-IsLocked_example :
    IsLocked plain_crypto list_table list_audit_table env
      (λ s. ok s.db)
      (revoke (codes "01") start)
      (headers (codes "secret"))
      console
      (serve_admin plain_crypto list_table list_audit_table env
        (λ s. ok s.db)
        (revoke (codes "01") start)
        (codes "DELETE")
        (headers (codes "secret"))
        []
        console)
serve_admin-IsLocked_example =
    serve_admin-IsLocked plain_crypto list_table list_audit_table env (λ s. ok s.db)
      (revoke (codes "01") start) (codes "DELETE") (headers (codes "secret")) [] console
      (λ same. same)
