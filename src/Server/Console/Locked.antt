-- ===== src/Server/Console/Locked.antt =====
-- The group /admin of internal/server/server.go: nothing is read or changed without the admin key.
use grok_auth_proxy.Prelude.{◌≡◌, refl, ◌⊎◌, inl, inr, false, not, ◌||◌, List, Result, if_elim}
use grok_auth_proxy.Text.{Str, codes, ◌==◌, is_blank}
use grok_auth_proxy.Http.{Headers}
use grok_auth_proxy.Store.Text.{CryptoLib}
use grok_auth_proxy.Store.Table.{StoreError, ApiKey, KeyTable}
use grok_auth_proxy.Store.Keys.{KeyStore}
use grok_auth_proxy.Store.Audit.{AuditTable}
use grok_auth_proxy.Middleware.Keys.{Verdict, passes, aborts, presented_key, admin_auth}
use grok_auth_proxy.Middleware.Keys.Admin.{admin_auth_iff}
use grok_auth_proxy.Middleware.Cors.{cors}
use grok_auth_proxy.Server.Console.{
  AdminCall, Reply, preflight, rejected, AdminEnv, State, run_handler, on_admin, serve_admin,
}

pub admin_auth-cases :
    (sha256 : Str → Str) (admin_key : Str) (header : Headers)
    → (admin_auth sha256 admin_key header ≡ aborts 401 (codes "unauthorized"))
      ⊎ (admin_auth sha256 admin_key header ≡ passes tt)
unfolding admin_auth
admin_auth-cases sha256 admin_key header =
    if_elim (λ (v : Verdict (Unit {0})). (v ≡ aborts 401 (codes "unauthorized")) ⊎ (v ≡ passes tt))
      (not (not (is_blank admin_key)) || not (sha256 (presented_key header) == sha256 admin_key))
      (λ _. inl refl) (λ _. inr refl)

module _ (crypto : CryptoLib) (table : KeyTable) (audit : AuditTable) (env : AdminEnv)
    (list_keys : KeyStore table.Db → Result StoreError (List ApiKey)) where
  -- The request is turned away, or it has brought the key and its handler has run.
  abbrev pub IsLocked :
      AdminCall
      → Headers
      → State crypto table audit env list_keys
      → Reply × State crypto table audit env list_keys
      → Type 0
  IsLocked call header st r =
      (r ≡ (preflight, st))
      ⊎ (r ≡ (rejected 401 (codes "unauthorized"), st))
      ⊎ ((is_blank env.admin_key ≡ false)
          × (presented_key header ≡ env.admin_key)
          × (r ≡ run_handler crypto table audit env list_keys call st))

-- Where SHA-256 does not take another text for the admin key: whatever is asked of the group /admin, a
-- request that CORS does not answer itself gets 401 and nothing is read or changed, no key, no
-- credential and no row of the audit log; or an admin key is configured, the request has presented
-- exactly it, and its handler has run.
pub serve_admin-IsLocked :
    (crypto : CryptoLib) (table : KeyTable) (audit : AuditTable) (env : AdminEnv)
    (list_keys : KeyStore table.Db → Result StoreError (List ApiKey)) (call : AdminCall)
    (method : Str) (header response : Headers) (st : State crypto table audit env list_keys)
    → (env.sha256 (presented_key header) ≡ env.sha256 env.admin_key
        → presented_key header ≡ env.admin_key)
    → IsLocked crypto table audit env list_keys call header st
        (serve_admin crypto table audit env list_keys call method header response st)
unfolding serve_admin on_admin
serve_admin-IsLocked crypto table audit env list_keys call method header response st no_collision =
    if_elim (IsLocked crypto table audit env list_keys call header st)
      (cors env.origins method header response).1 (λ _. inl refl)
      (λ _. elim (admin_auth-cases env.sha256 env.admin_key header) [
        | inl refused ↦ inr (inl (rw refused refl))
        | inr passed ↦
            let (configured, same) =
              (admin_auth_iff env.sha256 env.admin_key header no_collision).0 passed in
            inr (inr (configured, same, rw passed refl))
      ])
