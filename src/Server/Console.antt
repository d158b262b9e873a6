-- ===== src/Server/Console.antt =====
-- internal/server/server.go with internal/handlers/admin/admin.go: a request to the group /admin, from
-- CORS on, through the check of the admin key, to the handler of its route.
pub mod Locked
mod Tests
use grok_auth_proxy.Prelude.{ℕ, Bool, Option, List, ◌++◌, Result, if◌then◌else◌}
use grok_auth_proxy.Text.{Str}
use grok_auth_proxy.Clock.{Time}
use grok_auth_proxy.Http.{Headers}
use grok_auth_proxy.Auth.Manager.{Event, JsonLib, Manager}
use grok_auth_proxy.Store.Text.{CryptoLib}
use grok_auth_proxy.Store.Table.{StoreError, ApiKey, KeyTable}
use grok_auth_proxy.Store.Keys.{KeyStore, CreateEnv}
use grok_auth_proxy.Store.Audit.{AuditTable, get_audit_log}
use grok_auth_proxy.Store.Audit.Listing.{list_audit_logs}
use grok_auth_proxy.Middleware.Keys.{Verdict, passes, aborts, admin_auth}
use grok_auth_proxy.Middleware.Cors.{cors}
use grok_auth_proxy.Admin.{
  Answer, Bound, create_key_handler, list_keys_handler, revoke_key_handler, reload_auth_handler,
}
use grok_auth_proxy.Admin.Audit.{AuditAnswer, list_audit_handler, get_audit_handler}

-- The routes of the group, each with what its handler reads.
pub data AdminCall : Type 0 where
  create : CreateEnv → Bound → (content_length_is_0 : Bool) → AdminCall
  list : AdminCall
  revoke : (id : Str) (now : Time) → AdminCall
  reload_auth : (file : Option Str) → AdminCall
  list_audit : (query : Str → Str) → AdminCall
  get_audit : (id : Str) → AdminCall

pub data Reply : Type 0 where
  preflight : Reply
  rejected : (status : ℕ) (message : Str) → Reply
  answer : Answer → Reply
  audit_answer : AuditAnswer → Reply

-- What the handlers read and change.
pub record Console (Db Log : Type 0) : Type 0 where
  pub keys : KeyStore Db
  pub manager : Manager
  pub events : List Event
  pub log : Log

-- The libraries and settings.
pub record AdminEnv : Type 0 where
  pub sha256 : Str → Str
  pub admin_key : Str
  pub origins : List Str
  pub json : JsonLib
  pub parse_time : Str → Option Time

module _ (crypto : CryptoLib) (table : KeyTable) (audit : AuditTable) (env : AdminEnv)
    (list_keys : KeyStore table.Db → Result StoreError (List ApiKey)) where
  abbrev pub State : Type 0
  State = Console table.Db audit.Db

  unfoldable pub run_handler : AdminCall → State → Reply × State
  run_handler (create make body empty) st =
      let (a, keys) = create_key_handler crypto table make body empty st.keys in
      (answer a, record st { keys = keys })
  run_handler list st = (answer (list_keys_handler crypto table (list_keys st.keys)), st)
  run_handler (revoke id now) st =
      let (a, keys) = revoke_key_handler crypto table id now st.keys in
      (answer a, record st { keys = keys })
  run_handler (reload_auth file) st =
      let (a, m, events) = reload_auth_handler env.json file st.manager in
      (answer a, record st { manager = m; events = st.events ++ events })
  run_handler (list_audit query) st = (
    audit_answer
        (list_audit_handler env.parse_time (λ f. list_audit_logs audit f st.log st.log) query),
    st,
  )
  run_handler (get_audit id) st =
      (audit_answer (get_audit_handler (λ i. get_audit_log audit i st.log) id), st)

  -- Behind AdminAuth.
  unfoldable pub on_admin : AdminCall → Verdict (Unit {0}) → State → Reply × State
  on_admin call (aborts status message) st = (rejected status message, st)
  on_admin call (passes _) st = run_handler call st

  -- The group, unless CORS answers.
  unfoldable pub serve_admin :
      AdminCall → (method : Str) → (header response : Headers) → State → Reply × State
  serve_admin call method header response st =
      let (_, ends) = cors env.origins method header response in
      if ends
      then (preflight, st)
      else on_admin call (admin_auth env.sha256 env.admin_key header) st
