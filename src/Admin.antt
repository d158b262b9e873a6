-- ===== src/Admin.antt =====
-- internal/handlers/admin/admin.go: the handlers for the keys and for the reload of the credentials.
-- An answer is a status and the fields of the JSON object that the handler writes.
pub mod Answers
pub mod Audit
mod Tests
use grok_auth_proxy.Prelude.{
  ℕ, Bool, true, false, Option, none, some, List, [], map, Result, ok, err, is_empty, if◌then◌else◌,
}
use grok_auth_proxy.Float.{Float64}
use grok_auth_proxy.Text.{Str}
use grok_auth_proxy.Clock.{Time}
use grok_auth_proxy.Auth.Manager.{AuthError, Event, JsonLib, Manager, reload, expires_at}
use grok_auth_proxy.Store.Text.{CryptoLib}
use grok_auth_proxy.Store.Table.{StoreError, not_found, ApiKey, KeyTable}
use grok_auth_proxy.Store.Keys.{KeyStore, CreateKeyResult, CreateEnv, create_key, revoke_key}

-- The error messages.
pub data Message : Type 0 where
  invalid_body create_failed list_failed missing_key_id key_not_found revoke_failed reload_failed :
      Message

-- The fields of a key in a listing.
pub record KeyView : Type 0 where
  pub id : Str
  pub name : Str
  pub key_prefix : Str
  pub rate_limit_rps : Option Float64
  pub enabled : Bool
  pub created_at : Time
  pub last_used_at : Option Time
  pub revoked_at : Option Time

-- The fields of a new key, the plaintext among them.
pub record NewKeyView : Type 0 where
  pub id : Str
  pub name : Str
  pub key_prefix : Str
  pub key : Str
  pub rate_limit_rps : Option Float64
  pub created_at : Time
  pub enabled : Bool

pub data Answer : Type 0 where
  failure : (status : ℕ) → Message → Answer
  created : NewKeyView → Answer
  keys : List KeyView → Answer
  revoked : (id : Str) → Answer
  reloaded : (expires_at : Time) → Answer

pub record CreateKeyRequest : Type 0 where
  pub name : Str
  pub rate_limit_rps : Option Float64

-- What ShouldBindJSON makes of the body: a request; none, as there is no body; or an error, with the
-- fields that had been set by then.
pub data Bound : Type 0 where
  bound : CreateKeyRequest → Bound
  end_of_file : Bound
  malformed : CreateKeyRequest → Bound

abbrev no_request : CreateKeyRequest
no_request = record { name = []; rate_limit_rps = none }

-- The request that CreateKey goes on with, if it does: an error is passed over where the body's length
-- is announced as 0.
unfoldable pub accepted : Bound → (content_length_is_0 : Bool) → Option CreateKeyRequest
accepted (bound req) empty = some req
accepted end_of_file empty = some no_request
accepted (malformed req) empty = if empty then some req else none

unfoldable pub view : ApiKey → KeyView
view k = record {
  id = k.id;
  name = k.name;
  key_prefix = k.key_prefix;
  rate_limit_rps = k.rate_limit_rps;
  enabled = k.enabled;
  created_at = k.created_at;
  last_used_at = k.last_used_at;
  revoked_at = k.revoked_at;
}

unfoldable pub new_view : CreateKeyResult → NewKeyView
new_view res = record {
  id = res.key.id;
  name = res.key.name;
  key_prefix = res.key.key_prefix;
  key = res.plaintext;
  rate_limit_rps = res.key.rate_limit_rps;
  created_at = res.key.created_at;
  enabled = res.key.enabled;
}

abbrev pub is_not_found : StoreError → Bool
is_not_found not_found = true
is_not_found _ = false

module _ (crypto : CryptoLib) (table : KeyTable) where
  open table use {Db}

  abbrev pub created_answer : Result StoreError CreateKeyResult → Answer
  created_answer (ok res) = created (new_view res)
  created_answer (err e) = failure 500 create_failed

  -- Handler.CreateKey
  unfoldable pub create_key_handler :
      CreateEnv → Bound → (content_length_is_0 : Bool) → KeyStore Db → Answer × KeyStore Db
  create_key_handler env body empty s = elim (accepted body empty) [
    | none ↦ (failure 400 invalid_body, s)
    | some req ↦
        let (r, s') = create_key crypto table env req.name req.rate_limit_rps s in
        (created_answer r, s')
  ]

  -- Handler.ListKeys, on what Store.ListKeys gives.
  unfoldable pub list_keys_handler : Result StoreError (List ApiKey) → Answer
  list_keys_handler (ok rows) = keys (map view rows)
  list_keys_handler (err e) = failure 500 list_failed

  abbrev pub revoked_answer : (id : Str) → Result StoreError (Unit {0}) → Answer
  revoked_answer id (ok _) = revoked id
  revoked_answer id (err e) =
      if is_not_found e then failure 404 key_not_found else failure 500 revoke_failed

  -- Handler.RevokeKey
  unfoldable pub revoke_key_handler : (id : Str) → (now : Time) → KeyStore Db → Answer × KeyStore Db
  revoke_key_handler id now s =
      if is_empty id
      then (failure 400 missing_key_id, s)
      else (let (r, s') = revoke_key crypto table id now s in (revoked_answer id r, s'))

abbrev reload_answer :
    Result AuthError (Unit {0}) × Manager × List Event → Answer × Manager × List Event
reload_answer (ok _, m, events) = (reloaded (expires_at m), m, events)
reload_answer (err e, m, events) = (failure 500 reload_failed, m, events)

-- Handler.ReloadAuth; the second argument is what reading the file gives.
unfoldable pub reload_auth_handler : JsonLib → Option Str → Manager → Answer × Manager × List Event
reload_auth_handler json file m = reload_answer (reload json file m)
