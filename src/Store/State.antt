-- ===== src/Store/State.antt =====
-- internal/store/store.go: the row that keeps the credentials.
-- The database is a parameter, as for the API keys.
use grok_auth_proxy.Prelude.{◌≡◌, Option, none, some, [], Result, ok, err, is_empty, if◌then◌else◌}
use grok_auth_proxy.Text.{Str, codes}
use grok_auth_proxy.Clock.{Time, zero_time}
use grok_auth_proxy.Store.Table.{StoreError, empty_payload}

-- AuthState
pub record AuthState : Type 0 where
  pub id : Str
  pub payload : Str
  pub updated_at : Time

abbrev pub auth_state_default_id : Str
auth_state_default_id = codes "default"

pub record StateTable : Type 1 where
  pub Db : Type 0
  -- the row under the default id
  pub state : Db → Option AuthState
  -- INSERT … ON CONFLICT UPDATE
  pub save : AuthState → Db → Result StoreError Db
  -- SELECT … WHERE id = id LIMIT 1
  pub first : Str → Db → Result StoreError (Option AuthState)
  pub save_state :
      (r : AuthState) (db db' : Db)
      → r.id ≡ auth_state_default_id
      → save r db ≡ ok db'
      → state db' ≡ some r
  pub first_state :
      (db : Db) (o : Option AuthState) → first auth_state_default_id db ≡ ok o → o ≡ state db

module _ (table : StateTable) where
  open table use {Db}

  -- SaveAuthState
  unfoldable pub save_auth_state : Str → (now : Time) → Db → Result StoreError Db
  save_auth_state payload now db =
      if is_empty payload
      then err empty_payload
      else table.save (record { id = auth_state_default_id; payload = payload; updated_at = now })
          db

  abbrev pub loaded_state : Result StoreError (Option AuthState) → Result StoreError (Str × Time)
  loaded_state (err e) = err e
  loaded_state (ok none) = ok ([], zero_time)
  loaded_state (ok (some r)) = ok (r.payload, r.updated_at)

  -- LoadAuthState; a missing row is an empty payload.
  unfoldable pub load_auth_state : Db → Result StoreError (Str × Time)
  load_auth_state db = loaded_state (table.first auth_state_default_id db)
