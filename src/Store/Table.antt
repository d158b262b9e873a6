-- ===== src/Store/Table.antt =====
-- internal/store/store.go: the rows of API keys and the database that holds them.
-- The database (gorm over SQLite or PostgreSQL) is a parameter: a type of states, the statements that
-- the store sends, and what SQL documents of them, in terms of the rows of the table.
pub mod Samples
use grok_auth_proxy.Prelude.{
  ℕ, ◌+◌, ◌≡◌, Bool, true, false, not, ◌&&◌, Option, none, some, List, [], ◌∷◌, ◌++◌, map, Result,
  ok, In, is_some, if◌then◌else◌,
}
use grok_auth_proxy.Float.{Float64}
use grok_auth_proxy.Text.{Str, ◌==◌}
use grok_auth_proxy.Clock.{Time}

pub data StoreError : Type 0 where
  not_found unauthorized db_failed random_failed hash_failed empty_payload no_row nil_audit_log :
      StoreError

pub record ApiKey : Type 0 where
  pub id : Str
  pub name : Str
  pub key_hash : Str
  pub key_lookup : Str
  pub key_prefix : Str
  pub rate_limit_rps : Option Float64
  pub enabled : Bool
  pub created_at : Time
  pub last_used_at : Option Time
  pub revoked_at : Option Time

-- WHERE key_lookup = lookup AND enabled AND revoked_at IS NULL
abbrev pub is_active : Str → ApiKey → Bool
is_active lookup r = r.key_lookup == lookup && r.enabled && not (is_some r.revoked_at)

-- WHERE id = id AND revoked_at IS NULL
abbrev pub is_revocable : Str → ApiKey → Bool
is_revocable id r = r.id == id && not (is_some r.revoked_at)

-- The row after SET enabled = false, revoked_at = now, where the condition holds of it.
abbrev pub revoke_row : Str → Time → ApiKey → ApiKey
revoke_row id now r =
    if is_revocable id r then record r { enabled = false; revoked_at = some now } else r

-- The row after SET last_used_at = now WHERE id = id.
abbrev pub touch_row : Str → Time → ApiKey → ApiKey
touch_row id now r = if r.id == id then record r { last_used_at = some now } else r

abbrev pub count_if {ℓ} : {A : Type ℓ} → (A → Bool) → List A → ℕ
count_if p [] = 0
count_if p (x ∷ xs) = (if p x then 1 else 0) + count_if p xs

pub record KeyTable : Type 1 where
  pub Db : Type 0
  pub rows : Db → List ApiKey
  -- INSERT
  pub create : ApiKey → Db → Result StoreError Db
  -- SELECT … WHERE is_active LIMIT 1
  pub first_active : Str → Db → Result StoreError (Option ApiKey)
  -- UPDATE … WHERE is_revocable, with the number of rows affected
  pub revoke : Str → Time → Db → Result StoreError (ℕ × Db)
  -- UPDATE of last_used_at
  pub touch : Str → Time → Db → Result StoreError Db
  -- The index on key_lookup is unique, so an insert that succeeds met no row with its value.
  pub create_rows :
      (r : ApiKey) (db db' : Db)
      → create r db ≡ ok db'
      → (rows db' ≡ rows db ++ r ∷ [])
        × ((s : ApiKey) → In s (rows db) → (s.key_lookup == r.key_lookup) ≡ false)
  pub first_active_found :
      (lookup : Str) (db : Db) (r : ApiKey)
      → first_active lookup db ≡ ok (some r)
      → In r (rows db) × (is_active lookup r ≡ true)
  pub first_active_missed :
      (lookup : Str) (db : Db)
      → first_active lookup db ≡ ok none
      → (r : ApiKey) → In r (rows db)
      → is_active lookup r ≡ false
  pub revoke_rows :
      (id : Str) (now : Time) (db db' : Db) (n : ℕ)
      → revoke id now db ≡ ok (n, db')
      → (rows db' ≡ map (revoke_row id now) (rows db)) × (n ≡ count_if (is_revocable id) (rows db))
  pub touch_rows :
      (id : Str) (now : Time) (db db' : Db)
      → touch id now db ≡ ok db'
      → rows db' ≡ map (touch_row id now) (rows db)
