-- ===== src/Store/Keys.antt =====
-- internal/store/store.go: creation, validation and revocation of API keys.
-- The update of last_used_at that touchLastUsed starts runs later: it waits in `pending`.
pub mod Cached
pub mod Operations
pub mod Revoked
pub mod Created
use grok_auth_proxy.Prelude.{
  ℕ, true, not, Option, none, some, List, [], ◌∷◌, ◌++◌, Result, ok, err, eqb, is_empty,
  if◌then◌else◌,
}
use grok_auth_proxy.Float.{Float64}
use grok_auth_proxy.Text.{Str}
use grok_auth_proxy.Clock.{Time}
use grok_auth_proxy.Store.Text.{
  CryptoLib, random_hex, generate_plaintext, display_prefix, lookup_hash,
}
use grok_auth_proxy.Store.Table.{
  StoreError, not_found, unauthorized, random_failed, hash_failed, ApiKey, KeyTable,
}
use grok_auth_proxy.Store.Cache.{Cache, cache_get, cache_put, invalidate_cache_by_id, touch_cache}

-- The fields of Store that concern API keys.
pub record KeyStore (Db : Type 0) : Type 0 where
  pub db : Db
  pub cache : Cache
  pub pending : List (Str × Time)

pub record CreateKeyResult : Type 0 where
  pub key : ApiKey
  pub plaintext : Str

-- What rand.Read gives for the key, for the salt and for the id, and the clock.
pub record CreateEnv : Type 0 where
  pub random_key : Option (List ℕ)
  pub salt : List ℕ
  pub random_id : Option (List ℕ)
  pub now : Time

-- The copy of the key that ValidatePlaintext returns.
abbrev pub used_at : Time → ApiKey → ApiKey
used_at now rec = record rec { last_used_at = some now }

module _ (crypto : CryptoLib) (table : KeyTable) where
  open table use {Db}

  abbrev pub Act : Type 0 → Type 0
  Act A = KeyStore Db → Result StoreError A × KeyStore Db

  -- The record that CreateKey inserts.
  unfoldable pub new_key : (id name hash plaintext : Str) → Option Float64 → Time → ApiKey
  new_key id name hash plaintext rps now = record {
    id = id;
    name = name;
    key_hash = hash;
    key_lookup = lookup_hash crypto plaintext;
    key_prefix = display_prefix plaintext;
    rate_limit_rps = rps;
    enabled = true;
    created_at = now;
    last_used_at = none;
    revoked_at = none;
  }

  -- The insert at the end of CreateKey.
  unfoldable pub insert_key : ApiKey → (plaintext : Str) → Act CreateKeyResult
  insert_key rec plaintext s = elim (table.create rec s.db) [
    | err e ↦ (err e, s)
    | ok db ↦ (ok (record { key = rec; plaintext = plaintext }), record s { db = db })
  ]

  -- CreateKey
  unfoldable pub create_key : CreateEnv → Str → Option Float64 → Act CreateKeyResult
  create_key env name rps s = elim (generate_plaintext env.random_key) [
    | none ↦ (err random_failed, s)
    | some plaintext ↦ elim (crypto.bcrypt_generate env.salt plaintext) [
      | none ↦ (err hash_failed, s)
      | some hash ↦ elim (random_hex env.random_id) [
        | none ↦ (err random_failed, s)
        | some id ↦ insert_key (new_key id name hash plaintext rps env.now) plaintext s
      ]
    ]
  ]

  -- RevokeKey
  unfoldable pub revoke_key : Str → (now : Time) → Act (Unit {0})
  revoke_key id now s = elim (table.revoke id now s.db) [
    | err e ↦ (err e, s)
    | ok (affected, db) ↦
        if eqb affected 0
        then (err not_found, record s { db = db })
        else (ok tt, record s { db = db; cache = invalidate_cache_by_id id s.cache })
  ]

  -- touchLastUsed
  unfoldable pub touch_last_used : Str → Str → (now : Time) → KeyStore Db → KeyStore Db
  touch_last_used k id now s =
      let (cache, scheduled) = touch_cache k now s.cache in
      record s {
        cache = cache;
        pending = if scheduled then s.pending ++ (id, now) ∷ [] else s.pending;
      }

  -- One of the goroutines that touchLastUsed starts; its error is ignored.
  unfoldable pub run_pending : KeyStore Db → KeyStore Db
  run_pending s = elim s.pending [
    | [] ↦ s
    | (id, now) ∷ rest ↦ elim (table.touch id now s.db) [
      | err e ↦ record s { pending = rest }
      | ok db ↦ record s { db = db; pending = rest }
    ]
  ]

  -- ValidatePlaintext on the row that the query found.
  unfoldable pub admit : Str → (now : Time) → ApiKey → Act ApiKey
  admit plaintext now rec s =
      if not (crypto.bcrypt_matches rec.key_hash plaintext)
      then (err unauthorized, s)
      else (let k = lookup_hash crypto plaintext in
          let s' = record s { cache = cache_put k rec now s.cache } in
          (ok (used_at now rec), touch_last_used k rec.id now s'))

  -- ValidatePlaintext past the cache.
  unfoldable pub query_key : Str → (now : Time) → Act ApiKey
  query_key plaintext now s = elim (table.first_active (lookup_hash crypto plaintext) s.db) [
    | err e ↦ (err e, s)
    | ok none ↦ (err unauthorized, s)
    | ok (some rec) ↦ admit plaintext now rec s
  ]

  -- ValidatePlaintext; the clock is read once there and once in cacheGet.
  unfoldable pub validate_plaintext : Str → (now now_get : Time) → Act ApiKey
  validate_plaintext plaintext now now_get s =
      if is_empty plaintext
      then (err unauthorized, s)
      else (let k = lookup_hash crypto plaintext in
          let (hit, cache) = cache_get k now_get s.cache in
          let s' = record s { cache = cache } in
          elim hit [
            | some ent ↦ (ok (used_at now ent.key), touch_last_used k ent.key.id now s')
            | none ↦ query_key plaintext now s'
          ])
