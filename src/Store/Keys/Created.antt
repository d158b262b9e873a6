-- ===== src/Store/Keys/Created.antt =====
-- Creation of a key, and the validation of its plaintext afterwards.
use grok_auth_proxy.Prelude.{
  In-append, In-append_last, ℕ, ◌≡◌, refl, ◌⊎◌, inl, inr, true, false, Option, none, some, List,
  Result, ok, err, arith, In, Option-cases, Result-cases, is_empty, sym, subst,
}
use grok_auth_proxy.Float.{Float64}
use grok_auth_proxy.Text.{Str}
use grok_auth_proxy.Text.Laws.{==_refl}
use grok_auth_proxy.Clock.{Time}
use grok_auth_proxy.Assoc.{lookup}
use grok_auth_proxy.Store.Text.{CryptoLib, random_hex, generate_plaintext, lookup_hash}
use grok_auth_proxy.Store.Table.{
  StoreError, random_failed, hash_failed, ApiKey, is_active, KeyTable,
}
use grok_auth_proxy.Store.Cache.{cache_get}
use grok_auth_proxy.Store.Keys.{
  KeyStore, CreateEnv, CreateKeyResult, new_key, insert_key, create_key, used_at, admit, query_key,
  validate_plaintext,
}

nonempty_of_generate :
    (random : Option (List ℕ)) (plaintext : Str)
    → generate_plaintext random ≡ some plaintext
    → is_empty plaintext ≡ false
unfolding generate_plaintext
nonempty_of_generate random plaintext h = ground arith

module _ (crypto : CryptoLib) (table : KeyTable) where
  open table use {Db, rows}

  -- How a creation that succeeds came about.
  pub record IsCreated (env : CreateEnv) (name : Str) (rps : Option Float64) (s : KeyStore Db)
      (res : CreateKeyResult) (s' : KeyStore Db) : Type 0 where
    pub plaintext : generate_plaintext env.random_key ≡ some res.plaintext
    pub hash : crypto.bcrypt_generate env.salt res.plaintext ≡ some res.key.key_hash
    pub id : random_hex env.random_id ≡ some res.key.id
    pub key :
        res.key ≡ new_key crypto table res.key.id name res.key.key_hash res.plaintext rps env.now
    pub inserted : table.create res.key s.db ≡ ok s'.db
    pub cache : s'.cache ≡ s.cache

  abbrev Outcome :
      CreateEnv
      → Str
      → Option Float64
      → KeyStore Db
      → Result StoreError CreateKeyResult × KeyStore Db
      → Type 0
  Outcome env name rps s r =
      ((e : StoreError) × (r ≡ (err e, s)))
      ⊎ ((res : CreateKeyResult) × (s' : KeyStore Db) × (r ≡ (ok res, s'))
          × IsCreated env name rps s res s')

  module _ (env : CreateEnv) (name : Str) (rps : Option Float64) (s : KeyStore Db) where
    insert_cases :
        (plaintext hash id : Str)
        → generate_plaintext env.random_key ≡ some plaintext
        → crypto.bcrypt_generate env.salt plaintext ≡ some hash
        → random_hex env.random_id ≡ some id
        → Outcome env name rps s (
            insert_key crypto table
              (new_key crypto table id name hash plaintext rps env.now)
              plaintext
              s)
    unfolding insert_key new_key
    insert_cases plaintext hash id p q r =
        elim (Result-cases
          (table.create (new_key crypto table id name hash plaintext rps env.now) s.db)) [
            | inl (e, failed) ↦ inl (e, rw (failed, insert_key))
            | inr (db, done) ↦ inr (
              record {
                key = new_key crypto table id name hash plaintext rps env.now;
                plaintext = plaintext;
              },
              record s { db = db },
              rw (done, insert_key),
              record { plaintext = p; hash = q; id = r; key = refl; inserted = done; cache = refl },
            )
          ]

    pub create_key_cases : Outcome env name rps s (create_key crypto table env name rps s)
    unfolding create_key
    create_key_cases = elim (Option-cases (generate_plaintext env.random_key)) [
      | inl p ↦ inl (random_failed, rw (p, create_key))
      | inr (plaintext, p) ↦ elim (Option-cases (crypto.bcrypt_generate env.salt plaintext)) [
        | inl q ↦ inl (hash_failed, rw (p, create_key) (rw (q, create_key)))
        | inr (hash, q) ↦ elim (Option-cases (random_hex env.random_id)) [
          | inl r ↦
              inl (random_failed, rw (p, create_key) (rw (q, create_key) (rw (r, create_key))))
          | inr (id, r) ↦
              rw (p, create_key)
                (rw (q, create_key) (rw (r, create_key) (insert_cases plaintext hash id p q r)))
        ]
      ]
    ]

  -- Whether the cache has the entry or not, the fresh key is admitted by its row.
  module _ (env : CreateEnv) (name : Str) (rps : Option Float64) (s s' : KeyStore Db)
      (res : CreateKeyResult) (c : IsCreated env name rps s res s') where
    created_active : is_active (lookup_hash crypto res.plaintext) res.key ≡ true
    unfolding new_key
    created_active = rw c.key (rw ==_refl refl)

    created_lookup : res.key.key_lookup ≡ lookup_hash crypto res.plaintext
    unfolding new_key
    created_lookup = rw c.key refl

    -- The only row that the plaintext can be looked up by is the new one.
    created_unique :
        (rec : ApiKey)
        → In rec (rows s'.db)
        → is_active (lookup_hash crypto res.plaintext) rec ≡ true
        → rec ≡ res.key
    created_unique rec i active =
        let (grown, distinct) = table.create_rows res.key s.db s'.db c.inserted in
        elim (In-append (rows s.db) rec res.key (subst (In rec) grown i)) [
          | inl old ↦
              let other = distinct rec old in
              absurd (ground (arith, created_lookup, rw created_lookup at other))
          | inr same ↦ same
        ]

    admit_created :
        (now : Time) (t : KeyStore Db)
        → (admit crypto table res.plaintext now res.key t).0 ≡ ok (used_at now res.key)
    unfolding admit
    admit_created now t =
        rw (crypto.matches-generate env.salt res.plaintext res.key.key_hash c.hash) refl

    query_created :
        (now : Time) (t : KeyStore Db) (o : Option ApiKey)
        → t.db ≡ s'.db
        → table.first_active (lookup_hash crypto res.plaintext) t.db ≡ ok o
        → (query_key crypto table res.plaintext now t).0 ≡ ok (used_at now res.key)
    unfolding query_key
    query_created now t none same p =
        let (grown, _) = table.create_rows res.key s.db s'.db c.inserted in
        let missed =
          table.first_active_missed _ _ p res.key
            (rw same (rw grown (In-append_last (rows s.db) res.key))) in
        absurd (cc (missed, created_active))
    query_created now t (some rec) same p =
        let (i, active) = table.first_active_found _ _ _ p in
        let it : rec ≡ res.key =
          created_unique rec (subst (λ db. In rec (rows db)) same i) active in
        rw (p, query_key) (rw it (admit_created now t))

    validate_created :
        (now now_get : Time) (o : Option ApiKey)
        → table.first_active (lookup_hash crypto res.plaintext) s'.db ≡ ok o
        → lookup (lookup_hash crypto res.plaintext) s.cache ≡ none
        → (validate_plaintext crypto table res.plaintext now now_get s').0
          ≡ ok (used_at now res.key)
    unfolding validate_plaintext
    validate_created now now_get o q uncached =
        let k = lookup_hash crypto res.plaintext in
        let miss : (cache_get k now_get s'.cache).0 ≡ none =
          unfold cache_get in
          rw (subst (λ cache. lookup k cache ≡ none) (sym c.cache) uncached, cache_get) in
        rw (nonempty_of_generate env.random_key res.plaintext c.plaintext) (
          rw miss
            (query_created now (record s' { cache = (cache_get k now_get s'.cache).1 }) o refl q))

-- A key that was created is validated by its plaintext, if the query for it does not fail and nothing
-- is cached under its hash; the validation returns the new key, with the time of its use.
pub create-validate :
    (crypto : CryptoLib) (table : KeyTable) (env : CreateEnv) (name : Str) (rps : Option Float64)
    (s s' : KeyStore table.Db) (res : CreateKeyResult) (o : Option ApiKey) (now now_get : Time)
    → create_key crypto table env name rps s ≡ (ok res, s')
    → table.first_active (lookup_hash crypto res.plaintext) s'.db ≡ ok o
    → lookup (lookup_hash crypto res.plaintext) s.cache ≡ none
    → (validate_plaintext crypto table res.plaintext now now_get s').0 ≡ ok (used_at now res.key)
create-validate crypto table env name rps s s' res o now now_get h q uncached =
    elim (create_key_cases crypto table env name rps s) [
      | inl (e, failed) ↦ absurd (cc)
      | inr (res', t, done, c) ↦
          let same : res' ≡ res = cc in
          let same' : t ≡ s' = cc in
          validate_created crypto table env name rps s s' res
            (subst (λ r. IsCreated crypto table env name rps s r s') same
              (subst (IsCreated crypto table env name rps s res') same' c))
            now now_get o q uncached
    ]
