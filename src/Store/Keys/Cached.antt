-- ===== src/Store/Keys/Cached.antt =====
-- A property of every cached key, carried through validation: it holds of the key that validation
-- returns, if it holds of each row that validation may cache.
use grok_auth_proxy.Prelude.{
  ◌≡◌, refl, inl, inr, true, Option, none, some, Result, ok, err, arith, In, Bool-cases,
  Option-cases, is_empty,
}
use grok_auth_proxy.Text.{Str, ◌==◌}
use grok_auth_proxy.Clock.{Time, after}
use grok_auth_proxy.Assoc.{lookup, Each, Each-lookup, Each-put, Each-delete_if}
use grok_auth_proxy.Store.Text.{CryptoLib, lookup_hash}
use grok_auth_proxy.Store.Table.{StoreError, unauthorized, ApiKey, is_active, KeyTable}
use grok_auth_proxy.Store.Cache.{Cache, CacheEntry, cache_get, cache_put, is_recent, touch_cache}
use grok_auth_proxy.Store.Keys.{
  KeyStore, touch_last_used, used_at, admit, query_key, validate_plaintext,
}

-- A hit is an entry of the cache.
pub lookup_of_hit :
    (k : Str) (now : Time) (cache : Cache) (ent : CacheEntry)
    → (cache_get k now cache).0 ≡ some ent
    → lookup k cache ≡ some ent
unfolding cache_get
lookup_of_hit k now cache ent e = ground arith

module _ (Q : Str → ApiKey → Type 0) where
  abbrev pub Cached : Cache → Type 0
  Cached = Each (λ k ent. Q k ent.key)

  cache_get-Cached :
      (k : Str) (now : Time) (cache : Cache) → Cached cache → Cached (cache_get k now cache).1
  unfolding cache_get
  cache_get-Cached k now cache h = elim (Option-cases (lookup k cache)) [
    | inl missing ↦ rw (missing, cache_get) h
    | inr (ent, found) ↦
        rw (found, cache_get)
          (elim (Bool-cases (after now ent.expires_at)) [
            | inl expired ↦
                rw expired (Each-delete_if (λ k ent. Q k ent.key) (λ j _. j == k) cache h)
            | inr live ↦ rw live h
          ])
  ]

  cache_get-hit :
      (k : Str) (now : Time) (cache : Cache) (ent : CacheEntry)
      → Cached cache
      → (cache_get k now cache).0 ≡ some ent
      → Q k ent.key
  cache_get-hit k now cache ent h e =
      Each-lookup (λ k ent. Q k ent.key) k cache h (lookup_of_hit k now cache ent e)

  touch_cache-Cached :
      (k : Str) (now : Time) (cache : Cache) → Cached cache → Cached (touch_cache k now cache).0
  unfolding touch_cache
  touch_cache-Cached k now cache h = elim (Option-cases (lookup k cache)) [
    | inl missing ↦ rw (missing, touch_cache) h
    | inr (ent, found) ↦
        let q = Each-lookup (λ k ent. Q k ent.key) k cache h found in
        rw (found, touch_cache)
          (elim (Bool-cases (is_recent now ent.last_used)) [
            | inl recent ↦ rw recent h
            | inr due ↦
                rw due
                  (Each-put (λ k ent. Q k ent.key) k (record ent { last_used = now }) cache q h)
          ])
  ]

module _ (crypto : CryptoLib) (table : KeyTable) (Q : Str → ApiKey → Type 0) where
  open table use {Db, rows, first_active}

  -- Validation may cache the row for the plaintext.
  abbrev pub MayCache : Db → Str → ApiKey → Type 0
  MayCache db plaintext rec =
      In rec (rows db)
      × (is_active (lookup_hash crypto plaintext) rec ≡ true)
      × (crypto.bcrypt_matches rec.key_hash plaintext ≡ true)

  -- What validation of the plaintext promises of its result.
  abbrev pub Promise : Str → Time → KeyStore Db → Result StoreError ApiKey × KeyStore Db → Type 0
  Promise plaintext now s (r, s') =
      Cached Q s'.cache
      × (s'.db ≡ s.db)
      × ((key : ApiKey)
          → r ≡ ok key
          → (rec : ApiKey) × Q (lookup_hash crypto plaintext) rec × (key ≡ used_at now rec))

  module _ (plaintext : Str) (now : Time) (s : KeyStore Db) (h : Cached Q s.cache) where
    refused : (e : StoreError) → Promise plaintext now s (err e, s)
    refused e = (h, refl, λ key p. cc)

    admitted :
        (rec : ApiKey) (cache : Cache)
        → Cached Q cache
        → Q (lookup_hash crypto plaintext) rec
        → Promise plaintext now s (
          ok (used_at now rec),
          touch_last_used crypto table
              (lookup_hash crypto plaintext)
              rec.id
              now
              (record s { cache = cache }),
        )
    unfolding touch_last_used
    admitted rec cache h' q = (
      touch_cache-Cached Q (lookup_hash crypto plaintext) now cache h',
      refl,
      λ key p. (rec, q, cc),
    )

    admit-Promise :
        (rec : ApiKey)
        → (crypto.bcrypt_matches rec.key_hash plaintext ≡ true
            → Q (lookup_hash crypto plaintext) rec)
        → Promise plaintext now s (admit crypto table plaintext now rec s)
    unfolding admit cache_put
    admit-Promise rec allowed = elim (Bool-cases (crypto.bcrypt_matches rec.key_hash plaintext)) [
      | inl same ↦ rw same (
          admitted rec _
            (Each-put (λ k ent. Q k ent.key) (lookup_hash crypto plaintext) _ s.cache (allowed same)
              h)
            (allowed same))
      | inr other ↦ rw other (refused unauthorized)
    ]

    query_key-Promise :
        ((rec : ApiKey) → MayCache s.db plaintext rec → Q (lookup_hash crypto plaintext) rec)
        → Promise plaintext now s (query_key crypto table plaintext now s)
    unfolding query_key
    query_key-Promise allowed = by_row (first_active (lookup_hash crypto plaintext) s.db) refl
      where
        by_row :
            (r : Result StoreError (Option ApiKey))
            → first_active (lookup_hash crypto plaintext) s.db ≡ r
            → Promise plaintext now s (query_key crypto table plaintext now s)
        by_row (err e) p = rw (p, query_key) (refused e)
        by_row (ok none) p = rw (p, query_key) (refused unauthorized)
        by_row (ok (some rec)) p =
            let (listed, active) = table.first_active_found _ _ _ p in
            rw (p, query_key) (admit-Promise rec (λ same. allowed rec (listed, active, same)))

  -- Where Q holds of every cached key and of every row that validation may cache, it holds of every
  -- cached key afterwards, the database is as it was, and a key is returned only if Q holds of it.
  pub validate_plaintext-Promise :
      (plaintext : Str) (now now_get : Time) (s : KeyStore Db)
      → Cached Q s.cache
      → ((rec : ApiKey) → MayCache s.db plaintext rec → Q (lookup_hash crypto plaintext) rec)
      → Promise plaintext now s (validate_plaintext crypto table plaintext now now_get s)
  unfolding validate_plaintext
  validate_plaintext-Promise plaintext now now_get s h allowed =
      elim (Bool-cases (is_empty plaintext)) [
        | inl nothing ↦ rw nothing (refused plaintext now s h unauthorized)
        | inr something ↦ rw something (by_hit (cache_get k now_get s.cache).0 refl)
      ]
    where
      k : Str
      k = lookup_hash crypto plaintext

      s' : KeyStore Db
      s' = record s { cache = (cache_get k now_get s.cache).1 }

      h' : Cached Q s'.cache
      h' = cache_get-Cached Q k now_get s.cache h

      by_hit :
          (hit : Option CacheEntry)
          → (cache_get k now_get s.cache).0 ≡ hit
          → Promise plaintext now s (elim hit [
            | some ent ↦
                (ok (used_at now ent.key), touch_last_used crypto table k ent.key.id now s')
            | none ↦ query_key crypto table plaintext now s'
          ])
      by_hit none p = query_key-Promise plaintext now s' h' allowed
      by_hit (some ent) p =
          admitted plaintext now s h ent.key s'.cache h' (cache_get-hit Q k now_get s.cache ent h p)
