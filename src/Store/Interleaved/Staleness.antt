-- ===== src/Store/Interleaved/Staleness.antt =====
-- How long the cache can serve a key that has been revoked, when validations overlap the revocation.
use grok_auth_proxy.Prelude.{
  ℕ, ◌+◌, ◌≤◌, ◌≡◌, inl, inr, true, false, some, ok, arith, In, In-map, In-append, subst,
}
use grok_auth_proxy.Text.{Str, ◌==◌}
use grok_auth_proxy.Clock.{Time, after}
use grok_auth_proxy.Assoc.{lookup, Each-lookup}
use grok_auth_proxy.Store.Text.{CryptoLib}
use grok_auth_proxy.Store.Table.{ApiKey, revoke_row, touch_row, KeyTable}
use grok_auth_proxy.Store.Cache.{key_cache_ttl, CacheEntry, Cache, cache_get}
use grok_auth_proxy.Store.Keys.Operations.{
  IsRetired, revoke_row-IsRetired, revoke_row-keeps, touch_row-keeps,
}
use grok_auth_proxy.Store.Interleaved.{
  Running, Step, tick, query, put_row, get_entry, touch_entry, write_last_used, revoke_rows,
  invalidate, insert, Spares, Run, done, more, started,
}
use grok_auth_proxy.Store.Interleaved.Expiry.{Expires-weaken}
use grok_auth_proxy.Store.Interleaved.Steps.{Holds, Step-Holds, Anything, IsSane, Run-IsSane}

-- A hit is an entry that has not expired.
live_of_hit :
    (k : Str) (now : Time) (cache : Cache) (ent : CacheEntry)
    → (cache_get k now cache).0 ≡ some ent
    → (lookup k cache ≡ some ent) × (after now ent.expires_at ≡ false)
unfolding cache_get
live_of_hit k now cache ent h = ground arith

module _ (crypto : CryptoLib) (table : KeyTable) where
  open table use {Db, rows}

  module _ (id : Str) (T : Time) where
    -- The key.
    abbrev Named : ApiKey → Type 0
    Named rec = (rec.id == id) ≡ true

    -- The key is out of the database, and its entries and validations date from before T.
    abbrev IsFading : Running Db → Type 0
    IsFading c =
        Holds crypto table Named T c × ((rec : ApiKey) → In rec (rows c.db) → IsRetired id rec)

    Step-IsFading :
        {c c' : Running Db} (s : Step crypto table c c')
        → Spares crypto table id s
        → IsFading c
        → IsFading c'
    Step-IsFading (tick c t le) sp h = h
    Step-IsFading (query c plaintext rec now le found matches) sp (h, stored) =
        let (i, active) = table.first_active_found _ _ _ found in
        let out : Named rec → now ≤ T = λ q. absurd (ground (arith, stored rec i)) in
        (Step-Holds crypto table Named T (query c plaintext rec now le found matches) out h, stored)
    Step-IsFading (put_row c before after f same) sp (h, stored) =
        (Step-Holds crypto table Named T (put_row c before after f same) tt h, stored)
    Step-IsFading (get_entry c k now) sp (h, stored) =
        (Step-Holds crypto table Named T (get_entry c k now) tt h, stored)
    Step-IsFading (touch_entry c k now) sp (h, stored) =
        (Step-Holds crypto table Named T (touch_entry c k now) tt h, stored)
    Step-IsFading (write_last_used c id' now db e) sp (h, stored) = (
      h,
      λ rec i.
          let (row, listed, same) =
            In-map (touch_row id' now) (rows c.db) rec
              (subst (In rec) (table.touch_rows id' now c.db db e) i) in
          rw same (touch_row-keeps id id' now row (stored row listed)),
    )
    Step-IsFading (revoke_rows c id' now n db e) sp (h, stored) = (
      h,
      λ rec i.
          let (row, listed, same) =
            In-map (revoke_row id' now) (rows c.db) rec
              (subst (In rec) (table.revoke_rows id' now c.db db n e).0 i) in
          rw same (revoke_row-keeps id id' now row (stored row listed)),
    )
    Step-IsFading (invalidate c id') sp (h, stored) =
        (Step-Holds crypto table Named T (invalidate c id') tt h, stored)
    Step-IsFading (insert c rec' db e) sp (h, stored) = (
      h,
      λ rec i.
          elim (In-append (rows c.db) rec rec'
            (subst (In rec) (table.create_rows rec' c.db db e).0 i)) [
              | inl old ↦ stored rec old
              | inr same ↦ λ named. absurd (cc (sp, rw same at named))
            ],
    )

    Run-IsFading : {c c' : Running Db} → Run crypto table id c c' → IsFading c → IsFading c'
    Run-IsFading (done c) h = h
    Run-IsFading (more c c' c'' r s sp) h = Step-IsFading s sp (Run-IsFading r h)

  -- The statement of RevokeKey starts the fading.
  revoked-IsFading :
      (id : Str) (now : Time) (n : ℕ) (db : Db) (c : Running Db)
      → table.revoke id now c.db ≡ ok (n, db)
      → IsSane crypto table c
      → IsFading id c.clock (record c { db = db })
  revoked-IsFading id now n db c e (entries, begun) = (
    (
      Expires-weaken (Anything crypto table) (Named id c.clock) c.clock c.clock c.cache
          (omega arith) (λ rec q. tt) entries,
      λ f i q. begun f i tt,
    ),
    λ rec i.
        let (row, listed, same) =
          In-map (revoke_row id now) (rows c.db) rec
            (subst (In rec) (table.revoke_rows id now c.db db n e).0 i) in
        rw same (revoke_row-IsRetired id now row),
  )

-- The state after the run, for the key that was revoked while its clock read that of `c`.
faded :
    (crypto : CryptoLib) (table : KeyTable) (id : Str) (db₀ db : table.Db) (t now : Time) (n : ℕ)
    (c c' : Running table.Db)
    → Run crypto table id (started crypto table db₀ t) c
    → table.revoke id now c.db ≡ ok (n, db)
    → Run crypto table id (record c { db = db }) c'
    → IsFading crypto table id c.clock c'
faded crypto table id db₀ db t now n c c' r e r' =
    let sane = Run-IsSane crypto table id r (tt, λ f i. absurd i) in
    Run-IsFading crypto table id c.clock r' (revoked-IsFading crypto table id now n db c e sane)

-- However validations, revocations and creations overlap: when the statement of RevokeKey for a key
-- has run at some time, a later cacheGet that still gives an entry of that key reads the clock at most
-- 30 seconds after that time. No key is created with the same id.
pub revoked_within_ttl :
    (crypto : CryptoLib) (table : KeyTable) (id : Str) (db₀ db : table.Db) (t now : Time) (n : ℕ)
    (c c' : Running table.Db) (k : Str) (now_get : Time) (ent : CacheEntry)
    → Run crypto table id (started crypto table db₀ t) c
    → table.revoke id now c.db ≡ ok (n, db)
    → Run crypto table id (record c { db = db }) c'
    → (cache_get k now_get c'.cache).0 ≡ some ent
    → (ent.key.id == id) ≡ true
    → now_get ≤ c.clock + key_cache_ttl
revoked_within_ttl crypto table id db₀ db t now n c c' k now_get ent r e r' hit named =
    let ((entries, begun), stored) = faded crypto table id db₀ db t now n c c' r e r' in
    let live = live_of_hit k now_get c'.cache ent hit in
    let by =
      Each-lookup
        (λ _ ent. Named crypto table id c.clock ent.key → ent.expires_at ≤ c.clock + key_cache_ttl)
        k c'.cache entries live.0 named in
    ground arith

-- From the statement of RevokeKey on, however validations, revocations and creations overlap, no query
-- finds a row of the key, as long as no key is created with the same id.
pub revoked_not_found :
    (crypto : CryptoLib) (table : KeyTable) (id : Str) (db₀ db : table.Db) (t now : Time) (n : ℕ)
    (c c' : Running table.Db) (k : Str) (rec : ApiKey)
    → Run crypto table id (started crypto table db₀ t) c
    → table.revoke id now c.db ≡ ok (n, db)
    → Run crypto table id (record c { db = db }) c'
    → table.first_active k c'.db ≡ ok (some rec)
    → (rec.id == id) ≡ false
revoked_not_found crypto table id db₀ db t now n c c' k rec r e r' found =
    let (_, stored) = faded crypto table id db₀ db t now n c c' r e r' in
    let (i, active) = table.first_active_found _ _ _ found in ground (arith, stored rec i)
