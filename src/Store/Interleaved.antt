-- ===== src/Store/Interleaved.antt =====
-- internal/store/store.go: validations and revocations that run at the same time. A step is what one
-- of them does under the lock of the cache or in one statement to the database.
pub mod Expiry
pub mod Steps
pub mod Staleness
use grok_auth_proxy.Prelude.{ℕ, ◌≤◌, ◌≡◌, true, false, some, List, [], ◌∷◌, ◌++◌, ok}
use grok_auth_proxy.Text.{Str, ◌==◌}
use grok_auth_proxy.Clock.{Time}
use grok_auth_proxy.Store.Text.{CryptoLib, lookup_hash}
use grok_auth_proxy.Store.Table.{ApiKey, KeyTable}
use grok_auth_proxy.Store.Cache.{Cache, cache_get, cache_put, invalidate_cache_by_id, touch_cache}

-- A call of ValidatePlaintext between its query and its cachePut: the lookup hash, the row that it has
-- read, and the time at which it began.
pub record Flight : Type 0 where
  pub lookup : Str
  pub rec : ApiKey
  pub now : Time

pub record Running (Db : Type 0) : Type 0 where
  pub db : Db
  pub cache : Cache
  pub flights : List Flight
  pub clock : Time

module _ (crypto : CryptoLib) (table : KeyTable) where
  open table use {Db}

  pub data Step : Running Db → Running Db → Type 0 where
    -- time goes on
    tick : (c : Running Db) (t : Time) → c.clock ≤ t → Step c (record c { clock = t })
    -- ValidatePlaintext reads its row, having begun before; the password matches
    query :
        (c : Running Db) (plaintext : Str) (rec : ApiKey) (now : Time)
        → now ≤ c.clock
        → table.first_active (lookup_hash crypto plaintext) c.db ≡ ok (some rec)
        → crypto.bcrypt_matches rec.key_hash plaintext ≡ true
        → Step c (record c {
          flights =
              record { lookup = lookup_hash crypto plaintext; rec = rec; now = now } ∷ c.flights;
        })
    -- its cachePut
    put_row :
        (c : Running Db) (before after : List Flight) (f : Flight)
        → c.flights ≡ before ++ f ∷ after
        → Step c
            (record c { cache = cache_put f.lookup f.rec f.now c.cache; flights = before ++ after })
    -- cacheGet, which may remove an entry
    get_entry :
        (c : Running Db) (k : Str) (now : Time)
        → Step c (record c { cache = (cache_get k now c.cache).1 })
    -- touchLastUsed under the lock
    touch_entry :
        (c : Running Db) (k : Str) (now : Time)
        → Step c (record c { cache = (touch_cache k now c.cache).0 })
    -- the goroutine of touchLastUsed
    write_last_used :
        (c : Running Db) (id : Str) (now : Time) (db : Db)
        → table.touch id now c.db ≡ ok db
        → Step c (record c { db = db })
    -- the statement of RevokeKey
    revoke_rows :
        (c : Running Db) (id : Str) (now : Time) (n : ℕ) (db : Db)
        → table.revoke id now c.db ≡ ok (n, db)
        → Step c (record c { db = db })
    -- invalidateCacheByID
    invalidate :
        (c : Running Db) (id : Str)
        → Step c (record c { cache = invalidate_cache_by_id id c.cache })
    -- the insert of CreateKey
    insert :
        (c : Running Db) (rec : ApiKey) (db : Db)
        → table.create rec c.db ≡ ok db
        → Step c (record c { db = db })

  -- No step of the run inserts a key with the id.
  abbrev pub Spares : (id : Str) {c c' : Running Db} → Step c c' → Type 0
  Spares id (insert c rec db _) = (rec.id == id) ≡ false
  Spares id _ = Unit

  pub data Run (id : Str) : Running Db → Running Db → Type 0 where
    done : (c : Running Db) → Run id c c
    more : (c c' c'' : Running Db) → Run id c c' → (s : Step c' c'') → Spares id s → Run id c c''

  -- The store as it starts: nothing is cached and nothing runs.
  abbrev pub started : Db → Time → Running Db
  started db clock = record { db = db; cache = []; flights = []; clock = clock }
