-- ===== src/Store/Cache.antt =====
-- internal/store/store.go: the cache of validated keys.
use grok_auth_proxy.Prelude.{
  ℕ, ◌+◌, ◌*◌, Bool, true, false, not, ◌&&◌, Option, none, some, List, ltb, if◌then◌else◌,
}
use grok_auth_proxy.Text.{Str, ◌==◌}
use grok_auth_proxy.Clock.{Time, second, zero_time, is_zero, after}
use grok_auth_proxy.Assoc.{lookup, put, delete_if}
use grok_auth_proxy.Store.Table.{ApiKey}

abbrev pub key_cache_ttl : ℕ
key_cache_ttl = 30 * second

abbrev pub last_used_min_interval : ℕ
last_used_min_interval = 60 * second

pub record CacheEntry : Type 0 where
  pub key : ApiKey
  pub expires_at : Time
  pub last_used : Time

abbrev pub Cache : Type 0
Cache = List (Str × CacheEntry)

-- cacheGet, with the cache that it leaves
unfoldable pub cache_get : Str → (now : Time) → Cache → Option CacheEntry × Cache
cache_get k now cache = elim (lookup k cache) [
  | none ↦ (none, cache)
  | some ent ↦
      if after now ent.expires_at
      then (none, delete_if (λ j _. j == k) cache)
      else (some ent, cache)
]

-- cachePut
unfoldable pub cache_put : Str → ApiKey → (now : Time) → Cache → Cache
cache_put k rec now cache =
    put k (record { key = rec; expires_at = now + key_cache_ttl; last_used = zero_time }) cache

-- invalidateCacheByID
unfoldable pub invalidate_cache_by_id : Str → Cache → Cache
invalidate_cache_by_id id cache = delete_if (λ _ ent. ent.key.id == id) cache

-- The throttle of touchLastUsed: whether the last write is too recent for another one.
abbrev pub is_recent : (now last : Time) → Bool
is_recent now last = not (is_zero last) && ltb now (last + last_used_min_interval)

-- The part of touchLastUsed under the lock: the cache, and whether an update is scheduled.
unfoldable pub touch_cache : Str → (now : Time) → Cache → Cache × Bool
touch_cache k now cache = elim (lookup k cache) [
  | none ↦ (cache, false)
  | some ent ↦
      if is_recent now ent.last_used
      then (cache, false)
      else (put k (record ent { last_used = now }) cache, true)
]
