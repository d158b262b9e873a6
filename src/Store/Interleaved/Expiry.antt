-- ===== src/Store/Interleaved/Expiry.antt =====
-- When the entries of the cache expire, and how the operations on the cache keep a bound on it.
use grok_auth_proxy.Prelude.{◌+◌, ◌≤◌, inl, inr, [], ◌∷◌, arith, Bool-cases, Option-cases}
use grok_auth_proxy.Text.{Str, ◌==◌}
use grok_auth_proxy.Clock.{Time, after}
use grok_auth_proxy.Assoc.{lookup, Each, Each-lookup, Each-put, Each-delete_if}
use grok_auth_proxy.Store.Table.{ApiKey}
use grok_auth_proxy.Store.Cache.{
  key_cache_ttl, Cache, cache_get, cache_put, invalidate_cache_by_id, is_recent, touch_cache,
}

-- An upper bound on the times at which the entries expire, of those keys that Q holds of.
module _ (Q : ApiKey → Type 0) (T : Time) where
  abbrev pub Expires : Cache → Type 0
  Expires = Each (λ _ ent. Q ent.key → ent.expires_at ≤ T + key_cache_ttl)

  pub Expires-put :
      (k : Str) (rec : ApiKey) (now : Time) (cache : Cache)
      → (Q rec → now ≤ T)
      → Expires cache
      → Expires (cache_put k rec now cache)
  unfolding cache_put
  Expires-put k rec now cache early h =
      Each-put (λ _ ent. Q ent.key → ent.expires_at ≤ T + key_cache_ttl) k _ cache
        (λ q. let e : now ≤ T = early q in omega arith) h

  pub Expires-get :
      (k : Str) (now : Time) (cache : Cache) → Expires cache → Expires (cache_get k now cache).1
  unfolding cache_get
  Expires-get k now cache h = elim (Option-cases (lookup k cache)) [
    | inl missing ↦ rw (missing, cache_get) h
    | inr (ent, found) ↦
        rw (found, cache_get)
          (elim (Bool-cases (after now ent.expires_at)) [
            | inl expired ↦ rw expired (
                Each-delete_if (λ _ ent. Q ent.key → ent.expires_at ≤ T + key_cache_ttl)
                  (λ j _. j == k) cache h)
            | inr live ↦ rw live h
          ])
  ]

  pub Expires-touch :
      (k : Str) (now : Time) (cache : Cache) → Expires cache → Expires (touch_cache k now cache).0
  unfolding touch_cache
  Expires-touch k now cache h = elim (Option-cases (lookup k cache)) [
    | inl missing ↦ rw (missing, touch_cache) h
    | inr (ent, found) ↦
        let same =
          Each-lookup (λ _ ent. Q ent.key → ent.expires_at ≤ T + key_cache_ttl) k cache h found in
        rw (found, touch_cache)
          (elim (Bool-cases (is_recent now ent.last_used)) [
            | inl recent ↦ rw recent h
            | inr due ↦ rw due (
                Each-put (λ _ ent. Q ent.key → ent.expires_at ≤ T + key_cache_ttl) k
                  (record ent { last_used = now }) cache same h)
          ])
  ]

  pub Expires-invalidate :
      (id : Str) (cache : Cache) → Expires cache → Expires (invalidate_cache_by_id id cache)
  unfolding invalidate_cache_by_id
  Expires-invalidate id cache h =
      Each-delete_if (λ _ ent. Q ent.key → ent.expires_at ≤ T + key_cache_ttl)
        (λ _ ent. ent.key.id == id) cache h

pub Expires-weaken :
    (Q Q' : ApiKey → Type 0) (T T' : Time) (cache : Cache)
    → T ≤ T'
    → ((rec : ApiKey) → Q' rec → Q rec)
    → Expires Q T cache
    → Expires Q' T' cache
Expires-weaken Q Q' T T' [] le q h = tt
Expires-weaken Q Q' T T' ((k, ent) ∷ cache) le q (here, h) =
    (λ p. let e = here (q ent.key p) in omega arith, Expires-weaken Q Q' T T' cache le q h)
