-- ===== src/Store/Keys/Revoked.antt =====
-- Revocation, and what the store does after it.
-- Each operation runs to its end before the next one; Store/Interleaved has validations that overlap
-- revocations.
use grok_auth_proxy.Prelude.{
  In-map, In-append, ℕ, ◌≡◌, refl, ◌⊎◌, inl, inr, false, Option, some, List, [], ◌∷◌, Result, ok,
  err, arith, In, Bool-cases, Result-cases, eqb, subst, ap,
}
use grok_auth_proxy.Float.{Float64}
use grok_auth_proxy.Text.{Str, ◌==◌}
use grok_auth_proxy.Clock.{Time}
use grok_auth_proxy.Assoc.{Each-delete_if, Each-delete_if_self}
use grok_auth_proxy.Store.Text.{CryptoLib, random_hex, lookup_hash}
use grok_auth_proxy.Store.Table.{StoreError, ApiKey, revoke_row, touch_row, KeyTable}
use grok_auth_proxy.Store.Cache.{invalidate_cache_by_id}
use grok_auth_proxy.Store.Keys.{
  KeyStore, CreateEnv, create_key, revoke_key, run_pending, validate_plaintext,
}
use grok_auth_proxy.Store.Keys.Created.{create_key_cases}
use grok_auth_proxy.Store.Keys.Cached.{Cached, MayCache, validate_plaintext-Promise}
use grok_auth_proxy.Store.Keys.Operations.{
  IsRetired, revoke_row-IsRetired, revoke_row-keeps, touch_row-keeps, Op, create, validate, revoke,
  write_last_used, Avoids, run_op, run_ops, revoke_key_lem,
}

module _ (crypto : CryptoLib) (table : KeyTable) where
  open table use {Db, rows}

  module _ (id : Str) where
    abbrev Other : Str → ApiKey → Type 0
    Other _ rec = (rec.id == id) ≡ false

    -- Neither the cache nor the database would let the key in.
    record IsOut (s : KeyStore Db) : Type 0 where
      cached : Cached Other s.cache
      stored : (rec : ApiKey) → In rec (rows s.db) → IsRetired id rec

    other_of_active :
        (s : KeyStore Db) (plaintext : Str) (rec : ApiKey)
        → IsOut s
        → MayCache crypto table Other s.db plaintext rec
        → Other (lookup_hash crypto plaintext) rec
    other_of_active s plaintext rec o (listed, active, _) = ground (arith, o.stored rec listed)

    validate-IsOut :
        (plaintext : Str) (now now_get : Time) (s : KeyStore Db)
        → IsOut s
        → IsOut (validate_plaintext crypto table plaintext now now_get s).1
          × ((key : ApiKey)
              → (validate_plaintext crypto table plaintext now now_get s).0 ≡ ok key
              → (key.id == id) ≡ false)
    validate-IsOut plaintext now now_get s o =
        let (cached, same, given) =
          validate_plaintext-Promise crypto table Other plaintext now now_get s o.cached
            (λ rec m. other_of_active s plaintext rec o m) in
        (
          record { cached = cached; stored = rw same o.stored },
          λ key p. let (rec, other, q) = given key p in rw q other,
        )

    revoke-IsRetired :
        (id' : Str) (now : Time) (db db' : Db) (n : ℕ)
        → table.revoke id' now db ≡ ok (n, db')
        → ((rec : ApiKey) → IsRetired id (revoke_row id' now rec))
          ⊎ ((rec : ApiKey) → In rec (rows db) → IsRetired id rec)
        → (rec : ApiKey) → In rec (rows db')
        → IsRetired id rec
    revoke-IsRetired id' now db db' n p out rec i =
        let (row, listed, same) =
          In-map (revoke_row id' now) (rows db) rec
            (subst (In rec) (table.revoke_rows id' now db db' n p).0 i) in
        rw same (elim out [
          | inl always ↦ always row
          | inr before ↦ revoke_row-keeps id id' now row (before row listed)
        ])

    revoked-IsOut :
        (now : Time) (s s' : KeyStore Db)
        → revoke_key crypto table id now s ≡ (ok tt, s')
        → IsOut s'
    unfolding invalidate_cache_by_id
    revoked-IsOut now s s' h = by_result (table.revoke id now s.db) refl
      where
        out :
            (n : ℕ) (db : Db)
            → table.revoke id now s.db ≡ ok (n, db)
            → IsOut (record s { db = db; cache = invalidate_cache_by_id id s.cache })
        out n db p = record {
          cached = Each-delete_if_self (λ _ ent. ent.key.id == id) s.cache;
          stored = revoke-IsRetired id now s.db db n p (inl (revoke_row-IsRetired id now));
        }

        by_result : (r : Result StoreError (ℕ × Db)) → table.revoke id now s.db ≡ r → IsOut s'
        by_result (err e) p = absurd (cc (rw (revoke_key_lem crypto table _ _ _, p) at h))
        by_result (ok (n, db)) p = elim (Bool-cases (eqb n 0)) [
          | inl nothing ↦ absurd (cc (rw (revoke_key_lem crypto table _ _ _, p, nothing) at h))
          | inr something ↦
              let done : (ok tt, record s { db = db; cache = invalidate_cache_by_id id s.cache })
                  ≡ (ok tt, s') =
                rw (revoke_key_lem crypto table _ _ _, p, something) at h in
              subst IsOut (ap (λ (r : Result StoreError (Unit {0}) × KeyStore Db). r.1) done)
                (out n db p)
        ]

    revoke-IsOut :
        (id' : Str) (now : Time) (s : KeyStore Db)
        → IsOut s
        → IsOut (revoke_key crypto table id' now s).1
    unfolding invalidate_cache_by_id
    revoke-IsOut id' now s o = by_result (table.revoke id' now s.db) refl
      where
        stored' :
            (n : ℕ) (db : Db)
            → table.revoke id' now s.db ≡ ok (n, db)
            → (rec : ApiKey) → In rec (rows db)
            → IsRetired id rec
        stored' n db p = revoke-IsRetired id' now s.db db n p (inr o.stored)

        by_result :
            (r : Result StoreError (ℕ × Db))
            → table.revoke id' now s.db ≡ r
            → IsOut (revoke_key crypto table id' now s).1
        by_result (err e) p = rw (revoke_key_lem crypto table _ _ _, p) o
        by_result (ok (n, db)) p = elim (Bool-cases (eqb n 0)) [
          | inl nothing ↦
              rw (revoke_key_lem crypto table _ _ _, p, nothing)
                (record { cached = o.cached; stored = stored' n db p })
          | inr something ↦
              rw (revoke_key_lem crypto table _ _ _, p, something)
                (record {
                  cached =
                      Each-delete_if (λ _ ent. (ent.key.id == id) ≡ false)
                        (λ _ ent. ent.key.id == id') s.cache o.cached;
                  stored = stored' n db p;
                })
        ]

    run_pending-IsOut : (s : KeyStore Db) → IsOut s → IsOut (run_pending crypto table s)
    unfolding run_pending
    run_pending-IsOut s o = by_list s.pending refl
      where
        by_list : (l : List (Str × Time)) → s.pending ≡ l → IsOut (run_pending crypto table s)
        by_list [] p = rw (p, run_pending) o
        by_list ((id', now) ∷ rest) p = elim (Result-cases (table.touch id' now s.db)) [
          | inl (e, failed) ↦
              rw (p, run_pending)
                (rw (failed, run_pending) (record { cached = o.cached; stored = o.stored }))
          | inr (db, done) ↦
              rw (p, run_pending)
                (rw (done, run_pending)
                  (record {
                    cached = o.cached;
                    stored = λ rec i.
                        let (row, listed, same) =
                          In-map (touch_row id' now) (rows s.db) rec
                            (subst (In rec) (table.touch_rows id' now s.db db done) i) in
                        rw same (touch_row-keeps id id' now row (o.stored row listed));
                  }))
        ]

    create-IsOut :
        (env : CreateEnv) (name : Str) (rps : Option Float64) (s : KeyStore Db)
        → ((x : Str) → random_hex env.random_id ≡ some x → (x == id) ≡ false)
        → IsOut s
        → IsOut (create_key crypto table env name rps s).1
    create-IsOut env name rps s avoids o = elim (create_key_cases crypto table env name rps s) [
      | inl (e, failed) ↦ rw failed o
      | inr (res, s', done, c) ↦ rw done (record {
        cached = rw c.cache o.cached;
        stored = λ rec i.
            let grown = (table.create_rows res.key s.db s'.db c.inserted).0 in
            elim (In-append (rows s.db) rec res.key (subst (In rec) grown i)) [
              | inl old ↦ o.stored rec old
              | inr same ↦ λ named. absurd (cc (avoids res.key.id c.id, rw same at named))
            ];
      })
    ]

    run_op-IsOut :
        (op : Op) (s : KeyStore Db)
        → Avoids id (op ∷ [])
        → IsOut s
        → IsOut (run_op crypto table op s)
    unfolding run_op
    run_op-IsOut (create env name rps) s a o = create-IsOut env name rps s a.0 o
    run_op-IsOut (validate plaintext now now_get) s a o =
        (validate-IsOut plaintext now now_get s o).0
    run_op-IsOut (revoke id' now) s a o = revoke-IsOut id' now s o
    run_op-IsOut write_last_used s a o = run_pending-IsOut s o

    Avoids-split :
        (op : Op) (ops : List Op) → Avoids id (op ∷ ops) → Avoids id (op ∷ []) × Avoids id ops
    Avoids-split (create env name rps) ops a = ((a.0, tt), a.1)
    Avoids-split _ ops a = (tt, a)

    run_ops-IsOut :
        (ops : List Op) (s : KeyStore Db)
        → Avoids id ops
        → IsOut s
        → IsOut (run_ops crypto table ops s)
    unfolding run_ops
    run_ops-IsOut [] s a o = o
    run_ops-IsOut (op ∷ ops) s a o =
        let (this, rest) = Avoids-split op ops a in
        run_ops-IsOut ops (run_op crypto table op s) rest (run_op-IsOut op s this o)

-- Once a key is revoked, no validation returns it any more, neither from the cache nor from the
-- database, whatever keys are created, validated, revoked or written to in between, as long as no
-- new key gets the same id.
pub revoke-validate :
    (crypto : CryptoLib) (table : KeyTable) (id : Str) (now : Time) (s s' : KeyStore table.Db)
    (ops : List Op) (plaintext : Str) (now' now_get : Time) (key : ApiKey)
    → revoke_key crypto table id now s ≡ (ok tt, s')
    → Avoids id ops
    → (validate_plaintext crypto table plaintext now' now_get (run_ops crypto table ops s')).0
      ≡ ok key
    → (key.id == id) ≡ false
revoke-validate crypto table id now s s' ops plaintext now' now_get key h avoids given =
    (validate-IsOut crypto table id plaintext now' now_get (run_ops crypto table ops s')
        (run_ops-IsOut crypto table id ops s' avoids (revoked-IsOut crypto table id now s s' h))).1
      key given
