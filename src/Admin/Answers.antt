-- ===== src/Admin/Answers.antt =====
-- CreateKey and RevokeKey of internal/handlers/admin/admin.go: what their answers mean.
use grok_auth_proxy.Prelude.{
  ◌≡◌, refl, inl, inr, false, Bool, Option, none, List, Result, ok, err, is_empty, ap, Bool-cases,
  Option-cases,
}
use grok_auth_proxy.Text.{Str, ◌==◌}
use grok_auth_proxy.Clock.{Time}
use grok_auth_proxy.Assoc.{lookup}
use grok_auth_proxy.Store.Text.{CryptoLib, lookup_hash}
use grok_auth_proxy.Store.Table.{StoreError, ApiKey, KeyTable}
use grok_auth_proxy.Store.Keys.{
  KeyStore, CreateKeyResult, CreateEnv, create_key, revoke_key, validate_plaintext, used_at,
}
use grok_auth_proxy.Store.Keys.Created.{create-validate}
use grok_auth_proxy.Store.Keys.Operations.{Op, Avoids, run_ops}
use grok_auth_proxy.Store.Keys.Revoked.{revoke-validate}
use grok_auth_proxy.Admin.{
  Answer, NewKeyView, created, revoked, Bound, CreateKeyRequest, accepted, new_view, created_answer,
  is_not_found, create_key_handler, revoked_answer, revoke_key_handler,
}

module _ (crypto : CryptoLib) (table : KeyTable) where
  open table use {Db}

  -- An answer with a new key comes from a creation that succeeds, and shows what that has made.
  created_of_answer :
      (env : CreateEnv) (req : CreateKeyRequest) (s s' : KeyStore Db) (v : NewKeyView)
      (r : Result StoreError CreateKeyResult × KeyStore Db)
      → create_key crypto table env req.name req.rate_limit_rps s ≡ r
      → created_answer crypto table r.0 ≡ created v
      → r.1 ≡ s'
      → (res : CreateKeyResult) × (create_key crypto table env req.name req.rate_limit_rps s
          ≡ (ok res, s'))
        × (new_view res ≡ v)
  created_of_answer env req s s' v (ok res, t) e h same = (res, rw same at e, cc)
  created_of_answer env req s s' v (err x, t) e h same = cc

  handler_created :
      (env : CreateEnv) (body : Bound) (empty : Bool) (s s' : KeyStore Db) (v : NewKeyView)
      → create_key_handler crypto table env body empty s ≡ (created v, s')
      → (req : CreateKeyRequest) × (res : CreateKeyResult) × (create_key crypto table env req.name
            req.rate_limit_rps s
          ≡ (ok res, s'))
        × (new_view res ≡ v)
  unfolding create_key_handler
  handler_created env body empty s s' v h = elim (Option-cases (accepted body empty)) [
    | inl refused ↦ absurd (cc (rw (refused, create_key_handler) at h))
    | inr (req, a) ↦
        let made = create_key crypto table env req.name req.rate_limit_rps s in
        let h' : ◌≡◌ {A = Answer × KeyStore Db} (created_answer crypto table made.0, made.1)
            (created v, s') =
          rw (a, create_key_handler) at h in
        let (res, done, shown) =
          created_of_answer env req s s' v made refl (ap (λ (x : Answer × KeyStore Db). x.0) h')
            (ap (λ (x : Answer × KeyStore Db). x.1) h') in
        (req, res, done, shown)
  ]

  revoked_of_answer :
      (id id' : Str) (now : Time) (s s' : KeyStore Db)
      (r : Result StoreError (Unit {0}) × KeyStore Db)
      → revoke_key crypto table id now s ≡ r
      → revoked_answer crypto table id r.0 ≡ revoked id'
      → r.1 ≡ s'
      → revoke_key crypto table id now s ≡ (ok tt, s')
  revoked_of_answer id id' now s s' (ok _, t) e h same = rw same at e
  revoked_of_answer id id' now s s' (err x, t) e h same = elim (Bool-cases (is_not_found x)) [
    | inl missing ↦ absurd (cc (rw missing at h))
    | inr other ↦ absurd (cc (rw other at h))
  ]

-- When the handler answers with a new key, the key that it shows is one that the store validates from
-- then on, as the key with the id that it shows, if the query for it does not fail and nothing is
-- cached under its hash.
pub create_key_handler-validate :
    (crypto : CryptoLib) (table : KeyTable) (env : CreateEnv) (body : Bound) (empty : Bool)
    (s s' : KeyStore table.Db) (v : NewKeyView) (o : Option ApiKey) (now now_get : Time)
    → create_key_handler crypto table env body empty s ≡ (created v, s')
    → table.first_active (lookup_hash crypto v.key) s'.db ≡ ok o
    → lookup (lookup_hash crypto v.key) s.cache ≡ none
    → (key : ApiKey) × ((validate_plaintext crypto table v.key now now_get s').0 ≡ ok key)
      × (key.id ≡ v.id)
      × (key.enabled ≡ v.enabled)
unfolding new_view
create_key_handler-validate crypto table env body empty s s' v o now now_get h q uncached =
    let (req, res, made, shown) = handler_created crypto table env body empty s s' v h in
    let plain : res.plaintext ≡ v.key = ap (λ (x : NewKeyView). x.key) shown in
    (
      used_at now res.key,
      rw plain at (
          create-validate crypto table env req.name req.rate_limit_rps s s' res o now now_get made
            (rw (← plain) at q) (rw (← plain) at uncached)),
      ap (λ (x : NewKeyView). x.id) shown,
      ap (λ (x : NewKeyView). x.enabled) shown,
    )

-- When the handler answers that a key is revoked, no validation returns that key any more, whatever
-- the store does afterwards, as long as no new key gets the same id.
pub revoke_key_handler-validate :
    (crypto : CryptoLib) (table : KeyTable) (id id' : Str) (now : Time) (s s' : KeyStore table.Db)
    (ops : List Op) (plaintext : Str) (now' now_get : Time) (key : ApiKey)
    → revoke_key_handler crypto table id now s ≡ (revoked id', s')
    → Avoids id ops
    → (validate_plaintext crypto table plaintext now' now_get (run_ops crypto table ops s')).0
      ≡ ok key
    → (key.id == id) ≡ false
unfolding revoke_key_handler
revoke_key_handler-validate crypto table id id' now s s' ops plaintext now' now_get key h avoids
      given =
    elim (Bool-cases (is_empty id)) [
      | inl missing ↦ absurd (cc (rw missing at h))
      | inr there ↦
          let done = revoke_key crypto table id now s in
          let h' : ◌≡◌ {A = Answer × KeyStore table.Db}
              (revoked_answer crypto table id done.0, done.1) (revoked id', s') =
            rw there at h in
          revoke-validate crypto table id now s s' ops plaintext now' now_get key
            (revoked_of_answer crypto table id id' now s s' done refl
              (ap (λ (x : Answer × KeyStore table.Db). x.0) h')
              (ap (λ (x : Answer × KeyStore table.Db). x.1) h'))
            avoids given
    ]
