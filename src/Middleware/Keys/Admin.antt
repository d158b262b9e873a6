-- ===== src/Middleware/Keys/Admin.antt =====
-- APIKeyAuth and AdminAuth of internal/middleware/middleware.go: who is let through.
use grok_auth_proxy.Prelude.{
  ◌≡◌, ◌↔◌, refl, true, false, Result, ok, err, is_empty, Bool-cases, inl, inr,
}
use grok_auth_proxy.Text.{Str, codes, ◌==◌, is_blank}
use grok_auth_proxy.Text.Laws.{==_iff, ==_refl}
use grok_auth_proxy.Http.{Headers}
use grok_auth_proxy.Middleware.Keys.{
  Verdict, passes, aborts, extract_bearer, api_key_auth, presented_key, admin_auth,
}

-- A request passes the admin check exactly if an admin key is configured that is not blank and the
-- request presents that key, provided that SHA-256 has no collision between the two.
pub admin_auth_iff :
    (sha256 : Str → Str) (admin_key : Str) (header : Headers)
    → (sha256 (presented_key header) ≡ sha256 admin_key → presented_key header ≡ admin_key)
    → (admin_auth sha256 admin_key header ≡ passes tt)
      ↔ ((is_blank admin_key ≡ false) × (presented_key header ≡ admin_key))
unfolding admin_auth
admin_auth_iff sha256 admin_key header no_collision = elim (Bool-cases (is_blank admin_key)) [
  | inl blank ↦ rw blank (λ h. cc, λ (c, h). cc)
  | inr configured ↦
      rw configured (elim (Bool-cases (sha256 (presented_key header) == sha256 admin_key)) [
        | inl same ↦ rw same (λ h. (refl, no_collision ((==_iff _ _).0 same)), λ (c, h). refl)
        | inr other ↦ rw other (
          λ h. cc,
          λ (c, h).
              let differ : (sha256 admin_key == sha256 admin_key) ≡ false = rw h at other in
              let same : (sha256 admin_key == sha256 admin_key) ≡ true =
                ==_refl (sha256 admin_key) in
              cc,
        )
      ])
]

verdict_iff :
    {E K S : Type 0} (key : K) (r : Result E K × S)
    → ((elim r.0 as (λ _. Verdict K) [
      | ok key' ↦ passes key'
      | err e ↦ aborts 401 (codes "invalid API key")
    ])
        ≡ passes key)
      ↔ ((false ≡ false) × (r.0 ≡ ok key))
verdict_iff key (ok key', s') = (λ h. (refl, cc), λ (_, h). cc)
verdict_iff key (err e, s') = (λ h. cc, λ (_, h). cc)

-- A request passes the API key check exactly if it has a bearer token that is not empty and that the
-- store validates, and what goes into the context is the key that the store gives for it.
pub api_key_auth_iff :
    {E K S : Type 0} (validate : Str → S → Result E K × S) (header : Headers) (s : S) (key : K)
    → ((api_key_auth validate header s).0 ≡ passes key) ↔ (
        (is_empty (extract_bearer header) ≡ false)
        × ((validate (extract_bearer header) s).0 ≡ ok key))
unfolding api_key_auth
api_key_auth_iff {E} {K} {S} validate header s key =
    elim (Bool-cases (is_empty (extract_bearer header))) [
      | inl gone ↦ rw gone (λ h. cc, λ (c, h). cc)
      | inr there ↦ rw there (verdict_iff key (validate (extract_bearer header) s))
    ]
