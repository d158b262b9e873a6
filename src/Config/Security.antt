-- ===== src/Config/Security.antt =====
-- Which URLs requireSecureURL of internal/config/config.go lets through.
use grok_auth_proxy.Prelude.{◌≡◌, ◌↔◌, ◌⊎◌, ◌≢◌, inl, inr, true, some, ok, arith, [], Option-cases}
use grok_auth_proxy.Text.{Str, codes, to_lower, equal_fold}
use grok_auth_proxy.Text.Laws.{==_iff}
use grok_auth_proxy.Net.{Url, NetLib}
use grok_auth_proxy.Config.{Field, is_loopback_host, check_scheme, require_secure_url}

module _ (net : NetLib) where
  -- A host that never leaves the machine.
  abbrev pub IsLoopback : Str → Type 0
  IsLoopback host =
      (host ≢ [])
      × ((equal_fold host (codes "localhost") ≡ true) ⊎ (net.is_loopback_ip host ≡ true))

  -- The URL parses, and carries credentials over https or to the machine itself.
  abbrev pub IsSecure : Str → Type 0
  IsSecure raw =
      (u : Url) × (net.parse raw ≡ some u)
      × ((to_lower u.scheme ≡ codes "https")
          ⊎ ((to_lower u.scheme ≡ codes "http") × IsLoopback (net.hostname u)))

  is_loopback_host_iff : (host : Str) → (is_loopback_host net host ≡ true) ↔ IsLoopback host
  unfolding is_loopback_host
  is_loopback_host_iff host = ground (arith, ==_iff host (codes ""))

  check_scheme_iff :
      (field : Field) (u : Url)
      → (check_scheme net field u ≡ ok tt) ↔ (
          (to_lower u.scheme ≡ codes "https")
          ⊎ ((to_lower u.scheme ≡ codes "http") × IsLoopback (net.hostname u)))
  unfolding check_scheme
  check_scheme_iff field u = ground (
    arith,
    ==_iff (to_lower u.scheme) (codes "https"),
    ==_iff (to_lower u.scheme) (codes "http"),
    is_loopback_host_iff (net.hostname u),
  )

  -- A URL is accepted exactly if it parses and its scheme, in any case of its letters, is https, or is
  -- http with a loopback host.
  pub require_secure_url_iff :
      (field : Field) (raw : Str) → (require_secure_url net field raw ≡ ok tt) ↔ IsSecure raw
  unfolding require_secure_url
  require_secure_url_iff field raw = elim (Option-cases (net.parse raw)) [
    | inl failed ↦ ground arith
    | inr (u, parsed) ↦ (
      λ h. (u, parsed, (check_scheme_iff field u).0 (rw (parsed, require_secure_url) at h)),
      λ s.
          let (v, parsed', h) = s in
          rw (parsed', require_secure_url) ((check_scheme_iff field v).1 h),
    )
  ]
