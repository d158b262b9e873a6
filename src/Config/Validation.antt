-- ===== src/Config/Validation.antt =====
-- What validation of internal/config/config.go accepts and what it establishes.
use grok_auth_proxy.Prelude.{◌≡◌, refl, ◌↔◌, ◌⊎◌, inl, inr, true, false, ok, arith, ◌*◌, ap, ◌∙◌}
use grok_auth_proxy.Prelude.Int.{ℤ, pos, is_positive}
use grok_auth_proxy.Float.{le_zero}
use grok_auth_proxy.Clock.{second}
use grok_auth_proxy.Text.{Str, codes, is_blank, to_lower, trim_slashes, strings}
use grok_auth_proxy.Text.Laws.{==_iff, ends_with, ends_with-trim_slashes, trim_slashes_of_ends_with}
use grok_auth_proxy.Net.{NetLib}
use grok_auth_proxy.Config.{
  Config, upstream_base, issuer, positive_or, settle, validate, default_read_timeout,
  default_idle_timeout, default_max_request_bytes,
}
use grok_auth_proxy.Config.Security.{IsSecure, require_secure_url_iff}

abbrev pub IsKnownDriver : Str → Type 0
IsKnownDriver d = (d ≡ codes "sqlite") ⊎ (d ≡ codes "postgres")

-- What the settings have to satisfy, stated without the order of the checks.
pub record Accepts (net : NetLib) (c : Config) : Type 0 where
  pub admin_key : is_blank c.server.admin_key ≡ false
  pub file : is_blank c.auth.file ≡ false
  pub upstream : is_blank c.auth.upstream_base ≡ false
  pub upstream_secure : IsSecure net c.auth.upstream_base
  pub issuer_secure : (is_blank c.auth.issuer ≡ true) ⊎ IsSecure net c.auth.issuer
  pub driver : IsKnownDriver (to_lower c.db.driver)
  pub rps : le_zero c.rate_limit.rps ≡ false
  pub burst : is_positive c.rate_limit.burst ≡ true

-- What the rest of the program relies on.
pub record IsSettled (c : Config) : Type 0 where
  pub shutdown_timeout : is_positive c.server.shutdown_timeout ≡ true
  pub read_timeout : is_positive c.server.read_timeout ≡ true
  pub idle_timeout : is_positive c.server.idle_timeout ≡ true
  pub max_request_bytes : is_positive c.server.max_request_bytes ≡ true
  pub refresh_skew : is_positive c.auth.refresh_skew ≡ true
  pub max_body_bytes : is_positive c.audit.max_body_bytes ≡ true
  pub upstream_base : ends_with b'/' c.auth.upstream_base ≡ false

module _ (net : NetLib) (c : Config) where
  -- Validation succeeds, and gives the settled settings, exactly where: the admin key, the file of the
  -- credentials and the upstream are not blank; the upstream is a secure URL, and the issuer is one
  -- unless it is blank; the driver is sqlite or postgres, in any case; the rate is not 0 or less, and
  -- the burst is positive.
  pub validate-eq-ok_iff : (validate net c ≡ ok (settle c)) ↔ Accepts net c
  unfolding validate
  validate-eq-ok_iff = ground (
    arith,
    ==_iff (to_lower c.db.driver) (codes "sqlite"),
    ==_iff (to_lower c.db.driver) (codes "postgres"),
    require_secure_url_iff net upstream_base c.auth.upstream_base,
    require_secure_url_iff net issuer c.auth.issuer,
  )

  -- A successful validation returns the settled settings.
  validate-eq-settle : {c' : Config} → validate net c ≡ ok c' → c' ≡ settle c
  unfolding validate
  validate-eq-settle h = ground arith

positive_or_positive : (d x : ℤ) → is_positive d ≡ true → is_positive (positive_or d x) ≡ true
unfolding positive_or
positive_or_positive d x h = ground arith

positive_or_idem : (d x : ℤ) → is_positive x ≡ true → positive_or d x ≡ x
unfolding positive_or
positive_or_idem d x h = ground arith

settle-IsSettled : (c : Config) → IsSettled (settle c)
unfolding settle
settle-IsSettled c = record {
  shutdown_timeout = positive_or_positive _ _ refl;
  read_timeout = positive_or_positive _ _ refl;
  idle_timeout = positive_or_positive _ _ refl;
  max_request_bytes = positive_or_positive _ _ refl;
  refresh_skew = positive_or_positive _ _ refl;
  max_body_bytes = positive_or_positive _ _ refl;
  upstream_base = ends_with-trim_slashes c.auth.upstream_base;
}

to_lower_known : (d : Str) → IsKnownDriver d → to_lower d ≡ d
unfolding strings
to_lower_known d (inl e) = rw e
to_lower_known d (inr e) = rw e

settle_of_IsSettled : (c : Config) → IsSettled c → IsKnownDriver c.db.driver → settle c ≡ c
unfolding settle
settle_of_IsSettled c s d = ground (
  arith,
  to_lower_known c.db.driver d,
  trim_slashes_of_ends_with c.auth.upstream_base s.upstream_base,
  positive_or_idem (pos (15 * second)) c.server.shutdown_timeout,
  positive_or_idem default_read_timeout c.server.read_timeout,
  positive_or_idem default_idle_timeout c.server.idle_timeout,
  positive_or_idem default_max_request_bytes c.server.max_request_bytes,
  positive_or_idem (pos (300 * second)) c.auth.refresh_skew,
  positive_or_idem (pos 65536) c.audit.max_body_bytes,
)

-- A validated configuration satisfies what the rest of the program relies on, its driver is one of
-- the two, its endpoints are secure, and the admin key and the issuer are those that were given.
pub validate-IsSettled :
    (net : NetLib) (c : Config) {c' : Config}
    → validate net c ≡ ok c'
    → IsSettled c'
      × IsKnownDriver c'.db.driver
      × IsSecure net c.auth.upstream_base
      × (c'.auth.upstream_base ≡ trim_slashes c.auth.upstream_base)
      × ((is_blank c'.auth.issuer ≡ true) ⊎ IsSecure net c'.auth.issuer)
      × (is_blank c'.server.admin_key ≡ false)
      × (c'.server.admin_key ≡ c.server.admin_key)
validate-IsSettled net c {c'} h =
    let e = validate-eq-settle net c h in
    let a = (validate-eq-ok_iff net c).0 (rw (← e) h) in
    rw e (
      unfold settle in
      (settle-IsSettled c, a.driver, a.upstream_secure, refl, a.issuer_secure, a.admin_key, refl))

-- Validating a validated configuration changes nothing, provided that the upstream base is still a
-- secure URL that is not blank once its trailing slashes are gone.
pub validate_idempotent :
    (net : NetLib) (c c' : Config)
    → validate net c ≡ ok c'
    → is_blank c'.auth.upstream_base ≡ false
    → IsSecure net c'.auth.upstream_base
    → validate net c' ≡ ok c'
validate_idempotent net c c' h blank secure =
    let e = validate-eq-settle net c h in
    let a = (validate-eq-ok_iff net c).0 (rw (← e) h) in
    let s = validate-IsSettled net c h in
    let again = (validate-eq-ok_iff net c').1 (record {
      admin_key = s.5;
      file = rw e (unfold settle in a.file);
      upstream = blank;
      upstream_secure = secure;
      issuer_secure = s.4;
      driver = rw (to_lower_known c'.db.driver s.1) s.1;
      rps = rw e (unfold settle in a.rps);
      burst = rw e (unfold settle in a.burst);
    }) in
    again ∙ ap ok (settle_of_IsSettled c' s.0 s.1)
