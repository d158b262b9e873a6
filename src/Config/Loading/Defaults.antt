-- ===== src/Config/Loading/Defaults.antt =====
-- internal/config/config.go: what Load gives where nothing but an admin key is set.
use grok_auth_proxy.Prelude.{
  ◌≡◌, refl, ◌∙◌, ap, inl, true, false, some, [], ok, err, is_empty, if_true,
}
use grok_auth_proxy.Text.{Str, codes, is_blank, strings}
use grok_auth_proxy.Net.{NetLib}
use grok_auth_proxy.Config.{Config, admin_key_required, positive_or, settle, validate}
use grok_auth_proxy.Config.Security.{IsSecure}
use grok_auth_proxy.Config.Validation.{Accepts, validate-eq-ok_iff}
use grok_auth_proxy.Config.Loading.{
  default_config, ViperLib, invalid, unmarshalled, validated, after_read, settings, load,
}

-- The defaults with an admin key.
abbrev pub with_admin_key : Str → Config
with_admin_key key = record default_config {
  server = record default_config.server { admin_key = key };
}

-- Nothing beside the admin key is set: no configuration file is named, and viper finds the defaults.
pub record IsBare (viper : ViperLib) (key : Str) : Type 0 where
  pub no_file : viper.config_file (settings viper) ≡ []
  pub defaults : viper.unmarshal (settings viper) ≡ some (with_admin_key key)

settle-defaults : (key : Str) → settle (with_admin_key key) ≡ with_admin_key key
unfolding settle positive_or strings
settle-defaults key = refl

defaults-Accepts :
    (net : NetLib) (key : Str)
    → IsSecure net (codes "https://api.x.ai/v1")
    → is_blank key ≡ false
    → Accepts net (with_admin_key key)
unfolding strings
defaults-Accepts net key secure given = record {
  admin_key = given;
  file = refl;
  upstream = refl;
  upstream_secure = secure;
  issuer_secure = inl refl;
  driver = inl refl;
  rps = refl;
  burst = refl;
}

validate_blank :
    (net : NetLib) (c : Config)
    → is_blank c.server.admin_key ≡ true
    → validate net c ≡ err admin_key_required
unfolding validate
validate_blank net c h = rw h refl

load_bare :
    (viper : ViperLib) (net : NetLib) (key : Str)
    → IsBare viper key
    → load viper net ≡ validated (validate net (with_admin_key key))
unfolding load
load_bare viper net key bare =
    if_true (is_empty (viper.config_file (settings viper)))
      (after_read viper net (some (settings viper)))
      (after_read viper net
        (viper.read_config (viper.config_file (settings viper)) (settings viper)))
      (ap is_empty bare.no_file)
    ∙ ap (unmarshalled net) bare.defaults

-- Where nothing is set beside an admin key, and the URL library takes the default upstream as a secure
-- URL: with an admin key that is not blank, Load gives the defaults with this key, unchanged by
-- the validation; without one, it fails and asks for it, so the service never starts with an open
-- admin interface.
pub load_defaults :
    (viper : ViperLib) (net : NetLib) (key : Str)
    → IsBare viper key
    → IsSecure net (codes "https://api.x.ai/v1")
    → (is_blank key ≡ false → load viper net ≡ ok (with_admin_key key))
      × (is_blank key ≡ true → load viper net ≡ err (invalid admin_key_required))
load_defaults viper net key bare secure = (
  λ given.
      let accepted =
        (validate-eq-ok_iff net (with_admin_key key)).1 (defaults-Accepts net key secure given) in
      load_bare viper net key bare ∙ ap validated (accepted ∙ ap ok (settle-defaults key)),
  λ blank.
      load_bare viper net key bare ∙ ap validated (validate_blank net (with_admin_key key) blank),
)
