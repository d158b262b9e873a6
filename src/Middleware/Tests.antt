-- ===== src/Middleware/Tests.antt =====
-- The middleware on concrete requests.
use grok_auth_proxy.Prelude.{ℕ, ◌-◌, ◌≡◌, not, none, List, [], ◌∷◌, eqb, keep}
use grok_auth_proxy.Prelude.Int.{pos, pos_part}
use grok_auth_proxy.Float.{finite}
use grok_auth_proxy.Text.{Str, codes, ◌==◌}
use grok_auth_proxy.Clock.{Time}
use grok_auth_proxy.Middleware.RateLimit.{RateLib, RateLimiter, Call, new_rate_limiter}
use grok_auth_proxy.Middleware.RateLimit.Isolation.{decisions, decisions_isolated}

-- A limiter that gives out its burst and nothing more.
abbrev sample_rate : RateLib ℕ
sample_rate = record {
  new_limiter = λ rps burst. pos_part burst;
  allow = λ now left. (not (eqb left 0), left - 1);
  twice_to_int = λ rps. pos 2;
}

abbrev call : Time → Str → Call
call at id = record { at = at; id = id; custom_rps = none }

abbrev calls : List Call
calls = call 1 (codes "a") ∷ call 2 (codes "b") ∷ call 3 (codes "a") ∷ call 4 (codes "b") ∷ []

abbrev limiter : RateLimiter ℕ
limiter = new_rate_limiter (finite (pos 1) (pos 0)) (pos 1)

decisions_isolated_example :
    decisions sample_rate (codes "a") calls limiter
    ≡ decisions sample_rate (codes "a") (keep (λ c. c.id == codes "a") calls) limiter
decisions_isolated_example = decisions_isolated sample_rate (codes "a") calls limiter
