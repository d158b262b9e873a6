-- ===== src/Middleware/RateLimit.antt =====
-- internal/middleware/middleware.go: RateLimiter.
-- Package golang.org/x/time/rate is a parameter: the type of its limiters and the calls of it.
pub mod Isolation
use grok_auth_proxy.Prelude.{Bool, Option, none, some, List, [], if◌then◌else◌}
use grok_auth_proxy.Prelude.Int.{ℤ, pos, is_positive}
use grok_auth_proxy.Float.{Float64, gt_zero}
use grok_auth_proxy.Text.{Str}
use grok_auth_proxy.Clock.{Time}
use grok_auth_proxy.Assoc.{lookup, put}

pub record RateLib (Limiter : Type 0) : Type 0 where
  -- rate.NewLimiter(rate.Limit(rps), burst)
  pub new_limiter : (rps : Float64) (burst : ℤ) → Limiter
  -- lim.Allow(), at a time
  pub allow : Time → Limiter → Bool × Limiter
  -- int(rps * 2)
  pub twice_to_int : Float64 → ℤ

pub record RateLimiter (Limiter : Type 0) : Type 0 where
  pub limiters : List (Str × Limiter)
  pub rps : Float64
  pub burst : ℤ

-- NewRateLimiter
unfoldable pub new_rate_limiter : {L : Type 0} → Float64 → ℤ → RateLimiter L
new_rate_limiter rps burst = record { limiters = []; rps = rps; burst = burst }

-- A request behind the API key check: the key's id and its own rate.
pub record Call : Type 0 where
  pub at : Time
  pub id : Str
  pub custom_rps : Option Float64

module _ {L : Type 0} (lib : RateLib L) where
  -- The limiter of a key that has none.
  unfoldable pub fresh_limiter : (rps : Float64) (burst : ℤ) → Option Float64 → L
  fresh_limiter rps burst none = lib.new_limiter rps burst
  fresh_limiter rps burst (some custom) =
      if gt_zero custom
      then (let own = lib.twice_to_int custom in
          lib.new_limiter custom (if is_positive own then own else pos 1))
      else lib.new_limiter rps burst

  abbrev or_fresh : Option L → (rps : Float64) (burst : ℤ) → Option Float64 → L
  or_fresh (some lim) rps burst custom = lim
  or_fresh none rps burst custom = fresh_limiter rps burst custom

  -- get; the limiter stands in the map afterwards.
  unfoldable pub get : Str → Option Float64 → RateLimiter L → L
  get key custom rl = or_fresh (lookup key rl.limiters) rl.rps rl.burst custom

  -- Middleware for a request with an API key: whether it passes, otherwise the answer is 429. The
  -- limiter that it has asked is stored with its new state.
  unfoldable pub limit : Call → RateLimiter L → Bool × RateLimiter L
  limit call rl =
      let (passes, lim) = lib.allow call.at (get call.id call.custom_rps rl) in
      (passes, record rl { limiters = put call.id lim rl.limiters })
