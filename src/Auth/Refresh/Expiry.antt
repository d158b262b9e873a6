-- ===== src/Auth/Refresh/Expiry.antt =====
-- The expiry that a refresh gives to the new token, and its 64-bit arithmetic.
use grok_auth_proxy.Prelude.{ℕ, suc, ◌+◌, ◌*◌, ◌^◌, ◌≤◌, ◌<◌, ◌≡◌, arith}
use grok_auth_proxy.Prelude.Int.{pos, negsuc}
use grok_auth_proxy.Clock.{Time, second}
use grok_auth_proxy.Auth.Refresh.{new_expiry}

-- For a lifetime that fits into a duration, the token expires that many seconds after the answer;
-- where the provider gives no positive lifetime it expires after an hour.
pub new_expiry_exact :
    (now : Time) (n : ℕ)
    → suc n * second < 2 ^ 63
    → (new_expiry now (pos (suc n)) ≡ now + suc n * second)
      × (new_expiry now (negsuc n) ≡ now + 3600 * second)
      × (new_expiry now (pos 0) ≡ now + 3600 * second)
unfolding new_expiry
new_expiry_exact now n h = ground arith

-- A longer lifetime wraps around, for as long as its nanoseconds fit into 64 bits without a sign: the
-- new token counts as expired before it was issued.
pub new_expiry_overflow :
    (now : Time) (n : ℕ)
    → 0 < now
    → 2 ^ 63 ≤ n * second
    → n * second < 2 ^ 64
    → new_expiry now (pos n) < now
unfolding new_expiry
new_expiry_overflow now n positive low high = ground arith
