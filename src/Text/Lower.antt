-- ===== src/Text/Lower.antt =====
-- Lower case of texts whose first byte is ASCII.
use grok_auth_proxy.Prelude.{ℕ, ◌<◌, ◌≡◌, ◌∷◌, arith}
use grok_auth_proxy.Text.{Str, lower_byte, to_lower}

-- An ASCII byte is lowered by itself.
pub to_lower-cons : (a : ℕ) (s : Str) → a < 128 → to_lower (a ∷ s) ≡ lower_byte a ∷ to_lower s
unfolding to_lower
to_lower-cons a s h = ground arith
