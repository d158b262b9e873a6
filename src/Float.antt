-- ===== src/Float.antt =====
-- Go's float64: a finite value is `mantissa * 2 ^ exponent`. The program compares with 0 only.
use grok_auth_proxy.Prelude.{Bool, true, false, not}
use grok_auth_proxy.Prelude.Int.{ℤ, is_positive}

pub data Float64 : Type 0 where
  nan pos_inf neg_inf : Float64
  finite : (mantissa exponent : ℤ) → Float64

-- `0 < x`, false on NaN
abbrev pub gt_zero : Float64 → Bool
gt_zero nan = false
gt_zero pos_inf = true
gt_zero neg_inf = false
gt_zero (finite m e) = is_positive m

-- `x <= 0`, false on NaN
abbrev pub le_zero : Float64 → Bool
le_zero nan = false
le_zero pos_inf = false
le_zero neg_inf = true
le_zero (finite m e) = not (is_positive m)
