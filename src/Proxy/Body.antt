-- ===== src/Proxy/Body.antt =====
-- internal/proxy/proxy.go: the client's body, bounded for the request and cut for the audit log.
pub mod Bounds
use grok_auth_proxy.Prelude.{
  ℕ, ◌+◌, ◌*◌, ◌^◌, Bool, true, false, ◌&&◌, Option, none, some, [], leb, ltb, length, take,
  if◌then◌else◌,
}
use grok_auth_proxy.Prelude.Int.{ℤ, pos_part, is_positive}
use grok_auth_proxy.Text.{Str}

-- What a body has to give: bytes, and then its end or an error.
pub record Body : Type 0 where
  pub bytes : Str
  pub fails : Bool

-- io.ReadAll(io.LimitReader(r, n)): no read goes beyond n bytes, so an error behind them is not met.
unfoldable pub read_all_limited : ℕ → Body → Option Str
read_all_limited n r =
    if leb n (length r.bytes) then some (take n r.bytes) else if r.fails then none else some r.bytes

abbrev pub default_max_request_bytes : ℕ
default_max_request_bytes = 10 * 2 ^ 20

abbrev pub default_audit_max_body : ℕ
default_audit_max_body = 65536

-- `if max <= 0 { max = DefaultMaxRequestBytes }`
abbrev pub request_limit : ℤ → ℕ
request_limit max = if is_positive max then pos_part max else default_max_request_bytes

-- The test at the end of readLimited.
abbrev pub too_large : ℕ → Str → Str × Bool
too_large max bytes = if ltb max (length bytes) then (take max bytes, true) else (bytes, false)

-- readLimited past its checks of the arguments.
unfoldable pub read_at_most : (max : ℕ) → Body → Option (Str × Bool)
read_at_most max r = elim (read_all_limited (max + 1) r) [
  | none ↦ none
  | some bytes ↦ some (too_large max bytes)
]

-- readLimited: the bytes and whether there were more, `none` for an error. The first argument is
-- `none` for a nil reader.
unfoldable pub read_limited : Option Body → ℤ → Option (Str × Bool)
read_limited none max = some ([], false)
read_limited (some r) max = read_at_most (request_limit max) r

-- clampForAudit
unfoldable pub clamp_for_audit : Str → ℤ → Str × Bool
clamp_for_audit b max =
    if is_positive max && ltb (pos_part max) (length b)
    then (take (pos_part max) b, true)
    else (b, false)
