-- ===== src/Proxy/Tests.antt =====
-- The proxy on concrete requests.
use grok_auth_proxy.Prelude.{◌≡◌, refl, true, false, none, some, arith}
use grok_auth_proxy.Text.{codes, strings}
use grok_auth_proxy.Http.{canonical_key}
use grok_auth_proxy.Proxy.Headers.Relayed.{IsHeaderMap}
use grok_auth_proxy.Proxy.Body.{Body}
use grok_auth_proxy.Proxy.Stream.{no_relay, stream}
use grok_auth_proxy.Proxy.Stream.Kept.{kept, body_of, stream_kept}
use grok_auth_proxy.Proxy.Samples.{header, rounds, good}

good_map : IsHeaderMap good.header
unfolding strings canonical_key
good_map = (refl, λ h. ground arith, (refl, λ h. ground arith, tt))

abbrev body : Body
body = record { bytes = codes "hello"; fails = false }

abbrev large : Body
large = record { bytes = codes "hello, world"; fails = true }

stream_kept_example : stream true 3 rounds no_relay ≡ (kept true 3 (codes "abcd"), some none)
unfolding body_of
stream_kept_example = stream_kept true 3 rounds (refl, refl, (refl, refl))
