-- ===== src/Proxy/Url/Paths.antt =====
-- buildURL of internal/proxy/proxy.go: where requests are sent to.
use grok_auth_proxy.Prelude.{◌≡◌, ◌⊎◌, inl, inr, true, false, ◌++◌, arith, Bool-cases}
use grok_auth_proxy.Text.{Str, codes, ◌==◌, has_prefix, trim_slashes}
use grok_auth_proxy.Text.Laws.{==_iff, ends_with-trim_slashes}
use grok_auth_proxy.Net.{Url}
use grok_auth_proxy.Proxy.Url.{build_url}

-- Scheme and host are those of the upstream base, so that the token goes nowhere else, and the query
-- is the client's.
pub build_url_target :
    (base request : Url)
    → ((build_url base request).scheme ≡ base.scheme)
      × ((build_url base request).host ≡ base.host)
      × ((build_url base request).raw_query ≡ request.raw_query)
unfolding build_url
build_url_target base request = ground arith

-- The base path in front of the client's path, without its trailing slashes.
abbrev pub joined : Url → Url → Str
joined base request = trim_slashes base.path ++ request.path

not_slash : (s : Str) → (trim_slashes s == codes "/") ≡ false
not_slash s = elim (Bool-cases (trim_slashes s == codes "/")) [
  | inl slash ↦
      let e : trim_slashes s ≡ codes "/" = (==_iff _ _).0 slash in
      absurd (cc (rw e at (ends_with-trim_slashes s)))
  | inr other ↦ other
]

-- The upstream path is the base path and the client's path joined, but for a base path of /v1, which
-- is not repeated where the client's path begins with it.
pub build_url_path :
    (base request : Url)
    → ((trim_slashes base.path ≡ codes "/v1")
        × (has_prefix request.path (codes "/v1") ≡ true)
        × ((build_url base request).path ≡ request.path))
      ⊎ ((build_url base request).path ≡ joined base request)
unfolding build_url
build_url_path base request =
    ground (arith, ==_iff (trim_slashes base.path) (codes "/v1"), not_slash base.path)
