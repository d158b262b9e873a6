-- ===== src/Proxy/Url.antt =====
-- internal/proxy/proxy.go: the upstream URL of a request.
pub mod Paths
use grok_auth_proxy.Prelude.{not, ◌&&◌, ◌++◌, is_empty, if◌then◌else◌}
use grok_auth_proxy.Text.{codes, ◌==◌, has_prefix, trim_slashes}
use grok_auth_proxy.Net.{Url}

-- buildURL, before the URL is written out
unfoldable pub build_url : (base request : Url) → Url
build_url base request =
    let base_path = trim_slashes base.path in
    if base_path == codes "/v1" && has_prefix request.path (codes "/v1")
    then record base { path = request.path; raw_query = request.raw_query }
    else if not (is_empty base_path) && not (base_path == codes "/")
    then record base { path = base_path ++ request.path; raw_query = request.raw_query }
    else record base { path = request.path; raw_query = request.raw_query }
