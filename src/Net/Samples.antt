-- ===== src/Net/Samples.antt =====
-- A concrete URL library for the tests: `scheme://host/path`, with no query and no port.
use grok_auth_proxy.Prelude.{Option, none, some, [], ◌∷◌, ◌++◌, eqb, drop, if◌then◌else◌}
use grok_auth_proxy.Text.{Str, codes, ◌==◌, has_prefix}
use grok_auth_proxy.Net.{Url, NetLib}

-- Up to the first slash, and from there on.
split_slash : Str → Str × Str
split_slash [] = ([], [])
split_slash (a ∷ s) =
    let (host, path) = split_slash s in if eqb a b'/' then ([], a ∷ s) else (a ∷ host, path)

url_of : Str → Str → Url
unfolding split_slash
url_of scheme rest =
    let (host, path) = split_slash rest in
    record { scheme = scheme; host = host; path = path; raw_query = [] }

unfoldable pub parse : Str → Option Url
unfolding url_of has_prefix
parse raw =
    if has_prefix raw (codes "https://")
    then some (url_of (codes "https") (drop 8 raw))
    else if has_prefix raw (codes "http://")
    then some (url_of (codes "http") (drop 7 raw))
    else none

unfoldable pub to_string : Url → Str
unfolding ◌==◌
to_string u =
    u.scheme
    ++ codes "://"
    ++ u.host
    ++ u.path
    ++ (if u.raw_query == [] then [] else codes "?" ++ u.raw_query)

abbrev pub sample_net : NetLib
sample_net = record {
  parse = parse;
  hostname = λ u. u.host;
  is_loopback_ip = λ host. host == codes "127.0.0.1";
  to_string = to_string;
}
