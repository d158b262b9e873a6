-- ===== src/Net.antt =====
-- Packages net and net/url, which the program calls and does not implement: what a URL parses to,
-- and which addresses are loopback. The functions are a parameter of all that uses them.
pub mod Samples
use grok_auth_proxy.Prelude.{Bool, Option}
use grok_auth_proxy.Text.{Str}

-- The fields of url.URL that the program reads or writes.
pub record Url : Type 0 where
  pub scheme : Str
  pub host : Str
  pub path : Str
  pub raw_query : Str

pub record NetLib : Type 0 where
  -- url.Parse, `none` for an error
  pub parse : Str → Option Url
  -- u.Hostname()
  pub hostname : Url → Str
  -- ip := net.ParseIP(host); ip != nil && ip.IsLoopback()
  pub is_loopback_ip : Str → Bool
  -- u.String()
  pub to_string : Url → Str
