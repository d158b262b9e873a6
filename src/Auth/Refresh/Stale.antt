-- ===== src/Auth/Refresh/Stale.antt =====
-- A reload that comes while a refresh waits for the token endpoint: refresh holds no lock on the
-- state then, and goes on with the name and the entry that it had read before.
use grok_auth_proxy.Auth.Entry.{Entry}
use grok_auth_proxy.Auth.Manager.{Manager}
