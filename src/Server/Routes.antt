-- ===== src/Server/Routes.antt =====
-- internal/server/server.go: the routes that New registers, each with the middleware in front of it, the
-- settings of the HTTP server, and Run.
-- gin is a parameter as far as it decides whether a path can be registered beside the others: it
-- panics where it cannot.
pub mod Guarded
pub mod Timeouts
mod Tests
use grok_auth_proxy.Prelude.{
  ℕ, ◌*◌, ◌^◌, Bool, Option, none, some, List, [], ◌∷◌, ◌++◌, Result, ok, err, if◌then◌else◌,
}
use grok_auth_proxy.Prelude.Int.{ℤ, pos}
use grok_auth_proxy.Text.{Str, codes}
use grok_auth_proxy.Clock.{second}
use grok_auth_proxy.Config.{Config, positive_or}

pub data Layer : Type 0 where
  recovery request_id access_log cors metrics api_key_auth rate_limit admin_auth : Layer

pub data Endpoint : Type 0 where
  scrape health ready proxied : Endpoint
  create_key list_keys revoke_key reload_auth list_audit get_audit : Endpoint

pub data Method : Type 0 where
  get post delete : Method

pub record Route : Type 0 where
  pub method : Method
  pub path : Str
  pub layers : List Layer
  pub endpoint : Endpoint

-- gin.Engine: the middleware that the next route gets, and the routes.
pub record Router : Type 0 where
  pub layers : List Layer
  pub routes : List Route

-- Whether gin can add a path for a method to the routes; it panics otherwise.
pub record GinLib : Type 0 where
  pub accepts : List Route → Method → Str → Bool

-- r.Use
abbrev pub use_layer : Layer → Router → Router
use_layer layer r = record r { layers = r.layers ++ layer ∷ [] }

module _ (gin : GinLib) where
  -- Adding a route: `none` is a panic, which ends New.
  unfoldable pub handle : List Layer → Method → Str → Endpoint → Option Router → Option Router
  handle layers method path endpoint none = none
  handle layers method path endpoint (some r) =
      if gin.accepts r.routes method path
      then some (record r {
        routes =
            r.routes
            ++ record { method = method; path = path; layers = layers; endpoint = endpoint } ∷ [];
      })
      else none

  -- r.GET and the like on a group of the engine, with layers of its own
  abbrev pub on_group : List Layer → Method → Str → Endpoint → Option Router → Option Router
  on_group own method path endpoint none = none
  on_group own method path endpoint (some r) =
      handle (r.layers ++ own) method path endpoint (some r)

  -- The same on the engine itself.
  abbrev pub on_engine : Method → Str → Endpoint → Option Router → Option Router
  on_engine method path endpoint r = on_group [] method path endpoint r

  -- The engine before the routes of the program.
  unfoldable pub with_metrics : Config → Router → Option Router
  with_metrics c r =
      if c.metrics.enabled
      then on_engine get c.metrics.path scrape (some (use_layer metrics r))
      else some r

  abbrev pub bare_engine : Router
  bare_engine = record { layers = recovery ∷ request_id ∷ access_log ∷ cors ∷ []; routes = [] }

  abbrev pub v1 : List Layer
  v1 = api_key_auth ∷ rate_limit ∷ []

  abbrev pub admin : List Layer
  admin = admin_auth ∷ []

  unfoldable pub health_routes : Option Router → Option Router
  health_routes r = on_engine get (codes "/ready") ready (on_engine get (codes "/health") health r)

  unfoldable pub v1_routes : Option Router → Option Router
  v1_routes r = on_group v1 post (codes "/v1/responses") proxied (
      on_group v1 post (codes "/v1/embeddings") proxied (
        on_group v1 post (codes "/v1/completions") proxied (
          on_group v1 get (codes "/v1/models") proxied
            (on_group v1 post (codes "/v1/chat/completions") proxied r))))

  unfoldable pub admin_routes : Option Router → Option Router
  admin_routes r = on_group admin get (codes "/admin/audit/:id") get_audit (
      on_group admin get (codes "/admin/audit") list_audit (
        on_group admin post (codes "/admin/reload-auth") reload_auth (
          on_group admin delete (codes "/admin/keys/:id") revoke_key (
            on_group admin get (codes "/admin/keys") list_keys
              (on_group admin post (codes "/admin/keys") create_key r)))))

  -- The routes of New.
  unfoldable pub new_router : Config → Option Router
  new_router c = admin_routes (v1_routes (health_routes (with_metrics c bare_engine)))

-- http.Server, as New sets it. A timeout of 0 is none.
pub record HttpServer : Type 0 where
  pub addr : Str
  pub read_header_timeout : ℤ
  pub read_timeout : ℤ
  pub idle_timeout : ℤ
  pub write_timeout : ℤ
  pub max_header_bytes : ℕ

unfoldable pub http_server : Config → HttpServer
http_server c = record {
  addr = c.server.addr;
  read_header_timeout = pos (10 * second);
  read_timeout = positive_or (pos (60 * second)) c.server.read_timeout;
  idle_timeout = positive_or (pos (120 * second)) c.server.idle_timeout;
  write_timeout = pos 0;
  max_header_bytes = 2 ^ 20;
}

-- What ends Run: the context is cancelled, and Shutdown returns with or without an error; or the listener
-- fails; or it has been closed.
pub data Ending : Type 0 where
  cancelled : (shutdown_error : Option Str) → Ending
  listen_failed : Str → Ending
  listener_closed : Ending

pub data RunError : Type 0 where
  shutdown_failed listener : Str → RunError

-- Run, on what the select receives
unfoldable pub run_server : Ending → Result RunError (Unit {0})
run_server (cancelled none) = ok tt
run_server (cancelled (some e)) = err (shutdown_failed e)
run_server (listen_failed e) = err (listener e)
run_server listener_closed = ok tt
