-- ===== src/Lib.antt =====
-- grok-auth-proxy is a reverse proxy in Go that stands between clients of an OpenAI-compatible API and
-- xAI. It gives out its own API keys (internal/store), checks them and limits their rates
-- (internal/middleware), and forwards requests with an OAuth access token that it keeps fresh
-- (internal/auth, internal/proxy). internal/config checks the settings, internal/server wires the parts.
--
-- Which file models which part:
-- - Config: Config.Validate, requireSecureURL and isLoopbackHost of internal/config/config.go, on the
--   record of the settings. Validate changes some of the settings; it returns the settled record.
-- - Auth: internal/auth/auth.go. Auth/Entry has the credential entries and small helpers, Auth/Select
--   selectEntry, Auth/Manager the Manager, loadBytes, Reload and NewManager, Auth/Refresh doRefresh and
--   refresh with discoverTokenEndpoint, Auth/Token GetAccessToken, ForceRefresh, proactiveTick and the
--   filter of watchLoop; Auth/Lifetime has a manager through whatever is asked of it. An operation takes
--   a Manager and gives a result, the Manager after it and the events it causes: HTTP requests, metrics,
--   writes of the auth file.
-- - Store: the API keys of internal/store/store.go. Store/Text has the texts of keys, Store/Table the
--   rows and the database, Store/Cache the cache of validated keys, Store/Keys CreateKey, RevokeKey,
--   ValidatePlaintext and touchLastUsed. The goroutines that write last_used_at wait in a list and run
--   when the operation run_pending says so. Store/Interleaved has the same code in smaller steps, as a
--   step relation, for validations that overlap revocations.
-- - Middleware: internal/middleware/middleware.go. Middleware/Keys has extractBearer, APIKeyAuth,
--   AdminAuth, RequestID and maskBearer, Middleware/Cors CORS, Middleware/RateLimit the RateLimiter,
--   Middleware/Access the line of AccessLog.
-- - Proxy: internal/proxy/proxy.go. Proxy/Headers has copyHeaders and filterResponseHeaders, Proxy/Url
--   buildURL, Proxy/Body readLimited and clampForAudit, Proxy/Stream the loop that relays the response,
--   Proxy/Context the state that a request runs through, Proxy/Audit recordAudit, Proxy/Setup
--   NewWithOptions, and Proxy/Forward forward and Handler. The proxy takes the tokens from a World, whose
--   get_access_token and force_refresh are the interface TokenProvider that the Manager implements.
-- - Server: the chain that internal/server/server.go sets up for the group /v1: RequestID, CORS,
--   APIKeyAuth, the RateLimiter and Handler, on the state that the parts keep; Server/Tokens, which
--   puts the Manager of Auth into the World of the proxy; Server/Console, the group /admin from CORS to
--   its handlers; Server/Revocation, a revocation there and requests to /v1 after it; and Server/Routes,
--   the routes of New with their middleware, http.Server and Run.
-- - Admin: CreateKey, ListKeys, RevokeKey and ReloadAuth of internal/handlers/admin/admin.go, and in
--   Admin/Audit ListAudit and GetAudit.
-- - Config/Loading: Load of internal/config/config.go with its defaults, flags and variables.
-- - Auth/File: writeAuthFileAtomic and authPathWritable of internal/auth/auth.go, on a file system that can
--   crash between two system calls. Auth/Watch: watchLoop with its timer. Auth/Proactive:
--   StartProactiveRefresh.
-- - Store/Audit: the audit log of internal/store/store.go. Store/Audit/Queue has the queue, the workers
--   and Close, Store/Audit/Listing ListAuditLogs. Store/Health has Ping and Healthy, Store/State the
--   stored credentials, Store/Opening Open.
-- - Health: internal/handlers/health/health.go, on Store/Health and the Manager.
-- - Metrics: internal/metrics/metrics.go. The events of the Manager are calls of it.
-- - Boot: run of cmd/proxy/main.go, which loads the settings, opens the store, makes the Manager out of
--   the stored credentials or the file, and hands it the function that persists.
-- - Prelude, Text, Assoc, Clock, Net, Float and Http: Go's strings, maps, times, URLs, floats and HTTP
--   headers as far as the program uses them, and the lemmas that the parts share.
--
-- Conventions. Texts are lists of bytes. A Go map is an association list, and a range over it goes
-- through the list; theorems about lists hold for every order. The clock is an argument, one for each
-- call of time.Now. Code outside the repository is an argument too: JSON decoding (JsonLib), URLs
-- (NetLib), hashes and bcrypt (CryptoLib), the database (KeyTable, AuditTable and StateTable, with the
-- laws of their statements), viper (ViperLib), gin's router (GinLib), the answers of the file system
-- (FileEnv, ProbeEnv), the rate limiters (RateLib), the upstream (World). An int64 keeps its
-- wrap-around where it can be met, in the new expiry of a token.
--
-- Bounds. The queue of the audit log holds 4096 rows and has two workers, as in the source.
--
-- Interleavings. The requests, the workers of the audit log and Close are a list of actions, each of
-- them one synchronisation on a channel or one insert, in any order. The watch loop reads a row of
-- inputs with their times, its timer runs beside it. Store/Interleaved is a step relation.
--
-- Termination. No definition runs on fuel: maps, bodies and runs of operations are lists that the
-- functions go through. forward calls itself once at most, with retried set; the model has one definition
-- for each of the two attempts. A response that neither goes on nor ends leaves the relay loop waiting,
-- and is a list of rounds without an end.
--
-- Not modelled: StartWatch and Close of the Manager, which set up and tear down the watcher and the
-- goroutines; the timeouts of the HTTP client; logging, but for the access log; the scrape handler,
-- which is promhttp's; how viper merges its sources, gin finds a route and fsnotify reports a change;
-- and the locks. Each operation of the store's keys and of the manager runs to its end before the next
-- one, except in Store/Interleaved, and for a reload during a refresh (Auth/Refresh/Stale) and callers
-- that wait for a refresh (Auth/Refresh/Waiting).
pub mod Prelude
pub mod Text
pub mod Assoc
pub mod Clock
pub mod Net
pub mod Float
pub mod Http
pub mod Config
pub mod Auth
pub mod Store
pub mod Health
pub mod Metrics
pub mod Proxy
pub mod Middleware
pub mod Admin
pub mod Server
pub mod Boot
