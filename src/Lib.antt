-- ===== src/Lib.antt =====
-- code-guda-gateway: a gateway that takes a client's bearer key, picks one of several upstream
-- endpoints (a URL with its API key) of Grok, Tavily or Firecrawl, and forwards the request, moving
-- on to another endpoint where the answer says so.
--
-- The parts and their files. A Go name `DoThis` is `do_this` here.
-- - Prelude: Boolean tests, lists, integers, texts (strings.TrimSpace, strconv.ParseInt, …) and the
--   results with an error that the other modules share.
-- - Timestamp: time.RFC3339Nano texts and the byte order in which SQLite compares them. An instant
--   is a count of nanoseconds; Go's calendar is the parameter `Calendar`.
-- - Cooldown: internal/cooldown/cooldown.go. RetryAfter and Statuses hold its theorems.
-- - Secrets: internal/secrets/crypto.go over the parameter `Aead`.
-- - Providers: internal/providers. Names is providers.go and paging.go, Endpoints is endpoints.go
--   (net/url is the parameter `Urls`), QuotaConfig is endpoint_quota.go. KeyTable is the table
--   provider_keys with its statements, Redact is `Redact`, and Keys with its child modules is
--   keys.go: State has the routing state, Quota the quota columns, Selection `SelectEndpoint`,
--   Display the public views. Settings is settings.go, QuotaTables has the snapshots of quotas
--   (quota.go and the storage of key_quota.go), Pool is `ProviderPool` of key_quota.go, Health is
--   health.go. Refresh is quota_refresh.go: the module itself has the HTTP calls and the failures,
--   Normalize the payloads of Tavily, Firecrawl and Grok2API, Accounts the Grok2API v3 admin,
--   Endpoint `RefreshKey`, Provider `RefreshAllKeys` and `Refresh`; Routing, Outcomes, Budgets and
--   Pages are their theorems.
-- - Usage: the buckets of internal/usage/usage.go; Counters is the table of counters,
--   Daily its listing.
-- - Idgen: internal/idgen/base62.go.
-- - GatewayKeys: internal/gatewaykeys/keys.go; its child Invite is invite.go.
-- - Proxy: internal/proxy. Headers is `do`, Classify is what an answer means (with
--   tavily_diagnostic.go), Forward is `Forward`, Log is attemptlog.go.
-- - Oauth: internal/mcpoauth. Tables has the clients, codes, grants and the history of refresh
--   tokens, Scope `normalizeScope`, Exchange and Refresh the two grant types of the token endpoint,
--   Token its dispatch, Register `handleRegister`, Request the checks of `handleAuthorizePost` and
--   Authorize its decision, Issuer issuer.go, Password crypto.go, Decision decision.go, Routes the
--   routes of the OAuth server.
-- - Operatorlogin: internal/operatorlogin/github.go. Flows has `put` and `take`, Github `Start`,
--   `Finish` and `Consume`, which Authorize calls.
-- - Server: internal/server/server.go. Routes is the dispatch, Access `authorized` and
--   `recordUsage`, Verify the endpoint that the MCP server asks, Serve `ServeHTTP`.
-- - Adminauth: internal/adminauth. The module itself is token.go, Session is session.go and
--   middleware.go.
-- - Adminweb: internal/adminweb/handlers.go: the dispatch and its guard; Endpoints and
--   Creation have the handlers that change endpoints and URLs, Handle their dispatch. Guard,
--   Untouched and Refused are its theorems.
-- - Audit: internal/audit/audit.go. Privacy and Recent are its theorems.
-- - Config: internal/config/config.go.
-- - Examples: concrete runs.
--
-- State. A table is a list of rows in the order of their ids, with the id that AUTOINCREMENT gives
-- next; an operation takes the table, the clock and what the random source gives, and returns the
-- table or an error. `Forward` runs over any state `S`, which the interfaces KeySelector, HttpClient
-- and AttemptRecorder change; `SelectEndpoint` and the marks of keys.go are what the server passes.
-- One statement is atomic; the operations run one after another. A request reads the clock once,
-- and its transactions are not interleaved with another's: one that fails leaves the tables as it
-- found them. `Gateway` is the server: the proxy over its own state, the gateway's keys and OAuth
-- tables as the store, and the admin and the remaining OAuth handlers as an interface.
--
-- Loops and bounds. Loops are structural: over rows, signals and bytes, and in `attempts_loop` over
-- the count of rounds left, which starts at the count of attempts, so no fuel runs out; `fetch_pages`
-- runs over the pages left of 50. Durations are int64: the product in `ParseRetryAfter` wraps at 64
-- bits, and time.Time.Sub saturates. The counts of quotas are int64, whose sums and differences wrap.
--
-- Not modelled: failing SQL statements and errors ignored by the proxy; two requests that interleave
-- between statements, but for those that `Finish` of the operator's login allows for; the admin
-- interface's handlers but those of Adminweb/Handle, the pages, metadata endpoints and client metadata documents of OAuth, the
-- key file, the command-line program, and a quota refresh without repositories (nil in the source).
pub mod Prelude
pub mod Timestamp
pub mod Cooldown
pub mod Secrets
pub mod Providers
pub mod Usage
pub mod Oauth
pub mod Operatorlogin
pub mod Server
pub mod Adminauth
pub mod Adminweb
pub mod Audit
pub mod Config
pub mod Idgen
pub mod GatewayKeys
pub mod Proxy
pub mod Examples
