-- ===== src/Server/Serve.antt =====
-- `ServeHTTP` of internal/server/server.go: the order of the routes, the access check, and the proxy
-- over the gateway's state. The admin handler is the interface http.Handler; the OAuth endpoints
-- stand behind `Endpoint`. `fresh_id` and `today` are made from the clock.
pub mod Guard
pub mod Classes
pub mod Counted
use code_guda_gateway.Prelude.{
  ℕ, String, Bool, true, false, not, ◌&&◌, ◌||◌, Option, none, some, List, [], ◌∷◌, ◌==◌, ◌=ₜ◌,
  if◌then◌else◌, Result, ok, err,
}
use code_guda_gateway.GatewayKeys
use code_guda_gateway.GatewayKeys.{Service, DisplayKey}
use code_guda_gateway.Usage.Counters.{UsageDaily}
use code_guda_gateway.Oauth.Tables
use code_guda_gateway.Oauth.Tables.{Store}
use code_guda_gateway.Oauth.Routes.{Endpoint, is_oauth_route, endpoint_of_route}
use code_guda_gateway.Proxy.Headers.{Request, Target}
use code_guda_gateway.Proxy.Classify.{Response}
use code_guda_gateway.Proxy.Forward.{Proxy, Outcome, forward}
use code_guda_gateway.Server.Routes.{has_prefix, is_runtime_route, runtime_target}
use code_guda_gateway.Server.Access.{Access, granted, denied, failed, authorized, record_usage}
use code_guda_gateway.Server.Verify.{VerifyRequest, VerifyResponse, internal_keys_verify}

-- The database's tables that the server reads, and what the proxy works on: the provider keys, the
-- attempt log, and the world behind the HTTP client.
pub record State (W : Type 0) : Type 0 where
  pub store : Store
  pub usage : List UsageDaily
  pub upstream : W

abbrev pub Handler : Type 0 → Type 0
Handler W = ℕ → Request → State W → Response × State W

pub record Gateway (W : Type 0) : Type 0 where
  pub proxy : Proxy W
  pub gateway_keys : Option Service
  pub oauth_server : Option Tables.Server
  pub oauth : Endpoint → Handler W
  pub admin : Handler W
  pub internal_token : String
  pub decode : Request → Option VerifyRequest
  pub encode : VerifyResponse → String

-- http.Error and http.NotFound
abbrev pub plain : ℕ → String → Response
plain status text = record { status = status; header = []; body = text }

abbrev pub json : String → Response
json text = record { status = 200; header = ("Content-Type", "application/json") ∷ []; body = text }

unfoldable pub handle_health : Request → Response
handle_health r =
    if r.method =ₜ "GET" then json "{\"status\":\"ok\"}" else plain 405 "method not allowed"

-- The texts of the verification's refusals, by their status.
abbrev pub refusal_text : ℕ → String
refusal_text status =
    if status == 405
    then "method not allowed"
    else if status == 403
    then "forbidden"
    else if status == 400
    then "bad request"
    else if status == 401
    then "unauthorized"
    else "internal error"

module _ {W : Type 0} (g : Gateway W) (now : ℕ) (fresh_id today : String) where
  abbrev pub verified : State W → Result ℕ VerifyResponse × Store → Response × State W
  verified s (ok resp, st) = (json (g.encode resp), record s { store = st })
  verified s (err status, st) = (plain status (refusal_text status), record s { store = st })

  unfoldable pub handle_verify : Request → State W → Response × State W
  handle_verify r s = verified s (
      internal_keys_verify g.gateway_keys g.oauth_server g.internal_token now r (g.decode r)
        s.store)

  -- `forward`: the proxy's call, and the usage of its result.
  unfoldable pub forward_as : DisplayKey → Request → Target → State W → Response × State W
  forward_as d r target s =
      let (o, w) = forward g.proxy fresh_id now r target s.upstream in
      (
        o.written,
        record s {
          upstream = w;
          usage = record_usage today d target.provider r.path o.result s.usage;
        },
      )

  abbrev pub with_access : Request → Option Target → Access → State W → Response × State W
  with_access r target failed s = (plain 500 "internal error", s)
  with_access r target denied s = (plain 401 "unauthorized", s)
  with_access r none (granted d keys) s =
      (plain 404 "404 page not found", record s { store = record (s.store) { keys = keys } })
  with_access r (some target) (granted d keys) s =
      forward_as d r target (record s { store = record (s.store) { keys = keys } })

  -- The routes that remain when the others are served.
  unfoldable pub serve_runtime : Request → State W → Response × State W
  serve_runtime r s =
      if is_runtime_route r.method r.path
      then with_access r (runtime_target r.method r.path)
          (authorized g.gateway_keys now r s.store.keys) s
      else (plain 404 "404 page not found", s)

  abbrev pub serve_oauth : Request → Option Endpoint → State W → Response × State W
  serve_oauth r none s = (plain 404 "404 page not found", s)
  serve_oauth r (some endpoint) s = g.oauth endpoint now r s

  abbrev pub is_oauth : Request → Bool
  is_oauth r = elim g.oauth_server [ none ↦ false | some _ ↦ is_oauth_route r.method r.path ]

  unfoldable pub serve : Request → State W → Response × State W
  unfolding serve_runtime
  serve r s =
      if has_prefix "/admin" r.path
      then g.admin now r s
      else if r.path =ₜ "/healthz"
      then (handle_health r, s)
      else if r.path =ₜ "/internal/keys/verify"
      then handle_verify r s
      else if is_oauth r
      then serve_oauth r (endpoint_of_route r.method r.path) s
      else serve_runtime r s
