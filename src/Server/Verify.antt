-- ===== src/Server/Verify.antt =====
-- `handleInternalKeysVerify` of internal/server/server.go: the MCP server asks whether a bearer
-- token is good. The decoded body is a parameter, `none` where decoding fails; an error is its
-- status.
use code_guda_gateway.Prelude.{
  ℕ, String, Bool, true, false, not, ◌&&◌, ◌||◌, Option, none, some, List, [], ◌∷◌, ◌=ₜ◌,
  if◌then◌else◌, trim_space, fields, Result, ok, err, ◌>>=◌, ◌>>◌, require, or_fail,
}
use code_guda_gateway.GatewayKeys
use code_guda_gateway.GatewayKeys.{Service, DisplayKey, lookup, touch, not_authorized}
use code_guda_gateway.Oauth.Tables
use code_guda_gateway.Oauth.Tables.{Store, Grant, find_grant_of_key, resource_url}
use code_guda_gateway.Oauth.Decision.{AuthDecision, oauth_valid, check_oauth_grant}
use code_guda_gateway.Proxy.Headers.{Request, header_get}

pub record VerifyRequest : Type 0 where
  pub token : String
  pub resource : String

pub record VerifyResponse : Type 0 where
  pub name : String
  pub prefix : String
  pub fingerprint : String
  pub client_id : String
  pub scopes : List String
  pub oauth_owned : Bool
  pub resource : String

abbrev pub status_of_lookup : Result GatewayKeys.Error (Option DisplayKey) → Result ℕ DisplayKey
status_of_lookup (ok (some d)) = ok d
status_of_lookup (ok none) = err 401
status_of_lookup (err not_authorized) = err 401
status_of_lookup (err e) = err 500

abbrev pub is_valid : AuthDecision → Bool
is_valid oauth_valid = true
is_valid _ = false

-- A client is named by its key, or by the key's prefix where the name is blank.
abbrev pub manual_client : DisplayKey → String
manual_client d = if trim_space d.name =ₜ "" then d.prefix else d.name

abbrev pub response_of : DisplayKey → String → List String → String → VerifyResponse
response_of d client_id scopes resource = record {
  name = d.name;
  prefix = d.prefix;
  fingerprint = d.fingerprint;
  client_id = client_id;
  scopes = scopes;
  oauth_owned = d.oauth_owned;
  resource = resource;
}

-- The grant of a key that OAuth owns: for this resource, the one asked for, and still valid.
unfoldable pub check_owned :
    Option Tables.Server → ℕ → VerifyRequest → DisplayKey → Store → Result ℕ VerifyResponse
check_owned oauth now req d st = do
  o ← or_fail oauth 401
  g ← or_fail (find_grant_of_key d.id st.grants) 401
  require
      (not (
        not (g.resource =ₜ resource_url o)
        || (not (req.resource =ₜ "") && not (req.resource =ₜ g.resource))))
      401
  require (is_valid (check_oauth_grant o now d.id st)) 401
  ok (response_of d g.client_id (fields g.scope) g.resource)

-- The checks of the handler up to the recording of the use.
unfoldable pub check_token :
    Option Service
    → Option Tables.Server
    → ℕ
    → VerifyRequest
    → Store
    → Result ℕ (VerifyResponse × DisplayKey × Service)
unfolding check_owned
check_token keys oauth now req st = do
  svc ← or_fail keys 500
  d ← status_of_lookup (lookup svc req.token st.keys)
  resp ←
      (if d.oauth_owned
        then check_owned oauth now req d st
        else ok (response_of d (manual_client d) ("mcp" ∷ []) ""))
  ok (resp, d, svc)

abbrev pub touched :
    ℕ → Store → Result ℕ (VerifyResponse × DisplayKey × Service) → Result ℕ VerifyResponse × Store
touched now st (ok (resp, d, svc)) = (ok resp, record st { keys = touch svc now d.id st.keys })
touched now st (err status) = (err status, st)

unfoldable pub internal_keys_verify :
    Option Service
    → Option Tables.Server
    → String
    → ℕ
    → Request
    → Option VerifyRequest
    → Store
    → Result ℕ VerifyResponse × Store
internal_keys_verify keys oauth internal_token now r decoded st = touched now st (do
  require (r.method =ₜ "POST") 405
  require (not (internal_token =ₜ "")) 403
  require (header_get "X-Internal-Token" r.header =ₜ internal_token) 403
  req ← or_fail decoded 400
  require (not (trim_space req.token =ₜ "")) 400
  check_token keys oauth now req st)
