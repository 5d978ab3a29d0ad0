-- ===== src/Oauth/Request.antt =====
-- What `handleAuthorizePost` of internal/mcpoauth/server.go works on, and its checks on a request.
-- The metadata documents of clients are an interface, and so are the code's redirect by net/url and
-- the quoting of %q. Pages and redirects are their data.

use code_guda_gateway.Prelude.{
  ℕ, String, Bool, false, not, ◌&&◌, ◌||◌, Option, none, some, List, [], ◌∷◌, ◌=ₜ◌, if◌then◌else◌,
  is_some, trim_space, strip_prefix, Result, ok, ◌>>=◌, ◌>>◌, require, or_fail,
}
use code_guda_gateway.GatewayKeys.{or_text}
use code_guda_gateway.GatewayKeys.Invite
use code_guda_gateway.GatewayKeys.Invite.{InviteService, InviteCode, redeem}
use code_guda_gateway.Providers.Endpoints.{Url, Urls}
use code_guda_gateway.Secrets.{Bytes}
use code_guda_gateway.Operatorlogin
use code_guda_gateway.Operatorlogin.{Values}
use code_guda_gateway.Operatorlogin.Github.{Redirect}
use code_guda_gateway.Oauth.Scope.{normalize_scope}
use code_guda_gateway.Oauth.Tables
use code_guda_gateway.Oauth.Tables.{
  Store, Client, Code, TokenError, oauth_error, find_client, find_code, resource_url,
}
use code_guda_gateway.Oauth.Issuer.{redirect_matches}
use code_guda_gateway.Oauth.Password.{Scrypt, valid_password_hash}
use code_guda_gateway.Oauth.Token.{valid_resource}

pub record Authorizer : Type 0 where
  pub server : Tables.Server
  pub urls : Urls
  pub escaped_path : Url → String
  pub with_code : Url → String → String → String
  pub quote : String → String
  pub scrypt : Scrypt
  pub password_hash : String
  pub invites : InviteService
  pub github : Option Operatorlogin.Service
  pub fetch_metadata : String → Option (Option Client)

-- The tables of the authorization, with two settings.
pub record Issuance : Type 0 where
  pub store : Store
  pub invites : Invite.Table
  pub logins : Operatorlogin.Tables
  pub public_issuance : Option String
  pub operator_hash : Option String

pub record AuthorizeForm : Type 0 where
  pub client_id : String
  pub redirect_uri : String
  pub state : String
  pub code_challenge : String
  pub code_challenge_method : String
  pub scope : String
  pub resources : List String
  pub password : String
  pub agent_label : String
  pub invite : String
  pub operator_login : String
  pub github_consent : String

-- What the random source gives: the code's bytes, and the texts of a GitHub login.
pub record Draws : Type 0 where
  pub code_bytes : Option Bytes
  pub login_nonce : Option Bytes
  pub fresh : String
  pub verifier : String
  pub login_state : String

pub data Refusal : Type 0 where
  oauth_refused : TokenError → Refusal
  refused : ℕ → String → Refusal
  shown_form : ℕ → String → Refusal

pub data Reply : Type 0 where
  refusal : Refusal → Reply
  to_github : Redirect → Reply
  redirected : String → Reply

-- publicIssuanceMode
abbrev pub issuance_mode : Option String → String
issuance_mode none = "off"
issuance_mode (some mode) =
    if trim_space mode =ₜ "open" || trim_space mode =ₜ "ref_code" then trim_space mode else "off"

abbrev pub effective_password_hash : Authorizer → Option String → String
effective_password_hash a none = a.password_hash
effective_password_hash a (some stored) =
    if valid_password_hash a.scrypt stored then stored else a.password_hash

abbrev pub lookup_client : Authorizer → String → Store → Option (Option Client)
lookup_client a client_id st =
    if is_some (strip_prefix "https://" client_id)
    then a.fetch_metadata client_id
    else some (find_client client_id st.clients)

unfoldable pub any_match : Authorizer → String → List String → Bool
any_match a actual [] = false
any_match a actual (u ∷ us) =
    redirect_matches a.urls a.escaped_path u actual || any_match a actual us

abbrev pub label_of : Client → String → String
label_of c given =
    if trim_space given =ₜ "" && not (or_text c.client_name "" =ₜ "")
    then trim_space (or_text c.client_name "")
    else trim_space given

-- A request that passed the checks on its fields.
pub record Checked : Type 0 where
  pub scope : String
  pub agent_label : String

unfoldable pub check_form : Authorizer → AuthorizeForm → Store → Result Refusal Checked
check_form a f st = do
  scope ←
      or_fail (normalize_scope f.scope)
        (oauth_refused (oauth_error 400 "invalid_scope" "unsupported scope"))
  require (valid_resource a.server f.resources)
      (oauth_refused (oauth_error 400 "invalid_target" "invalid resource"))
  found ← or_fail (lookup_client a f.client_id st) (refused 500 "internal error")
  client ← or_fail found (refused 400 "invalid client_id")
  require (any_match a f.redirect_uri client.redirect_uris) (refused 400 "invalid redirect_uri")
  require (f.code_challenge_method =ₜ "S256" && not (f.code_challenge =ₜ ""))
      (refused 400 "unsupported code_challenge_method")
  ok (record { scope = scope; agent_label = label_of client f.agent_label })

abbrev pub consent_values : Authorizer → AuthorizeForm → Checked → Values
consent_values a f k =
    ("client_id", f.client_id ∷ [])
    ∷ ("redirect_uri", f.redirect_uri ∷ [])
    ∷ ("response_type", "code" ∷ [])
    ∷ ("state", f.state ∷ [])
    ∷ ("code_challenge", f.code_challenge ∷ [])
    ∷ ("code_challenge_method", f.code_challenge_method ∷ [])
    ∷ ("scope", k.scope ∷ [])
    ∷ ("resource", resource_url a.server ∷ [])
    ∷ ("agent_label", k.agent_label ∷ [])
    ∷ ("invite", trim_space f.invite ∷ [])
    ∷ []

abbrev pub denied_reply : Reply
denied_reply =
    refusal
      (refused 403 "GitHub operator sign-in failed; retry sign-in or use the operator password")
