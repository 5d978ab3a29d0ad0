-- ===== src/Adminweb.antt =====
-- internal/adminweb/handlers.go: what the admin interface serves, the guard of its API and the
-- dispatch. The handlers that change endpoints are in Endpoints and Creation.
pub mod Guard
pub mod Endpoints
pub mod Creation
pub mod Handle
pub mod Untouched
pub mod Refused
use Prim.Native.String.{String, [], ◌∷◌}
use code_guda_gateway.Prelude.{
  ℕ, Bool, true, false, not, ◌&&◌, ◌||◌, Option, none, some, List, [], ◌∷◌, ◌=ₜ◌, if◌then◌else◌,
  is_some, strip_prefix, Result, ok, err,
}
use code_guda_gateway.Adminauth.{Service, Tables, Error, session_invalid}
use code_guda_gateway.Adminauth.Session.{session_id_from_request, validate_csrf, middleware}

-- What the dispatch and the guard read of a request: the token of the header, and of the form.
pub record Request : Type 0 where
  pub method : String
  pub path : String
  pub cookie : Option String
  pub csrf_header : String
  pub csrf_form : String

-- The handlers, those of the API that only read first. handleGitHubOperator is two, by its method.
pub data Handler : Type 0 where
  session dashboard_json gateway_keys_list provider_keys_list grok_get : Handler
  provider_settings_list provider_health provider_quotas provider_pool proxy_attempts : Handler
  proxy_debug_attempts_get display_timezone_get audit_list usage_daily : Handler
  github_operator_status public_issuance_get invite_codes_get : Handler
  login logout gateway_keys_create gateway_keys_patch gateway_keys_revoke : Handler
  gateway_keys_delete provider_endpoints_create provider_endpoints_update_base_url : Handler
  provider_endpoints_rotate_key provider_endpoints_update_quota : Handler
  provider_endpoints_rotate_quota_key endpoint_reset_cooldown endpoint_reset_selection : Handler
  endpoint_demote_to_end endpoint_archive endpoint_restore_archived : Handler
  provider_endpoints_patch provider_endpoints_delete provider_keys_create : Handler
  provider_keys_reset_cooldown provider_keys_reset_selection provider_keys_demote : Handler
  provider_keys_archive provider_keys_restore provider_keys_patch provider_keys_delete : Handler
  grok_patch provider_settings_patch provider_manual_test provider_quota_refresh : Handler
  provider_key_quota_refresh_all provider_key_quota_refresh_one proxy_debug_attempts_patch : Handler
  display_timezone_patch github_operator_save operator_password public_issuance_patch : Handler
  invite_codes_post invite_codes_revoke gateway_keys_revoke_unused : Handler

-- Whether a handler may change the state of the service.
unfoldable pub is_writer : Handler → Bool
is_writer session = false
is_writer dashboard_json = false
is_writer gateway_keys_list = false
is_writer provider_keys_list = false
is_writer grok_get = false
is_writer provider_settings_list = false
is_writer provider_health = false
is_writer provider_quotas = false
is_writer provider_pool = false
is_writer proxy_attempts = false
is_writer proxy_debug_attempts_get = false
is_writer display_timezone_get = false
is_writer audit_list = false
is_writer usage_daily = false
is_writer github_operator_status = false
is_writer public_issuance_get = false
is_writer invite_codes_get = false
is_writer _ = true

-- A condition of the `switch` on the path: the whole, a prefix, or a prefix and a suffix.
pub data Pattern : Type 0 where
  exactly below : String → Pattern
  between : String → String → Pattern

-- strings.HasSuffix
unfoldable pub has_suffix : String → String → Bool
has_suffix [] suffix = suffix =ₜ ""
has_suffix (c ∷ s) suffix = (c ∷ s) =ₜ suffix || has_suffix s suffix

abbrev matches_pattern : Pattern → String → Bool
matches_pattern (exactly p) path = path =ₜ p
matches_pattern (below p) path = is_some (strip_prefix p path)
matches_pattern (between p suffix) path = is_some (strip_prefix p path) && has_suffix path suffix

pub record Rule : Type 0 where
  pub pattern_of : Pattern
  pub method : String
  pub handler : Handler

abbrev rule : Pattern → String → Handler → Rule
rule p method h = record { pattern_of = p; method = method; handler = h }

-- The cases of the `switch`, in its order.
abbrev pub api_rules : List Rule
api_rules =
    rule (exactly "/admin/api/login") "POST" login
    ∷ rule (exactly "/admin/api/logout") "POST" logout
    ∷ rule (exactly "/admin/api/session") "GET" session
    ∷ rule (exactly "/admin/api/dashboard") "GET" dashboard_json
    ∷ rule (exactly "/admin/api/gateway-keys") "GET" gateway_keys_list
    ∷ rule (exactly "/admin/api/gateway-keys") "POST" gateway_keys_create
    ∷ rule (below "/admin/api/gateway-keys/") "PATCH" gateway_keys_patch
    ∷ rule (between "/admin/api/gateway-keys/" "/revoke") "POST" gateway_keys_revoke
    ∷ rule (below "/admin/api/gateway-keys/") "DELETE" gateway_keys_delete
    ∷ rule (exactly "/admin/api/provider-endpoints") "GET" provider_keys_list
    ∷ rule (exactly "/admin/api/provider-endpoints") "POST" provider_endpoints_create
    ∷ rule (between "/admin/api/provider-endpoints/" "/update-base-url") "POST"
        provider_endpoints_update_base_url
    ∷ rule (between "/admin/api/provider-endpoints/" "/rotate-key") "POST"
        provider_endpoints_rotate_key
    ∷ rule (between "/admin/api/provider-endpoints/" "/update-quota") "POST"
        provider_endpoints_update_quota
    ∷ rule (between "/admin/api/provider-endpoints/" "/rotate-quota-key") "POST"
        provider_endpoints_rotate_quota_key
    ∷ rule (between "/admin/api/provider-endpoints/" "/reset-cooldown") "POST"
        endpoint_reset_cooldown
    ∷ rule (between "/admin/api/provider-endpoints/" "/reset-selection") "POST"
        endpoint_reset_selection
    ∷ rule (between "/admin/api/provider-endpoints/" "/demote") "POST" endpoint_demote_to_end
    ∷ rule (between "/admin/api/provider-endpoints/" "/archive") "POST" endpoint_archive
    ∷ rule (between "/admin/api/provider-endpoints/" "/restore") "POST" endpoint_restore_archived
    ∷ rule (below "/admin/api/provider-endpoints/") "PATCH" provider_endpoints_patch
    ∷ rule (below "/admin/api/provider-endpoints/") "DELETE" provider_endpoints_delete
    ∷ rule (exactly "/admin/api/provider-keys") "GET" provider_keys_list
    ∷ rule (exactly "/admin/api/provider-keys") "POST" provider_keys_create
    ∷ rule (between "/admin/api/provider-keys/" "/reset-cooldown") "POST"
        provider_keys_reset_cooldown
    ∷ rule (between "/admin/api/provider-keys/" "/reset-selection") "POST"
        provider_keys_reset_selection
    ∷ rule (between "/admin/api/provider-keys/" "/demote") "POST" provider_keys_demote
    ∷ rule (between "/admin/api/provider-keys/" "/archive") "POST" provider_keys_archive
    ∷ rule (between "/admin/api/provider-keys/" "/restore") "POST" provider_keys_restore
    ∷ rule (below "/admin/api/provider-keys/") "PATCH" provider_keys_patch
    ∷ rule (below "/admin/api/provider-keys/") "DELETE" provider_keys_delete
    ∷ rule (exactly "/admin/api/providers/grok") "GET" grok_get
    ∷ rule (exactly "/admin/api/providers/grok") "PATCH" grok_patch
    ∷ rule (exactly "/admin/api/provider-settings") "GET" provider_settings_list
    ∷ rule (below "/admin/api/provider-settings/") "PATCH" provider_settings_patch
    ∷ rule (exactly "/admin/api/provider-health") "GET" provider_health
    ∷ rule (between "/admin/api/providers/" "/test") "POST" provider_manual_test
    ∷ rule (exactly "/admin/api/provider-quotas") "GET" provider_quotas
    ∷ rule (between "/admin/api/provider-quotas/" "/refresh") "POST" provider_quota_refresh
    ∷ rule (below "/admin/api/provider-pools/") "GET" provider_pool
    ∷ rule (between "/admin/api/provider-key-quotas/" "/refresh-all") "POST"
        provider_key_quota_refresh_all
    ∷ rule (between "/admin/api/provider-key-quotas/" "/refresh") "POST"
        provider_key_quota_refresh_one
    ∷ rule (exactly "/admin/api/proxy-attempts") "GET" proxy_attempts
    ∷ rule (exactly "/admin/api/settings/proxy-debug-attempts") "GET" proxy_debug_attempts_get
    ∷ rule (exactly "/admin/api/settings/proxy-debug-attempts") "PATCH" proxy_debug_attempts_patch
    ∷ rule (exactly "/admin/api/settings/display-timezone") "GET" display_timezone_get
    ∷ rule (exactly "/admin/api/settings/display-timezone") "PATCH" display_timezone_patch
    ∷ rule (exactly "/admin/api/audit-events") "GET" audit_list
    ∷ rule (exactly "/admin/api/usage-daily") "GET" usage_daily
    ∷ rule (exactly "/admin/api/settings/github-operator") "GET" github_operator_status
    ∷ rule (exactly "/admin/api/settings/github-operator") "PATCH" github_operator_save
    ∷ rule (exactly "/admin/api/operator-password") "POST" operator_password
    ∷ rule (exactly "/admin/api/public-issuance") "GET" public_issuance_get
    ∷ rule (exactly "/admin/api/public-issuance") "PATCH" public_issuance_patch
    ∷ rule (exactly "/admin/api/invite-codes") "GET" invite_codes_get
    ∷ rule (exactly "/admin/api/invite-codes") "POST" invite_codes_post
    ∷ rule (between "/admin/api/invite-codes/" "/revoke") "POST" invite_codes_revoke
    ∷ rule (exactly "/admin/api/gateway-keys/revoke-unused") "POST" gateway_keys_revoke_unused
    ∷ []

unfoldable pub dispatch : String → String → List Rule → Option Handler
unfolding has_suffix
dispatch method path [] = none
dispatch method path (r ∷ rs) =
    if matches_pattern r.pattern_of path && method =ₜ r.method
    then some r.handler
    else dispatch method path rs

abbrev pub is_changing_method : String → Bool
is_changing_method method = method =ₜ "POST" || method =ₜ "PATCH" || method =ₜ "DELETE"

unfoldable pub requires_csrf : Request → Bool
requires_csrf r = is_changing_method r.method && not (r.path =ₜ "/admin/api/login")

abbrev pub csrf_of : Request → String
csrf_of r =
    if r.csrf_header =ₜ "" && is_changing_method r.method then r.csrf_form else r.csrf_header

-- What is served: a file, the page, an answer of the guard or of none of the handlers, or a handler.
pub data Served : Type 0 where
  static_file page : Served
  refused : ℕ → Served
  handled : Handler → Served

abbrev pub served_by : Option Handler → Served
served_by none = refused 404
served_by (some h) = handled h

-- The answer of the CSRF check, `none` where it lets the request through.
abbrev pub csrf_answer : Result Error Bool → Option ℕ
csrf_answer (ok true) = none
csrf_answer (ok false) = some 403
csrf_answer (err session_invalid) = some 403
csrf_answer (err e) = some 500

abbrev pub unless_answered : Option ℕ → Served → Served
unless_answered none next = next
unless_answered (some status) next = refused status

module _ (s : Service) (now : ℕ) where
  unfoldable pub serve_api : Request → Tables → Served
  unfolding dispatch requires_csrf validate_csrf
  serve_api r t =
      let next = served_by (dispatch r.method r.path api_rules) in
      if requires_csrf r
      then unless_answered
          (csrf_answer (validate_csrf s (session_id_from_request r.cookie) (csrf_of r) t)) next
      else next

  -- The API behind the middleware of New, which lets the login through.
  unfoldable pub api : Request → Tables → Served
  unfolding serve_api middleware
  api r t =
      unless_answered (middleware s ("/admin/api/login" ∷ []) now r.path r.cookie t) (serve_api r t)

  unfoldable pub serve_page : Request → Served
  serve_page r = if r.method =ₜ "GET" then page else refused 405

  unfoldable pub serve_http : Request → Tables → Served
  unfolding api serve_page
  serve_http r t =
      if r.path =ₜ "/admin/static" || is_some (strip_prefix "/admin/static/" r.path)
      then static_file
      else if is_some (strip_prefix "/admin/api/" r.path)
      then api r t
      else if r.path =ₜ "/admin" || is_some (strip_prefix "/admin/" r.path)
      then serve_page r
      else refused 404
