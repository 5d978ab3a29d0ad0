-- ===== src/Providers/Refresh/Endpoint.antt =====
-- internal/providers/quota_refresh.go: the refresh of one endpoint by its own quota configuration, and
-- of all endpoints of a provider. encoding/json decodes the payloads.
use Prim.Native.String
use code_guda_gateway.Prelude.{
  ℕ, ◌+◌, ◌*◌, String, Bool, true, false, Option, none, some, List, ◌=ₜ◌, if◌then◌else◌, Result, ok,
  err, ◌>>=◌,
}
use code_guda_gateway.Timestamp.{Stamp, format, second}
use code_guda_gateway.Providers.Names.{
  Error, quota_disabled, quota_not_configured, invalid_quota_config, provider_grok, provider_tavily,
  provider_firecrawl,
}
use code_guda_gateway.Providers.Endpoints.{trim_right_slashes, join_endpoint_url}
use code_guda_gateway.Providers.QuotaConfig.{
  quota_flow_grok2api_admin, quota_flow_grok2api_v3_admin, quota_flow_tavily_usage,
  quota_flow_firecrawl_credit_usage,
}
use code_guda_gateway.Providers.Keys.{KeyRepo}
use code_guda_gateway.Providers.Keys.Quota.{ResolvedEndpointQuota, resolve_endpoint_quota}
use code_guda_gateway.Providers.Keys.Display.{DisplayProviderKey, get}
use code_guda_gateway.Providers.QuotaTables.{
  DetailsJson, QuotaCache, ProviderKeyQuota, KeyQuotaRow, QuotaError, upsert_key_quota,
}
use code_guda_gateway.Providers.Refresh.{
  QuotaClient, Fetched, World, Times, Failure, of_keys, get_json, post_json, record_quota_event,
  record_event_of, quota_failure, quota_http_failure, quota_malformed,
}
use code_guda_gateway.Providers.Refresh.Normalize.{
  TavilyUsageResponse, FirecrawlCreditUsageResponse, ModeQuota, normalize_tavily_usage,
  normalize_firecrawl_credit_usage, normalize_grok_tokens,
}
use code_guda_gateway.Providers.Refresh.Accounts.{AccountsJson, fetch_accounts}

pub record QuotaJson : Type 0 where
  pub decode_tavily : String → Option TavilyUsageResponse
  pub decode_firecrawl : String → Option FirecrawlCreditUsageResponse
  pub decode_tokens : String → Option (List (List ModeQuota))
  pub accounts : AccountsJson
  pub details : DetailsJson

pub record QuotaRefresher (N : Type 0) : Type 0 where
  pub keys : KeyRepo
  pub client : QuotaClient N
  pub json : QuotaJson
  pub parse_stamp : Stamp → Option ℕ

abbrev pub quota_cache_ttl : ℕ
quota_cache_ttl = 300 * second

abbrev pub times_at : KeyRepo → ℕ → Times
times_at repo now = record {
  checked = format repo.calendar now;
  expires = format repo.calendar (now + quota_cache_ttl);
}

-- The closures that refreshProviderHTTPWithEndpoint is given.
unfoldable pub parse_tavily : QuotaJson → Times → Option ℕ → String → QuotaCache
unfolding normalize_tavily_usage
parse_tavily json times key_id body = elim (json.decode_tavily body) [
  | none ↦ quota_malformed provider_tavily "tavily_usage" times key_id
  | some p ↦ normalize_tavily_usage provider_tavily key_id times p
]

unfoldable pub parse_firecrawl : QuotaJson → Times → Option ℕ → String → QuotaCache
unfolding normalize_firecrawl_credit_usage
parse_firecrawl json times key_id body = elim (json.decode_firecrawl body) [
  | none ↦ quota_malformed provider_firecrawl "firecrawl_credit_usage" times key_id
  | some p ↦ normalize_firecrawl_credit_usage provider_firecrawl key_id times p
]

unfoldable pub parse_tokens : QuotaJson → Times → Option ℕ → String → QuotaCache
unfolding normalize_grok_tokens
parse_tokens json times key_id body = elim (json.decode_tokens body) [
  | none ↦ quota_malformed provider_grok "grok2api_admin_tokens" times key_id
  | some p ↦ normalize_grok_tokens provider_grok key_id times p
]

-- What follows an answer: the failure of a call, or the payload.
abbrev pub read_quota :
    KeyRepo
    → String
    → String
    → Times
    → Option ℕ
    → (Option ℕ → String → QuotaCache)
    → Fetched
    → QuotaCache
read_quota repo provider source times key_id parse f = elim f.error [
  | none ↦ parse key_id f.body
  | some e ↦ quota_http_failure repo provider source times key_id f.status e
]

abbrev pub found : {N : Type 0} → QuotaCache × World N → Option QuotaCache × World N
found (q, w) = (some q, w)

abbrev pub of_cache : ℕ → QuotaCache → ProviderKeyQuota
of_cache key_id q = record {
  provider_key_id = key_id;
  provider = q.provider;
  source = q.source;
  available = q.available;
  used = q.used;
  limit_value = q.limit_value;
  remaining = q.remaining;
  period_start = q.period_start;
  period_end = q.period_end;
  checked_at = q.checked_at;
  expires_at = q.expires_at;
  message_redacted = q.message_redacted;
  details = q.details;
}

module _ {N : Type 0} (r : QuotaRefresher N) (now : ℕ) where
  -- refreshProviderHTTPWithEndpoint, on an endpoint's id, URL and key
  unfoldable pub fetch_endpoint :
      String
      → String
      → String
      → ℕ
      → String
      → String
      → (Option ℕ → String → QuotaCache)
      → World N
      → QuotaCache × World N
  unfolding join_endpoint_url get_json record_quota_event
  fetch_endpoint provider source path key_id base_url api_key parse w =
      elim (join_endpoint_url r.keys.urls base_url path "") [
        | err e ↦ (quota_failure provider source (times_at r.keys now) (some key_id) (of_keys e), w)
        | ok url ↦
            let (f, after) = get_json r.client url api_key w in
            (
              read_quota r.keys provider source (times_at r.keys now) (some key_id) parse f,
              record_quota_event r.keys now key_id f.status f.error after,
            )
      ]

  -- fetchGrok2APIAdminTokens: the first call's outcome does not matter.
  unfoldable pub fetch_admin_tokens :
      String → String → Option ℕ → Bool → World N → QuotaCache × World N
  unfolding trim_right_slashes get_json post_json record_event_of
  fetch_admin_tokens base admin_key key_id record_event w =
      let admin_base = trim_right_slashes base in
      let (batch, w₁) =
        post_json r.client true
          (String.◌++◌ admin_base "/admin/api/batch/refresh?all_manageable=true") admin_key
          "{\"tokens\":[]}" w in
      let (f, w₂) = get_json r.client (String.◌++◌ admin_base "/admin/api/tokens") admin_key w₁ in
      (
        read_quota r.keys provider_grok "grok2api_admin_tokens" (times_at r.keys now) key_id
            (parse_tokens r.json (times_at r.keys now)) f,
        record_event_of r.keys now record_event key_id f.status f.error w₂,
      )

  -- operationalProviderKeyQuota
  abbrev pub operational_quota : DisplayProviderKey → String → String → ProviderKeyQuota
  operational_quota k source message = record {
    provider_key_id = k.id;
    provider = k.provider;
    source = source;
    available = false;
    used = none;
    limit_value = none;
    remaining = none;
    period_start = none;
    period_end = none;
    checked_at = (times_at r.keys now).checked;
    expires_at = (times_at r.keys now).expires;
    message_redacted = some message;
    details = none;
  }

  abbrev pub key_quota_failure : DisplayProviderKey → String → Failure → ProviderKeyQuota
  key_quota_failure k source e =
      of_cache k.id (quota_failure k.provider source (times_at r.keys now) (some k.id) e)

  -- The `switch` on the flow: no snapshot for a flow that is not known.
  unfoldable pub fetch_flow : ResolvedEndpointQuota → World N → Option QuotaCache × World N
  unfolding fetch_admin_tokens fetch_accounts fetch_endpoint parse_tavily parse_firecrawl
  fetch_flow q w =
      let times = times_at r.keys now in
      if q.flow =ₜ quota_flow_grok2api_admin
      then found (fetch_admin_tokens q.base_url q.api_key (some q.endpoint_id) true w)
      else if q.flow =ₜ quota_flow_grok2api_v3_admin
      then found (
          fetch_accounts r.keys now r.client r.json.accounts times q.base_url q.api_key
            (some q.endpoint_id) true w)
      else if q.flow =ₜ quota_flow_tavily_usage
      then found (
          fetch_endpoint provider_tavily "tavily_usage" "/usage" q.endpoint_id q.base_url q.api_key
            (parse_tavily r.json times) w)
      else if q.flow =ₜ quota_flow_firecrawl_credit_usage
      then found (
          fetch_endpoint provider_firecrawl "firecrawl_credit_usage" "/team/credit-usage"
            q.endpoint_id q.base_url q.api_key (parse_firecrawl r.json times) w)
      else (none, w)

  abbrev pub of_flow : DisplayProviderKey → Option QuotaCache × World N → ProviderKeyQuota × World N
  of_flow k (none, w) = (key_quota_failure k "quota_flow" (of_keys invalid_quota_config), w)
  of_flow k (some q, w) = (of_cache k.id q, w)

  -- The arms of the `switch` on the error of ResolveEndpointQuota.
  abbrev pub unresolved_quota : DisplayProviderKey → Error → ProviderKeyQuota
  unresolved_quota k quota_disabled =
      operational_quota k "quota_disabled" "quota refresh disabled for this endpoint"
  unresolved_quota k quota_not_configured =
      operational_quota k "quota_not_configured"
        "quota credentials not configured for this endpoint"
  unresolved_quota k e = key_quota_failure k "quota_resolution" (of_keys e)

  -- refreshKeyFromSidecar
  unfoldable pub refresh_from_sidecar : DisplayProviderKey → World N → ProviderKeyQuota × World N
  unfolding resolve_endpoint_quota fetch_flow
  refresh_from_sidecar k w = elim (resolve_endpoint_quota r.keys k.id w.keys) [
    | ok q ↦ of_flow k (fetch_flow q w)
    | err e ↦ (unresolved_quota k e, w)
  ]

  -- RefreshKey: the snapshot is stored.
  unfoldable pub refresh_key :
      ℕ
      → World N
      → List KeyQuotaRow
      → Result QuotaError (ProviderKeyQuota × List KeyQuotaRow) × World N
  unfolding get refresh_from_sidecar upsert_key_quota
  refresh_key i w quotas = elim (get i w.keys) [
    | err e ↦ (err (QuotaError.names e), w)
    | ok k ↦
        let (q, after) = refresh_from_sidecar k w in
        (upsert_key_quota r.keys.patterns r.json.details q quotas >>= λ rows. ok (q, rows), after)
  ]
