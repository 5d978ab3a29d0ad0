-- ===== src/Providers/Refresh/Provider.antt =====
-- internal/providers/quota_refresh.go: the refresh of all endpoints of a provider, and the refresh of
-- the provider's own snapshot, by its settings or by the endpoint that is selected.
use code_guda_gateway.Prelude.{
  ℕ, suc, String, Bool, true, false, not, ◌&&◌, Option, none, some, List, [], ◌∷◌, ◌++◌, ◌=ₜ◌,
  if◌then◌else◌, Result, ok, err,
}
use code_guda_gateway.Secrets.{Bytes}
use code_guda_gateway.Providers.Names
use code_guda_gateway.Providers.Names.{
  validate_provider, provider_grok, provider_tavily, provider_firecrawl,
}
use code_guda_gateway.Providers.Settings.{
  SettingsRepo, SettingsTables, SettingsError, get_grok_quota_mode, get_grok_admin_key,
  get_grok_admin_base_url, get_base_url,
}
use code_guda_gateway.Providers.QuotaConfig.{quota_disabled_mode, quota_separate_credentials}
use code_guda_gateway.Providers.Keys.Display.{DisplayProviderKey, list}
use code_guda_gateway.Providers.Keys.Selection.{select_endpoint}
use code_guda_gateway.Providers.QuotaTables.{
  QuotaCache, ProviderKeyQuota, KeyQuotaRow, QuotaError, upsert_key_quota,
}
use code_guda_gateway.Providers.Pool.{PoolClock, pool_key_skip_reason}
use code_guda_gateway.Providers.Refresh.{World, of_keys, of_settings, quota_failure, unavailable}
use code_guda_gateway.Providers.Refresh.Endpoint.{
  QuotaRefresher, times_at, parse_tavily, parse_firecrawl, fetch_endpoint, fetch_admin_tokens,
  refresh_from_sidecar,
}

pub record KeyQuotaRefreshResult : Type 0 where
  pub provider_key_id : ℕ
  pub provider : String
  pub attempted : Bool
  pub skipped_reason : Option String
  pub quota : Option ProviderKeyQuota

pub record RefreshAllKeyQuotasResult : Type 0 where
  pub provider : String
  pub attempted : ℕ
  pub succeeded : ℕ
  pub failed : ℕ
  pub skipped_cooldown : ℕ
  pub skipped_disabled : ℕ
  pub skipped_archived : ℕ
  pub skipped_not_configured : ℕ
  pub key_results : List KeyQuotaRefreshResult

abbrev pub no_results : String → RefreshAllKeyQuotasResult
no_results provider = record {
  provider = provider;
  attempted = 0;
  succeeded = 0;
  failed = 0;
  skipped_cooldown = 0;
  skipped_disabled = 0;
  skipped_archived = 0;
  skipped_not_configured = 0;
  key_results = [];
}

-- Why an endpoint is skipped: its routing state, or its quota configuration.
pub data Skip : Type 0 where
  is_archived is_disabled is_cooling quota_is_disabled quota_is_missing : Skip

unfoldable pub skip_of : PoolClock → DisplayProviderKey → Option Skip
unfolding pool_key_skip_reason
skip_of clock k =
    let reason = pool_key_skip_reason clock k in
    if reason =ₜ "archived"
    then some is_archived
    else if reason =ₜ "disabled"
    then some is_disabled
    else if reason =ₜ "cooldown"
    then some is_cooling
    else if k.quota_mode =ₜ quota_disabled_mode
    then some quota_is_disabled
    else if k.quota_mode =ₜ quota_separate_credentials && not k.quota_key_configured
    then some quota_is_missing
    else none

abbrev pub reason_of : Skip → String
reason_of is_archived = "archived"
reason_of is_disabled = "disabled"
reason_of is_cooling = "cooldown"
reason_of quota_is_disabled = "quota_disabled"
reason_of quota_is_missing = "quota_not_configured"

abbrev pub count_skip : Skip → RefreshAllKeyQuotasResult → RefreshAllKeyQuotasResult
count_skip is_archived out = record out { skipped_archived = suc out.skipped_archived }
count_skip is_disabled out = record out { skipped_disabled = suc out.skipped_disabled }
count_skip is_cooling out = record out { skipped_cooldown = suc out.skipped_cooldown }
count_skip quota_is_disabled out = record out { skipped_disabled = suc out.skipped_disabled }
count_skip quota_is_missing out = record out {
  skipped_not_configured = suc out.skipped_not_configured;
}

abbrev pub append_result :
    KeyQuotaRefreshResult → RefreshAllKeyQuotasResult → RefreshAllKeyQuotasResult
append_result one out = record out { key_results = out.key_results ++ one ∷ [] }

unfoldable pub skip_key :
    String → DisplayProviderKey → Skip → RefreshAllKeyQuotasResult → RefreshAllKeyQuotasResult
skip_key provider k why out =
    append_result
      (record {
        provider_key_id = k.id;
        provider = provider;
        attempted = false;
        skipped_reason = some (reason_of why);
        quota = none;
      })
      (count_skip why out)

abbrev pub count_attempt : Bool → RefreshAllKeyQuotasResult → RefreshAllKeyQuotasResult
count_attempt true out = record out { succeeded = suc out.succeeded }
count_attempt false out = record out { failed = suc out.failed }

abbrev pub attempt_key : RefreshAllKeyQuotasResult → RefreshAllKeyQuotasResult
attempt_key out = record out { attempted = suc out.attempted }

unfoldable pub finish_key :
    String
    → DisplayProviderKey
    → ProviderKeyQuota
    → RefreshAllKeyQuotasResult
    → RefreshAllKeyQuotasResult
finish_key provider k q out =
    append_result
      (record {
        provider_key_id = k.id;
        provider = provider;
        attempted = true;
        skipped_reason = none;
        quota = some q;
      })
      (count_attempt q.available out)

-- What a refresh of all endpoints leaves: its result and its error, the world and the snapshots.
pub record Sweep (N : Type 0) : Type 0 where
  pub out : RefreshAllKeyQuotasResult
  pub error : Option QuotaError
  pub world : World N
  pub quotas : List KeyQuotaRow

abbrev pub start_sweep : {N : Type 0} → String → World N → List KeyQuotaRow → Sweep N
start_sweep provider w quotas = record {
  out = no_results provider;
  error = none;
  world = w;
  quotas = quotas;
}

abbrev refreshed : {N : Type 0} → QuotaCache × World N → Result Names.Error QuotaCache × World N
refreshed (q, w) = (ok q, w)

module _ {N : Type 0} (r : QuotaRefresher N) (now : ℕ) where
  -- An attempt that ends in a snapshot; storing it may fail, which ends the loop.
  abbrev pub store_key :
      String
      → DisplayProviderKey
      → ProviderKeyQuota × World N
      → RefreshAllKeyQuotasResult
      → List KeyQuotaRow
      → Sweep N
  store_key provider k (q, after) out quotas =
      elim (upsert_key_quota r.keys.patterns r.json.details q quotas) [
        | err e ↦ record { out = out; error = some e; world = after; quotas = quotas }
        | ok stored ↦ record {
          out = finish_key provider k q out;
          error = none;
          world = after;
          quotas = stored;
        }
      ]

  -- One round of the loop.
  unfoldable pub sweep_key : String → DisplayProviderKey → Sweep N → Sweep N
  unfolding skip_of skip_key finish_key refresh_from_sidecar upsert_key_quota
  sweep_key provider k s = elim (skip_of (record { parse_stamp = r.parse_stamp; now = now }) k) [
    | some why ↦ record s { out = skip_key provider k why s.out }
    | none ↦
        store_key provider k (refresh_from_sidecar r now k s.world) (attempt_key s.out) s.quotas
  ]

  unfoldable pub sweep_keys : String → List DisplayProviderKey → Sweep N → Sweep N
  unfolding sweep_key
  sweep_keys provider [] s = s
  sweep_keys provider (k ∷ ks) s =
      let after = sweep_key provider k s in
      elim after.error [ some e ↦ after | none ↦ sweep_keys provider ks after ]

  -- RefreshAllKeys
  unfoldable pub refresh_all_keys : String → World N → List KeyQuotaRow → Sweep N
  unfolding list sweep_keys
  refresh_all_keys provider w quotas = elim (list provider w.keys) [
    | err e ↦ record {
      out = no_results provider;
      error = some (QuotaError.names e);
      world = w;
      quotas = quotas;
    }
    | ok ks ↦ sweep_keys provider ks (start_sweep provider w quotas)
  ]

  -- refreshProviderHTTP: with the endpoint that the selection gives.
  unfoldable pub fetch_selected :
      String → String → String → (Option ℕ → String → QuotaCache) → World N → QuotaCache × World N
  unfolding select_endpoint fetch_endpoint
  fetch_selected provider source path parse w = elim (select_endpoint r.keys now provider w.keys) [
    | err e ↦ (quota_failure provider source (times_at r.keys now) none (of_keys e), w)
    | ok (endpoint, keys) ↦
        fetch_endpoint r now provider source path endpoint.id endpoint.base_url endpoint.api_key
          parse (record w { keys = keys })
  ]

  -- grokAdminRequiredQuota
  abbrev grok_admin_required : QuotaCache
  grok_admin_required =
      unavailable provider_grok "grok2api_admin_required" (times_at r.keys now) none
        "grok2api admin key required for quota refresh"

  -- The base URL that the settings give for Grok's admin endpoint.
  abbrev admin_base_of : SettingsTables → Result SettingsError String
  admin_base_of settings =
      if get_grok_admin_base_url settings =ₜ ""
      then get_base_url provider_grok settings
      else ok (get_grok_admin_base_url settings)

  abbrev with_admin_key :
      Result SettingsError String → SettingsTables → World N → QuotaCache × World N
  with_admin_key (err e) settings w = (
    quota_failure provider_grok "grok2api_admin_required" (times_at r.keys now) none
        (of_settings e),
    w,
  )
  with_admin_key (ok admin_key) settings w =
      if admin_key =ₜ "" then (grok_admin_required, w) else elim (admin_base_of settings) [
        | err e ↦ (
          quota_failure provider_grok "grok2api_admin_tokens" (times_at r.keys now) none
              (of_settings e),
          w,
        )
        | ok base ↦ fetch_admin_tokens r now base admin_key none false w
      ]

  -- refreshGrok2API
  unfoldable pub refresh_grok :
      SettingsRepo → Bytes → SettingsTables → World N → QuotaCache × World N
  unfolding get_grok_quota_mode get_grok_admin_key get_grok_admin_base_url get_base_url
      fetch_admin_tokens
  refresh_grok settings_repo master_key settings w =
      if not (get_grok_quota_mode settings =ₜ "grok2api_admin")
      then (grok_admin_required, w)
      else with_admin_key (get_grok_admin_key settings_repo master_key settings) settings w

  -- Refresh
  unfoldable pub refresh :
      SettingsRepo
      → Bytes
      → SettingsTables
      → String
      → World N
      → Result Names.Error QuotaCache × World N
  unfolding validate_provider fetch_selected refresh_grok parse_tavily parse_firecrawl
  refresh settings_repo master_key settings provider w =
      let times = times_at r.keys now in
      if provider =ₜ provider_tavily
      then refreshed
          (fetch_selected provider_tavily "tavily_usage" "/usage" (parse_tavily r.json times) w)
      else if provider =ₜ provider_firecrawl
      then refreshed (
          fetch_selected provider_firecrawl "firecrawl_credit_usage" "/team/credit-usage"
            (parse_firecrawl r.json times) w)
      else if provider =ₜ provider_grok
      then refreshed (refresh_grok settings_repo master_key settings w)
      else (err Names.unknown_provider, w)
