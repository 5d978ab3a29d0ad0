-- ===== src/Providers/Health.antt =====
-- internal/providers/health.go: the health of each provider. Stored times are compared as texts.
pub mod Status
use Prim.Native.String
use Prim.Native.String.{String}
use code_guda_gateway.Prelude.{
  ℕ, suc, ◌+◌, Bool, true, false, not, ◌&&◌, Option, none, some, List, [], ◌∷◌, ◌++◌, ◌==◌, ◌=ₜ◌,
  ltb, if◌then◌else◌, length, is_some, decimal, Result, ok, err, ◌>>=◌, map_error,
}
use code_guda_gateway.Timestamp.{Stamp, lt_bytes}
use code_guda_gateway.Providers.Names.{provider_grok, provider_tavily, provider_firecrawl}
use code_guda_gateway.Providers.KeyTable.{KeyTable}
use code_guda_gateway.Providers.Keys.Display.{DisplayProviderKey, list}
use code_guda_gateway.Providers.Settings.{SettingsTables, SettingsError, get_base_url}
use code_guda_gateway.Providers.Pool.{PoolClock}

pub data HealthStatus : Type 0 where
  healthy missing_key disabled cooldown unused degraded : HealthStatus

pub record HealthItem : Type 0 where
  pub provider : String
  pub base_url : String
  pub key_count : ℕ
  pub enabled_key_count : ℕ
  pub cooldown_key_count : ℕ
  pub distinct_base_urls : ℕ
  pub status : HealthStatus
  pub reasons : List String
  pub last_used_at : Option Stamp
  pub last_success_at : Option Stamp
  pub last_event_at : Option Stamp
  pub last_event_source : Option String
  pub last_event_status_class : Option String
  pub last_event_http_status : Option ℕ
  pub last_event_message_redacted : Option String

abbrev pub later_string : Option Stamp → Option Stamp → Option Stamp
later_string none b = b
later_string (some a) none = some a
later_string (some a) (some b) = if lt_bytes a b then some b else some a

-- Whether `laterString(a, b)` is the pointer `b`.
abbrev is_latest : Option Stamp → Option Stamp → Bool
is_latest none b = true
is_latest (some a) none = false
is_latest (some a) (some b) = lt_bytes a b

unfoldable pub apply_latest_key_event : DisplayProviderKey → HealthItem → HealthItem
apply_latest_key_event k item =
    if is_latest item.last_event_at k.last_event_at
    then record item {
      last_event_at = k.last_event_at;
      last_event_source = k.last_event_source;
      last_event_status_class = k.last_event_status_class;
      last_event_http_status = k.last_event_http_status;
      last_event_message_redacted = k.last_event_message_redacted;
    }
    else item

-- A set of texts, each once.
unfoldable pub add_text : String → List String → List String
add_text s [] = s ∷ []
add_text s (t ∷ ts) = let rest = add_text s ts in if t =ₜ s then t ∷ ts else t ∷ rest

abbrev add_url : Bool → String → List String → List String
add_url false url urls = urls
add_url true url urls = if url =ₜ "" then urls else add_text url urls

-- A cooldown that time.Parse reads and that has not ended.
abbrev pub still_cooling : PoolClock → Option Stamp → Bool
still_cooling clock none = false
still_cooling clock (some until) = elim (clock.parse_stamp until) [
  | none ↦ false
  | some t ↦ ltb clock.now t
]

abbrev one_if : Bool → ℕ
one_if true = 1
one_if false = 0

pub record Survey : Type 0 where
  pub item : HealthItem
  pub distinct : List String
  pub enabled_distinct : List String

abbrev counted : PoolClock → DisplayProviderKey → HealthItem → HealthItem
counted clock k item = record item {
  key_count = suc item.key_count;
  enabled_key_count = item.enabled_key_count + one_if k.enabled;
  cooldown_key_count = item.cooldown_key_count + one_if (still_cooling clock k.cooldown_until);
  last_used_at = later_string item.last_used_at k.last_used_at;
  last_success_at = later_string item.last_success_at k.last_success_at;
}

-- One round of the loop over a provider's endpoints.
unfoldable pub survey_key : PoolClock → DisplayProviderKey → Survey → Survey
unfolding apply_latest_key_event
survey_key clock k s = if is_some k.archived_at then s else record {
  item = apply_latest_key_event k (counted clock k s.item);
  distinct = add_url true k.base_url s.distinct;
  enabled_distinct = add_url k.enabled k.base_url s.enabled_distinct;
}

unfoldable pub survey_keys : PoolClock → List DisplayProviderKey → Survey → Survey
unfolding survey_key
survey_keys clock [] s = s
survey_keys clock (k ∷ ks) s = survey_keys clock ks (survey_key clock k s)

-- The first of the counts that is not 0.
abbrev label_count : ℕ → ℕ → ℕ → ℕ
label_count enabled keys urls =
    let n = if enabled == 0 then keys else enabled in if n == 0 then urls else n

unfoldable pub health_base_url_label : List String → String → ℕ → ℕ → String
health_base_url_label [] fallback enabled keys = fallback
health_base_url_label (u ∷ []) fallback enabled keys = u
health_base_url_label (u ∷ v ∷ us) fallback enabled keys =
    String.◌++◌ "mixed ("
      (String.◌++◌ (decimal (label_count enabled keys (length (u ∷ v ∷ us)))) " endpoints)")

abbrev given_text : String → Option String → String → String
given_text before none reason = reason
given_text before (some s) reason =
    if s =ₜ "" then reason else String.◌++◌ reason (String.◌++◌ before s)

abbrev given_status : Option ℕ → String → String
given_status none reason = reason
given_status (some n) reason = String.◌++◌ reason (String.◌++◌ " http " (decimal n))

unfoldable pub degraded_event_reason : HealthItem → String
degraded_event_reason item = given_text " - " item.last_event_message_redacted (
    given_status item.last_event_http_status
      (given_text ": " item.last_event_source "latest provider event failed"))

abbrev latest_event_failed : Option String → Bool
latest_event_failed none = false
latest_event_failed (some status_class) = not (status_class =ₜ "2xx")

-- The `switch`: the status and the reasons.
unfoldable pub health_status : HealthItem → HealthStatus × List String
unfolding degraded_event_reason
health_status item =
    if item.key_count == 0
    then (HealthStatus.missing_key, "no provider keys" ∷ [])
    else if item.enabled_key_count == 0
    then (HealthStatus.disabled, "no enabled provider keys" ∷ [])
    else if item.enabled_key_count == item.cooldown_key_count
    then (HealthStatus.cooldown, "enabled keys are cooling down" ∷ [])
    else if latest_event_failed item.last_event_status_class
    then (HealthStatus.degraded, degraded_event_reason item ∷ [])
    else if not (is_some item.last_used_at) && not (is_some item.last_success_at)
    then (HealthStatus.unused, "no recent usage" ∷ [])
    else (HealthStatus.healthy, [])

abbrev pub start_survey : String → Survey
start_survey provider = record {
  item = record {
    provider = provider;
    base_url = "";
    key_count = 0;
    enabled_key_count = 0;
    cooldown_key_count = 0;
    distinct_base_urls = 0;
    status = HealthStatus.healthy;
    reasons = [];
    last_used_at = none;
    last_success_at = none;
    last_event_at = none;
    last_event_source = none;
    last_event_status_class = none;
    last_event_http_status = none;
    last_event_message_redacted = none;
  };
  distinct = [];
  enabled_distinct = [];
}

abbrev display_set : Survey → List String
display_set s = elim s.enabled_distinct [ [] ↦ s.distinct | u ∷ us ↦ u ∷ us ]

-- What follows the loop.
unfoldable pub finish_item : String → Survey → HealthItem
unfolding health_base_url_label health_status
finish_item settings_base_url s = record s.item {
  distinct_base_urls = length (display_set s);
  base_url =
      health_base_url_label (display_set s) settings_base_url s.item.enabled_key_count
        s.item.key_count;
  status = (health_status s.item).0;
  reasons = (health_status s.item).1;
}

unfoldable pub health_of :
    PoolClock → String → SettingsTables → KeyTable → Result SettingsError HealthItem
unfolding get_base_url list survey_keys finish_item
health_of clock provider settings keys = do
  base_url ← get_base_url provider settings
  ks ← map_error SettingsError.names (list provider keys)
  ok (finish_item base_url (survey_keys clock ks (start_survey provider)))

unfoldable pub build_health :
    PoolClock → SettingsTables → KeyTable → Result SettingsError (List HealthItem)
unfolding health_of
build_health clock settings keys = do
  grok ← health_of clock provider_grok settings keys
  tavily ← health_of clock provider_tavily settings keys
  firecrawl ← health_of clock provider_firecrawl settings keys
  ok (grok ∷ tavily ∷ firecrawl ∷ [])
