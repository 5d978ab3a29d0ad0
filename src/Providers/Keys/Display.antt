-- ===== src/Providers/Keys/Display.antt =====
-- internal/providers/keys.go: the public view of an endpoint, which has neither key nor ciphertext,
-- and the listings that give it.
use code_guda_gateway.Prelude.{
  ℕ, ◌≡◌, ◌≢◌, ◌↔◌, Any, eq_iff, Bool-cases, String, Bool, Option, none, List, [], ◌∷◌, ◌=ₜ◌,
  is_some, if◌then◌else◌, Result, ok, ◌>>=◌, ◌>>◌, or_fail, map_error, arith, In, inl, inr, ◌++◌,
}
use code_guda_gateway.Timestamp.{Stamp}
use code_guda_gateway.Providers.Names.{
  Error, provider_key_not_found, validate_provider, provider_grok, provider_tavily,
  provider_firecrawl,
}
use code_guda_gateway.Providers.KeyTable.{KeyRow, KeyTable, find_row}
use code_guda_gateway.Providers.Keys.{KeyRepo, raw_endpoint, add_endpoint}
use code_guda_gateway.Secrets.{Bytes}
use code_guda_gateway.Providers.Settings.{SettingsTables, SettingsError, get_base_url}
use code_guda_gateway.Providers.Keys.Quota.{quota_key_of}
use code_guda_gateway.Providers.Keys.Selection.{select_endpoint}

pub record DisplayProviderKey : Type 0 where
  pub id : ℕ
  pub provider : String
  pub name : String
  pub base_url : String
  pub key_prefix : String
  pub fingerprint : String
  pub enabled : Bool
  pub cooldown_until : Option Stamp
  pub cooldown_reason : Option String
  pub last_failed_at : Option Stamp
  pub last_used_at : Option Stamp
  pub last_success_at : Option Stamp
  pub last_error_at : Option Stamp
  pub last_error_status : Option ℕ
  pub last_error_message_redacted : Option String
  pub archived_at : Option Stamp
  pub last_event_at : Option Stamp
  pub last_event_source : Option String
  pub last_event_status_class : Option String
  pub last_event_http_status : Option ℕ
  pub last_event_message_redacted : Option String
  pub consecutive_failures : ℕ
  pub total_failures : ℕ
  pub created_at : Stamp
  pub updated_at : Stamp
  pub quota_mode : String
  pub quota_flow : String
  pub quota_base_url : Option String
  pub quota_key_prefix : Option String
  pub quota_key_fingerprint : Option String
  pub quota_key_configured : Bool

unfoldable pub scan_display_key : KeyRow → DisplayProviderKey
scan_display_key r = record {
  id = r.id;
  provider = r.provider;
  name = r.name;
  base_url = r.base_url;
  key_prefix = r.key_prefix;
  fingerprint = r.fingerprint;
  enabled = r.enabled;
  cooldown_until = r.cooldown_until;
  cooldown_reason = r.cooldown_reason;
  last_failed_at = r.last_failed_at;
  last_used_at = r.last_used_at;
  last_success_at = r.last_success_at;
  last_error_at = r.last_error_at;
  last_error_status = r.last_error_status;
  last_error_message_redacted = r.last_error_message_redacted;
  archived_at = r.archived_at;
  last_event_at = r.last_event_at;
  last_event_source = r.last_event_source;
  last_event_status_class = r.last_event_status_class;
  last_event_http_status = r.last_event_http_status;
  last_event_message_redacted = r.last_event_message_redacted;
  consecutive_failures = r.consecutive_failures;
  total_failures = r.total_failures;
  created_at = r.created_at;
  updated_at = r.updated_at;
  quota_mode = r.quota_mode;
  quota_flow = r.quota_flow;
  quota_base_url = r.quota_base_url;
  quota_key_prefix = r.quota_key_prefix;
  quota_key_fingerprint = r.quota_key_fingerprint;
  quota_key_configured = is_some (quota_key_of r.encrypted_quota_key);
}

-- SELECT … WHERE provider = ? ORDER BY id
unfoldable pub list_rows : String → List KeyRow → List DisplayProviderKey
unfolding scan_display_key
list_rows provider [] = []
list_rows provider (r ∷ rs) =
    let rest = list_rows provider rs in
    if r.provider =ₜ provider then scan_display_key r ∷ rest else rest

unfoldable pub list : String → KeyTable → Result Error (List DisplayProviderKey)
unfolding list_rows
list provider t = do validate_provider provider; ok (list_rows provider t.rows)

unfoldable pub get : ℕ → KeyTable → Result Error DisplayProviderKey
unfolding scan_display_key
get i t = do r ← or_fail (find_row i t.rows) provider_key_not_found; ok (scan_display_key r)

-- SelectKey
unfoldable pub select_key : KeyRepo → ℕ → String → KeyTable → Result Error (ℕ × String × KeyTable)
unfolding select_endpoint
select_key repo now provider t = do
  (endpoint, after) ← select_endpoint repo now provider t
  ok (endpoint.id, endpoint.api_key, after)

unfoldable pub raw_key : KeyRepo → ℕ → KeyTable → Result Error String
unfolding raw_endpoint
raw_key repo i t = do endpoint ← raw_endpoint repo i t; ok endpoint.api_key

abbrev list_each : List String → KeyTable → Result Error (List DisplayProviderKey)
list_each [] t = ok []
list_each (p ∷ ps) t = do keys ← list p t; rest ← list_each ps t; ok (keys ++ rest)

-- ListAll
unfoldable pub list_all : KeyTable → Result Error (List DisplayProviderKey)
unfolding list
list_all = list_each (provider_grok ∷ provider_tavily ∷ provider_firecrawl ∷ [])

-- Add: an endpoint at the provider's base URL of the settings.
unfoldable pub add :
    KeyRepo
    → ℕ
    → Option Bytes
    → String
    → String
    → String
    → SettingsTables
    → KeyTable
    → Result SettingsError (ℕ × KeyTable)
unfolding add_endpoint get_base_url
add repo now drawn provider name raw settings t = do
  base_url ← get_base_url provider settings
  map_error SettingsError.names (add_endpoint repo now drawn none provider name base_url raw t)

-- A listing has exactly the rows of the provider, each as its public view.
pub list_rows_iff :
    (provider : String) (rs : List KeyRow) (d : DisplayProviderKey)
    → In d (list_rows provider rs)
      ↔ Any (λ r. (r.provider ≡ provider) × (scan_display_key r ≡ d)) rs
unfolding list_rows
list_rows_iff provider [] d = (λ m. m, λ m. m)
list_rows_iff provider (r ∷ rs) d = elim (Bool-cases (r.provider =ₜ provider)) [
  | inl e ↦
      let same : r.provider ≡ provider = (eq_iff r.provider provider).0 e in
      let ih = list_rows_iff provider rs d in
      rw e (
        λ m. elim m [ inl here ↦ inl (same, here) | inr there ↦ inr (ih.0 there) ],
        λ m. elim m [ inl here ↦ inl here.1 | inr there ↦ inr (ih.1 there) ],
      )
  | inr e ↦
      let other : r.provider ≢ provider = λ s. ground (arith, eq_iff r.provider provider) in
      let ih = list_rows_iff provider rs d in
      rw e (
        λ m. inr (ih.0 m),
        λ m. elim m [ inl here ↦ absurd (other here.0) | inr there ↦ ih.1 there ],
      )
]
