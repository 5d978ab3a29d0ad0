-- ===== src/Providers/Settings.antt =====
-- internal/providers/settings.go: the settings of the service. strconv.ParseBool is written out;
-- time.LoadLocation, the host's time zone and hex are parameters.
pub mod Stored
use Prim.Native.String
use code_guda_gateway.Prelude.{
  ℕ, ◌*◌, String, Bool, true, false, not, ◌&&◌, ◌||◌, Option, none, some, List, [], ◌∷◌, ◌=ₜ◌,
  if◌then◌else◌, trim_space, parse_int, ℤ, pos, negsuc, wrap64, ltb, Result, ok, err, ◌>>=◌, ◌>>◌,
  require, or_fail, map_error,
}
use code_guda_gateway.Timestamp.{second}
use code_guda_gateway.Cooldown
use code_guda_gateway.Cooldown.{Settings, default_settings}
use code_guda_gateway.Secrets.{Bytes, Aead, encrypt, decrypt}
use code_guda_gateway.Providers.Names
use code_guda_gateway.Providers.Names.{validate_provider, default_base_url}
use code_guda_gateway.Providers.Endpoints.{Urls, normalize_base_url}

-- The tables `settings` and `provider_settings`, by key; a setting that is there is replaced.
abbrev pub Rows : Type 0
Rows = List (String × String)

pub record SettingsTables : Type 0 where
  pub settings : Rows
  pub base_urls : Rows

pub record SettingsRepo : Type 0 where
  pub urls : Urls
  pub aead : Aead
  pub encode_hex : Bytes → String
  pub decode_hex : String → Option Bytes
  pub load_location : String → Bool
  pub host_timezone : String

pub data SettingsError : Type 0 where
  names : Names.Error → SettingsError
  empty_url bad_timezone bad_mode bad_hex seal_failed : SettingsError

unfoldable pub find_setting : String → Rows → Option String
find_setting key [] = none
find_setting key (r ∷ rs) = if r.0 =ₜ key then some r.1 else find_setting key rs

unfoldable pub put_setting : String → String → Rows → Rows
put_setting key value [] = (key, value) ∷ []
put_setting key value (r ∷ rs) =
    let rest = put_setting key value rs in if r.0 =ₜ key then (key, value) ∷ rs else r ∷ rest

unfoldable pub delete_setting : String → Rows → Rows
delete_setting key [] = []
delete_setting key (r ∷ rs) =
    let rest = delete_setting key rs in if r.0 =ₜ key then rest else r ∷ rest

abbrev pub or_value : Option String → String → String
or_value none fallback = fallback
or_value (some value) fallback = value

-- getSettingString, GetSetting
unfoldable pub get_setting : String → String → SettingsTables → String
get_setting key fallback t = or_value (find_setting key t.settings) fallback

-- SetCooldownSetting
unfoldable pub set_setting : String → String → SettingsTables → SettingsTables
set_setting key value t = record t { settings = put_setting key value t.settings }

unfoldable pub get_base_url : String → SettingsTables → Result SettingsError String
get_base_url provider t = do
  map_error names (validate_provider provider)
  ok (or_value (find_setting provider t.base_urls) (default_base_url provider))

unfoldable pub set_base_url :
    SettingsRepo → String → String → SettingsTables → Result SettingsError SettingsTables
set_base_url r provider base_url t = do
  map_error names (validate_provider provider)
  require (not (base_url =ₜ "")) empty_url
  normalized ← map_error names (normalize_base_url r.urls base_url)
  ok (record t { base_urls = put_setting provider normalized t.base_urls })

abbrev pub duration_of : Option ℤ → ℤ → ℤ
duration_of none fallback = fallback
duration_of (some (pos secs)) fallback = wrap64 (secs * second)
duration_of (some (negsuc secs)) fallback = fallback

-- getSettingDuration: the product of int64 wraps.
unfoldable pub get_setting_duration : String → ℤ → SettingsTables → ℤ
get_setting_duration key fallback t =
    let val = get_setting key "" t in
    if val =ₜ "" then fallback else duration_of (parse_int val) fallback

abbrev pub count_of : Option ℤ → ℤ → ℤ
count_of none fallback = fallback
count_of (some (pos n)) fallback = if ltb 0 n then pos n else fallback
count_of (some (negsuc n)) fallback = fallback

-- getSettingInt
unfoldable pub get_setting_int : String → ℤ → SettingsTables → ℤ
get_setting_int key fallback t =
    let val = get_setting key "" t in
    if val =ₜ "" then fallback else count_of (parse_int val) fallback

unfoldable pub get_cooldown_settings : SettingsTables → Settings
unfolding get_setting_duration get_setting_int
get_cooldown_settings t = record {
  rate_limit = get_setting_duration "cooldown_rate_limit_seconds" default_settings.rate_limit t;
  transient = get_setting_duration "cooldown_transient_seconds" default_settings.transient t;
  credential = get_setting_duration "cooldown_credential_seconds" default_settings.credential t;
  max_retries = get_setting_int "max_retries" default_settings.max_retries t;
}

unfoldable pub validate_timezone : SettingsRepo → String → Bool
validate_timezone r tz = not (trim_space tz =ₜ "") && r.load_location (trim_space tz)

-- The zone, and whether it is the stored one.
unfoldable pub get_display_timezone : SettingsRepo → SettingsTables → String × String
get_display_timezone r t =
    let val = get_setting "display_timezone" "" t in
    if trim_space val =ₜ ""
    then (r.host_timezone, "host")
    else if not (validate_timezone r val)
    then (r.host_timezone, "host")
    else (trim_space val, "stored")

unfoldable pub set_display_timezone :
    SettingsRepo → String → SettingsTables → Result SettingsError SettingsTables
set_display_timezone r tz t =
    if trim_space tz =ₜ ""
    then ok (record t { settings = delete_setting "display_timezone" t.settings })
    else require (validate_timezone r (trim_space tz)) bad_timezone
      >> ok (set_setting "display_timezone" (trim_space tz) t)

unfoldable pub get_grok_quota_mode : SettingsTables → String
get_grok_quota_mode t = get_setting "grok_quota_mode" "unsupported" t

unfoldable pub set_grok_quota_mode : String → SettingsTables → Result SettingsError SettingsTables
set_grok_quota_mode mode t = do
  require (mode =ₜ "unsupported" || mode =ₜ "grok2api_admin") bad_mode
  ok (set_setting "grok_quota_mode" mode t)

unfoldable pub get_grok_admin_base_url : SettingsTables → String
get_grok_admin_base_url t = get_setting "grok2api_admin_base_url" "" t

unfoldable pub set_grok_admin_base_url : String → SettingsTables → SettingsTables
set_grok_admin_base_url url t = set_setting "grok2api_admin_base_url" url t

abbrev admin_key_setting : String
admin_key_setting = "grok2api_admin_key_encrypted"

unfoldable pub get_grok_admin_key :
    SettingsRepo → Bytes → SettingsTables → Result SettingsError String
get_grok_admin_key r master_key t =
    let val = get_setting admin_key_setting "" t in
    if val =ₜ ""
    then ok ""
    else (or_fail (r.decode_hex val) bad_hex >>= λ sealed.
        map_error (λ _. seal_failed) (decrypt r.aead master_key sealed))

unfoldable pub set_grok_admin_key :
    SettingsRepo
    → Option Bytes
    → Bytes
    → String
    → SettingsTables
    → Result SettingsError SettingsTables
set_grok_admin_key r drawn master_key key t =
    if key =ₜ ""
    then ok (set_setting admin_key_setting "" t)
    else (map_error (λ _. seal_failed) (encrypt r.aead master_key drawn key) >>= λ sealed.
        ok (set_setting admin_key_setting (r.encode_hex sealed) t))

-- strconv.ParseBool is true
abbrev is_true : String → Bool
is_true v = v =ₜ "1" || v =ₜ "t" || v =ₜ "T" || v =ₜ "TRUE" || v =ₜ "true" || v =ₜ "True"

unfoldable pub get_proxy_debug_attempts : SettingsTables → Bool
get_proxy_debug_attempts t = is_true (get_setting "proxy_debug_attempts" "false" t)

unfoldable pub set_proxy_debug_attempts : Bool → SettingsTables → SettingsTables
set_proxy_debug_attempts enabled t =
    set_setting "proxy_debug_attempts" (if enabled then "true" else "false") t
