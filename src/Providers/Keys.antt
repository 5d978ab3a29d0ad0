-- ===== src/Providers/Keys.antt =====
-- internal/providers/keys.go: creating an endpoint, replacing its URL or its key, and reading its
-- credentials. `now` is the clock at the call, a nonce is what the random source gives.
pub mod State
pub mod Quota
pub mod Selection
pub mod Credentials
pub mod Display
use Prim.Native.String.{len, slice}
use code_guda_gateway.Prelude.{
  ℕ, suc, ◌+◌, ◌≡◌, String, Bool, true, false, not, ◌&&◌, ◌||◌, Option, none, some, List, [], ◌∷◌,
  ◌++◌, ◌=ₜ◌, leb, if◌then◌else◌, Result, ok, err, ◌>>=◌, ◌>>◌, require, or_fail, map_error,
}
use code_guda_gateway.Timestamp.{Calendar, Stamp, format}
use code_guda_gateway.Secrets.{Aead, Bytes, encrypt, decrypt}
use code_guda_gateway.Providers.Names.{
  Error, secret, duplicate_name, name_and_raw_key_required, raw_key_required,
  provider_key_not_found, validate_provider,
}
use code_guda_gateway.Providers.Endpoints.{Urls, normalize_base_url}
use code_guda_gateway.Providers.Redact.{Patterns}
use code_guda_gateway.Providers.QuotaConfig.{
  EndpointQuotaInput, validate_quota_config, default_quota_config, quota_separate_credentials,
  quota_flow_grok2api_v3_admin,
}
use code_guda_gateway.Providers.KeyTable.{
  KeyRow, KeyTable, find_row, has_name, update_existing, delete_rows,
}

-- What the repository is built over: Go's calendar, AES-GCM, SHA-256 in hex, net/url and regexp,
-- and the master key.
pub record KeyRepo : Type 0 where
  pub calendar : Calendar
  pub aead : Aead
  pub sha256_hex : String → String
  pub urls : Urls
  pub patterns : Patterns
  pub master_key : Bytes

unfoldable pub key_prefix : String → String
key_prefix raw = if leb (len raw) 6 then raw else slice raw 0 6

unfoldable pub fingerprint : KeyRepo → String → String
fingerprint repo raw = slice (repo.sha256_hex raw) 0 6

abbrev pub is_v3 : String → Bool
is_v3 flow = flow =ₜ quota_flow_grok2api_v3_admin

-- quotaKeyIdentity: the prefix and the fingerprint that may be shown.
unfoldable pub quota_key_identity : KeyRepo → String → String → Option String × Option String
unfolding key_prefix fingerprint
quota_key_identity repo flow raw =
    if is_v3 flow then (none, none) else (some (key_prefix raw), some (fingerprint repo raw))

abbrev pub seal : KeyRepo → Option Bytes → String → Result Error Bytes
seal repo nonce raw = map_error secret (encrypt repo.aead repo.master_key nonce raw)

abbrev pub unseal : KeyRepo → Bytes → Result Error String
unseal repo sealed = map_error secret (decrypt repo.aead repo.master_key sealed)

-- The quota columns of a new row.
pub record QuotaColumns : Type 0 where
  pub base_url : Option String
  pub sealed_key : Option Bytes
  pub prefix : Option String
  pub fingerprint : Option String

unfoldable pub quota_columns :
    KeyRepo → Option Bytes → EndpointQuotaInput → Result Error QuotaColumns
unfolding quota_key_identity
quota_columns repo nonce q =
    if q.mode =ₜ quota_separate_credentials
    then (seal repo nonce q.raw_key >>= λ sealed. ok (record {
      base_url = some q.base_url;
      sealed_key = some sealed;
      prefix = (quota_key_identity repo q.flow q.raw_key).0;
      fingerprint = (quota_key_identity repo q.flow q.raw_key).1;
    }))
    else ok (record { base_url = none; sealed_key = none; prefix = none; fingerprint = none })

abbrev pub new_row :
    KeyRepo
    → Stamp
    → ℕ
    → String
    → String
    → String
    → String
    → Bytes
    → EndpointQuotaInput
    → QuotaColumns
    → KeyRow
new_row repo now id provider name base_url raw sealed q columns = record {
  id = id;
  provider = provider;
  name = name;
  base_url = base_url;
  encrypted_key = sealed;
  key_prefix = key_prefix raw;
  fingerprint = fingerprint repo raw;
  enabled = true;
  cooldown_until = none;
  cooldown_reason = none;
  last_failed_at = none;
  last_used_at = none;
  last_success_at = none;
  last_error_at = none;
  last_error_status = none;
  last_error_message_redacted = none;
  archived_at = none;
  last_event_at = none;
  last_event_source = none;
  last_event_status_class = none;
  last_event_http_status = none;
  last_event_message_redacted = none;
  consecutive_failures = 0;
  total_failures = 0;
  created_at = now;
  updated_at = now;
  quota_mode = q.mode;
  quota_flow = q.flow;
  quota_base_url = columns.base_url;
  encrypted_quota_key = columns.sealed_key;
  quota_key_prefix = columns.prefix;
  quota_key_fingerprint = columns.fingerprint;
}

abbrev pub insert : KeyTable → KeyRow → KeyTable
insert t r = record { rows = t.rows ++ r ∷ []; next_id = suc t.next_id }

module _ (repo : KeyRepo) (now : ℕ) where
  -- AddEndpointWithQuota: the id of the new row, and the table with it.
  unfoldable pub add_endpoint_with_quota :
      Option Bytes
      → Option Bytes
      → String
      → String
      → String
      → String
      → EndpointQuotaInput
      → KeyTable
      → Result Error (ℕ × KeyTable)
  add_endpoint_with_quota nonce quota_nonce provider name base_url raw quota t = do
    validate_provider provider
    require (not (name =ₜ "" || raw =ₜ "")) name_and_raw_key_required
    normalized ← normalize_base_url repo.urls base_url
    q ← validate_quota_config repo.urls provider quota true
    require (not (has_name provider name t.rows)) duplicate_name
    sealed ← seal repo nonce raw
    columns ← quota_columns repo quota_nonce q
    ok (
      t.next_id,
      insert t (
          new_row repo (format repo.calendar now) t.next_id provider name normalized raw sealed q
            columns),
    )

  -- AddEndpoint: with the provider's default quota configuration.
  unfoldable pub add_endpoint :
      Option Bytes
      → Option Bytes
      → String
      → String
      → String
      → String
      → KeyTable
      → Result Error (ℕ × KeyTable)
  unfolding add_endpoint_with_quota
  add_endpoint nonce quota_nonce provider name base_url raw t = do
    (mode, flow) ← default_quota_config provider
    add_endpoint_with_quota nonce quota_nonce provider name base_url raw
        (record { mode = mode; flow = flow; base_url = ""; raw_key = "" }) t

  -- The columns that a changed URL or key resets: the endpoint may be selected again at once.
  abbrev pub back_in_pack : KeyRow → KeyRow
  back_in_pack r = record r {
    cooldown_until = none;
    cooldown_reason = none;
    last_failed_at = none;
    updated_at = format repo.calendar now;
  }

  unfoldable pub update_base_url : ℕ → String → KeyTable → Result Error KeyTable
  update_base_url i base_url t = do
    normalized ← normalize_base_url repo.urls base_url
    update_existing i (λ r. record (back_in_pack r) { base_url = normalized }) t

  unfoldable pub rotate_key : Option Bytes → ℕ → String → KeyTable → Result Error KeyTable
  rotate_key nonce i raw t = do
    require (not (raw =ₜ "")) raw_key_required
    sealed ← seal repo nonce raw
    update_existing i
        (λ r. record (back_in_pack r) {
          encrypted_key = sealed;
          key_prefix = key_prefix raw;
          fingerprint = fingerprint repo raw;
        })
        t

-- Delete reports no missing row.
unfoldable pub delete : ℕ → KeyTable → KeyTable
unfolding delete_rows
delete i t = record t { rows = delete_rows i t.rows }

pub record SelectedEndpoint : Type 0 where
  pub id : ℕ
  pub provider : String
  pub name : String
  pub base_url : String
  pub api_key : String

abbrev pub endpoint_of : KeyRow → String → SelectedEndpoint
endpoint_of r plain = record {
  id = r.id;
  provider = r.provider;
  name = r.name;
  base_url = r.base_url;
  api_key = plain;
}

-- RawEndpoint, and RawKey, its key: they change nothing.
unfoldable pub raw_endpoint : KeyRepo → ℕ → KeyTable → Result Error SelectedEndpoint
raw_endpoint repo i t = do
  r ← or_fail (find_row i t.rows) provider_key_not_found
  plain ← unseal repo r.encrypted_key
  ok (endpoint_of r plain)
