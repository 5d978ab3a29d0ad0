-- ===== src/Providers/Keys/Quota.antt =====
-- internal/providers/keys.go: the quota columns of an endpoint, and the credentials that a quota
-- refresh uses.
pub mod Consistency
pub mod Resolve
use code_guda_gateway.Prelude.{
  ℕ, ◌≡◌, String, Bool, true, false, not, ◌&&◌, ◌||◌, Option, none, some, ◌==◌, ◌=ₜ◌, if◌then◌else◌,
  List, [], ◌∷◌, Result, ok, err, ◌>>=◌, ◌>>◌, require, or_fail, trim_space,
}
use code_guda_gateway.Timestamp.{format}
use code_guda_gateway.Secrets.{Bytes}
use code_guda_gateway.Providers.Names.{
  Error, provider_key_not_found, invalid_quota_config, quota_disabled, quota_not_configured,
  raw_key_required,
}
use code_guda_gateway.Providers.QuotaConfig.{
  EndpointQuotaInput, validate_quota_config, quota_disabled_mode, quota_endpoint_credentials,
  quota_separate_credentials,
}
use code_guda_gateway.Providers.KeyTable.{KeyRow, KeyTable, find_row, update_existing}
use code_guda_gateway.Providers.Keys.{KeyRepo, is_v3, quota_key_identity, seal, unseal}

-- The two UPDATE statements of UpdateEndpointQuota, on a row.
abbrev pub without_credentials : KeyRepo → ℕ → EndpointQuotaInput → KeyRow → KeyRow
without_credentials repo now q r = record r {
  quota_mode = q.mode;
  quota_flow = q.flow;
  quota_base_url = none;
  encrypted_quota_key = none;
  quota_key_prefix = none;
  quota_key_fingerprint = none;
  updated_at = format repo.calendar now;
}

-- A stored key goes with a changed flow; its identity also where the flow shows none.
abbrev pub keep_unless {ℓ} : {A : Type ℓ} → Bool → Option A → Option A
keep_unless clear old = if clear then none else old

abbrev pub with_credentials : KeyRepo → ℕ → EndpointQuotaInput → String → KeyRow → KeyRow
with_credentials repo now q current_flow r =
    let clear_credential = not (current_flow =ₜ q.flow) in
    let clear_identity = clear_credential || is_v3 q.flow in
    record r {
      quota_mode = q.mode;
      quota_flow = q.flow;
      quota_base_url = some q.base_url;
      encrypted_quota_key = keep_unless clear_credential r.encrypted_quota_key;
      quota_key_prefix = keep_unless clear_identity r.quota_key_prefix;
      quota_key_fingerprint = keep_unless clear_identity r.quota_key_fingerprint;
      updated_at = format repo.calendar now;
    }

abbrev pub quota_change : KeyRepo → ℕ → EndpointQuotaInput → String → KeyRow → KeyRow
quota_change repo now q current_flow r =
    if q.mode =ₜ quota_separate_credentials
    then with_credentials repo now q current_flow r
    else without_credentials repo now q r

-- UpdateEndpointQuota: a raw key is never accepted.
unfoldable pub update_endpoint_quota :
    KeyRepo → ℕ → ℕ → EndpointQuotaInput → KeyTable → Result Error KeyTable
update_endpoint_quota repo now i input t = do
  r ← or_fail (find_row i t.rows) provider_key_not_found
  q ← validate_quota_config repo.urls r.provider (record input { raw_key = "" }) false
  update_existing i (quota_change repo now q r.quota_flow) t

unfoldable pub rotate_endpoint_quota_key :
    KeyRepo → ℕ → Option Bytes → ℕ → String → KeyTable → Result Error KeyTable
rotate_endpoint_quota_key repo now nonce i raw t = do
  require (not (trim_space raw =ₜ "")) raw_key_required
  r ← or_fail (find_row i t.rows) provider_key_not_found
  require (r.quota_mode =ₜ quota_separate_credentials) invalid_quota_config
  sealed ← seal repo nonce (trim_space raw)
  update_existing i
      (λ x. record x {
        encrypted_quota_key = some sealed;
        quota_key_prefix = (quota_key_identity repo r.quota_flow (trim_space raw)).0;
        quota_key_fingerprint = (quota_key_identity repo r.quota_flow (trim_space raw)).1;
        updated_at = format repo.calendar now;
      })
      t

pub record ResolvedEndpointQuota : Type 0 where
  pub endpoint_id : ℕ
  pub provider : String
  pub mode : String
  pub flow : String
  pub base_url : String
  pub api_key : String

abbrev pub resolved : KeyRow → String → String → ResolvedEndpointQuota
resolved r base_url plain = record {
  endpoint_id = r.id;
  provider = r.provider;
  mode = r.quota_mode;
  flow = r.quota_flow;
  base_url = base_url;
  api_key = plain;
}

-- `len(encQuota) == 0`: NULL, or no bytes.
abbrev pub quota_key_of : Option Bytes → Option Bytes
quota_key_of none = none
quota_key_of (some []) = none
quota_key_of (some (b ∷ bytes)) = some (b ∷ bytes)

abbrev pub quota_url_of : Option String → Option String
quota_url_of none = none
quota_url_of (some url) = if url =ₜ "" then none else some url

abbrev pub resolve_separate : KeyRepo → KeyRow → Result Error ResolvedEndpointQuota
resolve_separate repo r = do
  sealed ← or_fail (quota_key_of r.encrypted_quota_key) quota_not_configured
  url ← or_fail (quota_url_of r.quota_base_url) quota_not_configured
  plain ← unseal repo sealed
  ok (resolved r url plain)

abbrev pub resolve_row : KeyRepo → KeyRow → Result Error ResolvedEndpointQuota
resolve_row repo r =
    if r.quota_mode =ₜ quota_disabled_mode
    then err quota_disabled
    else if r.quota_mode =ₜ quota_endpoint_credentials
    then (unseal repo r.encrypted_key >>= λ plain. ok (resolved r r.base_url plain))
    else if r.quota_mode =ₜ quota_separate_credentials
    then resolve_separate repo r
    else err invalid_quota_config

unfoldable pub resolve_endpoint_quota : KeyRepo → ℕ → KeyTable → Result Error ResolvedEndpointQuota
resolve_endpoint_quota repo i t = do
  r ← or_fail (find_row i t.rows) provider_key_not_found
  resolve_row repo r
