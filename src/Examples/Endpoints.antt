-- ===== src/Examples/Endpoints.antt =====
-- Runs of the endpoint table: two endpoints of one provider, one of them failed before.
use code_guda_gateway.Prelude.{
  ℕ, ◌≡◌, ◌≢◌, ◌↔◌, refl, true, false, Option, none, some, [], ◌∷◌, arith, In, All, trim_space, ok,
  err,
}
use code_guda_gateway.Timestamp.{Stamp, format, fraction, fraction_digits, lt_bytes}
use code_guda_gateway.Secrets.{decrypt}
use code_guda_gateway.Providers.Names.{validate_provider, no_enabled_key}
use code_guda_gateway.Providers.QuotaConfig.{
  EndpointQuotaInput, validate_quota_config, validate_mode, validate_flow_for_provider, flow_policy,
  shared_credentials, quota_disabled_mode, quota_endpoint_credentials, quota_flow_grok2api_admin,
}
use code_guda_gateway.Providers.KeyTable.{
  KeyRow, KeyTable, update, update_rows, update_existing, find_row,
}
use code_guda_gateway.Providers.Keys.{SelectedEndpoint, endpoint_of}
use code_guda_gateway.Providers.Keys.State.{mark_failure_with_cooldown}
use code_guda_gateway.Providers.Keys.Selection.{
  is_eligible, precedes, select_row, used, select_endpoint,
}
use code_guda_gateway.Providers.Keys.Selection.Endpoint.{
  Selected, select_endpoint-Selected, select_endpoint-none,
}
use code_guda_gateway.Providers.Keys.Selection.Cooling.{mark_failure_cools}
use code_guda_gateway.Providers.Keys.Quota.{
  ResolvedEndpointQuota, resolve_endpoint_quota, update_endpoint_quota,
}
use code_guda_gateway.Providers.Keys.Quota.Resolve.{ComesFrom, resolve_endpoint_quota-ComesFrom}
use code_guda_gateway.Providers.Keys.Quota.Consistency.{QuotaFits, update_endpoint_quota-QuotaFits}
use code_guda_gateway.Examples.World.{repo, urls, decode}

abbrev pub row : ℕ → Option Stamp → KeyRow
row i failed_at = record {
  id = i;
  provider = "grok";
  name = "a";
  base_url = "https://h";
  encrypted_key = 1 ∷ 2 ∷ 3 ∷ 4 ∷ 5 ∷ 6 ∷ 7 ∷ 8 ∷ 9 ∷ 10 ∷ 11 ∷ 12 ∷ 107 ∷ [];
  key_prefix = "k";
  fingerprint = "k";
  enabled = true;
  cooldown_until = none;
  cooldown_reason = none;
  last_failed_at = failed_at;
  last_used_at = none;
  last_success_at = none;
  last_error_at = none;
  last_error_status = none;
  last_error_message_redacted = none;
  archived_at = none;
  last_event_at = none;
  last_event_source = none;
  last_event_status_class = none;
  last_event_http_status = none;
  last_event_message_redacted = none;
  consecutive_failures = 0;
  total_failures = 0;
  created_at = 0 ∷ [];
  updated_at = 0 ∷ [];
  quota_mode = quota_endpoint_credentials;
  quota_flow = quota_flow_grok2api_admin;
  quota_base_url = none;
  encrypted_quota_key = none;
  quota_key_prefix = none;
  quota_key_fingerprint = none;
}

abbrev pub table : KeyTable
table = record { rows = row 1 (some (0 ∷ [])) ∷ row 2 none ∷ []; next_id = 3 }

abbrev now : ℕ
now = 5000000000

abbrev chosen : SelectedEndpoint
chosen = endpoint_of (row 2 none) "k"

abbrev after : KeyTable
after = update 2 (used (format repo.calendar now)) table

selects_second : select_endpoint repo now "grok" table ≡ ok (chosen, after)
unfolding select_endpoint validate_provider select_row is_eligible precedes format fraction
    fraction_digits decrypt decode lt_bytes
selects_second = refl

select_endpoint-Selected_example : Selected repo now "grok" table chosen after
select_endpoint-Selected_example = select_endpoint-Selected repo now "grok" table selects_second

abbrev failed_table : KeyTable
failed_table =
    mark_failure_with_cooldown repo now 1 429 "slow" (some 65000000000) (some "rate_limited") table

selects_other :
    select_endpoint repo now "grok" failed_table
    ≡ ok (chosen, update 2 (used (format repo.calendar now)) failed_table)
unfolding mark_failure_with_cooldown update update_rows select_endpoint validate_provider select_row
    is_eligible precedes format fraction fraction_digits decrypt decode lt_bytes
selects_other = refl

mark_failure_cools_example : chosen.id ≢ 1
mark_failure_cools_example =
    mark_failure_cools repo 1 now 429 now 65000000000 "slow" "grok" (some "rate_limited") table
      (update 2 (used (format repo.calendar now)) failed_table) chosen (omega arith) selects_other

known : validate_provider "grok" ≡ ok tt
unfolding validate_provider
known = refl

select_endpoint-none_example :
    select_endpoint repo now "grok" table ≡ err no_enabled_key
    ↔ ((s : KeyRow) → In s table.rows → is_eligible "grok" (format repo.calendar now) s ≡ false)
select_endpoint-none_example = select_endpoint-none repo now "grok" table known

abbrev resolved_first : ResolvedEndpointQuota
resolved_first = record {
  endpoint_id = 1;
  provider = "grok";
  mode = quota_endpoint_credentials;
  flow = quota_flow_grok2api_admin;
  base_url = "https://h";
  api_key = "k";
}

resolves : resolve_endpoint_quota repo 1 table ≡ ok resolved_first
unfolding resolve_endpoint_quota find_row decrypt decode
resolves = refl

resolve_endpoint_quota-ComesFrom_example :
    (r : KeyRow) × (find_row 1 table.rows ≡ some r) × ComesFrom repo r resolved_first
resolve_endpoint_quota-ComesFrom_example =
    resolve_endpoint_quota-ComesFrom repo 1 table resolved_first resolves

abbrev disabled_quota : EndpointQuotaInput
disabled_quota = record {
  mode = " disabled ";
  flow = quota_flow_grok2api_admin;
  base_url = "";
  raw_key = "";
}

abbrev accepted_quota : EndpointQuotaInput
accepted_quota = record disabled_quota { mode = quota_disabled_mode }

accepted : validate_quota_config urls "grok" disabled_quota true ≡ ok accepted_quota
unfolding validate_quota_config validate_provider validate_mode validate_flow_for_provider
    flow_policy shared_credentials trim_space
accepted = refl

fits : (i : ℕ) (failed_at : Option Stamp) → QuotaFits (row i failed_at)
fits i failed_at = record {
  no_url = λ _. refl;
  no_key = λ _. refl;
  no_prefix = λ _. refl;
  no_fingerprint = λ _. refl;
}

abbrev unmetered : KeyRow
unmetered = record (row 1 (some (0 ∷ []))) {
  quota_mode = quota_disabled_mode;
  updated_at = format repo.calendar now;
}

abbrev unmetered_table : KeyTable
unmetered_table = record { rows = unmetered ∷ row 2 none ∷ []; next_id = 3 }

disables_quota : update_endpoint_quota repo now 1 disabled_quota table ≡ ok unmetered_table
unfolding update_endpoint_quota update_existing update update_rows find_row validate_quota_config
    validate_provider validate_mode validate_flow_for_provider flow_policy shared_credentials
    trim_space
disables_quota = refl

update_endpoint_quota-QuotaFits_example : All QuotaFits unmetered_table.rows
update_endpoint_quota-QuotaFits_example =
    update_endpoint_quota-QuotaFits repo now 1 disabled_quota table unmetered_table disables_quota
      (fits 1 (some (0 ∷ [])), (fits 2 none, tt))
