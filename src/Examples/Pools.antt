-- ===== src/Examples/Pools.antt =====
-- Runs of the quota snapshots, the pools, the health of providers and the audit log.
use mathlib.Core.Option
use code_guda_gateway.Timestamp.{format}
use code_guda_gateway.Providers.Redact.{redact}
use code_guda_gateway.Prelude.{
  ◌>>=◌, Result, ◌≡◌, refl, true, false, Option, none, some, List, [], ◌∷◌, pos, ok, trim_space,
  add_int64,
}
use code_guda_gateway.Providers.Names.{validate_provider, clamp_limit_offset}
use code_guda_gateway.Providers.Keys.Display.{DisplayProviderKey, scan_display_key}
use code_guda_gateway.Providers.QuotaTables.{
  QuotaError, Details, DetailsJson, ProviderKeyQuota, KeyQuotaRow, quota_row, upsert_key_quota,
  get_key_quota, list_by_provider,
}
use code_guda_gateway.Providers.QuotaTables.Stored.{IsReadBack, get-upsert_key_quota}
use code_guda_gateway.Providers.Pool.{
  cooldown_active, remaining_basis, PoolClock, PoolListOptions, ProviderPool, PoolKeyStatus,
  provider_pool,
}
use code_guda_gateway.Providers.Pool.Counts.{HasCounts, provider_pool-HasCounts}
use code_guda_gateway.Providers.Health.{HealthStatus, finish_item, survey_keys, start_survey}
use code_guda_gateway.Providers.Health.Status.{
  IsHealthOf, finish_item-IsHealthOf, cooldown_of_disabled,
}
use code_guda_gateway.Audit.{AuditEvent, AuditRepo, AuditTable}
use code_guda_gateway.Examples.World.{repo, patterns}
use code_guda_gateway.Examples.Endpoints.{row, table}

abbrev json : DetailsJson
json = record { marshal = λ ds. some "{}"; unmarshal = λ s. some [] }

abbrev snapshot : ProviderKeyQuota
snapshot = record {
  provider_key_id = 1;
  provider = "grok";
  source = "grok2api_admin_tokens";
  available = true;
  used = some (pos 2);
  limit_value = some (pos 5);
  remaining = some (pos 3);
  period_start = none;
  period_end = none;
  checked_at = 0 ∷ [];
  expires_at = 1 ∷ [];
  message_redacted = some "fine";
  details = some [];
}

abbrev stored_rows : List KeyQuotaRow
stored_rows = quota_row patterns snapshot (some "{}") ∷ []

snapshot_stored : upsert_key_quota patterns json snapshot [] ≡ ok stored_rows
unfolding upsert_key_quota validate_provider
snapshot_stored = refl

get-upsert_key_quota_example :
    (back : Result QuotaError (Option Details)) × IsReadBack json (some []) back
    × (get_key_quota json 1 stored_rows ≡ (
        back >>= λ details. ok (
          some (record snapshot {
            message_redacted = Option.map (redact patterns) (some "fine");
            details = details;
          }))))
get-upsert_key_quota_example =
    get-upsert_key_quota patterns json snapshot [] stored_rows 1 snapshot_stored

abbrev clock : PoolClock
clock = record { parse_stamp = λ stamp. some 9; now = 5 }

abbrev options : PoolListOptions
options = record { limit = pos 1; offset = pos 1; view = " all " }

abbrev pool : ProviderPool
pool = record {
  provider = "grok";
  summary = record {
    provider = "grok";
    key_count = 2;
    enabled_key_count = 2;
    available_key_count = 1;
    cooling_key_count = 0;
    refreshed_key_count = 1;
    known_remaining = some (pos 3);
  };
  items =
      record {
        key = scan_display_key (row 2 none);
        status = PoolKeyStatus.not_refreshed;
        quota = none;
      }
      ∷ [];
  page = record { limit = pos 1; offset = pos 1; total = 2 };
}

pooled : provider_pool clock json (λ s. s) "grok" options table stored_rows ≡ ok pool
unfolding provider_pool validate_provider trim_space list_by_provider cooldown_active
    clamp_limit_offset remaining_basis add_int64
pooled = refl

provider_pool-HasCounts_example : HasCounts pool
provider_pool-HasCounts_example =
    provider_pool-HasCounts clock json (λ s. s) "grok" options table stored_rows pooled

abbrev ready : DisplayProviderKey
ready = scan_display_key (row 1 none)

abbrev idle : DisplayProviderKey
idle = scan_display_key (record (row 2 none) { enabled = false; cooldown_until = some (9 ∷ []) })

finish_item-IsHealthOf_example :
    IsHealthOf clock
      (ready ∷ idle ∷ [])
      (finish_item "https://h" (survey_keys clock (ready ∷ idle ∷ []) (start_survey "grok"))).status
finish_item-IsHealthOf_example = finish_item-IsHealthOf clock "grok" "https://h" (ready ∷ idle ∷ [])

cooldown_of_disabled_example :
    (finish_item "https://h" (survey_keys clock (ready ∷ idle ∷ []) (start_survey "grok"))).status
    ≡ HealthStatus.cooldown
unfolding scan_display_key
cooldown_of_disabled_example =
    cooldown_of_disabled clock "grok" "https://h" ready idle refl refl refl refl refl refl

abbrev pub audit_repo : AuditRepo
audit_repo = record { calendar = repo.calendar; patterns = patterns; to_lower = λ s. s }

abbrev secret_said : AuditEvent
secret_said = record {
  actor_kind = "admin";
  actor_id = "";
  action = "provider.add";
  target_kind = "provider_key";
  target_id = "1";
  detail = "the key is k";
  client_ip = "10.1.2.3";
}

abbrev pub no_events : AuditTable
no_events = record { rows = []; next_id = 1 }

-- The stored event names the action, and the first part of the address.
abbrev kept : AuditTable
kept = record {
  rows =
      record {
        id = 1;
        occurred_at = format repo.calendar 0;
        actor_kind = "admin";
        actor_id = none;
        action = "provider.add";
        target_kind = some "provider_key";
        target_id = some "1";
        detail_redacted = "provider.add";
        client_ip_redacted = some "10.x.x.x";
      }
      ∷ [];
  next_id = 2;
}
