-- ===== src/Providers/Pool.antt =====
-- internal/providers/key_quota.go: what the endpoints of a provider are ready for, their quotas
-- summed up, and a page of them. time.Parse and strings.ToLower are parameters.
pub mod Counts
use code_guda_gateway.Prelude.{
  ℕ, suc, ◌+◌, ◌-◌, ◌≡◌, String, Bool, true, false, not, ◌&&◌, ◌||◌, Option, none, some, List, [],
  ◌∷◌, ◌++◌, ◌==◌, ◌=ₜ◌, ltb, if◌then◌else◌, ℤ, pos, pos_part, ltb_int, add_int64, length, take,
  drop, is_some, trim_space, Result, ok, err, ◌>>=◌, ◌>>◌, map_error,
}
use code_guda_gateway.Timestamp.{Stamp}
use code_guda_gateway.Providers.Names.{validate_provider, clamp_limit_offset}
use code_guda_gateway.Providers.KeyTable.{KeyTable}
use code_guda_gateway.Providers.Keys.Display.{DisplayProviderKey, list}
use code_guda_gateway.Providers.QuotaTables.{
  Detail, Details, DetailsJson, ProviderKeyQuota, KeyQuotaRow, QuotaError, list_by_provider,
}

pub record PoolListOptions : Type 0 where
  pub limit : ℤ
  pub offset : ℤ
  pub view : String

pub record PageInfo : Type 0 where
  pub limit : ℤ
  pub offset : ℤ
  pub total : ℕ

pub data PoolKeyStatus : Type 0 where
  available cooling disabled archived not_refreshed : PoolKeyStatus

pub record ProviderPoolSummary : Type 0 where
  pub provider : String
  pub key_count : ℕ
  pub enabled_key_count : ℕ
  pub available_key_count : ℕ
  pub cooling_key_count : ℕ
  pub refreshed_key_count : ℕ
  pub known_remaining : Option ℤ

pub record ProviderPoolRow : Type 0 where
  pub key : DisplayProviderKey
  pub status : PoolKeyStatus
  pub quota : Option ProviderKeyQuota

pub record ProviderPool : Type 0 where
  pub provider : String
  pub summary : ProviderPoolSummary
  pub items : List ProviderPoolRow
  pub page : PageInfo

-- `parse_stamp` is time.Parse of a stored text.
pub record PoolClock : Type 0 where
  pub parse_stamp : Stamp → Option ℕ
  pub now : ℕ

abbrev is_after : Option ℕ → ℕ → Bool
is_after none now = false
is_after (some t) now = ltb now t

-- The empty text is none that time.Parse reads.
unfoldable pub cooldown_active : PoolClock → Option Stamp → Bool
cooldown_active clock none = false
cooldown_active clock (some []) = false
cooldown_active clock (some (b ∷ until)) = is_after (clock.parse_stamp (b ∷ until)) clock.now

unfoldable pub derive_pool_key_status : PoolClock → DisplayProviderKey → Bool → PoolKeyStatus
derive_pool_key_status clock k has_quota =
    if is_some k.archived_at
    then PoolKeyStatus.archived
    else if not k.enabled
    then PoolKeyStatus.disabled
    else if cooldown_active clock k.cooldown_until
    then PoolKeyStatus.cooling
    else if has_quota
    then PoolKeyStatus.available
    else PoolKeyStatus.not_refreshed

unfoldable pub pool_key_skip_reason : PoolClock → DisplayProviderKey → String
pool_key_skip_reason clock k =
    if is_some k.archived_at
    then "archived"
    else if not k.enabled
    then "disabled"
    else if cooldown_active clock k.cooldown_until
    then "cooldown"
    else ""

abbrev pub pool_view_enabled : String
pool_view_enabled = "enabled"

abbrev pub pool_view_all : String
pool_view_all = "all"

unfoldable pub normalize_pool_view : (String → String) → String → Result QuotaError String
normalize_pool_view to_lower v =
    let view = trim_space (to_lower v) in
    if view =ₜ "" || view =ₜ pool_view_enabled
    then ok pool_view_enabled
    else if view =ₜ pool_view_all
    then ok pool_view_all
    else err QuotaError.invalid_pool_view

abbrev text_of : Option Detail → String
text_of none = ""
text_of (some (Detail.text s)) = s
text_of (some (Detail.whole n)) = ""

unfoldable pub find_detail : String → Details → Option Detail
find_detail name [] = none
find_detail name (d ∷ ds) = if d.0 =ₜ name then some d.1 else find_detail name ds

abbrev details_of : Option Details → Details
details_of none = []
details_of (some ds) = ds

unfoldable pub remaining_basis : ProviderKeyQuota → String
unfolding find_detail
remaining_basis q = text_of (find_detail "remaining_basis" (details_of q.details))

-- quotaByKey[k.ID]: a later row of the list replaces an earlier one.
unfoldable pub quota_of_key : ℕ → List ProviderKeyQuota → Option ProviderKeyQuota
quota_of_key i [] = none
quota_of_key i (q ∷ qs) =
    let later = quota_of_key i qs in
    if is_some later then later else if q.provider_key_id == i then some q else none

-- What the loop of ProviderPool counts and collects.
pub record Tally : Type 0 where
  pub enabled : ℕ
  pub available : ℕ
  pub cooling : ℕ
  pub refreshed : ℕ
  pub known : Option ℤ
  pub account : Option ℤ
  pub items : List ProviderPoolRow

abbrev pub start_tally : Tally
start_tally = record {
  enabled = 0;
  available = 0;
  cooling = 0;
  refreshed = 0;
  known = none;
  account = none;
  items = [];
}

abbrev or_zero : Option ℤ → ℤ
or_zero none = pos 0
or_zero (some n) = n

abbrev larger : Option ℤ → ℤ → Option ℤ
larger none n = some n
larger (some m) n = if ltb_int m n then some n else some m

-- An account's remaining credits count once, an endpoint's own are summed.
abbrev add_remaining : ProviderKeyQuota → Option ℤ → Tally → Tally
add_remaining q none t = t
add_remaining q (some n) t =
    if remaining_basis q =ₜ "account_plan"
    then record t { account = larger t.account n }
    else record t { known = some (add_int64 (or_zero t.known) n) }

abbrev add_quota : Option ProviderKeyQuota → Tally → Tally
add_quota none t = t
add_quota (some q) t = add_remaining q q.remaining t

abbrev count_status : PoolKeyStatus → Option ProviderKeyQuota → Tally → Tally
count_status PoolKeyStatus.available q t = add_quota q (record t { available = suc t.available })
count_status PoolKeyStatus.cooling q t = record t { cooling = suc t.cooling }
count_status PoolKeyStatus.disabled q t = t
count_status PoolKeyStatus.archived q t = t
count_status PoolKeyStatus.not_refreshed q t = t

abbrev is_shown : String → PoolKeyStatus → Bool
is_shown view PoolKeyStatus.disabled = view =ₜ pool_view_all
is_shown view PoolKeyStatus.archived = view =ₜ pool_view_all
is_shown view PoolKeyStatus.available = true
is_shown view PoolKeyStatus.cooling = true
is_shown view PoolKeyStatus.not_refreshed = true

abbrev one_if : Bool → ℕ
one_if true = 1
one_if false = 0

-- One round of the loop, on the endpoint and its quota.
unfoldable pub tally_key :
    PoolClock → String → DisplayProviderKey → Option ProviderKeyQuota → Tally → Tally
unfolding derive_pool_key_status
tally_key clock view k q t =
    let status = derive_pool_key_status clock k (is_some q) in
    let row : ProviderPoolRow = (record { key = k; status = status; quota = q }) in
    let counted = count_status status q (record t {
      enabled = t.enabled + one_if (k.enabled && not (is_some k.archived_at));
      refreshed = t.refreshed + one_if (is_some q);
    }) in
    record counted { items = if is_shown view status then t.items ++ row ∷ [] else t.items }

unfoldable pub tally_keys :
    PoolClock → String → List ProviderKeyQuota → List DisplayProviderKey → Tally → Tally
unfolding tally_key quota_of_key
tally_keys clock view quotas [] t = t
tally_keys clock view quotas (k ∷ ks) t =
    tally_keys clock view quotas ks (tally_key clock view k (quota_of_key k.id quotas) t)

abbrev known_remaining_of : Tally → Option ℤ
known_remaining_of t = elim t.account [
  | none ↦ t.known
  | some n ↦ some (add_int64 (or_zero t.known) n)
]

abbrev pub pool_of : String → ℤ × ℤ → ℕ → Tally → ProviderPool
pool_of provider (limit, offset) key_count t = record {
  provider = provider;
  summary = record {
    provider = provider;
    key_count = key_count;
    enabled_key_count = t.enabled;
    available_key_count = t.available;
    cooling_key_count = t.cooling;
    refreshed_key_count = t.refreshed;
    known_remaining = known_remaining_of t;
  };
  items = take (pos_part limit) (drop (pos_part offset) t.items);
  page = record { limit = limit; offset = offset; total = length t.items };
}

unfoldable pub provider_pool :
    PoolClock
    → DetailsJson
    → (String → String)
    → String
    → PoolListOptions
    → KeyTable
    → List KeyQuotaRow
    → Result QuotaError ProviderPool
unfolding normalize_pool_view list tally_keys
provider_pool clock json to_lower provider opts keys quotas = do
  map_error QuotaError.names (validate_provider provider)
  view ← normalize_pool_view to_lower opts.view
  all_keys ← map_error QuotaError.names (list provider keys)
  quota_rows ← list_by_provider json provider quotas
  ok (
      pool_of provider (clamp_limit_offset opts.limit opts.offset (pos 25) (pos 100))
        (length all_keys) (tally_keys clock view quota_rows all_keys start_tally))
