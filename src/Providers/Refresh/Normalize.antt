-- ===== src/Providers/Refresh/Normalize.antt =====
-- internal/providers/quota_refresh.go: the payloads of the upstream quota endpoints, as encoding/json
-- decodes them, and the snapshots made of them. Differences and sums of int64 wrap.
use code_guda_gateway.Prelude.{
  ℕ, String, ◌&&◌, Option, none, some, List, [], ◌∷◌, ◌++◌, ◌=ₜ◌, if◌then◌else◌, ℤ, pos, negsuc,
  ltb_int, add_int64, sub_int64, is_some,
}
use code_guda_gateway.Providers.QuotaTables.{Detail, Details, QuotaCache}
use code_guda_gateway.Providers.Refresh.{Times, quota_cache_shell}

pub record TavilyKey : Type 0 where
  pub usage : Option ℤ
  pub limit : Option ℤ
  pub search_usage : Option ℤ
  pub extract_usage : Option ℤ
  pub crawl_usage : Option ℤ
  pub map_usage : Option ℤ
  pub research_usage : Option ℤ

pub record TavilyAccount : Type 0 where
  pub current_plan : String
  pub plan_usage : Option ℤ
  pub plan_limit : Option ℤ
  pub paygo_usage : Option ℤ
  pub paygo_limit : Option ℤ

pub record TavilyUsageResponse : Type 0 where
  pub key : TavilyKey
  pub account : TavilyAccount

pub record FirecrawlData : Type 0 where
  pub remaining_credits : Option ℤ
  pub remaining_credits_alt : Option ℤ
  pub plan_credits : Option ℤ
  pub plan_credits_alt : Option ℤ
  pub billing_period_start : Option String
  pub billing_period_end : Option String

pub record FirecrawlCreditUsageResponse : Type 0 where
  pub data_part : Option FirecrawlData
  pub credits_total : Option ℤ
  pub credits_used : Option ℤ
  pub credits_remaining : Option ℤ

-- The remaining and the total count of a mode, and the modes of each token.
abbrev pub ModeQuota : Type 0
ModeQuota = Option ℤ × Option ℤ

-- coalesceInt64
abbrev pub coalesce_int64 : Option ℤ → Option ℤ → Option ℤ
coalesce_int64 none b = b
coalesce_int64 (some a) b = some a

abbrev floored : ℤ → ℤ
floored (pos n) = pos n
floored (negsuc n) = pos 0

-- remainingFromLimitUsage
unfoldable pub remaining_from_limit_usage : Option ℤ → Option ℤ → Option ℤ
remaining_from_limit_usage none usage = none
remaining_from_limit_usage (some limit) none = none
remaining_from_limit_usage (some limit) (some usage) = some (floored (sub_int64 limit usage))

-- clampUsedNonNegative
unfoldable pub clamp_used_non_negative : Option ℤ → Option ℤ
clamp_used_non_negative none = none
clamp_used_non_negative (some used) = some (floored used)

-- What the `switch` of normalizeTavilyUsage sets.
pub record TavilyBudget : Type 0 where
  pub used : Option ℤ
  pub limit_value : Option ℤ
  pub remaining : Option ℤ
  pub basis : String

unfoldable pub tavily_budget : TavilyUsageResponse → TavilyBudget
unfolding remaining_from_limit_usage
tavily_budget p =
    let used = coalesce_int64 p.key.usage p.account.plan_usage in
    if is_some p.key.limit && is_some p.key.usage
    then record {
      used = used;
      limit_value = p.key.limit;
      remaining = remaining_from_limit_usage p.key.limit p.key.usage;
      basis = "key";
    }
    else if is_some p.key.limit
    then record { used = used; limit_value = p.key.limit; remaining = none; basis = "" }
    else if is_some p.account.plan_limit && is_some p.account.plan_usage
    then record {
      used = p.account.plan_usage;
      limit_value = p.account.plan_limit;
      remaining = remaining_from_limit_usage p.account.plan_limit p.account.plan_usage;
      basis = "account_plan";
    }
    else if is_some p.account.plan_limit
    then record { used = used; limit_value = p.account.plan_limit; remaining = none; basis = "" }
    else record { used = used; limit_value = none; remaining = none; basis = "" }

abbrev tavily_details : TavilyUsageResponse → Details
tavily_details p =
    ("key_search_usage", Detail.whole p.key.search_usage)
    ∷ ("key_extract_usage", Detail.whole p.key.extract_usage)
    ∷ ("key_crawl_usage", Detail.whole p.key.crawl_usage)
    ∷ ("key_map_usage", Detail.whole p.key.map_usage)
    ∷ ("key_research_usage", Detail.whole p.key.research_usage)
    ∷ ("account_plan", Detail.text p.account.current_plan)
    ∷ ("account_plan_usage", Detail.whole p.account.plan_usage)
    ∷ ("account_plan_limit", Detail.whole p.account.plan_limit)
    ∷ ("account_paygo_usage", Detail.whole p.account.paygo_usage)
    ∷ ("account_paygo_limit", Detail.whole p.account.paygo_limit)
    ∷ []

abbrev basis_detail : String → Details
basis_detail basis = if basis =ₜ "" then [] else ("remaining_basis", Detail.text basis) ∷ []

unfoldable pub normalize_tavily_usage : String → Option ℕ → Times → TavilyUsageResponse → QuotaCache
unfolding tavily_budget quota_cache_shell
normalize_tavily_usage provider key_id times p =
    let b = tavily_budget p in
    record (quota_cache_shell provider "tavily_usage" times key_id) {
      used = b.used;
      limit_value = b.limit_value;
      remaining = b.remaining;
      details = some (tavily_details p ++ basis_detail b.basis);
    }

abbrev remaining_of_data : Option FirecrawlData → Option ℤ
remaining_of_data none = none
remaining_of_data (some d) = coalesce_int64 d.remaining_credits d.remaining_credits_alt

abbrev limit_of_data : Option FirecrawlData → Option ℤ
limit_of_data none = none
limit_of_data (some d) = coalesce_int64 d.plan_credits d.plan_credits_alt

abbrev start_of_data : Option FirecrawlData → Option String
start_of_data none = none
start_of_data (some d) = d.billing_period_start

abbrev end_of_data : Option FirecrawlData → Option String
end_of_data none = none
end_of_data (some d) = d.billing_period_end

-- credits_used, or the difference of the limit and what remains.
abbrev pub used_credits : Option ℤ → Option ℤ → Option ℤ → Option ℤ
used_credits (some used) limit remaining = some used
used_credits none none remaining = none
used_credits none (some limit) none = none
used_credits none (some limit) (some remaining) = some (sub_int64 limit remaining)

-- The credits that a plan does not account for, with its limit.
abbrev pub extra_credits : Option ℤ → Option ℤ → Option (ℤ × ℤ)
extra_credits none limit = none
extra_credits (some remaining) none = none
extra_credits (some remaining) (some limit) =
    if ltb_int limit remaining then some (limit, sub_int64 remaining limit) else none

abbrev extra_details : ℤ × ℤ → Details
extra_details (limit, extra) =
    ("plan_credits", Detail.whole (some limit))
    ∷ ("extra_credits_remaining", Detail.whole (some extra))
    ∷ (
      "plan_credits_note",
      Detail.text "planCredits excludes one-time credit packs per Firecrawl API",
    )
    ∷ []

abbrev pub firecrawl_with : QuotaCache → Option ℤ → Option ℤ → Option ℤ → QuotaCache
firecrawl_with q remaining limit used = elim (extra_credits remaining limit) [
  | none ↦ record q {
    remaining = remaining;
    limit_value = limit;
    used = clamp_used_non_negative used;
  }
  | some extra ↦ record q {
    remaining = remaining;
    limit_value = none;
    used = clamp_used_non_negative used;
    details = some (extra_details extra);
  }
]

abbrev pub firecrawl_remaining : FirecrawlCreditUsageResponse → Option ℤ
firecrawl_remaining p = coalesce_int64 (remaining_of_data p.data_part) p.credits_remaining

abbrev pub firecrawl_limit : FirecrawlCreditUsageResponse → Option ℤ
firecrawl_limit p = coalesce_int64 (limit_of_data p.data_part) p.credits_total

abbrev pub firecrawl_shell : String → Option ℕ → Times → FirecrawlCreditUsageResponse → QuotaCache
firecrawl_shell provider key_id times p =
    record (quota_cache_shell provider "firecrawl_credit_usage" times key_id) {
      period_start = start_of_data p.data_part;
      period_end = end_of_data p.data_part;
    }

unfoldable pub normalize_firecrawl_credit_usage :
    String → Option ℕ → Times → FirecrawlCreditUsageResponse → QuotaCache
unfolding quota_cache_shell clamp_used_non_negative
normalize_firecrawl_credit_usage provider key_id times p =
    firecrawl_with (firecrawl_shell provider key_id times p) (firecrawl_remaining p)
      (firecrawl_limit p) (used_credits p.credits_used (firecrawl_limit p) (firecrawl_remaining p))

abbrev add_some : ℤ → Option ℤ → ℤ
add_some total none = total
add_some total (some n) = add_int64 total n

unfoldable pub add_modes : List ModeQuota → ℤ × ℤ → ℤ × ℤ
add_modes [] totals = totals
add_modes ((remaining, total) ∷ modes) (rem, lim) =
    add_modes modes (add_some rem remaining, add_some lim total)

unfoldable pub add_tokens : List (List ModeQuota) → ℤ × ℤ → ℤ × ℤ
unfolding add_modes
add_tokens [] totals = totals
add_tokens (modes ∷ tokens) totals = add_tokens tokens (add_modes modes totals)

unfoldable pub normalize_grok_tokens :
    String → Option ℕ → Times → List (List ModeQuota) → QuotaCache
unfolding add_tokens quota_cache_shell
normalize_grok_tokens provider key_id times tokens =
    let (rem, lim) = add_tokens tokens (pos 0, pos 0) in
    record (quota_cache_shell provider "grok2api_admin_tokens" times key_id) {
      remaining = some rem;
      limit_value = some lim;
      used = some (sub_int64 lim rem);
    }
