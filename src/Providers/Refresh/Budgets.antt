-- ===== src/Providers/Refresh/Budgets.antt =====
-- internal/providers/quota_refresh.go: the budgets that the snapshots of Tavily and Firecrawl show.
use code_guda_gateway.Prelude.{
  ℕ, ◌≡◌, String, Option, some, none, ℤ, pos, ◌≤ℤ◌, arith, Bool-cases, inl, inr, is_some, true,
  ltb_int,
}
use code_guda_gateway.Providers.QuotaTables.{QuotaCache}
use code_guda_gateway.Providers.Refresh.{Times}
use code_guda_gateway.Providers.Refresh.Normalize.{
  TavilyUsageResponse, FirecrawlCreditUsageResponse, normalize_tavily_usage, tavily_budget,
  remaining_from_limit_usage, clamp_used_non_negative, normalize_firecrawl_credit_usage,
  firecrawl_with, firecrawl_shell, firecrawl_remaining, firecrawl_limit, used_credits,
}

-- A budget of which no more is used than shown, and no more remains than its limit.
pub record IsBudget (q : QuotaCache) : Type 0 where
  pub used : (n : ℤ) → q.used ≡ some n → pos 0 ≤ℤ n
  pub within : (r l : ℤ) → q.remaining ≡ some r → q.limit_value ≡ some l → r ≤ℤ l

clamp-nonneg : (used : Option ℤ) (n : ℤ) → clamp_used_non_negative used ≡ some n → pos 0 ≤ℤ n
unfolding clamp_used_non_negative
clamp-nonneg none n e = ground (arith, e)
clamp-nonneg (some u) n e = ground (arith, e)

firecrawl_with-IsBudget :
    (q : QuotaCache) (remaining limit used : Option ℤ)
    → IsBudget (firecrawl_with q remaining limit used)
firecrawl_with-IsBudget q none limit used = record {
  used = λ n e. clamp-nonneg used n e;
  within = λ r l e f. ground (arith, e);
}
firecrawl_with-IsBudget q (some remaining) none used = record {
  used = λ n e. clamp-nonneg used n e;
  within = λ r l e f. ground (arith, f);
}
firecrawl_with-IsBudget q (some remaining) (some limit) used =
    elim (Bool-cases (ltb_int limit remaining)) [
      | inl more ↦ record {
        used = λ n. rw (more, firecrawl_with) (clamp-nonneg used n);
        within = λ r l. rw (more, firecrawl_with) (λ e f. ground (arith, f));
      }
      | inr within ↦ record {
        used = λ n. rw (within, firecrawl_with) (clamp-nonneg used n);
        within = λ r l. rw (within, firecrawl_with) (λ e f. ground (arith, e, f, within));
      }
    ]

-- Whatever Firecrawl answers, the snapshot shows no negative use, and a limit beside what remains
-- only where no more remains than that.
pub normalize_firecrawl_credit_usage-IsBudget :
    (provider : String) (i : Option ℕ) (times : Times) (p : FirecrawlCreditUsageResponse)
    → IsBudget (normalize_firecrawl_credit_usage provider i times p)
unfolding normalize_firecrawl_credit_usage
normalize_firecrawl_credit_usage-IsBudget provider i times p =
    firecrawl_with-IsBudget (firecrawl_shell provider i times p) (firecrawl_remaining p)
      (firecrawl_limit p) (used_credits p.credits_used (firecrawl_limit p) (firecrawl_remaining p))

remaining_nonneg :
    (limit usage : Option ℤ) (n : ℤ) → remaining_from_limit_usage limit usage ≡ some n → pos 0 ≤ℤ n
unfolding remaining_from_limit_usage
remaining_nonneg none usage n e = ground (arith, e)
remaining_nonneg (some l) none n e = ground (arith, e)
remaining_nonneg (some l) (some u) n e = ground (arith, e)

-- Whatever Tavily answers, what remains is not negative, and it stands beside a limit and a use.
pub normalize_tavily_usage-remaining :
    (provider : String) (i : Option ℕ) (times : Times) (p : TavilyUsageResponse) (n : ℤ)
    → (normalize_tavily_usage provider i times p).remaining ≡ some n
    → (pos 0 ≤ℤ n)
      × (is_some (normalize_tavily_usage provider i times p).limit_value ≡ true)
      × (is_some (normalize_tavily_usage provider i times p).used ≡ true)
unfolding normalize_tavily_usage tavily_budget
normalize_tavily_usage-remaining provider i times p n e = (
  ground (
    arith,
    e,
    remaining_nonneg p.key.limit p.key.usage n,
    remaining_nonneg p.account.plan_limit p.account.plan_usage n,
  ),
  ground (arith, e),
  ground (arith, e),
)
