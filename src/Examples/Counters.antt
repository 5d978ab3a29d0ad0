-- ===== src/Examples/Counters.antt =====
-- Runs of the usage counters.
use code_guda_gateway.Prelude.{
  ◌+◌, ◌≡◌, refl, none, some, List, [], ◌∷◌, ◌++◌, ◌=ₜ◌, if◌then◌else◌, ok,
}
use code_guda_gateway.Usage.Counters.{
  UsageIncrement, UsageDaily, conflicts, upsert, on_day, increment, requests_where,
  requests_where-increment, upsert-without_key,
}

abbrev search_by_7 : UsageIncrement
search_by_7 = record {
  day = "";
  gateway_key_id = some 7;
  provider = "tavily";
  route_family = "tavily";
  status_class = "2xx";
}

abbrev today : UsageIncrement
today = record search_by_7 { day = "2026-01-02" }

abbrev three : List UsageDaily
three = record { bucket = today; request_count = 3 } ∷ []

abbrev four : List UsageDaily
four = record { bucket = today; request_count = 4 } ∷ []

counted : increment "2026-01-02" search_by_7 three ≡ ok four
unfolding increment upsert conflicts
counted = refl

requests_where-increment_example :
    requests_where (λ b. b.provider =ₜ "tavily") four
    ≡ requests_where (λ b. b.provider =ₜ "tavily") three
      + (if (on_day "2026-01-02" search_by_7).provider =ₜ "tavily" then 1 else 0)
requests_where-increment_example =
    requests_where-increment "2026-01-02" search_by_7 three four (λ b. b.provider =ₜ "tavily")
      counted

abbrev keyless : UsageIncrement
keyless = record today { gateway_key_id = none }

upsert-without_key_example :
    upsert keyless (record { bucket = keyless; request_count = 1 } ∷ [])
    ≡ (record { bucket = keyless; request_count = 1 } ∷ [])
      ++ record { bucket = keyless; request_count = 1 } ∷ []
upsert-without_key_example =
    upsert-without_key keyless (record { bucket = keyless; request_count = 1 } ∷ []) refl
