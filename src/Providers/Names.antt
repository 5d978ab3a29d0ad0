-- ===== src/Providers/Names.antt =====
-- internal/providers/providers.go: the providers, their default URLs and the package's errors.
use code_guda_gateway.Prelude.{
  String, ◌||◌, ◌=ₜ◌, if◌then◌else◌, Result, require, ℤ, pos, leb_int, ◌≤ℤ◌, arith,
}
use code_guda_gateway.Secrets

abbrev pub provider_grok : String
provider_grok = "grok"

abbrev pub provider_tavily : String
provider_tavily = "tavily"

abbrev pub provider_firecrawl : String
provider_firecrawl = "firecrawl"

-- The sentinel errors, then the plain ones that the repositories make. An error that wraps two
-- sentinels (a quota URL of a bad shape) is `invalid_quota_url`.
pub data Error : Type 0 where
  unknown_provider no_enabled_key duplicate_name invalid_base_url provider_key_not_found : Error
  invalid_quota_config invalid_quota_url quota_disabled quota_not_configured : Error
  name_and_raw_key_required raw_key_required empty_url bad_endpoint_path : Error
  secret : Secrets.Error → Error

unfoldable pub validate_provider : String → Result Error (Unit {0})
validate_provider p =
    require (p =ₜ provider_grok || p =ₜ provider_tavily || p =ₜ provider_firecrawl) unknown_provider

unfoldable pub default_base_url : String → String
default_base_url p =
    if p =ₜ provider_grok
    then "https://api.x.ai/v1"
    else if p =ₜ provider_tavily
    then "https://api.tavily.com"
    else if p =ₜ provider_firecrawl
    then "https://api.firecrawl.dev/v2"
    else ""

-- internal/providers/paging.go
unfoldable pub clamp_limit_offset : ℤ → ℤ → ℤ → ℤ → ℤ × ℤ
clamp_limit_offset limit offset default_limit max_limit =
    let chosen = if leb_int limit (pos 0) then default_limit else limit in
    (
      if leb_int chosen max_limit then chosen else max_limit,
      if leb_int (pos 0) offset then offset else pos 0,
    )

-- With a positive default and maximum, a page has between one and `max_limit` rows, at an offset
-- that is not negative, whatever the request asks for.
pub clamp_limit_offset_bounds :
    (limit offset default_limit max_limit : ℤ)
    → pos 1 ≤ℤ default_limit
    → pos 1 ≤ℤ max_limit
    → (pos 1 ≤ℤ (clamp_limit_offset limit offset default_limit max_limit).0)
      × ((clamp_limit_offset limit offset default_limit max_limit).0 ≤ℤ max_limit)
      × (pos 0 ≤ℤ (clamp_limit_offset limit offset default_limit max_limit).1)
unfolding clamp_limit_offset
clamp_limit_offset_bounds limit offset default_limit max_limit p q =
    (ground arith, ground arith, ground arith)
