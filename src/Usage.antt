-- ===== src/Usage.antt =====
-- internal/usage/usage.go: the buckets of the daily usage counters.
pub mod Counters
pub mod Daily
use code_guda_gateway.Prelude.{
  ℕ, String, ◌&&◌, ◌==◌, leb, ltb, if◌then◌else◌, is_some, strip_prefix,
}

unfoldable pub route_family_from_path : String → String
unfolding strip_prefix
route_family_from_path path =
    if is_some (strip_prefix "/grok/" path)
    then "grok"
    else if is_some (strip_prefix "/tavily/" path)
    then "tavily"
    else if is_some (strip_prefix "/firecrawl/" path)
    then "firecrawl"
    else "unknown"

unfoldable pub status_class_from_http : ℕ → String
status_class_from_http status =
    if status == 429
    then "429"
    else if leb 200 status && ltb status 300
    then "2xx"
    else if leb 300 status && ltb status 400
    then "4xx"
    else if leb 400 status && ltb status 500
    then "4xx"
    else if leb 500 status
    then "5xx"
    else "other"

abbrev pub status_class_from_network_error : String
status_class_from_network_error = "network_error"
