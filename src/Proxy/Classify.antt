-- ===== src/Proxy/Classify.antt =====
-- internal/proxy/proxy.go and tavily_diagnostic.go: what an upstream answer means.
-- encoding/json is Go's: a parameter gives, of a body, the fields that the source asks for.
use Prim.Native.String.{String, len}
use code_guda_gateway.Prelude.{
  ℕ, ◌≢◌, Bool, true, false, not, ◌&&◌, ◌||◌, Option, none, some, List, [], ◌∷◌, ◌==◌, ltb, ◌=ₜ◌,
  if◌then◌else◌, ℤ, pos, leb_int, trim_space, contains_text, join_fields, arith, eq_iff,
}
use code_guda_gateway.Cooldown.{
  Settings, Policy, cool_for, policy_for_status, default_rate_limit_cooldown,
}
use code_guda_gateway.Providers.Names.{provider_tavily, provider_firecrawl}
use code_guda_gateway.Proxy.Headers.{Header, header_del, header_set}

-- The `error` field of a Firecrawl body: a text, an object with three texts, or neither.
pub data ErrorField : Type 0 where
  absent other : ErrorField
  message : String → ErrorField
  object : String → String → String → ErrorField

pub record ErrorPayload : Type 0 where
  pub message : String
  pub code : String
  pub error : ErrorField

-- json.Unmarshal into the two payload types of the source, `none` for its errors, and
-- strings.ToLower.
pub record Decoder : Type 0 where
  pub error_payload : String → Option ErrorPayload
  pub detail_error : String → Option String
  pub to_lower : String → String

abbrev pub tavily_plan_limit_status : ℕ
tavily_plan_limit_status = 432

unfoldable pub is_tavily_plan_limit : String → ℕ → Bool
is_tavily_plan_limit provider status =
    provider =ₜ provider_tavily && status == tavily_plan_limit_status

abbrev pub signals_of : ErrorField → List String
signals_of absent = []
signals_of other = []
signals_of (message text) = text ∷ []
signals_of (object text code error) = text ∷ code ∷ error ∷ []

-- The loop over the signals.
unfoldable pub any_exhausted : Decoder → List String → Bool
any_exhausted d [] = false
any_exhausted d (signal ∷ rest) =
    let normalized = d.to_lower (trim_space signal) in
    if contains_text normalized "insufficient credit" || contains_text normalized "credit_exhausted"
    then true
    else any_exhausted d rest

unfoldable pub is_firecrawl_credit_exhausted : Decoder → String → Bool
unfolding any_exhausted
is_firecrawl_credit_exhausted d body = elim (d.error_payload body) [
  | none ↦ false
  | some p ↦ any_exhausted d (p.message ∷ p.code ∷ signals_of p.error)
]

-- A configured rate-limit duration, or the default where it is not positive.
abbrev pub rate_limit_or_default : Settings → ℤ
rate_limit_or_default s =
    if leb_int s.rate_limit (pos 0) then default_rate_limit_cooldown else s.rate_limit

unfoldable pub policy_for_response : Decoder → String → ℕ → String → Settings → Policy
policy_for_response d provider status body s =
    if provider =ₜ provider_firecrawl && status == 402 && is_firecrawl_credit_exhausted d body
    then cool_for (rate_limit_or_default s) "credit_exhausted"
    else policy_for_status status s

-- The policy that `Forward` applies: Tavily's plan limit overrides the others.
unfoldable pub applied_policy : Decoder → String → ℕ → String → Settings → Policy
applied_policy d provider status body s =
    if is_tavily_plan_limit provider status
    then cool_for (rate_limit_or_default s) "plan_limit_exceeded"
    else policy_for_response d provider status body s

pub record Response : Type 0 where
  pub status : ℕ
  pub header : Header
  pub body : String

abbrev pub tavily_plan_limit_body : String
tavily_plan_limit_body =
    "{\"error\":{\"code\":\"tavily_plan_limit_exceeded\",\"message\":\"Tavily plan usage limit exceeded\"}}"

unfoldable pub tavily_plan_limit_client_response : Header → Response
tavily_plan_limit_client_response h = record {
  status = 429;
  header = header_set "Content-Type" "application/json" (header_del "Content-Length" h);
  body = tavily_plan_limit_body;
}

-- What of an upstream answer the client may get to see.
unfoldable pub client_response : String → Response → Response
client_response provider resp =
    if is_tavily_plan_limit provider resp.status
    then tavily_plan_limit_client_response resp.header
    else resp

abbrev pub query_too_long : String
query_too_long = "Query is too long. Max query length is 400 characters."

abbrev too_long_by : Decoder → Option String → Option (String × String)
too_long_by d none = none
too_long_by d (some error) =
    let normalized = d.to_lower (join_fields error) in
    if normalized =ₜ d.to_lower query_too_long || normalized =ₜ "query exceeds the max query length"
    then some ("query_too_long", query_too_long)
    else none

-- tavilyAttemptDiagnostic: the reason and the message for the attempt's row.
unfoldable pub tavily_attempt_diagnostic : Decoder → String → ℕ → String → Option (String × String)
tavily_attempt_diagnostic d provider status body =
    if not (provider =ₜ provider_tavily)
      || not (status == 400)
      || len body == 0
      || ltb 4096 (len body)
    then none
    else too_long_by d (d.detail_error body)

-- The plan limit's own status never reaches a client of Tavily: it is a 429 there.
pub client_response-status : (resp : Response) → (client_response provider_tavily resp).status ≢ 432
unfolding client_response is_tavily_plan_limit tavily_plan_limit_client_response
client_response-status resp e = ground (arith, eq_iff provider_tavily provider_tavily)
