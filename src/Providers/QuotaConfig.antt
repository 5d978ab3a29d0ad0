-- ===== src/Providers/QuotaConfig.antt =====
-- internal/providers/endpoint_quota.go: which quota mode and flow an endpoint may have. Modes and
-- flows are the source's string constants.
use code_guda_gateway.Prelude.{
  String, Bool, true, false, not, ◌&&◌, ◌||◌, ◌≡◌, ◌≢◌, ◌∙◌, ◌⊎◌, inl, inr, if◌then◌else◌, ◌=ₜ◌,
  Result, ok, err, ◌>>=◌, ◌>>◌, require, map_error, trim_space, List, [], ◌∷◌, arith, eq_iff,
  Bool-cases,
}
use code_guda_gateway.Providers.Names.{
  Error, unknown_provider, invalid_quota_config, invalid_quota_url, validate_provider,
  provider_grok, provider_tavily, provider_firecrawl,
}
use code_guda_gateway.Providers.Endpoints.{Urls, normalize_base_url}

abbrev pub quota_disabled_mode : String
quota_disabled_mode = "disabled"

abbrev pub quota_endpoint_credentials : String
quota_endpoint_credentials = "endpoint_credentials"

abbrev pub quota_separate_credentials : String
quota_separate_credentials = "separate_credentials"

abbrev pub quota_flow_grok2api_admin : String
quota_flow_grok2api_admin = "grok2api_admin"

abbrev pub quota_flow_grok2api_v3_admin : String
quota_flow_grok2api_v3_admin = "grok2api_v3_admin"

abbrev pub quota_flow_tavily_usage : String
quota_flow_tavily_usage = "tavily_usage"

abbrev pub quota_flow_firecrawl_credit_usage : String
quota_flow_firecrawl_credit_usage = "firecrawl_credit_usage"

pub record EndpointQuotaInput : Type 0 where
  pub mode : String
  pub flow : String
  pub base_url : String
  pub raw_key : String

pub record QuotaFlowPolicy : Type 0 where
  pub default_flow : String
  pub allowed : List String

-- quotaFlowPolicyForProvider
unfoldable pub flow_policy : String → Result Error QuotaFlowPolicy
unfolding validate_provider
flow_policy provider = do
  validate_provider provider
  if provider =ₜ provider_grok
      then ok (record {
        default_flow = quota_flow_grok2api_admin;
        allowed = quota_flow_grok2api_admin ∷ quota_flow_grok2api_v3_admin ∷ [];
      })
      else if provider =ₜ provider_tavily
      then ok (record {
        default_flow = quota_flow_tavily_usage;
        allowed = quota_flow_tavily_usage ∷ [];
      })
      else if provider =ₜ provider_firecrawl
      then ok (record {
        default_flow = quota_flow_firecrawl_credit_usage;
        allowed = quota_flow_firecrawl_credit_usage ∷ [];
      })
      else err unknown_provider

-- The loop of validateFlowForProvider.
abbrev pub is_allowed : String → List String → Bool
is_allowed flow [] = false
is_allowed flow (a ∷ rest) = flow =ₜ a || is_allowed flow rest

unfoldable pub validate_flow_for_provider : String → String → Result Error (Unit {0})
unfolding flow_policy
validate_flow_for_provider provider flow = do
  policy ← flow_policy provider
  require (is_allowed flow policy.allowed) invalid_quota_config

unfoldable pub validate_mode : String → Result Error (Unit {0})
validate_mode mode =
    require
      (mode =ₜ quota_disabled_mode
        || mode =ₜ quota_endpoint_credentials
        || mode =ₜ quota_separate_credentials)
      invalid_quota_config

unfoldable pub default_quota_config : String → Result Error (String × String)
unfolding flow_policy
default_quota_config provider = do
  policy ← flow_policy provider
  if provider =ₜ provider_grok
      then ok (quota_disabled_mode, policy.default_flow)
      else if provider =ₜ provider_tavily || provider =ₜ provider_firecrawl
      then ok (quota_endpoint_credentials, policy.default_flow)
      else err unknown_provider

-- The two arms of the `switch` on the mode: without credentials of its own, and with them.
unfoldable pub shared_credentials :
    String → String → String → String → Result Error EndpointQuotaInput
shared_credentials mode flow base_url raw_key = do
  require (base_url =ₜ "" && raw_key =ₜ "") invalid_quota_config
  ok (record { mode = mode; flow = flow; base_url = ""; raw_key = "" })

unfoldable pub separate_credentials :
    Urls → Bool → String → String → String → Result Error EndpointQuotaInput
separate_credentials urls require_raw_key flow base_url raw_key = do
  require (not (base_url =ₜ "")) invalid_quota_config
  normalized ← map_error (λ _. invalid_quota_url) (normalize_base_url urls base_url)
  require (not (require_raw_key && raw_key =ₜ "")) invalid_quota_config
  ok (record {
    mode = quota_separate_credentials;
    flow = flow;
    base_url = normalized;
    raw_key = raw_key;
  })

unfoldable pub validate_quota_config :
    Urls → String → EndpointQuotaInput → Bool → Result Error EndpointQuotaInput
validate_quota_config urls provider input require_raw_key = do
  validate_provider provider
  let mode = trim_space input.mode
  let flow = trim_space input.flow
  validate_mode mode
  validate_flow_for_provider provider flow
  require (not (flow =ₜ quota_flow_grok2api_v3_admin && mode =ₜ quota_endpoint_credentials))
      invalid_quota_config
  if mode =ₜ quota_disabled_mode || mode =ₜ quota_endpoint_credentials
      then shared_credentials mode flow (trim_space input.base_url) (trim_space input.raw_key)
      else if mode =ₜ quota_separate_credentials
      then separate_credentials urls require_raw_key flow (trim_space input.base_url)
          (trim_space input.raw_key)
      else err invalid_quota_config

-- What an accepted configuration is: `Shared` has no credentials of its own, and `Separate` has a
-- normalised URL, with a key where one is asked for.
pub data IsAccepted (urls : Urls) (provider : String) (require_raw_key : Bool)
    (input q : EndpointQuotaInput) : Type 0 where
  shared :
      (q.mode ≡ quota_disabled_mode)
        ⊎ ((q.mode ≡ quota_endpoint_credentials) × (q.flow ≢ quota_flow_grok2api_v3_admin))
      → q.base_url ≡ ""
      → q.raw_key ≡ ""
      → IsAccepted urls provider require_raw_key input q
  separate :
      q.mode ≡ quota_separate_credentials
      → normalize_base_url urls (trim_space input.base_url) ≡ ok q.base_url
      → (require_raw_key ≡ true → q.raw_key ≢ "")
      → IsAccepted urls provider require_raw_key input q

shared_credentials_inv :
    (mode flow base_url raw_key : String) {q : EndpointQuotaInput}
    → shared_credentials mode flow base_url raw_key ≡ ok q
    → (q.mode ≡ mode) × (q.flow ≡ flow) × (q.base_url ≡ "") × (q.raw_key ≡ "")
unfolding shared_credentials
shared_credentials_inv mode flow base_url raw_key h =
    (ground arith, ground arith, ground arith, ground arith)

separate_credentials_inv :
    (urls : Urls) (required : Bool) (flow base_url raw_key : String) {q : EndpointQuotaInput}
    → separate_credentials urls required flow base_url raw_key ≡ ok q
    → (q.mode ≡ quota_separate_credentials)
      × (q.flow ≡ flow)
      × (normalize_base_url urls base_url ≡ ok q.base_url)
      × (required ≡ true → q.raw_key ≢ "")
unfolding separate_credentials
separate_credentials_inv urls required flow base_url raw_key h =
    (ground arith, ground arith, ground arith, λ r e. ground (arith, eq_iff raw_key ""))

-- The checks that precede the `switch` of ValidateQuotaConfig, undone one by one.
validate_quota_config_inv :
    (urls : Urls) (provider : String) (input : EndpointQuotaInput) (required : Bool)
    {q : EndpointQuotaInput}
    → validate_quota_config urls provider input required ≡ ok q
    → (validate_flow_for_provider provider (trim_space input.flow) ≡ ok tt)
      × ((trim_space input.flow =ₜ quota_flow_grok2api_v3_admin
            && trim_space input.mode =ₜ quota_endpoint_credentials)
          ≡ false)
      × ((shared_credentials
                (trim_space input.mode)
                (trim_space input.flow)
                (trim_space input.base_url)
                (trim_space input.raw_key)
              ≡ ok q)
            × ((trim_space input.mode =ₜ quota_disabled_mode
                  || trim_space input.mode =ₜ quota_endpoint_credentials)
                ≡ true)
          ⊎ (separate_credentials urls required
                (trim_space input.flow)
                (trim_space input.base_url)
                (trim_space input.raw_key)
              ≡ ok q))
unfolding validate_quota_config
validate_quota_config_inv urls provider input required h =
    (ground arith, ground arith, ground arith)

modes_of :
    (q : EndpointQuotaInput) (mode flow : String)
    → q.mode ≡ mode
    → q.flow ≡ flow
    → (flow =ₜ quota_flow_grok2api_v3_admin && mode =ₜ quota_endpoint_credentials) ≡ false
    → (mode =ₜ quota_disabled_mode || mode =ₜ quota_endpoint_credentials) ≡ true
    → (q.mode ≡ quota_disabled_mode)
      ⊎ ((q.mode ≡ quota_endpoint_credentials) × (q.flow ≢ quota_flow_grok2api_v3_admin))
modes_of q mode flow m f v3 h = elim (Bool-cases (mode =ₜ quota_disabled_mode)) [
  | inl e ↦ inl (m ∙ (eq_iff mode quota_disabled_mode).0 e)
  | inr e ↦
      let named : (mode =ₜ quota_endpoint_credentials) ≡ true = ground arith in
      inr (
        m ∙ (eq_iff mode quota_endpoint_credentials).0 named,
        λ w. ground (arith, eq_iff flow quota_flow_grok2api_v3_admin),
      )
]

-- Of an accepted configuration the flow is one that the provider allows, and its mode, URL and
-- key fit together: `IsAccepted`.
pub validate_quota_config-IsAccepted :
    (urls : Urls) (provider : String) (input : EndpointQuotaInput) (required : Bool)
    {q : EndpointQuotaInput}
    → validate_quota_config urls provider input required ≡ ok q
    → (validate_flow_for_provider provider q.flow ≡ ok tt)
      × IsAccepted urls provider required input q
validate_quota_config-IsAccepted urls provider input required {q} h =
    let (flow, v3, arm) = validate_quota_config_inv urls provider input required h in
    elim arm [
      | inl (given, modes) ↦
          let (m, f, b, k) = shared_credentials_inv _ _ _ _ given in
          (
            rw f flow,
            shared (modes_of q (trim_space input.mode) (trim_space input.flow) m f v3 modes) b k,
          )
      | inr given ↦
          let (m, f, b, k) = separate_credentials_inv _ _ _ _ _ given in (rw f flow, separate m b k)
    ]
