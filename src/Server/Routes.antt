-- ===== src/Server/Routes.antt =====
-- The routes of the proxy facade: `isRuntimeRoute` and the `switch` of `ServeHTTP`.
use code_guda_gateway.Prelude.{
  ◌≡◌, refl, subst, inl, inr, [], ◌∷◌, In, String, Bool, true, false, ◌&&◌, Option, none, some,
  is_some, ◌=ₜ◌, if◌then◌else◌, strip_prefix, arith,
}
use code_guda_gateway.Proxy.Headers.{Target}
use code_guda_gateway.Providers.Names.{provider_grok, provider_tavily, provider_firecrawl}

abbrev pub has_prefix : String → String → Bool
has_prefix prefix text = is_some (strip_prefix prefix text)

unfoldable pub is_runtime_route : String → String → Bool
is_runtime_route method path =
    if method =ₜ "GET" && path =ₜ "/grok/v1/models"
    then true
    else if method =ₜ "POST" && path =ₜ "/grok/v1/chat/completions"
    then true
    else if method =ₜ "POST" && has_prefix "/tavily/" path
    then true
    else if method =ₜ "POST" && has_prefix "/firecrawl/" path
    then true
    else false

-- strings.TrimPrefix
abbrev pub trim_prefix : String → String → String
trim_prefix prefix text = elim (strip_prefix prefix text) [ none ↦ text | some rest ↦ rest ]

unfoldable pub runtime_target : String → String → Option Target
runtime_target method path =
    if method =ₜ "GET" && path =ₜ "/grok/v1/models"
    then some (record { path = "/models"; provider = provider_grok })
    else if method =ₜ "POST" && path =ₜ "/grok/v1/chat/completions"
    then some (record { path = "/chat/completions"; provider = provider_grok })
    else if method =ₜ "POST" && has_prefix "/tavily/" path
    then some (record { path = trim_prefix "/tavily" path; provider = provider_tavily })
    else if method =ₜ "POST" && has_prefix "/firecrawl/" path
    then some (record { path = trim_prefix "/firecrawl" path; provider = provider_firecrawl })
    else none

-- The test and the `switch` are in sync: a route that passes the test is forwarded.
pub is_runtime_route-is_some :
    (method path : String) → is_runtime_route method path ≡ is_some (runtime_target method path)
unfolding is_runtime_route runtime_target
is_runtime_route-is_some method path = ground arith

pub runtime_target-provider :
    (method path : String) (t : Target)
    → runtime_target method path ≡ some t
    → In t.provider (provider_grok ∷ provider_tavily ∷ provider_firecrawl ∷ [])
unfolding runtime_target
runtime_target-provider method path t h = ground arith

pub provider_nonempty :
    (p : String)
    → In p (provider_grok ∷ provider_tavily ∷ provider_firecrawl ∷ [])
    → (p =ₜ "") ≡ false
provider_nonempty p (inl e) = subst (λ x. (x =ₜ "") ≡ false) e refl
provider_nonempty p (inr (inl e)) = subst (λ x. (x =ₜ "") ≡ false) e refl
provider_nonempty p (inr (inr (inl e))) = subst (λ x. (x =ₜ "") ≡ false) e refl
provider_nonempty p (inr (inr (inr m))) = absurd m
