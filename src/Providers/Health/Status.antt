-- ===== src/Providers/Health/Status.antt =====
-- internal/providers/health.go: what the counts of a provider's health say of its endpoints.
use code_guda_gateway.Prelude.{
  ℕ, ◌+◌, ◌≤◌, ◌<◌, ◌≡◌, ◌↔◌, String, Bool, true, false, none, List, [], ◌∷◌, is_some,
  if◌then◌else◌, arith,
}
use code_guda_gateway.Providers.Keys.Display.{DisplayProviderKey}
use code_guda_gateway.Providers.Pool.{PoolClock}
use code_guda_gateway.Providers.Health.{
  HealthItem, HealthStatus, Survey, survey_key, survey_keys, start_survey, apply_latest_key_event,
  health_status, finish_item, still_cooling, one_if, counted,
}

-- How many endpoints of a list are in use, and how many of those a predicate takes.
abbrev pub count_live : (DisplayProviderKey → Bool) → List DisplayProviderKey → ℕ
count_live p [] = 0
count_live p (k ∷ ks) = (if is_some k.archived_at then 0 else one_if (p k)) + count_live p ks

apply-counts :
    (k : DisplayProviderKey) (item : HealthItem)
    → ((apply_latest_key_event k item).key_count ≡ item.key_count)
      × ((apply_latest_key_event k item).enabled_key_count ≡ item.enabled_key_count)
      × ((apply_latest_key_event k item).cooldown_key_count ≡ item.cooldown_key_count)
unfolding apply_latest_key_event
apply-counts k item = (ground arith, ground arith, ground arith)

survey_key-counts :
    (clock : PoolClock) (k : DisplayProviderKey) (s : Survey)
    → ((survey_key clock k s).item.key_count ≡ s.item.key_count + count_live (λ k. true) (k ∷ []))
      × ((survey_key clock k s).item.enabled_key_count
          ≡ s.item.enabled_key_count + count_live (λ k. k.enabled) (k ∷ []))
      × ((survey_key clock k s).item.cooldown_key_count
          ≡ s.item.cooldown_key_count
            + count_live (λ k. still_cooling clock k.cooldown_until) (k ∷ []))
unfolding survey_key
survey_key-counts clock k s =
    let (all, enabled, cooling) = apply-counts k (counted clock k s.item) in
    (ground (arith, all), ground (arith, enabled), ground (arith, cooling))

-- The three counts are those of the endpoints in use: all, the enabled ones, and those cooling down,
-- whether enabled or not.
pub survey_keys-counts :
    (clock : PoolClock) (ks : List DisplayProviderKey) (s : Survey)
    → ((survey_keys clock ks s).item.key_count ≡ s.item.key_count + count_live (λ k. true) ks)
      × ((survey_keys clock ks s).item.enabled_key_count
          ≡ s.item.enabled_key_count + count_live (λ k. k.enabled) ks)
      × ((survey_keys clock ks s).item.cooldown_key_count
          ≡ s.item.cooldown_key_count + count_live (λ k. still_cooling clock k.cooldown_until) ks)
unfolding survey_keys
survey_keys-counts clock [] s = (omega arith, omega arith, omega arith)
survey_keys-counts clock (k ∷ ks) s =
    let (all, enabled, cooling) = survey_key-counts clock k s in
    let (rest_all, rest_enabled, rest_cooling) =
      survey_keys-counts clock ks (survey_key clock k s) in
    (
      ground (arith, all, rest_all),
      ground (arith, enabled, rest_enabled),
      ground (arith, cooling, rest_cooling),
    )

-- Of the endpoints in use: none, `missing_key`; none enabled, `disabled`; as many cooling down, among
-- the enabled and the disabled, as are enabled, `cooldown`.
pub data IsHealthOf (clock : PoolClock) (ks : List DisplayProviderKey) (status : HealthStatus)
    : Type 0 where
  is_health_of :
      (status ≡ HealthStatus.missing_key) ↔ (count_live (λ k. true) ks ≡ 0)
      → (status ≡ HealthStatus.disabled)
        ↔ (0 < count_live (λ k. true) ks) × (count_live (λ k. k.enabled) ks ≡ 0)
      → (status ≡ HealthStatus.cooldown)
        ↔ (0 < count_live (λ k. k.enabled) ks)
          × (count_live (λ k. k.enabled) ks
              ≡ count_live (λ k. still_cooling clock k.cooldown_until) ks)
      → IsHealthOf clock ks status

count_live_le :
    (p : DisplayProviderKey → Bool) (ks : List DisplayProviderKey)
    → count_live p ks ≤ count_live (λ k. true) ks
count_live_le p [] = omega arith
count_live_le p (k ∷ ks) = ground (arith, count_live_le p ks)

-- The health of a provider in the counts of its endpoints that are not archived.
pub finish_item-IsHealthOf :
    (clock : PoolClock) (provider base_url : String) (ks : List DisplayProviderKey)
    → IsHealthOf clock ks
        (finish_item base_url (survey_keys clock ks (start_survey provider))).status
unfolding finish_item health_status
finish_item-IsHealthOf clock provider base_url ks =
    let (all, enabled, cooling) = survey_keys-counts clock ks (start_survey provider) in
    let fewer = count_live_le (λ k. k.enabled) ks in
    is_health_of
      (λ e. ground (arith, all, enabled, cooling), λ e. ground (arith, all, enabled, cooling))
      (λ e. ground (arith, all, enabled, cooling), λ e. ground (arith, all, enabled, cooling))
      (
        λ e. ground (arith, all, enabled, cooling),
        λ e. ground (arith, all, enabled, cooling, fewer),
      )

cooling_in :
    {clock : PoolClock} {ks : List DisplayProviderKey} {status : HealthStatus}
    → IsHealthOf clock ks status
    → (0 < count_live (λ k. k.enabled) ks)
      × (count_live (λ k. k.enabled) ks ≡ count_live (λ k. still_cooling clock k.cooldown_until) ks)
    → status ≡ HealthStatus.cooldown
cooling_in (is_health_of missing off cooling) same = cooling.1 same

-- A provider with one endpoint ready to use is reported as cooling down when a disabled one cools
-- down after it.
pub cooldown_of_disabled :
    (clock : PoolClock) (provider base_url : String) (ready idle : DisplayProviderKey)
    → ready.archived_at ≡ none
    → idle.archived_at ≡ none
    → ready.enabled ≡ true
    → idle.enabled ≡ false
    → still_cooling clock ready.cooldown_until ≡ false
    → still_cooling clock idle.cooldown_until ≡ true
    → (finish_item base_url (survey_keys clock (ready ∷ idle ∷ []) (start_survey provider))).status
      ≡ HealthStatus.cooldown
cooldown_of_disabled clock provider base_url ready idle a b c d e f =
    cooling_in (finish_item-IsHealthOf clock provider base_url (ready ∷ idle ∷ []))
      (ground arith, ground arith)
