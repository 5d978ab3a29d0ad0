-- ===== src/Cooldown/Statuses.antt =====
-- `PolicyForStatus` of internal/cooldown/cooldown.go over all statuses.
use code_guda_gateway.Prelude.{ℕ, ◌≡◌, ◌↔◌, true, false, List, [], ◌∷◌, arith, In}
use code_guda_gateway.Cooldown.{Settings, policy_for_status, should_mark_success}

abbrev pub retryable_statuses : List ℕ
retryable_statuses = 429 ∷ 408 ∷ 500 ∷ 502 ∷ 503 ∷ 504 ∷ 401 ∷ 403 ∷ []

-- The policy cools down exactly at the eight statuses, retries exactly where it cools down, and
-- never at a status that counts as a success.
pub policy_for_status_lem :
    (status : ℕ) (s : Settings)
    → ((policy_for_status status s).apply_cooldown ≡ true ↔ In status retryable_statuses)
      × ((policy_for_status status s).retry_across_keys
          ≡ (policy_for_status status s).apply_cooldown)
      × (should_mark_success status ≡ true → (policy_for_status status s).apply_cooldown ≡ false)
unfolding policy_for_status should_mark_success
policy_for_status_lem status s = (ground arith, ground arith, λ h. ground arith)
