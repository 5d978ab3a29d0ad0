-- ===== src/Providers/Keys/Quota/Resolve.antt =====
-- `ResolveEndpointQuota` of internal/providers/keys.go and the source of its credentials.
use code_guda_gateway.Prelude.{
  ℕ, ◌≡◌, inl, inr, String, Option, none, some, ◌=ₜ◌, arith, eq_iff, ok, Option-cases, Bool-cases,
}
use code_guda_gateway.Secrets.{Bytes}
use code_guda_gateway.Providers.QuotaConfig.{quota_endpoint_credentials, quota_separate_credentials}
use code_guda_gateway.Providers.KeyTable.{KeyRow, KeyTable, find_row}
use code_guda_gateway.Providers.Keys.{KeyRepo, unseal}
use code_guda_gateway.Providers.Keys.Quota.{
  ResolvedEndpointQuota, quota_key_of, quota_url_of, resolve_row, resolve_separate,
  resolve_endpoint_quota,
}

-- The two sources of credentials: the row's own pair, or its separate pair.
pub data ComesFrom (repo : KeyRepo) (r : KeyRow) (q : ResolvedEndpointQuota) : Type 0 where
  inference :
      r.quota_mode ≡ quota_endpoint_credentials
      → q.base_url ≡ r.base_url
      → unseal repo r.encrypted_key ≡ ok q.api_key
      → ComesFrom repo r q
  separate :
      (sealed : Bytes)
      → r.quota_mode ≡ quota_separate_credentials
      → r.quota_base_url ≡ some q.base_url
      → r.encrypted_quota_key ≡ some sealed
      → unseal repo sealed ≡ ok q.api_key
      → ComesFrom repo r q

quota_url_inv : (o : Option String) (url : String) → quota_url_of o ≡ some url → o ≡ some url
quota_url_inv none url h = cc
quota_url_inv (some x) url h = ground arith

quota_key_inv : (o : Option Bytes) (key : Bytes) → quota_key_of o ≡ some key → o ≡ some key
quota_key_inv none key h = cc
quota_key_inv (some k) key h = ground arith

resolve_separate-ComesFrom :
    (repo : KeyRepo) (r : KeyRow) (q : ResolvedEndpointQuota)
    → r.quota_mode ≡ quota_separate_credentials
    → resolve_separate repo r ≡ ok q
    → ComesFrom repo r q
resolve_separate-ComesFrom repo r q m h = elim (Option-cases (quota_key_of r.encrypted_quota_key)) [
  | inl none_key ↦ absurd (ground (arith, h, none_key))
  | inr (sealed, key) ↦ elim (Option-cases (quota_url_of r.quota_base_url)) [
    | inl none_url ↦ absurd (ground (arith, h, key, none_url))
    | inr (url, found) ↦
        separate sealed m (ground (arith, h, key, found, quota_url_inv r.quota_base_url url found))
          (quota_key_inv _ sealed key) (ground (arith, h, key, found))
  ]
]

resolve_row-ComesFrom :
    (repo : KeyRepo) (r : KeyRow) (q : ResolvedEndpointQuota)
    → resolve_row repo r ≡ ok q
    → ComesFrom repo r q
resolve_row-ComesFrom repo r q h = elim (Bool-cases (r.quota_mode =ₜ quota_endpoint_credentials)) [
  | inl own ↦
      let named = (eq_iff r.quota_mode quota_endpoint_credentials).0 own in
      inference named (ground (arith, h, own)) (ground (arith, h, own))
  | inr other ↦ elim (Bool-cases (r.quota_mode =ₜ quota_separate_credentials)) [
    | inl sep ↦
        resolve_separate-ComesFrom repo r q ((eq_iff r.quota_mode quota_separate_credentials).0 sep)
          (ground (arith, h, other, sep))
    | inr none_of_them ↦ absurd (ground (arith, h, other, none_of_them))
  ]
]

-- Resolved credentials are one row's: under its endpoint mode the URL and the key that requests are
-- sent with, under its separate mode the stored quota URL and quota key. Never a mixture.
pub resolve_endpoint_quota-ComesFrom :
    (repo : KeyRepo) (i : ℕ) (t : KeyTable) (q : ResolvedEndpointQuota)
    → resolve_endpoint_quota repo i t ≡ ok q
    → (r : KeyRow) × (find_row i t.rows ≡ some r) × ComesFrom repo r q
unfolding resolve_endpoint_quota
resolve_endpoint_quota-ComesFrom repo i t q h = elim (Option-cases (find_row i t.rows)) [
  | inl missing ↦ absurd (ground (arith, h, missing))
  | inr (r, found) ↦
      (r, found, resolve_row-ComesFrom repo r q (rw (found, resolve_endpoint_quota) at h))
]
