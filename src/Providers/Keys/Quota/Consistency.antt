-- ===== src/Providers/Keys/Quota/Consistency.antt =====
-- The quota columns of the rows, and `UpdateEndpointQuota` of internal/providers/keys.go.
use code_guda_gateway.Prelude.{
  ℕ, ◌≡◌, ◌≢◌, refl, subst, inl, inr, String, false, none, List, [], ◌∷◌, ◌==◌, ◌=ₜ◌, arith, eq_iff,
  ok, All, Bool-cases, Option-cases, Result-cases,
}
use code_guda_gateway.Providers.QuotaConfig.{
  EndpointQuotaInput, validate_quota_config, quota_separate_credentials,
  quota_flow_grok2api_v3_admin,
}
use code_guda_gateway.Providers.KeyTable.{KeyRow, KeyTable, find_row, update_rows, update_existing}
use code_guda_gateway.Providers.Keys.{KeyRepo}
use code_guda_gateway.Providers.Keys.Quota.{quota_change, update_endpoint_quota}

pub record QuotaFits (r : KeyRow) : Type 0 where
  pub no_url : r.quota_mode ≢ quota_separate_credentials → r.quota_base_url ≡ none
  pub no_key : r.quota_mode ≢ quota_separate_credentials → r.encrypted_quota_key ≡ none
  pub no_prefix : r.quota_flow ≡ quota_flow_grok2api_v3_admin → r.quota_key_prefix ≡ none
  pub no_fingerprint : r.quota_flow ≡ quota_flow_grok2api_v3_admin → r.quota_key_fingerprint ≡ none

QuotaFits-update_rows :
    (i : ℕ) (f : KeyRow → KeyRow) (rs : List KeyRow)
    → ((r : KeyRow) → QuotaFits r → QuotaFits (f r))
    → All QuotaFits rs
    → All QuotaFits (update_rows i f rs)
unfolding update_rows
QuotaFits-update_rows i f [] k h = tt
QuotaFits-update_rows i f (r ∷ rs) k h = elim (Bool-cases (r.id == i)) [
  | inl hit ↦ rw hit (k r h.0, QuotaFits-update_rows i f rs k h.1)
  | inr miss ↦ rw miss (h.0, QuotaFits-update_rows i f rs k h.1)
]

quota_change-QuotaFits :
    (repo : KeyRepo) (now : ℕ) (q : EndpointQuotaInput) (flow : String) (r : KeyRow)
    → QuotaFits r
    → QuotaFits (quota_change repo now q flow r)
quota_change-QuotaFits repo now q flow r h =
    elim (Bool-cases (q.mode =ₜ quota_separate_credentials)) [
      | inl sep ↦ rw sep (record {
        no_url = λ n. absurd (n ((eq_iff q.mode quota_separate_credentials).0 sep));
        no_key = λ n. absurd (n ((eq_iff q.mode quota_separate_credentials).0 sep));
        no_prefix = λ v. ground (arith, eq_iff q.flow quota_flow_grok2api_v3_admin, v);
        no_fingerprint = λ v. ground (arith, eq_iff q.flow quota_flow_grok2api_v3_admin, v);
      })
      | inr other ↦ rw other (record {
        no_url = λ n. refl;
        no_key = λ n. refl;
        no_prefix = λ v. refl;
        no_fingerprint = λ v. refl;
      })
    ]

-- Changing an endpoint's quota configuration leaves every row's quota columns fitting its mode and
-- flow: leaving separate mode drops the credentials, and entering the Grok2API v3 flow the identity.
pub update_endpoint_quota-QuotaFits :
    (repo : KeyRepo) (now i : ℕ) (input : EndpointQuotaInput) (t t' : KeyTable)
    → update_endpoint_quota repo now i input t ≡ ok t'
    → All QuotaFits t.rows
    → All QuotaFits t'.rows
unfolding update_endpoint_quota update_existing
update_endpoint_quota-QuotaFits repo now i input t t' e h =
    elim (Option-cases (find_row i t.rows)) [
      | inl missing ↦ absurd (ground (arith, e, missing))
      | inr (r, found) ↦
          elim (Result-cases
            (validate_quota_config repo.urls r.provider (record input { raw_key = "" }) false)) [
              | inl (q, valid) ↦
                  let stored : update_rows i (quota_change repo now q r.quota_flow) t.rows
                      ≡ t'.rows =
                    ground (arith, e, found, valid) in
                  subst (All QuotaFits) stored (
                    QuotaFits-update_rows i _ t.rows
                      (λ x k. quota_change-QuotaFits repo now q r.quota_flow x k) h)
              | inr (x, invalid) ↦ absurd (ground (arith, e, found, invalid))
            ]
    ]
