-- ===== src/Providers/Refresh/Routing/Keys.antt =====
-- internal/providers/quota_refresh.go: RefreshKey and RefreshAllKeys leave what routing reads.
use code_guda_gateway.Prelude.{
  ℕ, ◌≡◌, refl, ◌∙◌, ap, String, Bool, true, Option, none, some, List, [], ◌∷◌, arith, Option-cases,
  Result-cases, inl, inr,
}
use code_guda_gateway.Providers.Names.{provider_tavily, provider_firecrawl}
use code_guda_gateway.Providers.Keys.Quota.{ResolvedEndpointQuota, resolve_endpoint_quota}
use code_guda_gateway.Providers.Keys.Display.{DisplayProviderKey, get, list}
use code_guda_gateway.Providers.Endpoints.{join_endpoint_url}
use code_guda_gateway.Providers.QuotaTables.{
  QuotaCache, ProviderKeyQuota, KeyQuotaRow, upsert_key_quota,
}
use code_guda_gateway.Providers.Refresh.{World, send, get_json, post_json, record_event_of}
use code_guda_gateway.Providers.Refresh.Endpoint.{
  QuotaRefresher, times_at, parse_tavily, parse_firecrawl, of_flow, fetch_endpoint,
  fetch_admin_tokens, fetch_flow, refresh_from_sidecar, refresh_key,
}
use code_guda_gateway.Providers.Refresh.Provider.{
  RefreshAllKeyQuotasResult, store_key, attempt_key, Sweep, sweep_key, sweep_keys, refresh_all_keys,
  skip_of,
}
use code_guda_gateway.Providers.Refresh.Routing.{
  routing, record_event_of-routing, fetch_accounts-routing,
}

module _ {N : Type 0} (r : QuotaRefresher N) (now : ℕ) where
  fetch_admin_tokens-routing :
      (base admin_key : String) (i : Option ℕ) (recorded : Bool) (w : World N)
      → routing (fetch_admin_tokens r now base admin_key i recorded w).1.keys ≡ routing w.keys
  unfolding fetch_admin_tokens get_json post_json send
  fetch_admin_tokens-routing base admin_key i recorded w =
      record_event_of-routing r.keys now recorded i _ _ _

  fetch_endpoint-routing :
      (provider source path : String) (i : ℕ) (base_url api_key : String)
      (parse : Option ℕ → String → QuotaCache) (w : World N)
      → routing (fetch_endpoint r now provider source path i base_url api_key parse w).1.keys
        ≡ routing w.keys
  unfolding fetch_endpoint record_event_of get_json send
  fetch_endpoint-routing provider source path i base_url api_key parse w =
      elim (Result-cases (join_endpoint_url r.keys.urls base_url path "")) [
        | inl (url, e) ↦
            rw (e, fetch_endpoint)
              (record_event_of-routing r.keys now true (some i)
                (get_json r.client url api_key w).0.status (get_json r.client url api_key w).0.error
                (get_json r.client url api_key w).1)
        | inr (e, failed) ↦ rw (failed, fetch_endpoint) refl
      ]

  fetch_flow-routing :
      (q : ResolvedEndpointQuota) (w : World N)
      → routing (fetch_flow r now q w).1.keys ≡ routing w.keys
  unfolding fetch_flow
  fetch_flow-routing q w = ground (
    arith,
    fetch_admin_tokens-routing q.base_url q.api_key (some q.endpoint_id) true w,
    fetch_accounts-routing r.keys now r.client r.json.accounts (times_at r.keys now) q.base_url
        q.api_key (some q.endpoint_id) true w,
    fetch_endpoint-routing provider_tavily "tavily_usage" "/usage" q.endpoint_id q.base_url
        q.api_key (parse_tavily r.json (times_at r.keys now)) w,
    fetch_endpoint-routing provider_firecrawl "firecrawl_credit_usage" "/team/credit-usage"
        q.endpoint_id q.base_url q.api_key (parse_firecrawl r.json (times_at r.keys now)) w,
  )

  of_flow-keys :
      (k : DisplayProviderKey) (fetched : Option QuotaCache × World N)
      → (of_flow r now k fetched).1 ≡ fetched.1
  of_flow-keys k (none, w) = refl
  of_flow-keys k (some q, w) = refl

  refresh_from_sidecar-routing :
      (k : DisplayProviderKey) (w : World N)
      → routing (refresh_from_sidecar r now k w).1.keys ≡ routing w.keys
  unfolding refresh_from_sidecar
  refresh_from_sidecar-routing k w =
      elim (Result-cases (resolve_endpoint_quota r.keys k.id w.keys)) [
        | inl (q, e) ↦
            rw (e, refresh_from_sidecar)
              (ap (λ v. routing v.keys) (of_flow-keys k (fetch_flow r now q w))
                ∙ fetch_flow-routing q w)
        | inr (e, failed) ↦ rw (failed, refresh_from_sidecar) refl
      ]

  -- The refresh of an endpoint's quota changes the endpoints' table at most in the last events and
  -- the times of the last change.
  pub refresh_key-routing :
      (i : ℕ) (w : World N) (quotas : List KeyQuotaRow)
      → routing (refresh_key r now i w quotas).1.keys ≡ routing w.keys
  unfolding refresh_key
  refresh_key-routing i w quotas = elim (Result-cases (get i w.keys)) [
    | inl (k, e) ↦ rw (e, refresh_key) (refresh_from_sidecar-routing k w)
    | inr (e, failed) ↦ rw (failed, refresh_key) refl
  ]

  store_key-world :
      (provider : String) (k : DisplayProviderKey) (made : ProviderKeyQuota × World N)
      (out : RefreshAllKeyQuotasResult) (quotas : List KeyQuotaRow)
      → (store_key r now provider k made out quotas).world ≡ made.1
  store_key-world provider k (q, after) out quotas =
      elim (Result-cases (upsert_key_quota r.keys.patterns r.json.details q quotas)) [
        | inl (rows, e) ↦ rw (e, store_key) refl
        | inr (e, failed) ↦ rw (failed, store_key) refl
      ]

  sweep_key-routing :
      (provider : String) (k : DisplayProviderKey) (s : Sweep N)
      → routing (sweep_key r now provider k s).world.keys ≡ routing s.world.keys
  unfolding sweep_key
  sweep_key-routing provider k s =
      elim (Option-cases (skip_of (record { parse_stamp = r.parse_stamp; now = now }) k)) [
        | inl e ↦
            rw (e, sweep_key)
              (ap (λ v. routing v.keys)
                  (store_key-world provider k (refresh_from_sidecar r now k s.world)
                    (attempt_key s.out) s.quotas)
                ∙ refresh_from_sidecar-routing k s.world)
        | inr (why, e) ↦ rw (e, sweep_key) refl
      ]

  sweep_keys-routing :
      (provider : String) (ks : List DisplayProviderKey) (s : Sweep N)
      → routing (sweep_keys r now provider ks s).world.keys ≡ routing s.world.keys
  unfolding sweep_keys
  sweep_keys-routing provider [] s = refl
  sweep_keys-routing provider (k ∷ ks) s =
      let after = sweep_key r now provider k s in
      elim (Option-cases after.error) [
        | inl e ↦
            rw (e, sweep_keys)
              (sweep_keys-routing provider ks after ∙ sweep_key-routing provider k s)
        | inr (stopped, e) ↦ rw (e, sweep_keys) (sweep_key-routing provider k s)
      ]

  -- So does the refresh of all endpoints of a provider, however it ends.
  pub refresh_all_keys-routing :
      (provider : String) (w : World N) (quotas : List KeyQuotaRow)
      → routing (refresh_all_keys r now provider w quotas).world.keys ≡ routing w.keys
  unfolding refresh_all_keys
  refresh_all_keys-routing provider w quotas = elim (Result-cases (list provider w.keys)) [
    | inl (ks, e) ↦ rw (e, refresh_all_keys) (sweep_keys-routing provider ks _)
    | inr (e, failed) ↦ rw (failed, refresh_all_keys) refl
  ]
