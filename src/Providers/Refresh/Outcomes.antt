-- ===== src/Providers/Refresh/Outcomes.antt =====
-- internal/providers/quota_refresh.go: what RefreshAllKeys reports adds up.
use code_guda_gateway.Prelude.{
  ℕ, ◌+◌, ◌≡◌, refl, ◌∙◌, sym, ap, subst, String, Bool, none, List, [], ◌∷◌, ◌++◌, map, length,
  length-append, ok, arith, Option-cases, Result-cases, inl, inr,
}
use code_guda_gateway.Providers.Keys.Display.{DisplayProviderKey, list}
use code_guda_gateway.Providers.QuotaTables.{ProviderKeyQuota, KeyQuotaRow, upsert_key_quota}
use code_guda_gateway.Providers.Refresh.{World}
use code_guda_gateway.Providers.Refresh.Endpoint.{QuotaRefresher, refresh_from_sidecar}
use code_guda_gateway.Providers.Refresh.Provider.{
  RefreshAllKeyQuotasResult, KeyQuotaRefreshResult, Skip, skip_of, skip_key, finish_key,
  attempt_key, store_key, start_sweep, Sweep, sweep_key, sweep_keys, refresh_all_keys, count_skip,
  count_attempt,
}

abbrev pub skipped : RefreshAllKeyQuotasResult → ℕ
skipped out =
    out.skipped_cooldown + out.skipped_disabled + out.skipped_archived + out.skipped_not_configured

abbrev pub result_ids : List KeyQuotaRefreshResult → List ℕ
result_ids = map (λ one. one.provider_key_id)

-- After the endpoints of `ids`.
pub record IsTallied (ids : List ℕ) (out : RefreshAllKeyQuotasResult) : Type 0 where
  pub attempts : out.attempted ≡ out.succeeded + out.failed
  pub all : out.attempted + skipped out ≡ length ids
  pub results : result_ids out.key_results ≡ ids

map-append :
    (xs ys : List KeyQuotaRefreshResult) → result_ids (xs ++ ys) ≡ result_ids xs ++ result_ids ys
map-append [] ys = refl
map-append (x ∷ xs) ys = ap (◌∷◌ x.provider_key_id) (map-append xs ys)

appended_ids :
    (one : KeyQuotaRefreshResult) (before : List KeyQuotaRefreshResult) (ids : List ℕ)
    → result_ids before ≡ ids
    → result_ids (before ++ one ∷ []) ≡ ids ++ one.provider_key_id ∷ []
appended_ids one before ids e =
    map-append before (one ∷ []) ∙ ap (λ xs. xs ++ one.provider_key_id ∷ []) e

count_skip-results :
    (why : Skip) (out : RefreshAllKeyQuotasResult)
    → (count_skip why out).key_results ≡ out.key_results
count_skip-results why out = ground arith

skip_key-IsTallied :
    (provider : String) (k : DisplayProviderKey) (why : Skip) (out : RefreshAllKeyQuotasResult)
    (ids : List ℕ)
    → IsTallied ids out
    → IsTallied (ids ++ k.id ∷ []) (skip_key provider k why out)
unfolding skip_key
skip_key-IsTallied provider k why out ids t = record {
  attempts = ground (arith, t.attempts);
  all = ground (arith, t.all, length-append ids (k.id ∷ []));
  results =
      appended_ids _ (count_skip why out).key_results ids
        (ap result_ids (count_skip-results why out) ∙ t.results);
}

count_attempt-results :
    (available : Bool) (out : RefreshAllKeyQuotasResult)
    → (count_attempt available out).key_results ≡ out.key_results
count_attempt-results available out = ground arith

finish_key-IsTallied :
    (provider : String) (k : DisplayProviderKey) (q : ProviderKeyQuota)
    (out : RefreshAllKeyQuotasResult) (ids : List ℕ)
    → IsTallied ids out
    → IsTallied (ids ++ k.id ∷ []) (finish_key provider k q (attempt_key out))
unfolding finish_key
finish_key-IsTallied provider k q out ids t = record {
  attempts = ground (arith, t.attempts);
  all = ground (arith, t.all, length-append ids (k.id ∷ []));
  results =
      appended_ids _ (count_attempt q.available (attempt_key out)).key_results ids
        (ap result_ids (count_attempt-results q.available (attempt_key out)) ∙ t.results);
}

module _ {N : Type 0} (r : QuotaRefresher N) (now : ℕ) where
  store_key-IsTallied :
      (provider : String) (k : DisplayProviderKey) (made : ProviderKeyQuota × World N)
      (out : RefreshAllKeyQuotasResult) (quotas : List KeyQuotaRow) (ids : List ℕ)
      → IsTallied ids out
      → (store_key r now provider k made (attempt_key out) quotas).error ≡ none
      → IsTallied (ids ++ k.id ∷ []) (store_key r now provider k made (attempt_key out) quotas).out
  store_key-IsTallied provider k (q, after) out quotas ids t =
      elim (Result-cases (upsert_key_quota r.keys.patterns r.json.details q quotas)) [
        | inl (rows, e) ↦ rw (e, store_key) (λ _. finish_key-IsTallied provider k q out ids t)
        | inr (e, failed) ↦ rw (failed, store_key) (λ stopped. absurd (ground (arith, stopped)))
      ]

  sweep_key-IsTallied :
      (provider : String) (k : DisplayProviderKey) (s : Sweep N) (ids : List ℕ)
      → IsTallied ids s.out
      → s.error ≡ none
      → (sweep_key r now provider k s).error ≡ none
      → IsTallied (ids ++ k.id ∷ []) (sweep_key r now provider k s).out
  unfolding sweep_key
  sweep_key-IsTallied provider k s ids t running =
      elim (Option-cases (skip_of (record { parse_stamp = r.parse_stamp; now = now }) k)) [
        | inl e ↦
            rw (e, sweep_key)
              (store_key-IsTallied provider k (refresh_from_sidecar r now k s.world) s.out s.quotas
                ids t)
        | inr (why, e) ↦ rw (e, sweep_key) (λ _. skip_key-IsTallied provider k why s.out ids t)
      ]

  append_cons : (ids : List ℕ) (i : ℕ) (rest : List ℕ) → (ids ++ i ∷ []) ++ rest ≡ ids ++ i ∷ rest
  append_cons [] i rest = refl
  append_cons (j ∷ ids) i rest = ap (◌∷◌ j) (append_cons ids i rest)

  append_nil : (ids : List ℕ) → ids ++ [] ≡ ids
  append_nil [] = refl
  append_nil (j ∷ ids) = ap (◌∷◌ j) (append_nil ids)

  sweep_keys-IsTallied :
      (provider : String) (ks : List DisplayProviderKey) (s : Sweep N) (ids : List ℕ)
      → IsTallied ids s.out
      → s.error ≡ none
      → (sweep_keys r now provider ks s).error ≡ none
      → IsTallied (ids ++ map (λ k. k.id) ks) (sweep_keys r now provider ks s).out
  unfolding sweep_keys
  sweep_keys-IsTallied provider [] s ids t running =
      λ _. subst (λ all. IsTallied all s.out) (sym (append_nil ids)) t
  sweep_keys-IsTallied provider (k ∷ ks) s ids t running =
      let after = sweep_key r now provider k s in
      elim (Option-cases after.error) [
        | inl e ↦
            rw (e, sweep_keys)
              (λ ended.
                subst (λ all. IsTallied all (sweep_keys r now provider ks after).out)
                  (append_cons ids k.id (map (λ k. k.id) ks))
                  (sweep_keys-IsTallied provider ks after (ids ++ k.id ∷ [])
                    (sweep_key-IsTallied provider k s ids t running e) e ended))
        | inr (stopped, e) ↦ rw (e, sweep_keys) (λ ended. absurd (ground (arith, e, ended)))
      ]

  -- A refresh of all endpoints of a provider that ends without an error reports each listed
  -- endpoint once, in the order of the list; it counts each as attempted or as skipped, and each
  -- attempted one as succeeded or as failed.
  pub refresh_all_keys-IsTallied :
      (provider : String) (w : World N) (quotas : List KeyQuotaRow) (ks : List DisplayProviderKey)
      → list provider w.keys ≡ ok ks
      → (refresh_all_keys r now provider w quotas).error ≡ none
      → IsTallied (map (λ k. k.id) ks) (refresh_all_keys r now provider w quotas).out
  unfolding refresh_all_keys
  refresh_all_keys-IsTallied provider w quotas ks e =
      rw (e, refresh_all_keys)
        (sweep_keys-IsTallied provider ks (start_sweep provider w quotas) []
          (record { attempts = omega arith; all = omega arith; results = refl }) refl)
