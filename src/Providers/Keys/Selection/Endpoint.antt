-- ===== src/Providers/Keys/Selection/Endpoint.antt =====
-- `SelectEndpoint` of internal/providers/keys.go, on its success and its errors.
use code_guda_gateway.Prelude.{
  ℕ, ◌≡◌, ◌≢◌, inl, inr, String, false, Option, none, some, arith, In, Result, ok, err, ◌>>=◌,
  or_fail, subst, ◌↔◌, >>=-eq-ok, Option-cases,
}
use code_guda_gateway.Timestamp.{Stamp, format}
use code_guda_gateway.Providers.Names.{Error, no_enabled_key, validate_provider}
use code_guda_gateway.Providers.KeyTable.{KeyRow, KeyTable, update}
use code_guda_gateway.Providers.Keys.{KeyRepo, SelectedEndpoint, endpoint_of, unseal}
use code_guda_gateway.Providers.Keys.Selection.{is_eligible, select_row, used, select_endpoint}
use code_guda_gateway.Providers.Keys.Selection.Best.{IsBest, Selects, select_row-Selects}

or_fail-eq-ok {ℓ} :
    {E : Type 0} {A : Type ℓ} (o : Option A) (e : E) {a : A} → or_fail o e ≡ ok a → o ≡ some a
or_fail-eq-ok none e h = cc
or_fail-eq-ok (some a) e h = cc

module _ (repo : KeyRepo) (now : ℕ) (provider : String) (t : KeyTable) where
  abbrev pub stamp : Stamp
  stamp = format repo.calendar now

  -- What a success tells: the row it came from.
  pub record Selected (e : SelectedEndpoint) (t' : KeyTable) : Type 0 where
    pub row : KeyRow
    pub best : IsBest provider stamp t.rows row
    pub same_id : e.id ≡ row.id
    pub same_name : e.name ≡ row.name
    pub same_url : e.base_url ≡ row.base_url
    pub same_key : unseal repo row.encrypted_key ≡ ok e.api_key
    pub recorded : t' ≡ update row.id (used stamp) t

  -- A selected endpoint is one row's pair of URL and key; the row is eligible, no eligible row of
  -- the provider comes before it, and only its use is recorded.
  pub select_endpoint-Selected :
      {e : SelectedEndpoint} {t' : KeyTable}
      → select_endpoint repo now provider t ≡ ok (e, t')
      → Selected e t'
  unfolding select_endpoint
  select_endpoint-Selected {e} {t'} h =
      let (_, valid, h₁) = >>=-eq-ok (validate_provider provider) _ h in
      let (r, found, h₂) =
        >>=-eq-ok (or_fail (select_row provider stamp t.rows) no_enabled_key) _ h₁ in
      let (plain, opened, h₃) = >>=-eq-ok (unseal repo r.encrypted_key) _ h₂ in
      record {
        row = r;
        best =
            subst (Selects provider stamp t.rows) (or_fail-eq-ok _ _ found)
              (select_row-Selects provider stamp t.rows);
        same_id = ground arith;
        same_name = ground arith;
        same_url = ground arith;
        same_key = ground arith;
        recorded = ground arith;
      }

  -- What follows the choice of a row.
  abbrev opened : KeyRow → Result Error (SelectedEndpoint × KeyTable)
  opened r =
      unseal repo r.encrypted_key >>= λ plain. ok (endpoint_of r plain, update r.id (used stamp) t)

  opened_or_secret : (r : KeyRow) → opened r ≢ err no_enabled_key
  opened_or_secret r e = ground arith

  -- For a known provider the selection reports that no key is enabled exactly where no row is
  -- eligible.
  pub select_endpoint-none :
      validate_provider provider ≡ ok tt
      → (select_endpoint repo now provider t ≡ err no_enabled_key
          ↔ ((s : KeyRow) → In s t.rows → is_eligible provider stamp s ≡ false))
  unfolding select_endpoint
  select_endpoint-none valid = (λ h. none_eligible h, λ h. none_found h)
    where
      none_eligible :
          select_endpoint repo now provider t ≡ err no_enabled_key
          → (s : KeyRow) → In s t.rows
          → is_eligible provider stamp s ≡ false
      none_eligible h = elim (Option-cases (select_row provider stamp t.rows)) [
        | inl e ↦ subst (Selects provider stamp t.rows) e (select_row-Selects provider stamp t.rows)
        | inr (r, e) ↦ absurd (opened_or_secret r (ground (arith, valid, e, h)))
      ]

      none_found :
          ((s : KeyRow) → In s t.rows → is_eligible provider stamp s ≡ false)
          → select_endpoint repo now provider t ≡ err no_enabled_key
      none_found h = elim (Option-cases (select_row provider stamp t.rows)) [
        | inl e ↦ ground (arith, valid, e)
        | inr (r, e) ↦
            let best =
              subst (Selects provider stamp t.rows) e (select_row-Selects provider stamp t.rows) in
            cc (h r best.present, best.eligible)
      ]
