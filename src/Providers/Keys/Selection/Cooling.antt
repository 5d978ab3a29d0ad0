-- ===== src/Providers/Keys/Selection/Cooling.antt =====
-- The cooldown that `MarkFailureWithCooldown` writes, as `SelectEndpoint` of
-- internal/providers/keys.go reads it.
use code_guda_gateway.Prelude.{
  ℕ, ◌+◌, ◌≤◌, ◌≡◌, ◌≢◌, refl, ap, sym, ◌∙◌, inl, inr, String, false, Option, some, List, [], ◌∷◌,
  ◌==◌, arith, In, ok, Bool-cases,
}
use code_guda_gateway.Timestamp.{second, format, lt_bytes_asymm, format_lt_of_second_apart}
use code_guda_gateway.Providers.KeyTable.{KeyRow, KeyTable, KeepsIdentity, update_rows, update}
use code_guda_gateway.Providers.Keys.{KeyRepo, SelectedEndpoint}
use code_guda_gateway.Providers.Keys.State.{failed, mark_failure_with_cooldown}
use code_guda_gateway.Providers.Keys.Selection.{is_eligible, select_endpoint}
use code_guda_gateway.Providers.Keys.Selection.Endpoint.{select_endpoint-Selected}

-- The rows of an updated table: under the id the changed rows, elsewhere the old ones.
In-update_rows :
    (i : ℕ) (f : KeyRow → KeyRow) (rs : List KeyRow) (r : KeyRow)
    → KeepsIdentity f
    → In r (update_rows i f rs)
    → r.id ≡ i
    → (s : KeyRow) × (f s ≡ r)
unfolding update_rows
In-update_rows i f [] r k m e = absurd m
In-update_rows i f (s ∷ rs) r k (inl here) e = elim (Bool-cases (s.id == i)) [
  | inl hit ↦ (s, ground (arith, here))
  | inr miss ↦
      let same : s ≡ r = rw miss at here in
      absurd (ground (arith, miss, ap (λ (x : KeyRow). x.id) same))
]
In-update_rows i f (s ∷ rs) r k (inr m) e = In-update_rows i f rs r k m e

module _ (repo : KeyRepo) where
  failed-KeepsIdentity :
      (t₀ status : ℕ) (msg : String) (until : Option ℕ) (reason : Option String)
      → KeepsIdentity (failed repo t₀ status msg until reason)
  failed-KeepsIdentity t₀ status msg until reason = record {
    id = λ r. refl;
    provider = λ r. refl;
    name = λ r. refl;
  }

  not_cooled :
      (now until : ℕ) (provider : String) (r : KeyRow)
      → now + second ≤ until
      → r.cooldown_until ≡ some (format repo.calendar until)
      → is_eligible provider (format repo.calendar now) r ≡ false
  unfolding is_eligible
  not_cooled now until provider r h e = ground (
    arith,
    format_lt_of_second_apart repo.calendar now until h,
    lt_bytes_asymm (format repo.calendar now) (format repo.calendar until),
  )

  -- After a failure with a cooldown up to `until`, no selection made a second or more before
  -- `until` hands out that endpoint again.
  pub mark_failure_cools :
      (i t₀ status now until : ℕ) (msg provider : String) (reason : Option String) (t t' : KeyTable)
      (e : SelectedEndpoint)
      → now + second ≤ until
      → select_endpoint repo now provider
          (mark_failure_with_cooldown repo t₀ i status msg (some until) reason t)
        ≡ ok (e, t')
      → e.id ≢ i
  unfolding mark_failure_with_cooldown update
  mark_failure_cools i t₀ status now until msg provider reason t t' e h sel same =
      let marked = mark_failure_with_cooldown repo t₀ i status msg (some until) reason t in
      let chosen = select_endpoint-Selected repo now provider marked sel in
      let (s, changed) =
        In-update_rows i (failed repo t₀ status msg (some until) reason) t.rows chosen.row
          (failed-KeepsIdentity t₀ status msg (some until) reason) chosen.best.present
          (sym chosen.same_id ∙ same) in
      cc (
        chosen.best.eligible,
        not_cooled now until provider chosen.row h
            (sym (ap (λ (r : KeyRow). r.cooldown_until) changed)),
      )
