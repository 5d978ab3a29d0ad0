-- ===== src/Providers/QuotaTables/Stored.antt =====
-- internal/providers/key_quota.go: a stored snapshot is the one that is read.
use code_guda_gateway.Prelude.{
  ℕ, ◌≡◌, refl, ap, sym, ◌∙◌, String, Bool, true, false, not, Option, some, List, [], ◌∷◌, ◌==◌,
  Result, ok, err, none, subst, Option-cases, Bool-cases, eq_iff, ◌=ₜ◌, ◌>>=◌, Result-cases, inl,
  inr, if◌then◌else◌, arith, >>=-eq-ok, require, map_error,
}
use mathlib.Core.Option
use code_guda_gateway.Providers.Names.{validate_provider}
use code_guda_gateway.Providers.Redact.{Patterns, redact}
use code_guda_gateway.Providers.QuotaTables.{
  Details, bad_details, DetailsJson, ProviderKeyQuota, KeyQuotaRow, QuotaError, key_id_required,
  names, marshal_details, scan_details, scan_key_quota, quota_row, upsert_key_quota, put_key_quota,
  find_key_quota, get_key_quota, read_found,
}

find_key_quota-put :
    (q : KeyQuotaRow) (i : ℕ) (rs : List KeyQuotaRow)
    → find_key_quota i (put_key_quota q rs)
      ≡ (if q.snapshot.provider_key_id == i then some q else find_key_quota i rs)
unfolding find_key_quota put_key_quota
find_key_quota-put q i [] = refl
find_key_quota-put q i (r ∷ rs) = ground (arith, find_key_quota-put q i rs)

get_key_quota-put :
    (json : DetailsJson) (q : KeyQuotaRow) (i : ℕ) (rs : List KeyQuotaRow)
    → get_key_quota json i (put_key_quota q rs) ≡ (
        if q.snapshot.provider_key_id == i
        then read_found json (some q)
        else get_key_quota json i rs)
unfolding get_key_quota
get_key_quota-put json q i rs =
    rw (find_key_quota-put q i rs) (chosen (q.snapshot.provider_key_id == i))
  where
    chosen :
        (c : Bool)
        → read_found json (if c then some q else find_key_quota i rs)
          ≡ (if c then read_found json (some q) else read_found json (find_key_quota i rs))
    chosen true = refl
    chosen false = refl

abbrev ok_rows : List KeyQuotaRow → Result QuotaError (List KeyQuotaRow)
ok_rows = ok

ok-inj : {t u : List KeyQuotaRow} → ok_rows t ≡ ok_rows u → t ≡ u
ok-inj e = cc

-- The details that a read of a row gives, and the snapshot around them.
read_row :
    (json : DetailsJson) (r : KeyQuotaRow)
    → read_found json (some r) ≡ (
        scan_details json r.details_json >>= λ details.
        ok (some (record r.snapshot { details = details })))
unfolding scan_key_quota
read_row json r = elim (Result-cases (scan_details json r.details_json)) [
  | inl (details, e) ↦ rw e refl
  | inr (x, e) ↦ rw e refl
]

-- The details as JSON reads back what it printed of them: none for none and for an empty text, an
-- error for a text that it does not read.
pub data IsReadBack (json : DetailsJson) (details : Option Details)
    : Result QuotaError (Option Details) → Type 0 where
  no_details : details ≡ none → IsReadBack json details (ok none)
  empty_text :
      (ds : Details)
      → details ≡ some ds
      → json.marshal ds ≡ some ""
      → IsReadBack json details (ok none)
  unreadable :
      (ds : Details) (printed : String)
      → details ≡ some ds
      → json.marshal ds ≡ some printed
      → json.unmarshal printed ≡ none
      → IsReadBack json details (err bad_details)
  read_back :
      (ds ds' : Details) (printed : String)
      → details ≡ some ds
      → json.marshal ds ≡ some printed
      → json.unmarshal printed ≡ some ds'
      → IsReadBack json details (ok (some ds'))

scan_details-IsReadBack :
    (json : DetailsJson) (details : Option Details) (printed : Option String)
    → marshal_details json details ≡ ok printed
    → IsReadBack json details (scan_details json printed)
unfolding scan_details
scan_details-IsReadBack json none printed h =
    let same : none ≡ printed = ground (arith, h) in
    subst (λ p. IsReadBack json none (scan_details json p)) same (no_details refl)
scan_details-IsReadBack json (some ds) printed h = elim (Option-cases (json.marshal ds)) [
  | inl failed ↦ absurd (ground (arith, h, failed))
  | inr (text, made) ↦
      let same : some text ≡ printed = ground (arith, h, made) in
      subst (λ p. IsReadBack json (some ds) (scan_details json p)) same
        (elim (Bool-cases (text =ₜ "")) [
          | inl empty ↦ rw empty (
              empty_text ds refl
                (subst (λ x. json.marshal ds ≡ some x) ((eq_iff text "").0 empty) made))
          | inr given ↦ elim (Option-cases (json.unmarshal text)) [
            | inl bad ↦ rw given (rw bad (unreadable ds text refl made bad))
            | inr (ds', read) ↦ rw given (rw read (read_back ds ds' text refl made read))
          ]
        ])
]

-- After a snapshot was stored for an endpoint, a read gives under its id that snapshot, each field
-- as it was but the message, which is redacted, and the details, which are what JSON reads back from
-- what it printed; under another id the read gives what it gave before.
pub get-upsert_key_quota :
    (patterns : Patterns) (json : DetailsJson) (q : ProviderKeyQuota) (t t' : List KeyQuotaRow)
    (i : ℕ)
    → upsert_key_quota patterns json q t ≡ ok t'
    → (back : Result QuotaError (Option Details)) × IsReadBack json q.details back
      × (get_key_quota json i t' ≡ (
          if q.provider_key_id == i
          then (back >>= λ details. ok (
              some (record {
                provider_key_id = q.provider_key_id;
                provider = q.provider;
                source = q.source;
                available = q.available;
                used = q.used;
                limit_value = q.limit_value;
                remaining = q.remaining;
                period_start = q.period_start;
                period_end = q.period_end;
                checked_at = q.checked_at;
                expires_at = q.expires_at;
                message_redacted = Option.map (redact patterns) q.message_redacted;
                details = details;
              })))
          else get_key_quota json i t))
unfolding upsert_key_quota
get-upsert_key_quota patterns json q t t' i went =
    let (checked, _, rest) = >>=-eq-ok (map_error names (validate_provider q.provider)) _ went in
    let (given, _, more) =
      >>=-eq-ok (require (not (q.provider_key_id == 0)) key_id_required) _ rest in
    let (printed, marshalled, made) = >>=-eq-ok (marshal_details json q.details) _ more in
    let row = quota_row patterns q printed in
    (
      scan_details json printed,
      scan_details-IsReadBack json q.details printed marshalled,
      ap (get_key_quota json i) (sym (ok-inj made))
          ∙ get_key_quota-put json row i t
          ∙ ap (λ x. if q.provider_key_id == i then x else get_key_quota json i t)
              (read_row json row),
    )
