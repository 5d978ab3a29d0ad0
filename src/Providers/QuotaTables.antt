-- ===== src/Providers/QuotaTables.antt =====
-- internal/providers/quota.go and the storage of internal/providers/key_quota.go: the snapshots of
-- quotas, one for a provider and one for an endpoint. encoding/json is a parameter that prints a
-- snapshot's details and reads them back. A message is redacted before it is stored.
pub mod Stored
use Prim.Native.String.{compare}
use Prim.Native.Nat.{Ordering}
use mathlib.Core.Option
use code_guda_gateway.Prelude.{
  ℕ, ◌≡◌, refl, String, Bool, true, false, not, Option, none, some, List, [], ◌∷◌, ◌==◌, ◌=ₜ◌, ℤ,
  if◌then◌else◌, Result, ok, err, ◌>>=◌, ◌>>◌, require, or_fail, map_error, arith,
}
use code_guda_gateway.Timestamp.{Stamp}
use code_guda_gateway.Providers.Names
use code_guda_gateway.Providers.Names.{validate_provider}
use code_guda_gateway.Providers.Redact.{Patterns, redact}

-- A value of the details, among those that the source puts there: an `*int64` may be nil.
pub data Detail : Type 0 where
  text : String → Detail
  whole : Option ℤ → Detail

abbrev pub Details : Type 0
Details = List (String × Detail)

pub record DetailsJson : Type 0 where
  pub marshal : Details → Option String
  pub unmarshal : String → Option Details

pub record QuotaCache : Type 0 where
  pub provider : String
  pub provider_key_id : Option ℕ
  pub source : String
  pub available : Bool
  pub used : Option ℤ
  pub limit_value : Option ℤ
  pub remaining : Option ℤ
  pub period_start : Option String
  pub period_end : Option String
  pub checked_at : Stamp
  pub expires_at : Stamp
  pub message_redacted : Option String
  pub details : Option Details

pub record ProviderKeyQuota : Type 0 where
  pub provider_key_id : ℕ
  pub provider : String
  pub source : String
  pub available : Bool
  pub used : Option ℤ
  pub limit_value : Option ℤ
  pub remaining : Option ℤ
  pub period_start : Option String
  pub period_end : Option String
  pub checked_at : Stamp
  pub expires_at : Stamp
  pub message_redacted : Option String
  pub details : Option Details

-- A row keeps the details as a text; its snapshot stands without them.
pub record KeyQuotaRow : Type 0 where
  pub snapshot : ProviderKeyQuota
  pub details_json : Option String

pub data QuotaError : Type 0 where
  names : Names.Error → QuotaError
  key_id_required bad_details unprinted_details invalid_pool_view : QuotaError

-- QuotaRepo.Get
unfoldable pub find_quota : String → List QuotaCache → Option QuotaCache
find_quota provider [] = none
find_quota provider (q ∷ qs) = if q.provider =ₜ provider then some q else find_quota provider qs

unfoldable pub get_quota : String → List QuotaCache → Result QuotaError (Option QuotaCache)
unfolding find_quota
get_quota provider t = do map_error names (validate_provider provider); ok (find_quota provider t)

-- INSERT … ON CONFLICT(provider) DO UPDATE: the table has no column for the details.
unfoldable pub put_quota : QuotaCache → List QuotaCache → List QuotaCache
put_quota q [] = q ∷ []
put_quota q (r ∷ rs) =
    let rest = put_quota q rs in if r.provider =ₜ q.provider then q ∷ rs else r ∷ rest

unfoldable pub upsert_quota :
    Patterns → QuotaCache → List QuotaCache → Result QuotaError (List QuotaCache)
unfolding put_quota
upsert_quota patterns q t = do
  map_error names (validate_provider q.provider)
  ok (
      put_quota
        (record q {
          message_redacted = Option.map (redact patterns) q.message_redacted;
          details = none;
        })
        t)

-- ORDER BY provider
unfoldable pub insert_quota : QuotaCache → List QuotaCache → List QuotaCache
insert_quota q [] = q ∷ []
insert_quota q (r ∷ rs) =
    let rest = insert_quota q rs in
    elim (compare q.provider r.provider) [ Ordering.gt ↦ r ∷ rest | _ ↦ q ∷ r ∷ rs ]

unfoldable pub list_quotas : List QuotaCache → List QuotaCache
unfolding insert_quota
list_quotas [] = []
list_quotas (q ∷ qs) = insert_quota q (list_quotas qs)

-- KeyQuotaRepo.Upsert
unfoldable pub put_key_quota : KeyQuotaRow → List KeyQuotaRow → List KeyQuotaRow
put_key_quota q [] = q ∷ []
put_key_quota q (r ∷ rs) =
    let rest = put_key_quota q rs in
    if r.snapshot.provider_key_id == q.snapshot.provider_key_id then q ∷ rs else r ∷ rest

abbrev pub marshal_details : DetailsJson → Option Details → Result QuotaError (Option String)
marshal_details json none = ok none
marshal_details json (some details) =
    or_fail (json.marshal details) unprinted_details >>= λ printed. ok (some printed)

abbrev pub quota_row : Patterns → ProviderKeyQuota → Option String → KeyQuotaRow
quota_row patterns q printed = record {
  snapshot = record q {
    message_redacted = Option.map (redact patterns) q.message_redacted;
    details = none;
  };
  details_json = printed;
}

unfoldable pub upsert_key_quota :
    Patterns
    → DetailsJson
    → ProviderKeyQuota
    → List KeyQuotaRow
    → Result QuotaError (List KeyQuotaRow)
unfolding put_key_quota
upsert_key_quota patterns json q t = do
  map_error names (validate_provider q.provider)
  require (not (q.provider_key_id == 0)) key_id_required
  printed ← marshal_details json q.details
  ok (put_key_quota (quota_row patterns q printed) t)

-- scanKeyQuota: details that are NULL or empty are absent.
unfoldable pub scan_details : DetailsJson → Option String → Result QuotaError (Option Details)
scan_details json none = ok none
scan_details json (some printed) =
    if printed =ₜ ""
    then ok none
    else (or_fail (json.unmarshal printed) bad_details >>= λ details. ok (some details))

unfoldable pub scan_key_quota : DetailsJson → KeyQuotaRow → Result QuotaError ProviderKeyQuota
unfolding scan_details
scan_key_quota json r = do
  details ← scan_details json r.details_json
  ok (record r.snapshot { details = details })

unfoldable pub find_key_quota : ℕ → List KeyQuotaRow → Option KeyQuotaRow
find_key_quota i [] = none
find_key_quota i (r ∷ rs) = if r.snapshot.provider_key_id == i then some r else find_key_quota i rs

abbrev pub read_found :
    DetailsJson → Option KeyQuotaRow → Result QuotaError (Option ProviderKeyQuota)
read_found json none = ok none
read_found json (some r) = scan_key_quota json r >>= λ q. ok (some q)

-- KeyQuotaRepo.Get
unfoldable pub get_key_quota :
    DetailsJson → ℕ → List KeyQuotaRow → Result QuotaError (Option ProviderKeyQuota)
unfolding find_key_quota scan_key_quota
get_key_quota json i t = read_found json (find_key_quota i t)

-- ListByProvider: the rows of a provider, in the table's order.
unfoldable pub scan_of_provider :
    DetailsJson → String → List KeyQuotaRow → Result QuotaError (List ProviderKeyQuota)
unfolding scan_key_quota
scan_of_provider json provider [] = ok []
scan_of_provider json provider (r ∷ rs) =
    let rest = scan_of_provider json provider rs in
    if r.snapshot.provider =ₜ provider
    then (scan_key_quota json r >>= λ q. rest >>= λ qs. ok (q ∷ qs))
    else rest

unfoldable pub list_by_provider :
    DetailsJson → String → List KeyQuotaRow → Result QuotaError (List ProviderKeyQuota)
unfolding scan_of_provider
list_by_provider json provider t = do
  map_error names (validate_provider provider)
  scan_of_provider json provider t
