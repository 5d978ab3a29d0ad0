-- ===== src/Providers/KeyTable.antt =====
-- The table provider_keys (internal/store/migrations.go) and the statements that
-- internal/providers/keys.go runs on it. Rows stand in the order of their ids; AUTOINCREMENT never
-- hands an id out again. The statements themselves do not fail.
use code_guda_gateway.Prelude.{
  ℕ, ◌≡◌, String, Bool, true, false, ◌&&◌, Option, none, some, List, [], ◌∷◌, ◌==◌, ◌=ₜ◌,
  if◌then◌else◌, arith, Result, ok, err,
}
use mathlib.Core.Option
use code_guda_gateway.Timestamp.{Stamp}
use code_guda_gateway.Secrets.{Bytes}
use code_guda_gateway.Providers.Names.{Error, provider_key_not_found}

pub record KeyRow : Type 0 where
  pub id : ℕ
  pub provider : String
  pub name : String
  pub base_url : String
  pub encrypted_key : Bytes
  pub key_prefix : String
  pub fingerprint : String
  pub enabled : Bool
  pub cooldown_until : Option Stamp
  pub cooldown_reason : Option String
  pub last_failed_at : Option Stamp
  pub last_used_at : Option Stamp
  pub last_success_at : Option Stamp
  pub last_error_at : Option Stamp
  pub last_error_status : Option ℕ
  pub last_error_message_redacted : Option String
  pub archived_at : Option Stamp
  pub last_event_at : Option Stamp
  pub last_event_source : Option String
  pub last_event_status_class : Option String
  pub last_event_http_status : Option ℕ
  pub last_event_message_redacted : Option String
  pub consecutive_failures : ℕ
  pub total_failures : ℕ
  pub created_at : Stamp
  pub updated_at : Stamp
  pub quota_mode : String
  pub quota_flow : String
  pub quota_base_url : Option String
  pub encrypted_quota_key : Option Bytes
  pub quota_key_prefix : Option String
  pub quota_key_fingerprint : Option String

pub record KeyTable : Type 0 where
  pub rows : List KeyRow
  pub next_id : ℕ

-- SELECT … WHERE id = ?
unfoldable pub find_row : ℕ → List KeyRow → Option KeyRow
find_row i [] = none
find_row i (r ∷ rs) = if r.id == i then some r else find_row i rs

-- SELECT COUNT(*) … WHERE provider = ? AND name = ?, asked whether it is more than 0
unfoldable pub has_name : String → String → List KeyRow → Bool
has_name provider name [] = false
has_name provider name (r ∷ rs) =
    if r.provider =ₜ provider && r.name =ₜ name then true else has_name provider name rs

-- UPDATE … SET … WHERE id = ?
unfoldable pub update_rows : ℕ → (KeyRow → KeyRow) → List KeyRow → List KeyRow
update_rows i f [] = []
update_rows i f (r ∷ rs) = (if r.id == i then f r else r) ∷ update_rows i f rs

-- DELETE … WHERE id = ?
unfoldable pub delete_rows : ℕ → List KeyRow → List KeyRow
delete_rows i [] = []
delete_rows i (r ∷ rs) = if r.id == i then delete_rows i rs else r ∷ delete_rows i rs

unfoldable pub update : ℕ → (KeyRow → KeyRow) → KeyTable → KeyTable
unfolding update_rows
update i f t = record t { rows = update_rows i f t.rows }

-- An update that reports ErrProviderKeyNotFound when no row was affected.
unfoldable pub update_existing : ℕ → (KeyRow → KeyRow) → KeyTable → Result Error KeyTable
unfolding update find_row
update_existing i f t = elim (find_row i t.rows) [
  | none ↦ err provider_key_not_found
  | some r ↦ ok (update i f t)
]

-- A change of a row leaves its identity: the id, the provider and the name.
pub record KeepsIdentity (f : KeyRow → KeyRow) : Type 0 where
  pub id : (r : KeyRow) → (f r).id ≡ r.id
  pub provider : (r : KeyRow) → (f r).provider ≡ r.provider
  pub name : (r : KeyRow) → (f r).name ≡ r.name

-- What an update shows to a later lookup: the changed row under its id, and every other row as it was.
pub find_row-update_rows :
    (i j : ℕ) (f : KeyRow → KeyRow) (rs : List KeyRow)
    → KeepsIdentity f
    → find_row j (update_rows i f rs)
      ≡ (if i == j then Option.map f (find_row j rs) else find_row j rs)
unfolding find_row update_rows
find_row-update_rows i j f [] k = ground arith
find_row-update_rows i j f (r ∷ rs) k = ground (arith, k.id r, find_row-update_rows i j f rs k)
