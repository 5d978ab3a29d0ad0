-- ===== src/Providers/Keys/Selection.antt =====
-- `SelectEndpoint` of internal/providers/keys.go: the eligible row that comes first in
--   ORDER BY last_failed_at IS NOT NULL, last_failed_at ASC, id ASC LIMIT 1,
-- with texts compared by memcmp.
pub mod Best
pub mod Endpoint
pub mod Cooling
use code_guda_gateway.Prelude.{
  ℕ, ◌≡◌, String, Bool, true, false, not, ◌&&◌, Option, none, some, List, [], ◌∷◌, ltb, ◌=ₜ◌,
  if◌then◌else◌, is_some, Result, ok, err, ◌>>=◌, ◌>>◌, or_fail,
}
use code_guda_gateway.Timestamp.{Stamp, format, lt_bytes}
use code_guda_gateway.Providers.Names.{Error, no_enabled_key, validate_provider}
use code_guda_gateway.Providers.KeyTable.{KeyRow, KeyTable, update}
use code_guda_gateway.Providers.Keys.{KeyRepo, SelectedEndpoint, endpoint_of, unseal}

-- cooldown_until IS NULL OR cooldown_until < ?
abbrev pub cooled_off : Option Stamp → Stamp → Bool
cooled_off none now = true
cooled_off (some until) now = lt_bytes until now

-- The WHERE clause.
unfoldable pub is_eligible : String → Stamp → KeyRow → Bool
is_eligible provider now r =
    r.provider =ₜ provider
    && r.enabled
    && cooled_off r.cooldown_until now
    && not (is_some r.archived_at)

-- The ORDER BY clause on the failure times and the ids of two rows.
abbrev pub ranks_before : Option Stamp → Option Stamp → ℕ → ℕ → Bool
ranks_before none none i j = ltb i j
ranks_before none (some b) i j = true
ranks_before (some a) none i j = false
ranks_before (some a) (some b) i j =
    if lt_bytes a b then true else if lt_bytes b a then false else ltb i j

unfoldable pub precedes : KeyRow → KeyRow → Bool
precedes r s = ranks_before r.last_failed_at s.last_failed_at r.id s.id

abbrev pub first_of_two : KeyRow → Option KeyRow → Option KeyRow
first_of_two r none = some r
first_of_two r (some s) = if precedes s r then some s else some r

unfoldable pub select_row : String → Stamp → List KeyRow → Option KeyRow
unfolding is_eligible precedes
select_row provider now [] = none
select_row provider now (r ∷ rs) =
    let rest = select_row provider now rs in
    if is_eligible provider now r then first_of_two r rest else rest

abbrev pub used : Stamp → KeyRow → KeyRow
used now r = record r { last_used_at = some now; updated_at = now }

-- The selected pair of URL and key, from one row, and the table with its use recorded.
unfoldable pub select_endpoint :
    KeyRepo → ℕ → String → KeyTable → Result Error (SelectedEndpoint × KeyTable)
select_endpoint repo now provider t = do
  validate_provider provider
  r ← or_fail (select_row provider (format repo.calendar now) t.rows) no_enabled_key
  plain ← unseal repo r.encrypted_key
  ok (endpoint_of r plain, update r.id (used (format repo.calendar now)) t)
