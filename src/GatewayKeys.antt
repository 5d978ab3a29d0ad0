-- ===== src/GatewayKeys.antt =====
-- internal/gatewaykeys/keys.go: the gateway's own bearer keys. SHA-256 in hex is Go's: a parameter.
-- The statements on the table gateway_keys do not fail; ids are AUTOINCREMENT.
pub mod Create
pub mod Revocation
pub mod Sweep
pub mod Invite
use Prim.Native.String
use Prim.Native.String.{String, len, slice, count}
use code_guda_gateway.Prelude.{
  ℕ, suc, ◌+◌, ◌-◌, ◌*◌, ◌≡◌, Bool, true, false, not, ◌&&◌, ◌||◌, Option, none, some, List, [], ◌∷◌,
  ◌++◌, ◌==◌, ltb, leb, ◌=ₜ◌, if◌then◌else◌, is_some, strip_prefix, Result, ok, err, ℤ, pos, negsuc,
  leb_int, pos_part,
}
use code_guda_gateway.Timestamp.{Calendar, Stamp, format, lt_bytes, second}
use code_guda_gateway.Idgen.{random_base62, all_alnum}

pub data Error : Type 0 where
  not_authorized random_failed days_not_positive : Error

pub record Service : Type 0 where
  pub calendar : Calendar
  pub sha256_hex : String → String

-- A row of gateway_keys.
pub record KeyRow : Type 0 where
  pub id : ℕ
  pub name : String
  pub key_prefix : String
  pub fingerprint : String
  pub key_hash : String
  pub enabled : Bool
  pub created_at : Stamp
  pub last_used_at : Option Stamp
  pub revoked_at : Option Stamp
  pub oauth_owned : Bool
  pub agent_label : Option String
  pub issued_via : Option String
  pub ref_code_id : Option ℕ

pub record Table : Type 0 where
  pub rows : List KeyRow
  pub next_id : ℕ

pub record DisplayKey : Type 0 where
  pub id : ℕ
  pub name : String
  pub prefix : String
  pub fingerprint : String
  pub enabled : Bool
  pub created_at : Stamp
  pub last_used_at : Option Stamp
  pub revoked_at : Option Stamp
  pub oauth_owned : Bool
  pub agent_label : String
  pub issued_via : String
  pub ref_code_id : Option ℕ

abbrev pub or_text : Option String → String → String
or_text none fallback = fallback
or_text (some text) fallback = text

abbrev pub display : KeyRow → DisplayKey
display r = record {
  id = r.id;
  name = r.name;
  prefix = r.key_prefix;
  fingerprint = r.fingerprint;
  enabled = r.enabled;
  created_at = r.created_at;
  last_used_at = r.last_used_at;
  revoked_at = r.revoked_at;
  oauth_owned = r.oauth_owned;
  agent_label = or_text r.agent_label "";
  issued_via = or_text r.issued_via "operator";
  ref_code_id = r.ref_code_id;
}

abbrev key_rest : Option String → Bool
key_rest none = false
key_rest (some rest) = count rest == 32 && all_alnum rest

-- rawKeyRe: ^gsk_[A-Za-z0-9]{32}$
unfoldable pub is_raw_key : String → Bool
is_raw_key raw = key_rest (strip_prefix "gsk_" raw)

abbrev pub or_default : String → String → String
or_default text fallback = if text =ₜ "" then fallback else text

-- The row that insertKeyDetails stores for a raw key, and the table with it.
abbrev pub new_row : Service → ℕ → ℕ → String → String → Bool → String → String → Option ℕ → KeyRow
new_row svc now id raw name oauth_owned issued_via agent_label ref = record {
  id = id;
  name = name;
  key_prefix = slice raw 0 8;
  fingerprint = slice (svc.sha256_hex raw) 0 6;
  key_hash = svc.sha256_hex raw;
  enabled = true;
  created_at = format svc.calendar now;
  last_used_at = none;
  revoked_at = none;
  oauth_owned = oauth_owned;
  agent_label = some (or_default agent_label name);
  issued_via = some (or_default issued_via "operator");
  ref_code_id = ref;
}

abbrev pub insert : Table → KeyRow → Table
insert t row = record { rows = t.rows ++ row ∷ []; next_id = suc t.next_id }

-- generateKeyMaterial and insertKeyDetails: the raw key, its row's id and the table.
unfoldable pub insert_key_details :
    Service
    → ℕ
    → List ℕ
    → String
    → Bool
    → String
    → String
    → Option ℕ
    → Table
    → Result Error (String × ℕ × Table)
insert_key_details svc now bytes name oauth_owned issued_via agent_label ref t =
    elim (random_base62 bytes 32) [
      | none ↦ err random_failed
      | some suffix ↦
          let raw = String.◌++◌ "gsk_" suffix in
          ok (
            raw,
            t.next_id,
            insert t (new_row svc now t.next_id raw name oauth_owned issued_via agent_label ref),
          )
    ]

-- Create and CreateTx; CreateOAuthTx; CreateOAuthTxWithIssuance is `insert_key_details` with `true`.
unfoldable pub create : Service → ℕ → List ℕ → String → Table → Result Error (String × ℕ × Table)
create svc now bytes name = insert_key_details svc now bytes name false "operator" name none

unfoldable pub create_oauth :
    Service → ℕ → List ℕ → String → Table → Result Error (String × ℕ × Table)
create_oauth svc now bytes name = insert_key_details svc now bytes name true "operator" name none

-- SELECT … WHERE key_hash = ?
unfoldable pub find_hash : String → List KeyRow → Option KeyRow
find_hash hash [] = none
find_hash hash (r ∷ rs) = if r.key_hash =ₜ hash then some r else find_hash hash rs

abbrev pub is_usable : KeyRow → Bool
is_usable r = r.enabled && not (is_some r.revoked_at)

abbrev pub checked : Option KeyRow → Result Error (Option DisplayKey)
checked none = ok none
checked (some r) = if is_usable r then ok (some (display r)) else err not_authorized

unfoldable pub lookup : Service → String → Table → Result Error (Option DisplayKey)
lookup svc raw t =
    if raw =ₜ "" || not (is_raw_key raw)
    then ok none
    else checked (find_hash (svc.sha256_hex raw) t.rows)

unfoldable pub update : ℕ → (KeyRow → KeyRow) → List KeyRow → List KeyRow
update i f [] = []
update i f (r ∷ rs) = (if r.id == i then f r else r) ∷ update i f rs

abbrev pub with_rows : Table → List KeyRow → Table
with_rows t rows = record t { rows = rows }

unfoldable pub touch : Service → ℕ → ℕ → Table → Table
touch svc now i t =
    with_rows t (update i (λ r. record r { last_used_at = some (format svc.calendar now) }) t.rows)

abbrev touched :
    Service
    → ℕ
    → Result Error (Option DisplayKey)
    → Table
    → Result Error (Option DisplayKey × Table)
touched svc now (err e) t = err e
touched svc now (ok none) t = ok (none, t)
touched svc now (ok (some d)) t =
    ok (some (record d { last_used_at = some (format svc.calendar now) }), touch svc now d.id t)

-- Verify: Lookup, and Touch on success.
unfoldable pub verify : Service → ℕ → String → Table → Result Error (Option DisplayKey × Table)
verify svc now raw t = touched svc now (lookup svc raw t) t

unfoldable pub disable : ℕ → Table → Table
disable i t = with_rows t (update i (λ r. record r { enabled = false }) t.rows)

unfoldable pub enable : ℕ → Table → Table
enable i t = with_rows t (update i (λ r. record r { enabled = true }) t.rows)

abbrev pub revoked : Service → ℕ → KeyRow → KeyRow
revoked svc now r = record r { enabled = false; revoked_at = some (format svc.calendar now) }

unfoldable pub revoke : Service → ℕ → ℕ → Table → Table
revoke svc now i t = with_rows t (update i (revoked svc now) t.rows)

abbrev pub older_than : Option Stamp → Stamp → Bool
older_than none cutoff = true
older_than (some used) cutoff = lt_bytes used cutoff

-- The WHERE clause of RevokeUnused.
unfoldable pub is_unused : Stamp → KeyRow → Bool
is_unused cutoff r =
    r.enabled
    && not (is_some r.revoked_at)
    && lt_bytes r.created_at cutoff
    && older_than r.last_used_at cutoff

-- The rows after the statement, and how many it affected.
unfoldable pub revoke_where : (KeyRow → Bool) → (KeyRow → KeyRow) → List KeyRow → List KeyRow × ℕ
revoke_where test f [] = ([], 0)
revoke_where test f (r ∷ rs) =
    let rest = revoke_where test f rs in
    if test r then (f r ∷ rest.0, suc rest.1) else (r ∷ rest.0, rest.1)

-- The day is 24 hours long in UTC.
unfoldable pub revoke_unused : Service → ℕ → ℤ → Table → Result Error (ℕ × Table)
revoke_unused svc now days t =
    if leb_int days (pos 0)
    then err days_not_positive
    else (let cutoff = format svc.calendar (now - pos_part days * (86400 * second)) in
        let (rows, n) = revoke_where (is_unused cutoff) (revoked svc now) t.rows in
        ok (n, with_rows t rows))

unfoldable pub delete_rows : ℕ → List KeyRow → List KeyRow
delete_rows i [] = []
delete_rows i (r ∷ rs) = if r.id == i then delete_rows i rs else r ∷ delete_rows i rs

unfoldable pub delete : ℕ → Table → Table
delete i t = with_rows t (delete_rows i t.rows)
