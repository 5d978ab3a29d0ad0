-- ===== src/GatewayKeys/Invite.antt =====
-- internal/gatewaykeys/invite.go: invite codes and their redemption. time.Parse of a stored expiry is
-- Go's: a parameter, `none` where neither layout fits.
pub mod Remaining
pub mod Limits
pub mod Conditions
use Prim.Native.String
use Prim.Native.String.{String}
use code_guda_gateway.Prelude.{
  ℕ, suc, ◌+◌, ◌≡◌, Bool, true, false, not, ◌&&◌, ◌||◌, Option, none, some, List, [], ◌∷◌, ◌++◌,
  ◌==◌, leb, ltb, ◌=ₜ◌, if◌then◌else◌, is_some, trim_space, Result, ok, err, ◌>>=◌, ◌>>◌, require,
  or_fail, ℤ, pos, leb_int, pos_part,
}
use code_guda_gateway.Timestamp.{Calendar, Stamp, format, lt_bytes}
use code_guda_gateway.Idgen.{random_base62}

pub data Error : Type 0 where
  not_found is_revoked expired exhausted label_bound : Error
  not_positive bad_expiry random_failed code_taken : Error

pub record InviteService : Type 0 where
  pub calendar : Calendar
  pub parse_time : Stamp → Option ℕ

pub record InviteCode : Type 0 where
  pub id : ℕ
  pub code : String
  pub agent_label_bind : String
  pub max_redemptions : ℕ
  pub redemption_count : ℕ
  pub expires_at : Stamp
  pub revoked_at : Option Stamp
  pub created_at : Stamp

pub record Table : Type 0 where
  pub rows : List InviteCode
  pub next_id : ℕ

unfoldable pub find_code : String → List InviteCode → Option InviteCode
find_code code [] = none
find_code code (r ∷ rs) = if r.code =ₜ code then some r else find_code code rs

unfoldable pub has_id : ℕ → List InviteCode → Bool
has_id i [] = false
has_id i (r ∷ rs) = if r.id == i then true else has_id i rs

abbrev pub new_invite : ℕ → String → String → ℕ → Stamp → Stamp → InviteCode
new_invite id code label_bind max expires_at created_at = record {
  id = id;
  code = code;
  agent_label_bind = label_bind;
  max_redemptions = max;
  redemption_count = 0;
  expires_at = expires_at;
  revoked_at = none;
  created_at = created_at;
}

-- InviteService.Create. The code is UNIQUE: a clash fails the statement.
unfoldable pub create :
    InviteService → ℕ → List ℕ → String → ℤ → Stamp → Table → Result Error (InviteCode × Table)
create svc now bytes label_bind max expires_at t = do
  require (not (leb_int max (pos 0))) not_positive
  expiry ← or_fail (svc.parse_time expires_at) bad_expiry
  suffix ← or_fail (random_base62 bytes 16) random_failed
  require (not (is_some (find_code (String.◌++◌ "inv_" suffix) t.rows))) code_taken
  let row =
      new_invite t.next_id (String.◌++◌ "inv_" suffix) (trim_space label_bind) (pos_part max)
        (format svc.calendar expiry) (format svc.calendar now)
  ok (row, record { rows = t.rows ++ row ∷ []; next_id = suc t.next_id })

-- UPDATE … SET revoked_at = ? WHERE id = ? AND revoked_at IS NULL
unfoldable pub revoke_rows : ℕ → Stamp → List InviteCode → List InviteCode
revoke_rows i now [] = []
revoke_rows i now (r ∷ rs) =
    (if r.id == i && not (is_some r.revoked_at) then record r { revoked_at = some now } else r)
    ∷ revoke_rows i now rs

-- InviteService.Revoke: a second revocation is no error.
unfoldable pub revoke : InviteService → ℕ → ℕ → Table → Result Error Table
revoke svc now i t = do
  require (has_id i t.rows) not_found
  ok (record t { rows = revoke_rows i (format svc.calendar now) t.rows })

-- The WHERE clause of the redemption.
unfoldable pub is_redeemable : String → Stamp → InviteCode → Bool
is_redeemable code now r =
    r.code =ₜ code
    && not (is_some r.revoked_at)
    && ltb r.redemption_count r.max_redemptions
    && lt_bytes now r.expires_at

abbrev pub redeemed : InviteCode → InviteCode
redeemed r = record r { redemption_count = r.redemption_count + 1 }

-- The statement's rows, and whether it affected one.
unfoldable pub redeem_rows : String → Stamp → List InviteCode → List InviteCode × Bool
redeem_rows code now [] = ([], false)
redeem_rows code now (r ∷ rs) =
    let rest = redeem_rows code now rs in
    if is_redeemable code now r then (redeemed r ∷ rest.0, true) else (r ∷ rest.0, rest.1)

-- An expiry that cannot be read is left to the statement.
abbrev pub is_live : Option ℕ → ℕ → Bool
is_live none now = true
is_live (some expiry) now = ltb now expiry

-- RedeemTx: the code with its count raised, and the table.
unfoldable pub redeem :
    InviteService → ℕ → String → String → Table → Result Error (InviteCode × Table)
redeem svc now code label t = do
  require (not (trim_space code =ₜ "")) not_found
  item ← or_fail (find_code (trim_space code) t.rows) not_found
  require (not (is_some item.revoked_at)) is_revoked
  require (item.agent_label_bind =ₜ "" || trim_space label =ₜ item.agent_label_bind) label_bound
  require (is_live (svc.parse_time item.expires_at) now) expired
  require (not (leb item.max_redemptions item.redemption_count)) exhausted
  let rows = redeem_rows (trim_space code) (format svc.calendar now) t.rows
  require rows.1 exhausted
  ok (redeemed item, record t { rows = rows.0 })
