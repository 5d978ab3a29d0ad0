-- ===== src/GatewayKeys/Invite/Remaining.antt =====
-- internal/gatewaykeys/invite.go: the redemptions that a code has left, through each statement.

use code_guda_gateway.Prelude.{
  ℕ, ◌≤◌, ◌<◌, ◌≡◌, String, true, none, List, [], ◌∷◌, ◌++◌, ◌+◌, ◌-◌, ◌=ₜ◌, refl, is_some,
  if◌then◌else◌, arith,
}
use code_guda_gateway.Timestamp.{Stamp}
use code_guda_gateway.GatewayKeys.Invite.{
  InviteCode, find_code, revoke_rows, is_redeemable, redeem_rows,
}

-- The redemptions that the rows with a code have left.
abbrev pub left : String → List InviteCode → ℕ
left code [] = 0
left code (r ∷ rs) =
    let rest = left code rs in
    if r.code =ₜ code then (r.max_redemptions - r.redemption_count) + rest else rest

pub left-revoke_rows :
    (code : String) (i : ℕ) (now : Stamp) (rs : List InviteCode)
    → left code (revoke_rows i now rs) ≡ left code rs
unfolding revoke_rows
left-revoke_rows code i now [] = refl
left-revoke_rows code i now (r ∷ rs) = ground (arith, left-revoke_rows code i now rs)

pub left-append :
    (code : String) (rs : List InviteCode) (r : InviteCode)
    → left code (rs ++ r ∷ []) ≡ left code rs + left code (r ∷ [])
left-append code [] r = omega arith
left-append code (x ∷ rs) r = ground (arith, left-append code rs r)

pub left-of_missing :
    (code : String) (rs : List InviteCode) → find_code code rs ≡ none → left code rs ≡ 0
unfolding find_code
left-of_missing code [] h = refl
left-of_missing code (r ∷ rs) h = ground (arith, left-of_missing code rs, h)

-- No redemption raises what a code has left, and one that hits a row of the code lowers it.
pub left-redeem_rows-le :
    (code other : String) (now : Stamp) (rs : List InviteCode)
    → left code (redeem_rows other now rs).0 ≤ left code rs
unfolding redeem_rows is_redeemable
left-redeem_rows-le code other now [] = omega arith
left-redeem_rows-le code other now (r ∷ rs) = ground (arith, left-redeem_rows-le code other now rs)

pub left-redeem_rows-lt :
    (code : String) (now : Stamp) (rs : List InviteCode)
    → (redeem_rows code now rs).1 ≡ true
    → left code (redeem_rows code now rs).0 < left code rs
unfolding redeem_rows is_redeemable
left-redeem_rows-lt code now [] h = ground (arith, h)
left-redeem_rows-lt code now (r ∷ rs) h =
    ground (arith, left-redeem_rows-lt code now rs, left-redeem_rows-le code code now rs, h)

pub find_code-redeem_rows :
    (code other : String) (now : Stamp) (rs : List InviteCode)
    → is_some (find_code code (redeem_rows other now rs).0) ≡ is_some (find_code code rs)
unfolding redeem_rows find_code
find_code-redeem_rows code other now [] = refl
find_code-redeem_rows code other now (r ∷ rs) =
    ground (arith, find_code-redeem_rows code other now rs)

pub find_code-revoke_rows :
    (code : String) (i : ℕ) (now : Stamp) (rs : List InviteCode)
    → is_some (find_code code (revoke_rows i now rs)) ≡ is_some (find_code code rs)
unfolding revoke_rows find_code
find_code-revoke_rows code i now [] = refl
find_code-revoke_rows code i now (r ∷ rs) = ground (arith, find_code-revoke_rows code i now rs)

pub find_code-append_ne :
    (code : String) (rs : List InviteCode) (r : InviteCode)
    → is_some (find_code code rs) ≡ true
    → is_some (find_code code (rs ++ r ∷ [])) ≡ true
unfolding find_code
find_code-append_ne code [] r h = ground (arith, h)
find_code-append_ne code (x ∷ rs) r h = ground (arith, find_code-append_ne code rs r, h)
