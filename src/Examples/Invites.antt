-- ===== src/Examples/Invites.antt =====
-- Runs of the invite codes.
use code_guda_gateway.Prelude.{
  ℕ, zero, suc, List, pos, ◌+◌, ◌≤◌, ◌*◌, ◌≡◌, ◌<◌, ◌⊎◌, refl, true, none, some, Option, [], ◌∷◌,
  ok, trim_space,
}
use code_guda_gateway.Timestamp.{Stamp, format, fraction, fraction_digits, lt_bytes}
use code_guda_gateway.GatewayKeys.Invite.{
  create, InviteService, InviteCode, Table, new_invite, find_code, is_redeemable, redeemed,
  redeem_rows, redeem,
}
use code_guda_gateway.GatewayKeys.Invite.Limits.{redeems, redemptions, redemptions-le_limit}
use code_guda_gateway.GatewayKeys.Invite.Conditions.{HasUniqueCodes, redeem_conditions}
use code_guda_gateway.Idgen.{random_base62, base62_char}
use code_guda_gateway.Examples.World.{calendar}

-- An expiry is read as the seconds that its first byte says.
abbrev read_time : Stamp → Option ℕ
read_time [] = none
read_time (n ∷ rest) = some (n * 1000000000)

abbrev invites : InviteService
invites = record { calendar = calendar; parse_time = read_time }

abbrev invite : InviteCode
invite = new_invite 1 "inv_A" "" 2 (9 ∷ b'Z' ∷ []) (1 ∷ b'Z' ∷ [])

abbrev one_invite : Table
one_invite = record { rows = invite ∷ []; next_id = 2 }

abbrev once : Table
once = record { rows = redeemed invite ∷ []; next_id = 2 }

redeems_once : redeem invites 5000000000 " inv_A " "laptop" one_invite ≡ ok (redeemed invite, once)
unfolding redeem trim_space find_code redeem_rows is_redeemable format fraction fraction_digits
    lt_bytes
redeems_once = refl

unique : HasUniqueCodes one_invite.rows
unfolding find_code
unique = (refl, tt)

redeem_conditions_example :
    (item : InviteCode) × (find_code "inv_A" one_invite.rows ≡ some item)
    × (item.revoked_at ≡ none)
    × (item.redemption_count < item.max_redemptions)
    × ((item.agent_label_bind ≡ "") ⊎ (trim_space "laptop" ≡ item.agent_label_bind))
    × (lt_bytes (format calendar 5000000000) item.expires_at ≡ true)
    × ((read_time item.expires_at ≡ none)
        ⊎ ((expiry : ℕ) × (read_time item.expires_at ≡ some expiry) × (5000000000 < expiry)))
    × (redeemed invite ≡ record item { redemption_count = item.redemption_count + 1 })
    × (find_code "inv_A" once.rows
        ≡ some (record item { redemption_count = item.redemption_count + 1 }))
unfolding trim_space
redeem_conditions_example =
    redeem_conditions invites 5000000000 " inv_A " "laptop" one_invite once (redeemed invite) unique
      redeems_once

abbrev made_invite : InviteCode
made_invite = new_invite 3 "inv_AAAAAAAAAAAAAAAA" "" 2 (9 ∷ b'Z' ∷ []) (1 ∷ b'Z' ∷ [])

abbrev two_invites : Table
two_invites = record { rows = invite ∷ made_invite ∷ []; next_id = 4 }

abbrev drawn : ℕ → List ℕ
drawn zero = []
drawn (suc n) = 0 ∷ drawn n

creates_second :
    create invites 1000000000
      (drawn 16)
      ""
      (pos 2)
      (9 ∷ b'Z' ∷ [])
      (record { rows = invite ∷ []; next_id = 3 })
    ≡ ok (made_invite, two_invites)
unfolding create random_base62 base62_char find_code trim_space format fraction fraction_digits
creates_second = refl

redemptions-le_limit_example :
    redemptions invites "inv_AAAAAAAAAAAAAAAA"
      (redeems 5000000000 "inv_AAAAAAAAAAAAAAAA" "a"
        ∷ redeems 5000000000 " inv_AAAAAAAAAAAAAAAA" "b"
        ∷ redeems 5000000000 "inv_AAAAAAAAAAAAAAAA" "c"
        ∷ [])
      two_invites
    ≤ 2
redemptions-le_limit_example =
    redemptions-le_limit invites 1000000000 (drawn 16) "" (pos 2) (9 ∷ b'Z' ∷ [])
      (record { rows = invite ∷ []; next_id = 3 }) two_invites made_invite
      (redeems 5000000000 "inv_AAAAAAAAAAAAAAAA" "a"
        ∷ redeems 5000000000 " inv_AAAAAAAAAAAAAAAA" "b"
        ∷ redeems 5000000000 "inv_AAAAAAAAAAAAAAAA" "c"
        ∷ [])
      creates_second
