-- ===== src/GatewayKeys/Invite/Conditions.antt =====
-- The conditions of `RedeemTx` of internal/gatewaykeys/invite.go, and what it stores.
use code_guda_gateway.Prelude.{
  ℕ, ◌<◌, ◌+◌, ◌≡◌, refl, subst, ◌⊎◌, inl, inr, String, true, false, Option, none, some, List, [],
  ◌∷◌, ◌=ₜ◌, trim_space, arith, eq_iff, ok, Bool-cases, Option-cases,
}
use code_guda_gateway.Timestamp.{Stamp, format, lt_bytes}
use code_guda_gateway.GatewayKeys.Invite.{
  InviteService, InviteCode, Table, find_code, is_redeemable, redeem_rows, is_live, redeem,
}

-- The column's UNIQUE constraint.
abbrev pub HasUniqueCodes : List InviteCode → Type 0
HasUniqueCodes [] = Unit {0}
HasUniqueCodes (r ∷ rs) = (find_code r.code rs ≡ none) × HasUniqueCodes rs

-- The row after a redemption.
abbrev pub counted : InviteCode → InviteCode
counted r = record r { redemption_count = r.redemption_count + 1 }

redeem_rows-missing :
    (code : String) (now : Stamp) (rs : List InviteCode)
    → find_code code rs ≡ none
    → (redeem_rows code now rs).1 ≡ false
unfolding redeem_rows is_redeemable find_code
redeem_rows-missing code now [] h = refl
redeem_rows-missing code now (r ∷ rs) h = ground (arith, redeem_rows-missing code now rs, h)

-- Where the codes are unique, the statement affects the row that is found, and raises its count.
redeem_rows-found :
    (code : String) (now : Stamp) (rs : List InviteCode) (item : InviteCode)
    → HasUniqueCodes rs
    → find_code code rs ≡ some item
    → (redeem_rows code now rs).1 ≡ true
    → (lt_bytes now item.expires_at ≡ true)
      × (find_code code (redeem_rows code now rs).0 ≡ some (counted item))
unfolding redeem_rows is_redeemable find_code
redeem_rows-found code now [] item u f h = absurd (ground (arith, f))
redeem_rows-found code now (r ∷ rs) item u f h = elim (Bool-cases (r.code =ₜ code)) [
  | inr miss ↦
      let passed : is_redeemable code now r ≡ false = ground (arith, miss) in
      let (later, there) =
        redeem_rows-found code now rs item u.1 (ground (arith, f, miss))
          (ground (arith, h, passed)) in
      (later, rw passed (rw miss there))
  | inl hit ↦
      let empty : (redeem_rows code now rs).1 ≡ false =
        redeem_rows-missing code now rs
          (subst (λ c. find_code c rs ≡ none) ((eq_iff r.code code).0 hit) u.0) in
      let taken : is_redeemable code now r ≡ true = elim (Bool-cases (is_redeemable code now r)) [
        | inl e ↦ e
        | inr e ↦ absurd (ground (arith, h, e, empty))
      ] in
      let same : r ≡ item = ground (arith, f, hit) in
      subst
        (λ x.
          (lt_bytes now x.expires_at ≡ true)
          × (find_code code (redeem_rows code now (r ∷ rs)).0 ≡ some (counted x)))
        same (ground (arith, taken), rw taken (rw hit refl))
]

live-IsLive :
    (parsed : Option ℕ) (now : ℕ)
    → is_live parsed now ≡ true
    → (parsed ≡ none) ⊎ ((expiry : ℕ) × (parsed ≡ some expiry) × (now < expiry))
live-IsLive none now h = inl refl
live-IsLive (some expiry) now h = inr (expiry, refl, ground (arith, h))

module _ (svc : InviteService) where
  -- A redemption that succeeds, where the codes are unique, tells of the code's row that it was not
  -- revoked, had a redemption left, was bound to no other label, and had not expired: its stored
  -- expiry is after the time's text in the order of bytes, and after the time where it can be read.
  -- What is returned is that row with its count raised by one, and the table has it in its place.
  pub redeem_conditions :
      (now : ℕ) (code label : String) (t t' : Table) (item' : InviteCode)
      → HasUniqueCodes t.rows
      → redeem svc now code label t ≡ ok (item', t')
      → (item : InviteCode) × (find_code (trim_space code) t.rows ≡ some item)
        × (item.revoked_at ≡ none)
        × (item.redemption_count < item.max_redemptions)
        × ((item.agent_label_bind ≡ "") ⊎ (trim_space label ≡ item.agent_label_bind))
        × (lt_bytes (format svc.calendar now) item.expires_at ≡ true)
        × ((svc.parse_time item.expires_at ≡ none)
            ⊎ ((expiry : ℕ) × (svc.parse_time item.expires_at ≡ some expiry) × (now < expiry)))
        × (item' ≡ record item { redemption_count = item.redemption_count + 1 })
        × (find_code (trim_space code) t'.rows
            ≡ some (record item { redemption_count = item.redemption_count + 1 }))
  unfolding redeem
  redeem_conditions now code label t t' item' unique h =
      elim (Option-cases (find_code (trim_space code) t.rows)) [
        | inl missing ↦ absurd (ground (arith, h, missing))
        | inr (item, found) ↦
            let hit : (redeem_rows (trim_space code) (format svc.calendar now) t.rows).1 ≡ true =
              ground (arith, h, found) in
            let rows : (redeem_rows (trim_space code) (format svc.calendar now) t.rows).0
                ≡ t'.rows =
              ground (arith, h, found) in
            let (later, there) =
              redeem_rows-found (trim_space code) (format svc.calendar now) t.rows item unique found
                hit in
            (
              item,
              found,
              ground (arith, h, found),
              ground (arith, h, found),
              ground (
                arith,
                h,
                found,
                eq_iff item.agent_label_bind "",
                eq_iff (trim_space label) item.agent_label_bind,
              ),
              later,
              live-IsLive (svc.parse_time item.expires_at) now (ground (arith, h, found)),
              ground (arith, h, found),
              subst (λ rs. find_code (trim_space code) rs ≡ some (counted item)) rows there,
            )
      ]
