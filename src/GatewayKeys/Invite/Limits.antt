-- ===== src/GatewayKeys/Invite/Limits.antt =====
-- Histories of the invite codes of internal/gatewaykeys/invite.go.
use Prim.Native.String
use code_guda_gateway.Prelude.{
  pos_part, ℕ, ◌≤◌, ◌≡◌, subst, inl, inr, String, true, none, List, [], ◌∷◌, ◌++◌, ◌+◌, ◌&&◌, false,
  ◌=ₜ◌, refl, is_some, if◌then◌else◌, Bool, trim_space, arith, eq_iff, Result, ok, err, ℤ,
  Bool-cases, Option-cases, Result-cases, sym, ◌∙◌,
}
use code_guda_gateway.Timestamp.{Stamp, format}
use code_guda_gateway.Idgen.{random_base62}
use code_guda_gateway.GatewayKeys.Invite.{
  Error, InviteService, InviteCode, new_invite, Table, find_code, create, revoke, redeem_rows,
  redeem,
}
use code_guda_gateway.GatewayKeys.Invite.Remaining.{
  left, left-revoke_rows, left-append, left-of_missing, left-redeem_rows-le, left-redeem_rows-lt,
  find_code-redeem_rows, find_code-revoke_rows, find_code-append_ne,
}

-- A new row after the others, with a code that none of them has.
record IsCreated (t t' : Table) (row : InviteCode) : Type 0 where
  stored : t.rows ++ row ∷ [] ≡ t'.rows
  unused : find_code row.code t.rows ≡ none
  unredeemed : row.redemption_count ≡ 0

find_code-append_new :
    (rs : List InviteCode) (r : InviteCode) → is_some (find_code r.code (rs ++ r ∷ [])) ≡ true
unfolding find_code
find_code-append_new [] r = ground (arith, eq_iff r.code r.code)
find_code-append_new (x ∷ rs) r = ground (arith, find_code-append_new rs r)

created-left :
    (code : String) (t t' : Table) (row : InviteCode)
    → IsCreated t t' row
    → is_some (find_code code t.rows) ≡ true
    → (left code t'.rows ≤ left code t.rows) × (is_some (find_code code t'.rows) ≡ true)
created-left code t t' row made known =
    let other : (row.code =ₜ code) ≡ false = elim (Bool-cases (row.code =ₜ code)) [
      | inr e ↦ e
      | inl e ↦ absurd (
          ground (
            arith,
            known,
            subst (λ c. find_code c t.rows ≡ none) ((eq_iff row.code code).0 e) made.unused,
          ))
    ] in
    (
      subst (λ rs. left code rs ≤ left code t.rows) made.stored
          (ground (arith, left-append code t.rows row, other)),
      subst (λ rs. is_some (find_code code rs) ≡ true) made.stored
          (find_code-append_ne code t.rows row known),
    )

redeemed-left :
    (code given : String) (now : Stamp) (rs : List InviteCode)
    → (redeem_rows given now rs).1 ≡ true
    → (if given =ₜ code && true then 1 else 0) + left code (redeem_rows given now rs).0
      ≤ left code rs
redeemed-left code given now rs hit = elim (Bool-cases (given =ₜ code)) [
  | inr e ↦ rw e (ground (arith, left-redeem_rows-le code given now rs))
  | inl e ↦ rw e (
      subst (λ c. 1 + left code (redeem_rows c now rs).0 ≤ left code rs)
        (sym ((eq_iff given code).0 e))
        (omega (
          arith,
          left-redeem_rows-lt code now rs
              (subst (λ c. (redeem_rows c now rs).1 ≡ true) ((eq_iff given code).0 e) hit),
        )))
]

abbrev is_redemption : Result Error (InviteCode × Table) → Bool
is_redemption (ok x) = true
is_redemption (err e) = false

-- The calls that a history is made of; a failed call changes nothing.
pub data Op : Type 0 where
  creates : ℕ → List ℕ → String → ℤ → Stamp → Op
  revokes : ℕ → ℕ → Op
  redeems : ℕ → String → String → Op

abbrev after_pair : Table → Result Error (InviteCode × Table) → Table
after_pair t (ok (r, t')) = t'
after_pair t (err e) = t

abbrev after : Table → Result Error Table → Table
after t (ok t') = t'
after t (err e) = t

module _ (svc : InviteService) where
  unfoldable pub step : Op → Table → Table
  step (creates now bytes label_bind max expires_at) t =
      after_pair t (create svc now bytes label_bind max expires_at t)
  step (revokes now i) t = after t (revoke svc now i t)
  step (redeems now code label) t = after_pair t (redeem svc now code label t)

  unfoldable pub run : List Op → Table → Table
  unfolding step
  run [] t = t
  run (o ∷ os) t = run os (step o t)

  -- One where the call is a redemption of the code that succeeds.
  abbrev pub hits : String → Op → Table → ℕ
  hits code (creates now bytes label_bind max expires_at) t = 0
  hits code (revokes now i) t = 0
  hits code (redeems now given label) t =
      if trim_space given =ₜ code && is_redemption (redeem svc now given label t) then 1 else 0

  -- The redemptions of a code that succeed in a history.
  unfoldable pub redemptions : String → List Op → Table → ℕ
  unfolding step
  redemptions code [] t = 0
  redemptions code (o ∷ os) t = hits code o t + redemptions code os (step o t)

  create-IsCreated :
      (now : ℕ) (bytes : List ℕ) (label_bind : String) (max : ℤ) (expires_at : Stamp) (t t' : Table)
      (row : InviteCode)
      → create svc now bytes label_bind max expires_at t ≡ ok (row, t')
      → IsCreated t t' row
  unfolding create
  create-IsCreated now bytes label_bind max expires_at t t' row h =
      elim (Option-cases (svc.parse_time expires_at)) [
        | inl bad ↦ absurd (ground (arith, h, bad))
        | inr (expiry, read) ↦ elim (Option-cases (random_base62 bytes 16)) [
          | inl out ↦ absurd (ground (arith, h, read, out))
          | inr (suffix, drawn) ↦
              let made =
                new_invite t.next_id (String.◌++◌ "inv_" suffix) (trim_space label_bind)
                  (pos_part max) (format svc.calendar expiry) (format svc.calendar now) in
              let same : made ≡ row = ground (arith, h, read, drawn) in
              subst (IsCreated t t') same (record {
                stored = ground (arith, h, read, drawn);
                unused = ground (arith, h, read, drawn);
                unredeemed = refl;
              })
        ]
      ]

  redeem-IsApplied :
      (now : ℕ) (given label : String) (t t' : Table) (item : InviteCode)
      → redeem svc now given label t ≡ ok (item, t')
      → ((redeem_rows (trim_space given) (format svc.calendar now) t.rows).0 ≡ t'.rows)
        × ((redeem_rows (trim_space given) (format svc.calendar now) t.rows).1 ≡ true)
  unfolding redeem
  redeem-IsApplied now given label t t' item h =
      elim (Option-cases (find_code (trim_space given) t.rows)) [
        | inl missing ↦ absurd (ground (arith, h, missing))
        | inr (found, there) ↦ (ground (arith, h, there), ground (arith, h, there))
      ]

  -- What a code has left pays for each call.
  step-left :
      (code : String) (o : Op) (t : Table)
      → is_some (find_code code t.rows) ≡ true
      → (hits code o t + left code (step o t).rows ≤ left code t.rows)
        × (is_some (find_code code (step o t).rows) ≡ true)
  unfolding step revoke
  step-left code (creates now bytes label_bind max expires_at) t known =
      elim (Result-cases (create svc now bytes label_bind max expires_at t)) [
        | inr (e, failed) ↦ rw failed (omega arith, known)
        | inl ((row, t'), made) ↦
            let (lower, still) =
              created-left code t t' row
                (create-IsCreated now bytes label_bind max expires_at t t' row made) known in
            rw made (omega (arith, lower), still)
      ]
  step-left code (revokes now i) t known = ground (
    arith,
    left-revoke_rows code i (format svc.calendar now) t.rows,
    find_code-revoke_rows code i (format svc.calendar now) t.rows,
    known,
  )
  step-left code (redeems now given label) t known =
      elim (Result-cases (redeem svc now given label t)) [
        | inr (e, failed) ↦ rw failed (ground arith, known)
        | inl ((row, t'), made) ↦
            let (stored, hit) = redeem-IsApplied now given label t t' row made in
            let rows = (redeem_rows (trim_space given) (format svc.calendar now) t.rows).0 in
            rw made (
              subst
                  (λ rs.
                    (if trim_space given =ₜ code && true then 1 else 0) + left code rs
                    ≤ left code t.rows)
                  stored
                  (redeemed-left code (trim_space given) (format svc.calendar now) t.rows hit),
              subst (λ rs. is_some (find_code code rs) ≡ true) stored
                  (find_code-redeem_rows code (trim_space given) (format svc.calendar now) t.rows
                    ∙ known),
            )
      ]

  redemptions-left :
      (code : String) (os : List Op) (t : Table)
      → is_some (find_code code t.rows) ≡ true
      → redemptions code os t ≤ left code t.rows
  unfolding redemptions
  redemptions-left code [] t known = omega arith
  redemptions-left code (o ∷ os) t known =
      let (paid, still) = step-left code o t known in
      omega (arith, paid, redemptions-left code os (step o t) still)

  created-known :
      (t t' : Table) (row : InviteCode)
      → IsCreated t t' row
      → (left row.code t'.rows ≡ row.max_redemptions)
        × (is_some (find_code row.code t'.rows) ≡ true)
  created-known t t' row made = (
    subst (λ rs. left row.code rs ≡ row.max_redemptions) made.stored
        (ground (
          arith,
          left-append row.code t.rows row,
          left-of_missing row.code t.rows made.unused,
          eq_iff row.code row.code,
          made.unredeemed,
        )),
    subst (λ rs. is_some (find_code row.code rs) ≡ true) made.stored
        (find_code-append_new t.rows row),
  )

  -- A code that was created is redeemed with success at most as often as its limit says, in whatever
  -- history of creations, revocations and redemptions follows.
  pub redemptions-le_limit :
      (now : ℕ) (bytes : List ℕ) (label_bind : String) (max : ℤ) (expires_at : Stamp) (t t' : Table)
      (row : InviteCode) (os : List Op)
      → create svc now bytes label_bind max expires_at t ≡ ok (row, t')
      → redemptions row.code os t' ≤ row.max_redemptions
  redemptions-le_limit now bytes label_bind max expires_at t t' row os h =
      let (limit, known) =
        created-known t t' row (create-IsCreated now bytes label_bind max expires_at t t' row h) in
      omega (arith, limit, redemptions-left row.code os t' known)
