-- ===== src/GatewayKeys/Sweep.antt =====
-- `RevokeUnused` of internal/gatewaykeys/keys.go, and the keys in use.
use code_guda_gateway.Prelude.{
  ℕ, ◌+◌, ◌-◌, ◌*◌, ◌≤◌, ◌≡◌, sym, subst, inl, inr, Bool, false, some, List, [], ◌∷◌, arith, ok, In,
  ℤ, pos, pos_part, leb_int, Bool-cases,
}
use code_guda_gateway.Timestamp.{second, format, lt_bytes_asymm, format_lt_of_second_apart}
use code_guda_gateway.GatewayKeys.{
  Service, KeyRow, Table, revoked, is_unused, revoke_where, revoke_unused,
}

In-revoke_where :
    (test : KeyRow → Bool) (f : KeyRow → KeyRow) (rs : List KeyRow) (r : KeyRow)
    → test r ≡ false
    → In r rs
    → In r (revoke_where test f rs).0
unfolding revoke_where
In-revoke_where test f [] r no_r m = m
In-revoke_where test f (x ∷ rs) r no_r (inl e) =
    let spared : test x ≡ false = subst (λ y. test y ≡ false) (sym e) no_r in rw spared (inl e)
In-revoke_where test f (x ∷ rs) r no_r (inr m) = elim (Bool-cases (test x)) [
  | inl hit ↦ rw hit (inr (In-revoke_where test f rs r no_r m))
  | inr miss ↦ rw miss (inr (In-revoke_where test f rs r no_r m))
]

-- The text of the cutoff, and what the call returns where the days are positive.
recent_not_unused :
    (svc : Service) (cutoff used : ℕ) (r : KeyRow)
    → cutoff + second ≤ used
    → r.last_used_at ≡ some (format svc.calendar used)
    → is_unused (format svc.calendar cutoff) r ≡ false
unfolding is_unused
recent_not_unused svc cutoff used r h e = ground (
  arith,
  e,
  lt_bytes_asymm (format svc.calendar cutoff) (format svc.calendar used),
  format_lt_of_second_apart svc.calendar cutoff used h,
)

-- A key that was used a second or more after the cutoff, `days` whole days before the call, is in
-- the table after the sweep exactly as it was before.
pub revoke_unused_spares :
    (svc : Service) (now used : ℕ) (days : ℤ) (t t' : Table) (n : ℕ) (r : KeyRow)
    → revoke_unused svc now days t ≡ ok (n, t')
    → In r t.rows
    → r.last_used_at ≡ some (format svc.calendar used)
    → now - pos_part days * (86400 * second) + second ≤ used
    → In r t'.rows
unfolding revoke_unused
revoke_unused_spares svc now used days t t' n r h m e late =
    elim (Bool-cases (leb_int days (pos 0))) [
      | inl bad ↦ absurd (ground (arith, h, bad))
      | inr good ↦
          let cutoff = now - pos_part days * (86400 * second) in
          let kept =
            In-revoke_where (is_unused (format svc.calendar cutoff)) (revoked svc now) t.rows r
              (recent_not_unused svc cutoff used r late e) m in
          let same : (revoke_where (is_unused (format svc.calendar cutoff)) (revoked svc now)
                t.rows).0
              ≡ t'.rows =
            ground (arith, h, good) in
          subst (In r) same kept
    ]
