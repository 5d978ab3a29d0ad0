-- ===== src/GatewayKeys/Revocation.antt =====
-- Histories of the operations of internal/gatewaykeys/keys.go, and what they do to a revoked key.
use code_guda_gateway.Prelude.{
  ℕ, ◌<◌, ◌≡◌, ◌≢◌, refl, sym, subst, ◌∙◌, inl, inr, String, Bool, true, Option, some, List, [],
  ◌∷◌, ◌++◌, ◌==◌, ◌=ₜ◌, is_some, arith, Result, ok, err, All, ℤ, pos, leb_int, Bool-cases,
  Option-cases,
}
use code_guda_gateway.GatewayKeys.{
  Service, KeyRow, Table, DisplayKey, Error, insert_key_details, find_hash, lookup, update, touch,
  disable, enable, revoked, revoke, revoke_where, revoke_unused, delete_rows, delete,
}
use code_guda_gateway.Idgen.{random_base62}

-- One operation on the table, by the service or by what it calls; a failed creation or revocation
-- changes nothing.
pub data Op : Type 0 where
  creates : ℕ → List ℕ → String → Bool → String → String → Option ℕ → Op
  touches : ℕ → ℕ → Op
  disables enables deletes : ℕ → Op
  revokes : ℕ → ℕ → Op
  revokes_unused : ℕ → ℤ → Op

abbrev pub after_create : Table → Result Error (String × ℕ × Table) → Table
after_create t (ok (raw, id, t')) = t'
after_create t (err e) = t

abbrev pub after_sweep : Table → Result Error (ℕ × Table) → Table
after_sweep t (ok (n, t')) = t'
after_sweep t (err e) = t

module _ (svc : Service) where
  unfoldable pub step : Op → Table → Table
  step (creates now bytes name owned via label ref) t =
      after_create t (insert_key_details svc now bytes name owned via label ref t)
  step (touches now i) t = touch svc now i t
  step (disables i) t = disable i t
  step (enables i) t = enable i t
  step (deletes i) t = delete i t
  step (revokes now i) t = revoke svc now i t
  step (revokes_unused now days) t = after_sweep t (revoke_unused svc now days t)

  unfoldable pub run : List Op → Table → Table
  unfolding step
  run [] t = t
  run (o ∷ os) t = run os (step o t)

-- No row has the id, or every row with it is revoked.
abbrev pub IsDead : ℕ → KeyRow → Type 0
IsDead i r = (r.id ≡ i) → is_some r.revoked_at ≡ true

pub record IsRevoked (i : ℕ) (t : Table) : Type 0 where
  pub issued : i < t.next_id
  pub dead : All (IsDead i) t.rows

-- What a change must keep of a row: its id, and that it is revoked.
pub record KeepsRevoked (f : KeyRow → KeyRow) : Type 0 where
  pub id : (r : KeyRow) → (f r).id ≡ r.id
  pub still : (r : KeyRow) → is_some r.revoked_at ≡ true → is_some (f r).revoked_at ≡ true

module _ (i : ℕ) where
  IsDead-update :
      (j : ℕ) (f : KeyRow → KeyRow) (rs : List KeyRow)
      → KeepsRevoked f
      → All (IsDead i) rs
      → All (IsDead i) (update j f rs)
  unfolding update
  IsDead-update j f [] k h = tt
  IsDead-update j f (r ∷ rs) k h = elim (Bool-cases (r.id == j)) [
    | inl hit ↦ rw hit ((λ e. k.still r (h.0 (sym (k.id r) ∙ e))), IsDead-update j f rs k h.1)
    | inr miss ↦ rw miss (h.0, IsDead-update j f rs k h.1)
  ]

  IsDead-delete_rows :
      (j : ℕ) (rs : List KeyRow) → All (IsDead i) rs → All (IsDead i) (delete_rows j rs)
  unfolding delete_rows
  IsDead-delete_rows j [] h = tt
  IsDead-delete_rows j (r ∷ rs) h = elim (Bool-cases (r.id == j)) [
    | inl hit ↦ rw hit (IsDead-delete_rows j rs h.1)
    | inr miss ↦ rw miss (h.0, IsDead-delete_rows j rs h.1)
  ]

  IsDead-revoke_where :
      (test : KeyRow → Bool) (f : KeyRow → KeyRow) (rs : List KeyRow)
      → KeepsRevoked f
      → All (IsDead i) rs
      → All (IsDead i) (revoke_where test f rs).0
  unfolding revoke_where
  IsDead-revoke_where test f [] k h = tt
  IsDead-revoke_where test f (r ∷ rs) k h = elim (Bool-cases (test r)) [
    | inl hit ↦
        rw hit ((λ e. k.still r (h.0 (sym (k.id r) ∙ e))), IsDead-revoke_where test f rs k h.1)
    | inr miss ↦ rw miss (h.0, IsDead-revoke_where test f rs k h.1)
  ]

  IsDead-append :
      (rs : List KeyRow) (r : KeyRow)
      → All (IsDead i) rs
      → IsDead i r
      → All (IsDead i) (rs ++ r ∷ [])
  IsDead-append [] r h d = (d, tt)
  IsDead-append (x ∷ rs) r h d = (h.0, IsDead-append rs r h.1 d)

  revoked-rows :
      (svc : Service) (now : ℕ) (rs : List KeyRow) → All (IsDead i) (update i (revoked svc now) rs)
  unfolding update
  revoked-rows svc now [] = tt
  revoked-rows svc now (r ∷ rs) = elim (Bool-cases (r.id == i)) [
    | inl hit ↦ rw hit ((λ e. refl), revoked-rows svc now rs)
    | inr miss ↦ rw miss ((λ e. ground (arith, miss, e)), revoked-rows svc now rs)
  ]

  found-IsDead :
      (hash : String) (rs : List KeyRow) (r : KeyRow)
      → All (IsDead i) rs
      → find_hash hash rs ≡ some r
      → IsDead i r
  unfolding find_hash
  found-IsDead hash [] r h e = cc
  found-IsDead hash (x ∷ rs) r h e = elim (Bool-cases (x.key_hash =ₜ hash)) [
    | inl hit ↦ let same : x ≡ r = ground (arith, hit, e) in subst (IsDead i) same h.0
    | inr miss ↦ found-IsDead hash rs r h.1 (ground (arith, miss, e))
  ]

module _ (svc : Service) (i : ℕ) where
  revoke-IsRevoked : (now : ℕ) (t : Table) → i < t.next_id → IsRevoked i (revoke svc now i t)
  unfolding revoke
  revoke-IsRevoked now t h = record { issued = h; dead = revoked-rows i svc now t.rows }

  revoked-KeepsRevoked : (now : ℕ) → KeepsRevoked (revoked svc now)
  revoked-KeepsRevoked now = record { id = λ r. refl; still = λ r h. refl }

  create-IsRevoked :
      (now : ℕ) (bytes : List ℕ) (name : String) (owned : Bool) (via label : String)
      (ref : Option ℕ) (t : Table)
      → IsRevoked i t
      → IsRevoked i (after_create t (insert_key_details svc now bytes name owned via label ref t))
  unfolding insert_key_details
  create-IsRevoked now bytes name owned via label ref t h =
      elim (Option-cases (random_base62 bytes 32)) [
        | inl out ↦ rw (out, insert_key_details) h
        | inr (suffix, drawn) ↦
            rw (drawn, insert_key_details)
              (record {
                issued = omega (arith, h.issued);
                dead = IsDead-append i t.rows _ h.dead (λ e. absurd (omega (arith, h.issued)));
              })
      ]

  sweep-IsRevoked :
      (now : ℕ) (days : ℤ) (t : Table)
      → IsRevoked i t
      → IsRevoked i (after_sweep t (revoke_unused svc now days t))
  unfolding revoke_unused
  sweep-IsRevoked now days t h = elim (Bool-cases (leb_int days (pos 0))) [
    | inl bad ↦ rw (bad, revoke_unused) h
    | inr good ↦
        rw (good, revoke_unused)
          (record {
            issued = h.issued;
            dead = IsDead-revoke_where i _ _ t.rows (revoked-KeepsRevoked now) h.dead;
          })
  ]

  pub step-IsRevoked : (o : Op) (t : Table) → IsRevoked i t → IsRevoked i (step svc o t)
  unfolding step touch disable enable revoke delete
  step-IsRevoked (creates now bytes name owned via label ref) t h =
      create-IsRevoked now bytes name owned via label ref t h
  step-IsRevoked (touches now j) t h = record {
    issued = h.issued;
    dead = IsDead-update i j _ t.rows (record { id = λ r. refl; still = λ r k. k }) h.dead;
  }
  step-IsRevoked (disables j) t h = record {
    issued = h.issued;
    dead = IsDead-update i j _ t.rows (record { id = λ r. refl; still = λ r k. k }) h.dead;
  }
  step-IsRevoked (enables j) t h = record {
    issued = h.issued;
    dead = IsDead-update i j _ t.rows (record { id = λ r. refl; still = λ r k. k }) h.dead;
  }
  step-IsRevoked (deletes j) t h = record {
    issued = h.issued;
    dead = IsDead-delete_rows i j t.rows h.dead;
  }
  step-IsRevoked (revokes now j) t h = record {
    issued = h.issued;
    dead = IsDead-update i j _ t.rows (revoked-KeepsRevoked now) h.dead;
  }
  step-IsRevoked (revokes_unused now days) t h = sweep-IsRevoked now days t h

  run-IsRevoked : (os : List Op) (t : Table) → IsRevoked i t → IsRevoked i (run svc os t)
  unfolding run
  run-IsRevoked [] t h = h
  run-IsRevoked (o ∷ os) t h = run-IsRevoked os (step svc o t) (step-IsRevoked o t h)

  lookup-alive :
      (raw : String) (t : Table) (d : DisplayKey)
      → IsRevoked i t
      → lookup svc raw t ≡ ok (some d)
      → d.id ≢ i
  unfolding lookup
  lookup-alive raw t d h e same = elim (Option-cases (find_hash (svc.sha256_hex raw) t.rows)) [
    | inl missing ↦ ground (arith, e, missing)
    | inr (r, found) ↦
        ground (arith, e, same, found, found-IsDead i (svc.sha256_hex raw) t.rows r h.dead found)
  ]

  -- Once a key is revoked, no later operation, enabling it included, makes a lookup of any bearer
  -- text return it again; nor does an id handed out later.
  pub revoke_is_final :
      (now : ℕ) (t : Table) (os : List Op) (raw : String) (d : DisplayKey)
      → i < t.next_id
      → lookup svc raw (run svc os (revoke svc now i t)) ≡ ok (some d)
      → d.id ≢ i
  revoke_is_final now t os raw d h =
      lookup-alive raw _ d (run-IsRevoked os _ (revoke-IsRevoked now t h))
