-- ===== src/Providers/Keys/Credentials.antt =====
-- `RotateKey` and `RawEndpoint` of internal/providers/keys.go, one after the other.

use code_guda_gateway.Prelude.{
  ℕ, ◌≡◌, refl, ◌∙◌, subst, inl, inr, String, some, arith, ==_iff, length, ok, Option-cases,
  Result-cases,
}
use code_guda_gateway.Secrets.{Bytes, gcm_nonce_size, encrypt, decrypt-encrypt}
use code_guda_gateway.Providers.KeyTable.{
  KeyRow, KeyTable, find_row, update_rows, update_existing, find_row-update_rows,
}
use code_guda_gateway.Providers.Keys.{
  KeyRepo, endpoint_of, seal, unseal, rotate_key, raw_endpoint, back_in_pack, key_prefix,
  fingerprint,
}

-- What was sealed under a 12-byte nonce is unsealed again.
unseal-seal :
    (repo : KeyRepo) (nonce : Bytes) (raw : String) (sealed : Bytes)
    → length nonce ≡ gcm_nonce_size
    → seal repo (some nonce) raw ≡ ok sealed
    → unseal repo sealed ≡ ok raw
unseal-seal repo nonce raw sealed n h =
    elim (Result-cases (encrypt repo.aead repo.master_key (some nonce) raw)) [
      | inl (bytes, e) ↦
          let same : bytes ≡ sealed = ground (arith, h, e) in
          let opened = decrypt-encrypt repo.aead repo.master_key nonce raw bytes n e in
          subst (λ b. unseal repo b ≡ ok raw) same (rw opened)
      | inr (x, e) ↦ absurd (ground (arith, h, e))
    ]

abbrev rotated : KeyRepo → ℕ → String → Bytes → KeyRow → KeyRow
rotated repo now raw sealed r = record (back_in_pack repo now r) {
  encrypted_key = sealed;
  key_prefix = key_prefix raw;
  fingerprint = fingerprint repo raw;
}

found_rotated :
    (repo : KeyRepo) (now i : ℕ) (raw : String) (sealed : Bytes) (t : KeyTable) (r : KeyRow)
    → find_row i t.rows ≡ some r
    → find_row i (update_rows i (rotated repo now raw sealed) t.rows)
      ≡ some (rotated repo now raw sealed r)
found_rotated repo now i raw sealed t r found =
    find_row-update_rows i i (rotated repo now raw sealed) t.rows
      (record { id = λ x. refl; provider = λ x. refl; name = λ x. refl })
    ∙ rw (found, (==_iff i i).1 refl)

-- After a successful rotation the endpoint is read with its URL, its name and its provider as they
-- were, and the new key.
pub raw_endpoint-rotate_key :
    (repo : KeyRepo) (now i : ℕ) (nonce : Bytes) (raw : String) (t t' : KeyTable)
    → length nonce ≡ gcm_nonce_size
    → rotate_key repo now (some nonce) i raw t ≡ ok t'
    → (r : KeyRow) × (find_row i t.rows ≡ some r)
      × (raw_endpoint repo i t' ≡ ok (endpoint_of r raw))
unfolding rotate_key update_existing raw_endpoint
raw_endpoint-rotate_key repo now i nonce raw t t' n h =
    elim (Result-cases (seal repo (some nonce) raw)) [
      | inr (x, unsealed) ↦ absurd (ground (arith, h, unsealed))
      | inl (sealed, made) ↦ elim (Option-cases (find_row i t.rows)) [
        | inl missing ↦ absurd (ground (arith, h, made, missing))
        | inr (r, found) ↦
            let stored : update_rows i (rotated repo now raw sealed) t.rows ≡ t'.rows =
              ground (arith, h, made, found) in
            let row =
              subst (λ rs. find_row i rs ≡ some (rotated repo now raw sealed r)) stored
                (found_rotated repo now i raw sealed t r found) in
            (r, found, rw (row, raw_endpoint) (rw (unseal-seal repo nonce raw sealed n made)))
      ]
    ]
