-- ===== src/Secrets.antt =====
-- internal/secrets/crypto.go: AES-256-GCM encryption of stored credentials as
-- nonce || ciphertext || tag. Go's AES-GCM is a parameter with the one law that the code relies
-- on: `Open` undoes `Seal` under the same key and nonce. A plaintext is the text whose bytes are
-- sealed. The random nonce is an argument, `none` where the random source fails.
use code_guda_gateway.Prelude.{
  not, ap, subst, ℕ, ◌≡◌, refl, String, List, [], ◌∷◌, ◌++◌, Option, some, length, take, drop, ltb,
  ◌==◌, arith, Result, ok, ◌>>=◌, ◌>>◌, require, or_fail, length-append,
}

abbrev pub Bytes : Type 0
Bytes = List ℕ

pub record Aead : Type 0 where
  pub seal : Bytes → Bytes → String → Bytes
  pub unseal : Bytes → Bytes → Bytes → Option String
  pub unseal-seal :
      (key nonce : Bytes) (plain : String) → unseal key nonce (seal key nonce plain) ≡ some plain

pub data Error : Type 0 where
  key_size nonce_unread too_short unauthentic : Error

abbrev pub gcm_nonce_size : ℕ
gcm_nonce_size = 12

unfoldable pub encrypt : Aead → Bytes → Option Bytes → String → Result Error Bytes
encrypt a key nonce plain = do
  require (length key == 32) key_size
  n ← or_fail nonce nonce_unread
  ok (n ++ a.seal key n plain)

unfoldable pub decrypt : Aead → Bytes → Bytes → Result Error String
decrypt a key sealed = do
  require (length key == 32) key_size
  require (not (ltb (length sealed) gcm_nonce_size)) too_short
  or_fail (a.unseal key (take gcm_nonce_size sealed) (drop gcm_nonce_size sealed)) unauthentic

take-append : (xs ys : Bytes) → take (length xs) (xs ++ ys) ≡ xs
take-append [] ys = refl
take-append (x ∷ xs) ys = ap (◌∷◌ x) (take-append xs ys)

drop-append : (xs ys : Bytes) → drop (length xs) (xs ++ ys) ≡ ys
drop-append [] ys = refl
drop-append (x ∷ xs) ys = drop-append xs ys

split_nonce :
    (nonce rest : Bytes)
    → length nonce ≡ gcm_nonce_size
    → (take gcm_nonce_size (nonce ++ rest) ≡ nonce) × (drop gcm_nonce_size (nonce ++ rest) ≡ rest)
split_nonce nonce rest h =
    subst (λ k. (take k (nonce ++ rest) ≡ nonce) × (drop k (nonce ++ rest) ≡ rest)) h
      (take-append nonce rest, drop-append nonce rest)

-- What was encrypted under a key with a 12-byte nonce decrypts to the plaintext under that key.
pub decrypt-encrypt :
    (a : Aead) (key nonce : Bytes) (plain : String) (sealed : Bytes)
    → length nonce ≡ gcm_nonce_size
    → encrypt a key (some nonce) plain ≡ ok sealed
    → decrypt a key sealed ≡ ok plain
unfolding encrypt decrypt
decrypt-encrypt a key nonce plain sealed h e = ground (
  arith,
  split_nonce nonce (a.seal key nonce plain) h,
  length-append nonce (a.seal key nonce plain),
  a.unseal-seal key nonce plain,
)
