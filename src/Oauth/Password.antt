-- ===== src/Oauth/Password.antt =====
-- internal/mcpoauth/crypto.go: the operator's password. scrypt and base64url are parameters.
use Prim.Native.Char.{code}
use Prim.Native.String.{[], ◌∷◌}
use code_guda_gateway.Prelude.{
  ℕ, String, Bool, true, false, not, ◌&&◌, Option, none, some, List, [], ◌∷◌, ◌==◌, ltb, ◌=ₜ◌,
  if◌then◌else◌, length, parse_int, ℤ, pos, negsuc, Result, ok, err, ◌>>=◌, ◌>>◌, require, or_fail,
}
use code_guda_gateway.Secrets.{Bytes}

-- `key password salt n r p length`, with `none` for an error.
pub record Scrypt : Type 0 where
  pub key : String → String → ℕ → ℕ → ℕ → ℕ → Option Bytes
  pub encode : Bytes → String
  pub decode : String → Option Bytes

abbrev pub scrypt_key_len : ℕ
scrypt_key_len = 32

pub record ScryptParams : Type 0 where
  pub n : ℕ
  pub r : ℕ
  pub p : ℕ
  pub salt : String
  pub expected : Bytes

-- strings.Split(s, "$"): the first part, and the others.
unfoldable split_parts : String → String × List String
split_parts [] = ("", [])
split_parts (c ∷ s) =
    let (w, ws) = split_parts s in if code c == b'$' then ("", w ∷ ws) else (c ∷ w, ws)

abbrev positive : Option ℤ → Option ℕ
positive (some (pos n)) = if ltb 0 n then some n else none
positive (some (negsuc n)) = none
positive none = none

pub data PasswordError : Type 0 where
  parts_count bad_algorithm bad_n bad_r bad_p empty_salt bad_marker bad_hash : PasswordError

unfoldable parse_parts : Scrypt → List String → Result PasswordError ScryptParams
parse_parts c (algorithm ∷ n ∷ r ∷ p ∷ salt ∷ marker ∷ hash ∷ []) = do
  require (algorithm =ₜ "scrypt") bad_algorithm
  n' ← or_fail (positive (parse_int n)) bad_n
  r' ← or_fail (positive (parse_int r)) bad_r
  p' ← or_fail (positive (parse_int p)) bad_p
  require (not (salt =ₜ "")) empty_salt
  require (marker =ₜ "urlsafe") bad_marker
  expected ← or_fail (c.decode hash) bad_hash
  require (length expected == scrypt_key_len) bad_hash
  ok (record { n = n'; r = r'; p = p'; salt = salt; expected = expected })
parse_parts c _ = err parts_count

unfoldable pub parse_password_hash : Scrypt → String → Result PasswordError ScryptParams
unfolding parse_parts split_parts
parse_password_hash c text = parse_parts c ((split_parts text).0 ∷ (split_parts text).1)

-- subtle.ConstantTimeCompare
unfoldable pub same_bytes : Bytes → Bytes → Bool
same_bytes [] [] = true
same_bytes [] (y ∷ ys) = false
same_bytes (x ∷ xs) [] = false
same_bytes (x ∷ xs) (y ∷ ys) = x == y && same_bytes xs ys

abbrev derived_matches : Bytes → Option Bytes → Bool
derived_matches expected none = false
derived_matches expected (some derived) = same_bytes derived expected

abbrev matches_params : Scrypt → String → Result PasswordError ScryptParams → Bool
matches_params c password (err e) = false
matches_params c password (ok p) =
    derived_matches p.expected (c.key password p.salt p.n p.r p.p (length p.expected))

unfoldable pub verify_password : Scrypt → String → String → Bool
unfolding parse_password_hash
verify_password c password text = matches_params c password (parse_password_hash c text)

abbrev is_ok : Result PasswordError ScryptParams → Bool
is_ok (ok p) = true
is_ok (err e) = false

unfoldable pub valid_password_hash : Scrypt → String → Bool
valid_password_hash c text = is_ok (parse_password_hash c text)
