-- ===== src/Examples/Credentials.antt =====
-- Runs of the cipher, the key rotation and the endpoint URLs.

use code_guda_gateway.Prelude.{◌≡◌, refl, none, some, [], ◌∷◌, ◌++◌, ok, trim_space, strip_prefix}
use code_guda_gateway.Timestamp.{format}
use code_guda_gateway.Secrets.{Bytes, encrypt}
use code_guda_gateway.Providers.Endpoints.{
  normalize_base_url, check_base_url, trim_right_slashes, trim_left_slashes, join_endpoint_url,
  PrintsBack, normalized_url,
}
use code_guda_gateway.Providers.KeyTable.{
  KeyRow, KeyTable, find_row, update, update_rows, update_existing,
}
use code_guda_gateway.Providers.Keys.{rotate_key, key_prefix, fingerprint}
use code_guda_gateway.Examples.World.{repo, aead, urls, host_url, encode, zeros}
use code_guda_gateway.Examples.Endpoints.{row, table}

abbrev nonce : Bytes
nonce = 1 ∷ 2 ∷ 3 ∷ 4 ∷ 5 ∷ 6 ∷ 7 ∷ 8 ∷ 9 ∷ 10 ∷ 11 ∷ 12 ∷ []

encrypts : encrypt aead (zeros 32) (some nonce) "key" ≡ ok (nonce ++ encode "key")
unfolding encrypt
encrypts = refl

abbrev rotated_row : KeyRow
rotated_row = record (row 1 none) {
  encrypted_key = nonce ++ encode "key";
  key_prefix = "key";
  fingerprint = "key";
  updated_at = format repo.calendar 7;
}

abbrev rotated_table : KeyTable
rotated_table = record { rows = rotated_row ∷ row 2 none ∷ []; next_id = 3 }

rotates : rotate_key repo 7 (some nonce) 1 "key" table ≡ ok rotated_table
unfolding rotate_key encrypt update_existing update update_rows find_row key_prefix fingerprint
rotates = refl

prints_back : PrintsBack urls (normalized_url urls host_url)
unfolding trim_right_slashes trim_space
prints_back = record { parse-print = refl; trimmed = refl; nonempty = refl; lowered = refl }

normalizes : normalize_base_url urls " https://h/ " ≡ ok "https://h"
unfolding normalize_base_url check_base_url trim_right_slashes trim_space
normalizes = refl

joins : join_endpoint_url urls " https://h/ " "/search" "q=1" ≡ ok "https://h/search"
unfolding join_endpoint_url normalize_base_url check_base_url trim_right_slashes trim_left_slashes
    trim_space strip_prefix
joins = refl
