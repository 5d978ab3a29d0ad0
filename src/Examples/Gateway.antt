-- ===== src/Examples/Gateway.antt =====
-- Runs of the gateway's keys and its invite codes.

use code_guda_gateway.Prelude.{
  ℕ, zero, suc, ◌≡◌, ◌≢◌, refl, String, false, none, some, List, [], ◌∷◌, ok, pos, arith,
  strip_prefix,
}
use code_guda_gateway.Timestamp.{format, fraction, fraction_digits, lt_bytes}
use code_guda_gateway.Idgen.{random_base62, base62_char, is_alnum, all_alnum}
use code_guda_gateway.GatewayKeys.{
  Service, KeyRow, Table, DisplayKey, display, is_raw_key, new_row, insert, insert_key_details,
  find_hash, lookup, update, revoked, revoke, enable, is_unused, revoke_where, revoke_unused,
}
use code_guda_gateway.GatewayKeys.Create.{lookup-insert_key_details}
use code_guda_gateway.GatewayKeys.Revocation.{enables, run, step, revoke_is_final}
use code_guda_gateway.Examples.World.{calendar}

abbrev pub svc : Service
svc = record { calendar = calendar; sha256_hex = λ s. s }

abbrev draws : ℕ → List ℕ
draws zero = []
draws (suc n) = 0 ∷ draws n

abbrev empty : Table
empty = record { rows = []; next_id = 1 }

abbrev pub first_key : String
first_key = "gsk_AAAAAAAAAAAAAAAAAAAAAAAAAAAAAAAA"

abbrev pub first_row : KeyRow
first_row = new_row svc 5000000000 1 first_key "laptop" false "operator" "laptop" none

abbrev one_key : Table
one_key = insert empty first_row

drawn : random_base62 (draws 32) 32 ≡ some "AAAAAAAAAAAAAAAAAAAAAAAAAAAAAAAA"
unfolding random_base62 base62_char
drawn = refl

creates_key :
    insert_key_details svc 5000000000 (draws 32) "laptop" false "operator" "laptop" none empty
    ≡ ok (first_key, 1, one_key)
unfolding insert_key_details
creates_key = rw (drawn, insert_key_details) refl

fresh : find_hash first_key [] ≡ none
unfolding find_hash
fresh = refl

lookup-insert_key_details_example :
    (d : DisplayKey) × (lookup svc first_key one_key ≡ ok (some d))
    × (d.id ≡ 1)
    × (d.name ≡ "laptop")
    × (d.oauth_owned ≡ false)
lookup-insert_key_details_example =
    lookup-insert_key_details svc 5000000000 (draws 32) "laptop" "operator" "laptop" first_key false
      none empty one_key 1 creates_key fresh

abbrev pub second_row : KeyRow
second_row = record first_row { id = 2; key_hash = "gsk_BBBBBBBBBBBBBBBBBBBBBBBBBBBBBBBB" }

abbrev pub two_keys : Table
two_keys = record { rows = first_row ∷ second_row ∷ []; next_id = 3 }

finds_second :
    lookup svc "gsk_BBBBBBBBBBBBBBBBBBBBBBBBBBBBBBBB"
      (run svc (enables 1 ∷ []) (revoke svc 6000000000 1 two_keys))
    ≡ ok (some (display second_row))
unfolding lookup run step revoke enable update find_hash is_raw_key strip_prefix all_alnum is_alnum
finds_second = refl

revoke_is_final_example : (display second_row).id ≢ 1
revoke_is_final_example =
    revoke_is_final svc 1 6000000000 two_keys (enables 1 ∷ [])
      "gsk_BBBBBBBBBBBBBBBBBBBBBBBBBBBBBBBB" (display second_row) (omega arith) finds_second

abbrev busy_row : KeyRow
busy_row = record first_row { last_used_at = some (format calendar 200000000000000) }

abbrev busy : Table
busy = record { rows = busy_row ∷ second_row ∷ []; next_id = 3 }

abbrev swept : Table
swept = record { rows = busy_row ∷ revoked svc 200000000000000 second_row ∷ []; next_id = 3 }

sweeps : revoke_unused svc 200000000000000 (pos 1) busy ≡ ok (1, swept)
unfolding revoke_unused revoke_where is_unused format fraction fraction_digits lt_bytes
sweeps = refl
