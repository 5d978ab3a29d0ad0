-- ===== src/Examples/Texts.antt =====
-- Runs of the Retry-After header, the policy, the timestamps and the paging.
use Prim.Native.Nat.{min}
use code_guda_gateway.Prelude.{
  ℕ, ◌*◌, ◌≡◌, refl, String, Option, none, some, ℤ, pos, negsuc, ◌≤ℤ◌, arith, parse_int,
  parse_unsigned, digits_from, trim_space,
}
use code_guda_gateway.Timestamp.{second}
use code_guda_gateway.Cooldown.{parse_retry_after, seconds, cap_retry_after}
use code_guda_gateway.Cooldown.RetryAfter.{parse_retry_after_overflow}

abbrev no_date : String → Option ℕ
no_date text = none

reads_120 : parse_int (trim_space " 120 ") ≡ some (pos 120)
unfolding parse_int parse_unsigned digits_from trim_space
reads_120 = refl

reads_two_minutes :
    parse_retry_after no_date " 120 " 0 ≡ some (pos (min (120 * second) (600 * second)))
unfolding parse_retry_after seconds cap_retry_after parse_int parse_unsigned digits_from trim_space
reads_two_minutes = refl

reads_large : parse_int (trim_space "9223372037") ≡ some (pos 9223372037)
unfolding parse_int parse_unsigned digits_from trim_space
reads_large = refl

parse_retry_after_overflow_example :
    (d : ℤ) × (parse_retry_after no_date "9223372037" 0 ≡ some d) × (d ≤ℤ negsuc 0)
parse_retry_after_overflow_example =
    parse_retry_after_overflow no_date "9223372037" 0 9223372037 reads_large (omega arith)
