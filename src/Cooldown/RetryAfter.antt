-- ===== src/Cooldown/RetryAfter.antt =====
-- `ParseRetryAfter` of internal/cooldown/cooldown.go: the cap and the product of seconds.
use Prim.Native.Nat.{min}
use code_guda_gateway.Prelude.{
  ℕ, ◌*◌, ◌≤◌, ◌<◌, ◌%◌, ◌≡◌, ◌≢◌, ◌∙◌, ap, String, Option, none, some, arith, eq_iff, ℤ, pos,
  negsuc, ◌≤ℤ◌, trim_space, parse_int,
}
use code_guda_gateway.Timestamp.{second}
use code_guda_gateway.Cooldown.{
  max_retry_after, cap_retry_after, seconds, from_date, from_header, parse_retry_after,
}

cap_retry_after-le : (d : ℤ) → cap_retry_after d ≤ℤ max_retry_after
unfolding cap_retry_after
cap_retry_after-le d = ground arith

from_date-le : (o : Option ℕ) (now : ℕ) {d : ℤ} → from_date o now ≡ some d → d ≤ℤ max_retry_after
unfolding cap_retry_after
from_date-le none now h = ground arith
from_date-le (some t) now h = ground arith

from_header-le :
    (o : Option ℤ) (date : Option ℕ) (now : ℕ) {d : ℤ}
    → from_header o date now ≡ some d
    → d ≤ℤ max_retry_after
unfolding cap_retry_after
from_header-le none date now h = from_date-le date now h
from_header-le (some (negsuc n)) date now h = from_date-le date now h
from_header-le (some (pos n)) date now h = ground (arith, cap_retry_after-le (seconds n))

-- Whatever the header says, an accepted duration is at most ten minutes.
pub parse_retry_after-le :
    (parse_time : String → Option ℕ) (header : String) (now : ℕ) {d : ℤ}
    → parse_retry_after parse_time header now ≡ some d
    → d ≤ℤ max_retry_after
unfolding parse_retry_after
parse_retry_after-le parse_time header now h =
    ground
      (arith, from_header-le (parse_int (trim_space header)) (parse_time (trim_space header)) now)

parse_int-empty : (text : String) {z : ℤ} → parse_int text ≡ some z → text ≢ ""
unfolding parse_int
parse_int-empty text h e = cc (ap parse_int e)

from_seconds :
    (parse_time : String → Option ℕ) (header : String) (now n : ℕ)
    → parse_int (trim_space header) ≡ some (pos n)
    → parse_retry_after parse_time header now ≡ some (cap_retry_after (seconds n))
unfolding parse_retry_after
from_seconds parse_time header now n h =
    ground (arith, eq_iff (trim_space header) "", parse_int-empty (trim_space header) h)

capped_exactly :
    (n : ℕ)
    → n * second < 9223372036854775808
    → cap_retry_after (seconds n) ≡ pos (min (n * second) (600 * second))
unfolding cap_retry_after seconds
capped_exactly n fits = ground arith

-- A count of seconds that fits an int64 of nanoseconds is taken exactly, up to ten minutes.
pub parse_retry_after_seconds :
    (parse_time : String → Option ℕ) (header : String) (now n : ℕ)
    → parse_int (trim_space header) ≡ some (pos n)
    → n * second < 9223372036854775808
    → parse_retry_after parse_time header now ≡ some (pos (min (n * second) (600 * second)))
parse_retry_after_seconds parse_time header now n h fits =
    from_seconds parse_time header now n h ∙ ap some (capped_exactly n fits)

wrapped_below_zero :
    (n : ℕ)
    → 9223372036854775808 ≤ (n * second) % 18446744073709551616
    → cap_retry_after (seconds n) ≤ℤ negsuc 0
unfolding cap_retry_after seconds
wrapped_below_zero n wraps = ground arith

-- A larger count can wrap round to a negative duration, which the cap lets through: wherever the
-- product's low 64 bits have the sign bit set, the duration accepted is below zero.
pub parse_retry_after_overflow :
    (parse_time : String → Option ℕ) (header : String) (now n : ℕ)
    → parse_int (trim_space header) ≡ some (pos n)
    → 9223372036854775808 ≤ (n * second) % 18446744073709551616
    → (d : ℤ) × (parse_retry_after parse_time header now ≡ some d) × (d ≤ℤ negsuc 0)
parse_retry_after_overflow parse_time header now n h wraps = (
  cap_retry_after (seconds n),
  from_seconds parse_time header now n h,
  wrapped_below_zero n wraps,
)
