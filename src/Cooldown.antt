-- ===== src/Cooldown.antt =====
-- internal/cooldown/cooldown.go: the service-wide cooldown settings, the Retry-After header and
-- the policy by upstream status. Durations are int64 nanoseconds, as integers.
-- http.ParseTime is Go's: a parameter from texts to instants.
pub mod RetryAfter
pub mod Statuses
use code_guda_gateway.Prelude.{
  ℕ, ◌*◌, ◌+◌, String, Bool, true, false, ◌&&◌, ◌||◌, Option, none, some, ◌==◌, leb, ltb,
  if◌then◌else◌, ℤ, pos, negsuc, leb_int, sub_ℕ, wrap64, ◌=ₜ◌, trim_space, parse_int,
}
use code_guda_gateway.Timestamp.{second}

abbrev pub default_rate_limit_cooldown : ℤ
default_rate_limit_cooldown = pos (60 * second)

abbrev pub default_transient_cooldown : ℤ
default_transient_cooldown = pos (30 * second)

abbrev pub default_credential_cooldown : ℤ
default_credential_cooldown = pos (3600 * second)

abbrev pub default_max_retries : ℕ
default_max_retries = 3

abbrev pub max_retry_after : ℤ
max_retry_after = pos (600 * second)

pub record Settings : Type 0 where
  pub rate_limit : ℤ
  pub transient : ℤ
  pub credential : ℤ
  pub max_retries : ℤ

unfoldable pub default_settings : Settings
default_settings = record {
  rate_limit = default_rate_limit_cooldown;
  transient = default_transient_cooldown;
  credential = default_credential_cooldown;
  max_retries = pos default_max_retries;
}

unfoldable pub cap_retry_after : ℤ → ℤ
cap_retry_after d = if leb_int d max_retry_after then d else max_retry_after

-- time.Duration(secs) * time.Second: the product wraps.
unfoldable pub seconds : ℕ → ℤ
seconds secs = wrap64 (secs * second)

-- time.Time.Sub: saturates at the largest duration, and a negative difference is set to 0.
abbrev until_instant : ℕ → ℕ → ℤ
until_instant t now =
    let d = sub_ℕ t now in
    if leb_int d (negsuc 0)
    then pos 0
    else if leb_int d (pos 9223372036854775807)
    then d
    else pos 9223372036854775807

abbrev from_date : Option ℕ → ℕ → Option ℤ
from_date none now = none
from_date (some t) now = some (cap_retry_after (until_instant t now))

abbrev from_header : Option ℤ → Option ℕ → ℕ → Option ℤ
from_header (some (pos secs)) date now = some (cap_retry_after (seconds secs))
from_header (some (negsuc n)) date now = from_date date now
from_header none date now = from_date date now

unfoldable pub parse_retry_after : (String → Option ℕ) → String → ℕ → Option ℤ
unfolding seconds cap_retry_after
parse_retry_after parse_time header now =
    let text = trim_space header in
    if text =ₜ "" then none else from_header (parse_int text) (parse_time text) now

-- The four results of PolicyForStatus.
pub record Policy : Type 0 where
  pub cooldown_dur : ℤ
  pub reason : String
  pub apply_cooldown : Bool
  pub retry_across_keys : Bool

abbrev pub no_cooldown : Policy
no_cooldown = record {
  cooldown_dur = pos 0;
  reason = "";
  apply_cooldown = false;
  retry_across_keys = false;
}

abbrev pub cool_for : ℤ → String → Policy
cool_for d why = record {
  cooldown_dur = d;
  reason = why;
  apply_cooldown = true;
  retry_across_keys = true;
}

unfoldable pub policy_for_status : ℕ → Settings → Policy
policy_for_status status s =
    if status == 200 || status == 201 || status == 202 || status == 204
    then no_cooldown
    else if status == 429
    then cool_for s.rate_limit "rate_limited"
    else if status == 408 || status == 500 || status == 502 || status == 503 || status == 504
    then cool_for s.transient "transient"
    else if status == 401 || status == 403
    then cool_for s.credential "credential_error"
    else if leb 200 status && ltb status 300
    then no_cooldown
    else no_cooldown

unfoldable pub should_mark_success : ℕ → Bool
should_mark_success status = leb 200 status && ltb status 300
