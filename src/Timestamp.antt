-- ===== src/Timestamp.antt =====
-- The timestamps that the repositories store: `t.UTC().Format(time.RFC3339Nano)`, compared as texts
-- by SQLite (internal/providers/keys.go, internal/gatewaykeys, internal/adminauth).
-- An instant is the count of nanoseconds since Go's zero time. The date and the time of day up to
-- the second are Go's calendar, a parameter with the two facts of its layout that matter: its
-- fixed width, and that later seconds have greater texts. The fraction is written out here:
-- RFC3339Nano drops the trailing zeros, and the point with them.
pub mod Order
unfoldable pub use Order.*
use native.Mathlib.Decide.{dec_lt}
use code_guda_gateway.Prelude.{
  ℕ, zero, suc, ◌+◌, ◌-◌, ◌*◌, ◌/◌, ◌%◌, ◌^◌, ◌≤◌, ◌<◌, ◌≡◌, refl, ◌⊎◌, inl, inr, Bool, true, false,
  List, [], ◌∷◌, ◌++◌, ◌==◌, if◌then◌else◌, ℤ, pos_part, neg_part, arith, Bool-cases,
}

abbrev pub second : ℕ
second = 1000000000

-- The digits of `v < 10 ^ k` to width `k`, without trailing zeros.
unfoldable pub fraction_digits : ℕ → ℕ → List ℕ
fraction_digits zero v = []
fraction_digits (suc k) v =
    let rest = fraction_digits k (v % 10 ^ k) in if v == 0 then [] else (b'0' + v / 10 ^ k) ∷ rest

-- What follows the seconds: nothing, or a point and digits; then the zone.
unfoldable pub fraction : ℕ → List ℕ
unfolding fraction_digits
fraction n = if n == 0 then b'Z' ∷ [] else b'.' ∷ (fraction_digits 9 n ++ b'Z' ∷ [])

-- time.Time.Format(time.RFC3339Nano) of a UTC instant.
unfoldable pub format : Calendar → ℕ → Stamp
unfolding fraction
format c t = c.date_time (t / second) ++ fraction (t % second)

-- time.Time.Add
abbrev pub add_time : ℕ → ℤ → ℕ
add_time t d = t + pos_part d - neg_part d

module _ (c : Calendar) where
  pub format_lt_of_seconds :
      (t u : ℕ) → t / second < u / second → lt_bytes (format c t) (format c u) ≡ true
  unfolding format
  format_lt_of_seconds t u h =
      lt_bytes-append (c.date_time (t / second)) (c.date_time (u / second)) (fraction (t % second))
        (fraction (u % second)) (c.width (t / second) (u / second))
        (c.increasing (t / second) (u / second) h)

  -- Instants a second apart are always compared as they follow one another.
  pub format_lt_of_second_apart :
      (t u : ℕ) → t + second ≤ u → lt_bytes (format c t) (format c u) ≡ true
  format_lt_of_second_apart t u h = format_lt_of_seconds t u (omega arith)

  -- A text below another tells that the instant is earlier, up to the second that they share.
  pub lt-of-format_lt :
      (t u : ℕ) → lt_bytes (format c t) (format c u) ≡ true → t / second ≤ u / second
  lt-of-format_lt t u h = elim (dec_lt (u / second) (t / second)) [
    | yes later ↦
        ground (arith, h, lt_bytes_asymm (format c u) (format c t) (format_lt_of_seconds u t later))
    | no sooner ↦ omega arith
  ]

  -- Within a second the texts go the wrong way: a point sorts before the zone letter.
  pub format_inverts :
      (s f : ℕ)
      → 0 < f
      → f < second
      → lt_bytes (format c (s * second + f)) (format c (s * second)) ≡ true
  unfolding format fraction lt_bytes
  format_inverts s f p q =
      let e₁ : (s * second + f) / second ≡ s = omega arith in
      let e₂ : (s * second + f) % second ≡ f = omega arith in
      let e₃ : (s * second) / second ≡ s = omega arith in
      let e₄ : (s * second) % second ≡ 0 = omega arith in
      rw (e₁, e₂, e₃, e₄)
        (rw (lt_bytes-append_left (c.date_time s) (fraction f) (fraction 0)) (ground arith))
