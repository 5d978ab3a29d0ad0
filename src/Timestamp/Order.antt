-- ===== src/Timestamp/Order.antt =====
-- SQLite's BINARY collation (memcmp) on stored texts, a strict total order, and what is asked of
-- Go's calendar layout.
use code_guda_gateway.Prelude.{
  ℕ, ◌<◌, ◌≡◌, refl, Bool, true, false, List, [], ◌∷◌, ◌++◌, length, ltb, if◌then◌else◌, arith,
}

-- A stored text, as its bytes.
abbrev pub Stamp : Type 0
Stamp = List ℕ

unfoldable pub lt_bytes : Stamp → Stamp → Bool
lt_bytes [] [] = false
lt_bytes [] (y ∷ ys) = true
lt_bytes (x ∷ xs) [] = false
lt_bytes (x ∷ xs) (y ∷ ys) = if ltb x y then true else if ltb y x then false else lt_bytes xs ys

pub record Calendar : Type 0 where
  pub date_time : ℕ → Stamp
  pub width : (s t : ℕ) → length (date_time s) ≡ length (date_time t)
  pub increasing : (s t : ℕ) → s < t → lt_bytes (date_time s) (date_time t) ≡ true

pub lt_bytes_irrefl : (x : Stamp) → lt_bytes x x ≡ false
unfolding lt_bytes
lt_bytes_irrefl [] = refl
lt_bytes_irrefl (x ∷ xs) = ground (arith, lt_bytes_irrefl xs)

pub lt_bytes_trans :
    (x y z : Stamp) → lt_bytes x y ≡ true → lt_bytes y z ≡ true → lt_bytes x z ≡ true
unfolding lt_bytes
lt_bytes_trans [] [] z p q = ground arith
lt_bytes_trans [] (b ∷ y) [] p q = ground arith
lt_bytes_trans [] (b ∷ y) (c ∷ z) p q = refl
lt_bytes_trans (a ∷ x) [] z p q = ground arith
lt_bytes_trans (a ∷ x) (b ∷ y) [] p q = ground arith
lt_bytes_trans (a ∷ x) (b ∷ y) (c ∷ z) p q = ground (arith, lt_bytes_trans x y z)

pub lt_bytes_asymm : (x y : Stamp) → lt_bytes x y ≡ true → lt_bytes y x ≡ false
unfolding lt_bytes
lt_bytes_asymm [] [] p = refl
lt_bytes_asymm [] (b ∷ y) p = refl
lt_bytes_asymm (a ∷ x) [] p = ground arith
lt_bytes_asymm (a ∷ x) (b ∷ y) p = ground (arith, lt_bytes_asymm x y)

-- Neither text below the other: they are one text.
pub lt_bytes_total : (x y : Stamp) → lt_bytes x y ≡ false → lt_bytes y x ≡ false → x ≡ y
unfolding lt_bytes
lt_bytes_total [] [] p q = refl
lt_bytes_total [] (b ∷ y) p q = ground arith
lt_bytes_total (a ∷ x) [] p q = ground arith
lt_bytes_total (a ∷ x) (b ∷ y) p q = ground (arith, lt_bytes_total x y)

-- The order read as `≤`, "not below", is transitive too.
pub lt_bytes_le_trans :
    (x y z : Stamp) → lt_bytes y x ≡ false → lt_bytes z y ≡ false → lt_bytes z x ≡ false
unfolding lt_bytes
lt_bytes_le_trans [] [] z p q = q
lt_bytes_le_trans [] (b ∷ y) [] p q = refl
lt_bytes_le_trans [] (b ∷ y) (c ∷ z) p q = refl
lt_bytes_le_trans (a ∷ x) [] z p q = ground arith
lt_bytes_le_trans (a ∷ x) (b ∷ y) [] p q = ground arith
lt_bytes_le_trans (a ∷ x) (b ∷ y) (c ∷ z) p q = ground (arith, lt_bytes_le_trans x y z)

-- A difference within texts of one width decides, whatever follows.
pub lt_bytes-append :
    (x y u v : Stamp)
    → length x ≡ length y
    → lt_bytes x y ≡ true
    → lt_bytes (x ++ u) (y ++ v) ≡ true
unfolding lt_bytes
lt_bytes-append [] [] u v w p = ground arith
lt_bytes-append [] (b ∷ y) u v w p = absurd (omega arith)
lt_bytes-append (a ∷ x) [] u v w p = absurd (omega arith)
lt_bytes-append (a ∷ x) (b ∷ y) u v w p = ground (arith, lt_bytes-append x y u v)

-- A common beginning does not count.
pub lt_bytes-append_left : (x u v : Stamp) → lt_bytes (x ++ u) (x ++ v) ≡ lt_bytes u v
unfolding lt_bytes
lt_bytes-append_left [] u v = refl
lt_bytes-append_left (a ∷ x) u v = ground (arith, lt_bytes-append_left x u v)
