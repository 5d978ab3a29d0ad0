-- ===== src/Prelude/Int.antt =====
-- Go's signed 64-bit durations as integers over the native numbers. `negsuc n` is -(n + 1).
use Prim.Native.Nat.{ℕ, suc, ◌+◌, ◌-◌, ◌%◌, ◌≤◌}
use mathlib.Core.Bool.{Bool}
use code_guda_gateway.Prelude.Tests.{ltb, leb, if◌then◌else◌}

pub data ℤ : Type 0 where
  pos : ℕ → ℤ
  negsuc : ℕ → ℤ

abbrev pub pos_part : ℤ → ℕ
pos_part (pos n) = n
pos_part (negsuc n) = 0

abbrev pub neg_part : ℤ → ℕ
neg_part (pos n) = 0
neg_part (negsuc n) = suc n

infix 50 ◌≤ℤ◌
abbrev pub ◌≤ℤ◌ : ℤ → ℤ → Type 0
a ≤ℤ b = pos_part a + neg_part b ≤ pos_part b + neg_part a

-- The comparisons of the source: `a <= b`.
abbrev pub leb_int : ℤ → ℤ → Bool
leb_int a b = leb (pos_part a + neg_part b) (pos_part b + neg_part a)

-- a - b of two instants.
abbrev pub sub_ℕ : ℕ → ℕ → ℤ
sub_ℕ a b = if leb b a then pos (a - b) else negsuc (b - a - 1)

-- Go's int64 conversion of a non-negative product: two's complement of the low 64 bits.
abbrev pub wrap64 : ℕ → ℤ
wrap64 n =
    let low = n % 18446744073709551616 in
    if ltb low 9223372036854775808 then pos low else negsuc (18446744073709551615 - low)

-- The exact sum and difference.
infixl 60 ◌+ℤ◌ ◌-ℤ◌
abbrev pub ◌+ℤ◌ : ℤ → ℤ → ℤ
a +ℤ b = sub_ℕ (pos_part a + pos_part b) (neg_part a + neg_part b)

abbrev pub ◌-ℤ◌ : ℤ → ℤ → ℤ
a -ℤ b = sub_ℕ (pos_part a + neg_part b) (pos_part b + neg_part a)

-- Two's complement: the bits of `-(n + 1)` are those of `n`, inverted.
abbrev pub complement : ℤ → ℤ
complement (pos n) = negsuc n
complement (negsuc n) = pos n

abbrev pub to_int64 : ℤ → ℤ
to_int64 (pos n) = wrap64 n
to_int64 (negsuc n) = complement (wrap64 n)

-- Go's `a + b` and `a - b` on int64, which wrap.
unfoldable pub add_int64 : ℤ → ℤ → ℤ
add_int64 a b = to_int64 (a +ℤ b)

unfoldable pub sub_int64 : ℤ → ℤ → ℤ
sub_int64 a b = to_int64 (a -ℤ b)

abbrev pub ltb_int : ℤ → ℤ → Bool
ltb_int a b = ltb (pos_part a + neg_part b) (pos_part b + neg_part a)
