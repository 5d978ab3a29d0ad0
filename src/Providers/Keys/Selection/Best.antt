-- ===== src/Providers/Keys/Selection/Best.antt =====
-- The order of the selection of internal/providers/keys.go, and the row that it picks.
use code_guda_gateway.Prelude.{
  ℕ, ◌≡◌, ap, refl, inl, inr, String, true, false, Option, none, some, List, [], ◌∷◌, arith, In,
  Bool-cases, subst,
}
use code_guda_gateway.Timestamp.{Stamp, lt_bytes_irrefl, lt_bytes_asymm, lt_bytes_le_trans}
use code_guda_gateway.Providers.KeyTable.{KeyRow}
use code_guda_gateway.Providers.Keys.Selection.{
  is_eligible, ranks_before, precedes, first_of_two, select_row,
}

ranks_before_irrefl : (a : Option Stamp) (i : ℕ) → ranks_before a a i i ≡ false
ranks_before_irrefl none i = ground arith
ranks_before_irrefl (some x) i = ground (arith, lt_bytes_irrefl x)

ranks_before_asymm :
    (a b : Option Stamp) (i j : ℕ) → ranks_before a b i j ≡ true → ranks_before b a j i ≡ false
ranks_before_asymm none none i j h = ground arith
ranks_before_asymm none (some y) i j h = refl
ranks_before_asymm (some x) none i j h = cc
ranks_before_asymm (some x) (some y) i j h = ground (arith, lt_bytes_asymm x y, lt_bytes_asymm y x)

-- A row that does not come after another, which does not come after a third, does not come after
-- the third.
ranks_before_trans :
    (a b c : Option Stamp) (i j k : ℕ)
    → ranks_before b a j i ≡ false
    → ranks_before c b k j ≡ false
    → ranks_before c a k i ≡ false
ranks_before_trans none b none i j k p q = ground arith
ranks_before_trans none none (some z) i j k p q = q
ranks_before_trans none (some y) (some z) i j k p q = refl
ranks_before_trans (some x) none c i j k p q = cc
ranks_before_trans (some x) (some y) none i j k p q = cc
ranks_before_trans (some x) (some y) (some z) i j k p q = ground (
  arith,
  lt_bytes_le_trans x y z,
  lt_bytes_le_trans y z x,
  lt_bytes_le_trans z x y,
  lt_bytes_asymm x y,
  lt_bytes_asymm y z,
)

precedes_irrefl : (r : KeyRow) → precedes r r ≡ false
unfolding precedes
precedes_irrefl r = ranks_before_irrefl r.last_failed_at r.id

precedes_asymm : (r s : KeyRow) → precedes r s ≡ true → precedes s r ≡ false
unfolding precedes
precedes_asymm r s = ranks_before_asymm r.last_failed_at s.last_failed_at r.id s.id

precedes_trans :
    (r s t : KeyRow) → precedes s r ≡ false → precedes t s ≡ false → precedes t r ≡ false
unfolding precedes
precedes_trans r s t =
    ranks_before_trans r.last_failed_at s.last_failed_at t.last_failed_at r.id s.id t.id

-- `r` is the row to select: an eligible row of the table that no eligible row comes before.
pub record IsBest (provider : String) (now : Stamp) (rs : List KeyRow) (r : KeyRow) : Type 0 where
  pub present : In r rs
  pub eligible : is_eligible provider now r ≡ true
  pub first : (s : KeyRow) → In s rs → is_eligible provider now s ≡ true → precedes s r ≡ false

-- The selection is right in both cases: none where no row is eligible, and the best row else.
abbrev pub Selects : String → Stamp → List KeyRow → Option KeyRow → Type 0
Selects provider now rs none = (s : KeyRow) → In s rs → is_eligible provider now s ≡ false
Selects provider now rs (some r) = IsBest provider now rs r

module _ (provider : String) (now : Stamp) where
  Selects-skip :
      (r : KeyRow) (rs : List KeyRow) (o : Option KeyRow)
      → is_eligible provider now r ≡ false
      → Selects provider now rs o
      → Selects provider now (r ∷ rs) o
  Selects-skip r rs none no_r h = λ s m. elim m [
    | inl e ↦ subst (λ x. is_eligible provider now x ≡ false) e no_r
    | inr m' ↦ h s m'
  ]
  Selects-skip r rs (some b) no_r h = record {
    present = inr h.present;
    eligible = h.eligible;
    first = λ s m k. elim m [
      | inl e ↦ cc (no_r, ap (is_eligible provider now) e)
      | inr m' ↦ h.first s m' k
    ];
  }

  Selects-take :
      (r : KeyRow) (rs : List KeyRow) (o : Option KeyRow)
      → is_eligible provider now r ≡ true
      → Selects provider now rs o
      → Selects provider now (r ∷ rs) (first_of_two r o)
  Selects-take r rs none yes_r h = record {
    present = inl refl;
    eligible = yes_r;
    first = λ s m k. elim m [
      | inl e ↦ subst (λ x. precedes x r ≡ false) e (precedes_irrefl r)
      | inr m' ↦ cc (h s m')
    ];
  }
  Selects-take r rs (some b) yes_r h = elim (Bool-cases (precedes b r)) [
    | inl before ↦ rw before (record {
      present = inr h.present;
      eligible = h.eligible;
      first = λ s m k. elim m [
        | inl e ↦ subst (λ x. precedes x b ≡ false) e (precedes_asymm b r before)
        | inr m' ↦ h.first s m' k
      ];
    })
    | inr after ↦ rw after (record {
      present = inl refl;
      eligible = yes_r;
      first = λ s m k. elim m [
        | inl e ↦ subst (λ x. precedes x r ≡ false) e (precedes_irrefl r)
        | inr m' ↦ precedes_trans r b s after (h.first s m' k)
      ];
    })
  ]

  -- The loop finds the row that the statement asks for.
  pub select_row-Selects : (rs : List KeyRow) → Selects provider now rs (select_row provider now rs)
  unfolding select_row
  select_row-Selects [] = λ s m. absurd m
  select_row-Selects (r ∷ rs) = elim (Bool-cases (is_eligible provider now r)) [
    | inl e ↦ rw e (Selects-take r rs (select_row provider now rs) e (select_row-Selects rs))
    | inr e ↦ rw e (Selects-skip r rs (select_row provider now rs) e (select_row-Selects rs))
  ]
