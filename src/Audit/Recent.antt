-- ===== src/Audit/Recent.antt =====
-- internal/audit/audit.go: what the bounded read of the log gives.
use code_guda_gateway.Prelude.{
  ℕ, zero, suc, ◌-◌, ◌≤◌, ◌≡◌, refl, ap, sym, ◌∙◌, List, [], ◌∷◌, ◌++◌, length, length-append, take,
  drop, pos, ok, arith, leb_int, true,
}
use native.Mathlib.Decide.{dec_lt}
use code_guda_gateway.Audit.{StoredAuditEvent, AuditTable, reversed, list_recent}

append_nil : (xs : List StoredAuditEvent) → xs ++ [] ≡ xs
append_nil [] = refl
append_nil (x ∷ xs) = ap (◌∷◌ x) (append_nil xs)

append_assoc : (xs ys zs : List StoredAuditEvent) → (xs ++ ys) ++ zs ≡ xs ++ (ys ++ zs)
append_assoc [] ys zs = refl
append_assoc (x ∷ xs) ys zs = ap (◌∷◌ x) (append_assoc xs ys zs)

reversed-append : (xs ys : List StoredAuditEvent) → reversed (xs ++ ys) ≡ reversed ys ++ reversed xs
unfolding reversed
reversed-append [] ys = sym (append_nil (reversed ys))
reversed-append (x ∷ xs) ys =
    ap (λ zs. zs ++ x ∷ []) (reversed-append xs ys)
    ∙ append_assoc (reversed ys) (reversed xs) (x ∷ [])

reversed-reversed : (xs : List StoredAuditEvent) → reversed (reversed xs) ≡ xs
unfolding reversed
reversed-reversed [] = refl
reversed-reversed (x ∷ xs) =
    reversed-append (reversed xs) (x ∷ []) ∙ ap (◌∷◌ x) (reversed-reversed xs)

length-reversed : (xs : List StoredAuditEvent) → length (reversed xs) ≡ length xs
unfolding reversed
length-reversed [] = refl
length-reversed (x ∷ xs) = omega (arith, length-append (reversed xs) (x ∷ []), length-reversed xs)

-- A prefix of an appended list that ends within the first part, or with it.
take-append :
    (n : ℕ) (xs ys : List StoredAuditEvent) → n ≤ length xs → take n (xs ++ ys) ≡ take n xs
take-append zero xs ys h = refl
take-append (suc n) [] ys h = absurd (omega (arith, h))
take-append (suc n) (x ∷ xs) ys h = ap (◌∷◌ x) (take-append n xs ys (omega (arith, h)))

take-all : (n : ℕ) (xs : List StoredAuditEvent) → length xs ≤ n → take n xs ≡ xs
take-all zero [] h = refl
take-all zero (x ∷ xs) h = absurd (omega (arith, h))
take-all (suc n) [] h = refl
take-all (suc n) (x ∷ xs) h = ap (◌∷◌ x) (take-all n xs (omega (arith, h)))

drop-nil : (n : ℕ) → drop {A = StoredAuditEvent} n [] ≡ []
drop-nil zero = refl
drop-nil (suc n) = refl

-- The window of the `n` newest rows is the end of the log.
window :
    (n : ℕ) (xs : List StoredAuditEvent) → reversed (take n (reversed xs)) ≡ drop (length xs - n) xs
unfolding reversed
window n [] = ap reversed (take-all n [] (omega arith)) ∙ sym (drop-nil (0 - n))
window n (x ∷ xs) = elim (dec_lt (length xs) n) [
  | yes all ↦
      ap reversed (take-all n (reversed (x ∷ xs)) (omega (arith, all, length-reversed (x ∷ xs))))
      ∙ reversed-reversed (x ∷ xs)
      ∙ sym (dropping 0 (suc (length xs) - n) (omega (arith, all)))
  | no short ↦
      ap reversed (take-append n (reversed xs) (x ∷ []) (omega (arith, short, length-reversed xs)))
      ∙ window n xs
      ∙ sym (dropping (suc (length xs - n)) (suc (length xs) - n) (omega (arith, short)))
]
  where
    dropping : (k m : ℕ) → m ≡ k → drop m (x ∷ xs) ≡ drop k (x ∷ xs)
    dropping k m e = ap (λ j. drop j (x ∷ xs)) e

-- The bounded read gives the last `limit` rows of the log, all of it if there are fewer, in their
-- order.
pub list_recent-drop :
    (limit : ℕ) (t : AuditTable)
    → 1 ≤ limit
    → list_recent (pos limit) t ≡ ok (drop (length t.rows - limit) t.rows)
unfolding list_recent
list_recent-drop limit t some_rows =
    let accepted : leb_int (pos 1) (pos limit) ≡ true = ground (arith, some_rows) in
    rw (accepted, list_recent) (ap ok (window limit t.rows))
