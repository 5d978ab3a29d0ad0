-- ===== src/Idgen.antt =====
-- internal/idgen/base62.go: random base62 texts by rejection sampling. The bytes that the random
-- source gives are a list; where it ends, the source has failed.
use Prim.Native.Char.{Char, code}
use Prim.Native.String.{String, [], ◌∷◌, count, char_at}
use mathlib.Core.Option
use mathlib.Core.Option.{some-injective}
use text.Mathlib.TextLemmas.{length-cons}
use code_guda_gateway.Prelude.{
  ℕ, zero, suc, ◌%◌, ◌<◌, ◌≡◌, refl, ap, subst, ◌∙◌, inl, inr, Bool, true, false, ◌==◌, ==_iff,
  ◌&&◌, ◌||◌, Option, none, some, List, [], ◌∷◌, ltb, leb, if◌then◌else◌, arith, Bool-cases,
  Option-cases,
}

abbrev pub base62_alphabet : String
base62_alphabet = "ABCDEFGHIJKLMNOPQRSTUVWXYZabcdefghijklmnopqrstuvwxyz0123456789"

unfoldable pub base62_char : ℕ → Char
base62_char b = char_at base62_alphabet (b % 62)

-- `for` each place, `for` ever: a byte from 248 on is drawn again.
unfoldable pub random_base62 : List ℕ → ℕ → Option String
random_base62 bytes zero = some ""
random_base62 [] (suc n) = none
random_base62 (b ∷ bytes) (suc n) =
    let taken = Option.map (λ (s : String). String.◌∷◌ (base62_char b) s) (random_base62 bytes n) in
    let skipped = random_base62 bytes (suc n) in if ltb b 248 then taken else skipped

-- [A-Za-z0-9]
unfoldable pub is_alnum : ℕ → Bool
is_alnum c = (leb b'A' c && leb c b'Z') || (leb b'a' c && leb c b'z') || (leb b'0' c && leb c b'9')

unfoldable pub all_alnum : String → Bool
all_alnum [] = true
all_alnum (c ∷ s) = is_alnum (code c) && all_alnum s

-- Every place before the given one has a letter or a digit.
alnum_before : ℕ → Bool
unfolding is_alnum
alnum_before zero = true
alnum_before (suc place) =
    if is_alnum (code (char_at base62_alphabet place)) then alnum_before place else false

alnum_table : alnum_before 62 ≡ true
unfolding alnum_before is_alnum
alnum_table = refl

alnum_at :
    (bound place : ℕ)
    → place < bound
    → alnum_before bound ≡ true
    → is_alnum (code (char_at base62_alphabet place)) ≡ true
unfolding alnum_before
alnum_at zero place early checked = absurd (omega arith)
alnum_at (suc last) place early checked = elim (Bool-cases (place == last)) [
  | inl here ↦ ground (arith, (==_iff place last).0 here, checked)
  | inr before ↦ ground (arith, before, alnum_at last place)
]

base62_char-alnum : (b : ℕ) → is_alnum (code (base62_char b)) ≡ true
unfolding base62_char
base62_char-alnum b = alnum_at 62 (b % 62) (omega arith) alnum_table

abbrev IsDrawn : ℕ → String → Type 0
IsDrawn n s = (count s ≡ n) × (all_alnum s ≡ true)

IsDrawn-cons : (b n : ℕ) (s : String) → IsDrawn n s → IsDrawn (suc n) (String.◌∷◌ (base62_char b) s)
unfolding all_alnum
IsDrawn-cons b n s h =
    (length-cons (base62_char b) s ∙ ap suc h.0, ground (arith, base62_char-alnum b))

-- What is drawn has the length asked for, and letters and digits only.
pub random_base62_lem :
    (bytes : List ℕ) (n : ℕ) (s : String)
    → random_base62 bytes n ≡ some s
    → (count s ≡ n) × (all_alnum s ≡ true)
unfolding random_base62 all_alnum
random_base62_lem bytes zero s h = subst (IsDrawn 0) (some-injective "" s h) (refl, refl)
random_base62_lem [] (suc n) s h = cc
random_base62_lem (b ∷ bytes) (suc n) s h = elim (Bool-cases (ltb b 248)) [
  | inl taken ↦ elim (Option-cases (random_base62 bytes n)) [
    | inl out ↦ ground (arith, h, taken, out)
    | inr (r, e) ↦
        let made : some (String.◌∷◌ (base62_char b) r) ≡ some s = ground (arith, h, taken, e) in
        subst (IsDrawn (suc n)) (some-injective _ s made)
          (IsDrawn-cons b n r (random_base62_lem bytes n r e))
  ]
  | inr skipped ↦ random_base62_lem bytes (suc n) s (ground (arith, h, skipped))
]
