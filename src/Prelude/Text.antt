-- ===== src/Prelude/Text.antt =====
-- Go's `strings` functions that the source uses, over texts of code points. `len` counts bytes.
use Prim.Native.Nat.{ℕ, zero, suc, ◌+◌, ◌-◌, ◌*◌, ◌/◌, ◌%◌}
use Prim.Native.Char.{code}
use Prim.Native.String
use Prim.Native.String.{String, [], ◌∷◌, len, slice}
use mathlib.Core.Bool.{Bool, true, false, ◌&&◌, ◌||◌}
use mathlib.Core.Option
use mathlib.Core.Option.{Option, none, some}
use mathlib.Core.List.{List, [], ◌∷◌}
use text.Mathlib.Text.{◌==◌ as same_text}
use code_guda_gateway.Prelude.Tests.{ltb, leb, ◌==◌, if◌then◌else◌}
use code_guda_gateway.Prelude.Int.{ℤ, pos, negsuc}

-- Equality of two texts, Go's `==` on strings.
infix 50 ◌=ₜ◌
abbrev pub ◌=ₜ◌ : String → String → Bool
s =ₜ t = same_text s t

-- unicode.IsSpace
unfoldable pub is_space : ℕ → Bool
is_space c =
    (leb 9 c && leb c 13)
    || c == 32
    || c == 0x85
    || c == 0xa0
    || c == 0x1680
    || (leb 0x2000 c && leb c 0x200a)
    || c == 0x2028
    || c == 0x2029
    || c == 0x202f
    || c == 0x205f
    || c == 0x3000

unfoldable pub trim_left : String → String
trim_left [] = []
trim_left (c ∷ s) = if is_space (code c) then trim_left s else c ∷ s

unfoldable pub trim_right : String → String
trim_right [] = []
trim_right (c ∷ s) =
    let rest = trim_right s in if is_space (code c) && rest =ₜ "" then "" else c ∷ rest

-- strings.TrimSpace
unfoldable pub trim_space : String → String
unfolding trim_left trim_right is_space
trim_space s = trim_right (trim_left s)

-- strings.TrimPrefix, with `none` where strings.HasPrefix fails
unfoldable pub strip_prefix : String → String → Option String
strip_prefix [] s = some s
strip_prefix (p ∷ ps) [] = none
strip_prefix (p ∷ ps) (c ∷ s) = if code p == code c then strip_prefix ps s else none

abbrev is_digit : ℕ → Bool
is_digit c = leb b'0' c && leb c b'9'

-- The value of a text of decimal digits that follow `acc`.
unfoldable pub digits_from : ℕ → String → Option ℕ
digits_from acc [] = some acc
digits_from acc (c ∷ s) =
    if is_digit (code c) then digits_from (acc * 10 + (code c - 48)) s else none

-- A number without sign up to `most`: at least one digit, and no overflow.
unfoldable pub parse_unsigned : ℕ → String → Option ℕ
unfolding digits_from
parse_unsigned most [] = none
parse_unsigned most (c ∷ s) = elim (digits_from 0 (c ∷ s)) [
  | none ↦ none
  | some n ↦ if leb n most then some n else none
]

abbrev as_negative : ℕ → ℤ
as_negative zero = pos 0
as_negative (suc n) = negsuc n

-- strconv.ParseInt(s, 10, 64), with `none` for its errors.
unfoldable pub parse_int : String → Option ℤ
unfolding parse_unsigned
parse_int [] = none
parse_int (c ∷ s) =
    if code c == b'-'
    then Option.map as_negative (parse_unsigned 9223372036854775808 s)
    else Option.map pos (parse_unsigned 9223372036854775807 (if code c == b'+' then s else c ∷ s))

abbrev found_prefix : Option String → Bool
found_prefix none = false
found_prefix (some rest) = true

-- strings.Contains
unfoldable pub contains_text : String → String → Bool
unfolding strip_prefix
contains_text s [] = true
contains_text [] (p ∷ ps) = false
contains_text (c ∷ s) (p ∷ ps) =
    if found_prefix (strip_prefix (p ∷ ps) (c ∷ s)) then true else contains_text s (p ∷ ps)

-- strings.Join(strings.Fields(s), " "): `pending` tells whether a space is due.
unfoldable pub join_fields_from : Bool → Bool → String → String
unfolding is_space
join_fields_from started pending [] = ""
join_fields_from started pending (c ∷ s) =
    let skipped = join_fields_from started true s in
    let kept = join_fields_from true false s in
    if is_space (code c)
    then skipped
    else if started && pending
    then String.◌++◌ " " (c ∷ kept)
    else c ∷ kept

unfoldable pub join_fields : String → String
unfolding join_fields_from
join_fields s = join_fields_from false false s

abbrev word_before : String → List String → List String
word_before w ws = if w =ₜ "" then ws else w ∷ ws

-- The word that a text begins with, empty after a space, and the words that follow.
unfoldable pub split_word : String → String × List String
unfolding is_space
split_word [] = ("", [])
split_word (c ∷ s) =
    let (w, ws) = split_word s in if is_space (code c) then ("", word_before w ws) else (c ∷ w, ws)

-- strings.Fields
unfoldable pub fields : String → List String
unfolding split_word
fields s = word_before (split_word s).0 (split_word s).1

-- strings.Join(words, " ")
unfoldable pub join_spaced : List String → String
join_spaced [] = ""
join_spaced (w ∷ []) = w
join_spaced (w ∷ v ∷ ws) = String.◌++◌ w (String.◌++◌ " " (join_spaced (v ∷ ws)))

abbrev digit : ℕ → String
digit n =
    if n == 0
    then "0"
    else if n == 1
    then "1"
    else if n == 2
    then "2"
    else if n == 3
    then "3"
    else if n == 4
    then "4"
    else if n == 5
    then "5"
    else if n == 6
    then "6"
    else if n == 7
    then "7"
    else if n == 8
    then "8"
    else "9"

unfoldable pub decimal_from : ℕ → ℕ → String
decimal_from zero n = ""
decimal_from (suc fuel) n =
    let before = decimal_from fuel (n / 10) in
    if ltb n 10 then digit n else String.◌++◌ before (digit (n % 10))

-- strconv.Itoa of an int that is not negative: 20 digits are enough.
unfoldable pub decimal : ℕ → String
unfolding decimal_from
decimal n = decimal_from 20 n
