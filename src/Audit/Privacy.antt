-- ===== src/Audit/Privacy.antt =====
-- internal/audit/audit.go: what reaches the audit log of a client's address and of a text.
use Prim.Native.Char.{Char, code}
use Prim.Native.String
use Prim.Native.String.{String, [], ◌∷◌, len}
use code_guda_gateway.Prelude.{
  ℕ, ◌≤◌, ◌≡◌, ◌≢◌, true, false, Option, none, some, [], ◌∷◌, ◌++◌, contains_text,
}
use code_guda_gateway.Audit.{AuditRepo}
use code_guda_gateway.Providers.Redact.{redact}

-- A text without the character of this code.
abbrev pub IsFreeOf : ℕ → String → Type 0
IsFreeOf n [] = Unit {0}
IsFreeOf n (c ∷ s) = (code c ≢ n) × IsFreeOf n s

-- What is kept of an address, with no space around it: nothing of an empty one, its kind, or of one
-- with dots the text before the first dot.
pub data IsCoarse (ip : String) : Option String → Type 0 where
  no_address : ip ≡ "" → IsCoarse ip none
  version_6 : contains_text ip ":" ≡ true → IsCoarse ip (some "ipv6")
  opaque : IsCoarse ip (some "ip")
  first_part :
      (a rest : String) (dot : Char)
      → code dot ≡ b'.'
      → IsFreeOf b'.' a
      → ip ≡ String.◌++◌ a (dot ∷ rest)
      → IsCoarse ip (some (String.◌++◌ a ".x.x.x"))

-- What is kept of a text: nothing, the name of the action in its place, or the text with its secrets
-- redacted, of at most 80 characters and without a brace, a line break or the word "prompt".
pub data IsSanitized (r : AuditRepo) (detail action : String) : String → Type 0 where
  no_text : detail ≡ "" → IsSanitized r detail action ""
  action_instead : IsSanitized r detail action action
  unnamed_instead : IsSanitized r detail action "action_recorded"
  short_text :
      len detail ≤ 80
      → IsFreeOf b'{' detail
      → IsFreeOf b'}' detail
      → IsFreeOf 10 detail
      → IsFreeOf 13 detail
      → contains_text (r.to_lower detail) "prompt" ≡ false
      → IsSanitized r detail action (redact r.patterns detail)

-- A prefix up to the first dot of a text.
abbrev IsFirst : String → String → Type 0
IsFirst s a =
    (rest : String) × (dot : Char) × (code dot ≡ b'.')
    × IsFreeOf b'.' a
    × (s ≡ String.◌++◌ a (dot ∷ rest))
