-- ===== src/Providers/Redact.antt =====
-- `Redact` of internal/providers/keys.go. Its three regular expressions are Go's `regexp`: each is
-- a parameter that replaces every match. A cut in the middle of a character drops that character.
use Prim.Native.String
use Prim.Native.String.{String, len, slice}
use code_guda_gateway.Prelude.{ℕ, ltb, ◌=ₜ◌, if◌then◌else◌, trim_space}

pub record Patterns : Type 0 where
  pub hide_bearer : String → String
  pub hide_api_key : String → String
  pub hide_sk_like : String → String

abbrev pub redact_max_len : ℕ
redact_max_len = 256

unfoldable pub redact : Patterns → String → String
redact p msg =
    let s = trim_space (p.hide_sk_like (p.hide_api_key (p.hide_bearer msg))) in
    if msg =ₜ ""
    then "upstream_error"
    else if s =ₜ ""
    then "upstream_error"
    else if ltb redact_max_len (len s)
    then String.◌++◌ (slice s 0 redact_max_len) "…"
    else s
