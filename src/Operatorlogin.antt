-- ===== src/Operatorlogin.antt =====
-- internal/operatorlogin/github.go: its configuration. encoding/json, base64 and SHA-256 are Go's:
-- parameters. The setting's value is the decoded configuration, `none` where the row is missing.
pub mod Flows
pub mod Github
pub mod Stored
pub mod Approval
pub mod Consent
use Prim.Native.Nat.{Ordering}
use Prim.Native.Char.{code}
use Prim.Native.String
use Prim.Native.String.{[], ◌∷◌, len, compare}
use code_guda_gateway.Prelude.{
  ℕ, ◌+◌, ◌*◌, ◌≡◌, String, Bool, true, false, not, ◌&&◌, ◌||◌, Option, none, some, List, [], ◌∷◌,
  ◌==◌, ltb, leb, ◌=ₜ◌, if◌then◌else◌, length, trim_space, parse_int, pos, negsuc, ℤ, Result, ok,
  err, ◌>>=◌, ◌>>◌, require, or_fail, map_error,
}
use code_guda_gateway.Timestamp.{second}
use code_guda_gateway.Secrets
use code_guda_gateway.Secrets.{Bytes, Aead, encrypt}

pub data Error : Type 0 where
  denied bad_config seal_failed flow_taken : Error

pub record Configuration : Type 0 where
  pub enabled : Bool
  pub client_id : String
  pub secret : String
  pub allowed_ids : List String
  pub revision : String

pub record Status : Type 0 where
  pub enabled : Bool
  pub client_id : String
  pub secret_configured : Bool
  pub allowed_ids : List String
  pub callback_url : String
  pub available : Bool

pub record Update : Type 0 where
  pub enabled : Bool
  pub client_id : String
  pub client_secret : String
  pub allowed_ids : List String

-- url.Values
abbrev pub Values : Type 0
Values = List (String × List String)

pub record Flow : Type 0 where
  pub form : Values
  pub verifier : String
  pub user_id : String
  pub login : String

-- What the package calls. `encode_values` is url.Values.Encode.
pub record Codec : Type 0 where
  pub encode_flow : Flow → String
  pub decode_flow : String → Option Flow
  pub encode_base64 : Bytes → String
  pub decode_base64 : String → Option Bytes
  pub decode-encode_base64 : (b : Bytes) → decode_base64 (encode_base64 b) ≡ some b
  pub encode_values : Values → String
  pub sha256_hex : String → String

pub record Service : Type 0 where
  pub codec : Codec
  pub aead : Aead
  pub key : Bytes
  pub issuer : String

-- A row of operator_login_flows, whose primary key is the token's hash.
pub record FlowRow : Type 0 where
  pub token_hash : String
  pub browser_hash : String
  pub revision : String
  pub phase : String
  pub payload : String
  pub expires_at : ℕ

pub record Tables : Type 0 where
  pub config : Option Configuration
  pub flows : List FlowRow

abbrev pub callback_path : String
callback_path = "/authorize/github/callback"

abbrev pub ttl : ℕ
ttl = 600 * second

abbrev pub load : Tables → Configuration
load t = elim t.config [
  | none ↦ record { enabled = false; client_id = ""; secret = ""; allowed_ids = []; revision = "" }
  | some c ↦ c
]

abbrev pub status_of : Service → Configuration → Status
status_of s c =
    let available = not (s.issuer =ₜ "") && length s.key == 32 in
    record {
      enabled = c.enabled;
      client_id = c.client_id;
      secret_configured = not (c.secret =ₜ "");
      allowed_ids = c.allowed_ids;
      callback_url = if available then String.◌++◌ s.issuer callback_path else "";
      available = available;
    }

unfoldable pub status : Service → Tables → Status
status s t = status_of s (load t)

abbrev is_blank : ℕ → Bool
is_blank c = c == 13 || c == 10 || c == 9 || c == 32

-- strings.ContainsAny(text, "\r\n\t ")
unfoldable pub has_blank : String → Bool
has_blank [] = false
has_blank (c ∷ s) = is_blank (code c) || has_blank s

abbrev is_positive : Option ℤ → Bool
is_positive (some (pos n)) = ltb 0 n
is_positive (some (negsuc n)) = false
is_positive none = false

-- The text starts as strconv.FormatInt prints a positive number: no sign, and no leading zero.
abbrev is_plain : String → Bool
is_plain [] = false
is_plain (c ∷ s) = leb b'1' (code c) && leb (code c) b'9'

unfoldable pub is_user_id : String → Bool
is_user_id v = is_positive (parse_int v) && is_plain v

unfoldable pub allowed : List String → String → Bool
allowed [] i = false
allowed (v ∷ vs) i = v =ₜ i || allowed vs i

-- The loop over the ids: each one trimmed and checked, `seen` holding those before it.
unfoldable pub checked_ids : List String → List String → Result Error (List String)
checked_ids seen [] = ok []
checked_ids seen (v ∷ vs) =
    let i = trim_space v in
    let skipped = checked_ids seen vs in
    let kept = checked_ids (i ∷ seen) vs in
    if not (is_user_id i)
    then err bad_config
    else if allowed seen i
    then skipped
    else kept >>= λ rest. ok (i ∷ rest)

abbrev is_at_most : Ordering → Bool
is_at_most Ordering.lt = true
is_at_most Ordering.eq = true
is_at_most Ordering.gt = false

unfoldable pub insert_text : String → List String → List String
insert_text v [] = v ∷ []
insert_text v (w ∷ ws) = if is_at_most (compare v w) then v ∷ w ∷ ws else w ∷ insert_text v ws

-- sort.Strings
unfoldable pub sort_texts : List String → List String
unfolding insert_text
sort_texts [] = []
sort_texts (v ∷ vs) = insert_text v (sort_texts vs)

-- The secret that is kept: the new one, encrypted, or the old one for the same client id.
unfoldable pub kept_secret :
    Service → Option Bytes → String → String → Configuration → Result Error String
kept_secret s drawn client_id client_secret c =
    if client_secret =ₜ ""
    then ok (if client_id =ₜ c.client_id then c.secret else "")
    else require (trim_space client_secret =ₜ client_secret) bad_config
      >> (map_error (λ _. seal_failed) (encrypt s.aead s.key drawn client_secret) >>= λ sealed.
          ok (s.codec.encode_base64 sealed))

-- Save; `drawn` and `revision` are what the random source gives.
unfoldable pub save : Service → Option Bytes → String → Update → Tables → Result Error Tables
unfolding kept_secret
save s drawn revision u t = do
  let client_id = trim_space u.client_id
  require (not (ltb 256 (len client_id) || has_blank client_id)) bad_config
  require (not (ltb 4096 (len u.client_secret) || ltb 100 (length u.allowed_ids))) bad_config
  ids ← checked_ids [] u.allowed_ids
  secret ← kept_secret s drawn client_id u.client_secret (load t)
  require
      (not (
        u.enabled
        && (s.issuer =ₜ ""
            || not (length s.key == 32)
            || client_id =ₜ ""
            || secret =ₜ ""
            || length ids == 0)))
      bad_config
  let c : Configuration = (record {
    enabled = u.enabled;
    client_id = client_id;
    secret = secret;
    allowed_ids = sort_texts ids;
    revision = revision;
  })
  ok (record t { config = some c })

-- `enabled`
unfoldable pub enabled_config : Service → Tables → Result Error Configuration
enabled_config s t =
    let c = load t in
    if not c.enabled
      || c.client_id =ₜ ""
      || c.secret =ₜ ""
      || length c.allowed_ids == 0
      || s.issuer =ₜ ""
    then err denied
    else ok c
