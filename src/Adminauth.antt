-- ===== src/Adminauth.antt =====
-- internal/adminauth/token.go: the admin token. SHA-256 in hex and time.Parse are Go's: parameters.
-- The statements on admin_tokens and admin_sessions do not fail otherwise; ids are AUTOINCREMENT.
pub mod Session
pub mod Login
pub mod Rotation
use Prim.Native.Char.{Char, code}
use Prim.Native.String
use Prim.Native.String.{String, [], ◌∷◌, len, slice, count}
use code_guda_gateway.Prelude.{
  ℕ, suc, ◌+◌, ◌*◌, ◌≡◌, Bool, true, false, not, ◌&&◌, ◌||◌, Option, none, some, List, [], ◌∷◌,
  ◌++◌, ◌==◌, ltb, leb, ◌=ₜ◌, if◌then◌else◌, trim_space, strip_prefix, is_space, Result, ok, err,
  ◌>>=◌, ◌>>◌, require, or_fail, ℤ, pos, leb_int, pos_part,
}
use code_guda_gateway.Timestamp.{Calendar, Stamp, format, second}
use code_guda_gateway.Idgen.{random_base62, all_alnum}

pub data Error : Type 0 where
  no_admin_token invalid_token token_already_set session_invalid : Error
  random_failed bad_expiry session_taken : Error

pub record AdminToken : Type 0 where
  pub id : ℕ
  pub token_hash : String
  pub key_prefix : String
  pub created_at : Stamp
  pub rotated_at : Option Stamp

pub record SessionRow : Type 0 where
  pub id : String
  pub token_hash : String
  pub csrf_token_hash : String
  pub created_at : Stamp
  pub expires_at : Stamp

-- Tokens stand in the order of their ids.
pub record Tables : Type 0 where
  pub tokens : List AdminToken
  pub next_id : ℕ
  pub sessions : List SessionRow

pub record Service : Type 0 where
  pub calendar : Calendar
  pub sha256_hex : String → String
  pub parse_time : Stamp → Option ℕ
  pub session_ttl : ℕ
  pub cookie_secure : Bool

-- The TTL of NewServiceWithOptions.
abbrev pub session_ttl_of : ℤ → ℕ
session_ttl_of ttl = if leb_int ttl (pos 0) then 86400 * second else pos_part ttl

abbrev token_rest : Option String → Bool
token_rest none = false
token_rest (some rest) = count rest == 32 && all_alnum rest

-- The loop over the characters: ASCII, no space, printable (32 to 126 in ASCII).
unfoldable pub all_printable : String → Bool
all_printable [] = true
all_printable (c ∷ s) =
    leb (code c) 127
    && not (is_space (code c))
    && (leb 32 (code c) && leb (code c) 126)
    && all_printable s

-- ValidAdminSecret: ^gat_[A-Za-z0-9]{32}$, or 16 to 128 bytes of printable text.
unfoldable pub valid_admin_secret : String → Bool
valid_admin_secret raw =
    token_rest (strip_prefix "gat_" raw)
    || (not (ltb (len raw) 16 || ltb 128 (len raw)) && all_printable raw)

unfoldable pub display_prefix : String → String
display_prefix raw = if ltb 8 (len raw) then slice raw 0 8 else raw

abbrev pub has_token : Tables → Bool
has_token t = elim t.tokens [ [] ↦ false | ◌∷◌ _ _ ↦ true ]

-- ORDER BY id DESC LIMIT 1
unfoldable pub last_token : List AdminToken → Option AdminToken
last_token [] = none
last_token (x ∷ []) = some x
last_token (x ∷ y ∷ rest) = last_token (y ∷ rest)

abbrev pub matches : String → Option AdminToken → Bool
matches hash none = false
matches hash (some x) = x.token_hash =ₜ hash

-- CurrentPrefix
unfoldable pub current_prefix : Tables → Result Error String
current_prefix t = do x ← or_fail (last_token t.tokens) no_admin_token; ok x.key_prefix

module _ (s : Service) where
  unfoldable pub verify : String → Tables → Bool
  verify raw t =
      if trim_space raw =ₜ "" || not (valid_admin_secret (trim_space raw))
      then false
      else matches (s.sha256_hex (trim_space raw)) (last_token t.tokens)

  module _ (now : ℕ) where
    unfoldable pub insert_admin_token : String → String → Tables → Result Error Tables
    insert_admin_token hash prefix t = do
      require (not (has_token t)) token_already_set
      let row : AdminToken = (record {
        id = t.next_id;
        token_hash = hash;
        key_prefix = prefix;
        created_at = format s.calendar now;
        rotated_at = none;
      })
      ok (record t { tokens = t.tokens ++ row ∷ []; next_id = suc t.next_id })

    -- The row of the lowest id is updated, and every session deleted.
    abbrev pub replaced : String → String → List AdminToken → List AdminToken
    replaced hash prefix [] = []
    replaced hash prefix (x ∷ rest) =
        record x {
          token_hash = hash;
          key_prefix = prefix;
          rotated_at = some (format s.calendar now);
        }
        ∷ rest

    unfoldable pub replace_admin_token : String → String → Tables → Result Error Tables
    replace_admin_token hash prefix t = do
      require (has_token t) no_admin_token
      ok (record t { tokens = replaced hash prefix t.tokens; sessions = [] })

    abbrev token_material : List ℕ → Result Error String
    token_material bytes = do
      suffix ← or_fail (random_base62 bytes 32) random_failed
      ok (String.◌++◌ "gat_" suffix)

    -- Init: the raw token, and the tables.
    unfoldable pub init : List ℕ → Tables → Result Error (String × Tables)
    unfolding insert_admin_token
    init bytes t = do
      raw ← token_material bytes
      t' ← insert_admin_token (s.sha256_hex raw) (display_prefix raw) t
      ok (raw, t')

    unfoldable pub init_from_raw : String → Tables → Result Error Tables
    init_from_raw given t = do
      let raw = trim_space given
      require (valid_admin_secret raw) invalid_token
      insert_admin_token (s.sha256_hex raw) (display_prefix raw) t

    unfoldable pub rotate : List ℕ → Tables → Result Error (String × Tables)
    unfolding replace_admin_token
    rotate bytes t = do
      raw ← token_material bytes
      t' ← replace_admin_token (s.sha256_hex raw) (display_prefix raw) t
      ok (raw, t')

    -- SetFromRaw: the token of the environment; the same token again changes nothing.
    unfoldable pub set_from_raw : String → Tables → Result Error Tables
    set_from_raw given t = do
      let raw = trim_space given
      require (valid_admin_secret raw) invalid_token
      if not (has_token t)
          then insert_admin_token (s.sha256_hex raw) (display_prefix raw) t
          else if verify raw t
          then ok t
          else replace_admin_token (s.sha256_hex raw) (display_prefix raw) t
