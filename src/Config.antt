-- ===== src/Config.antt =====
-- internal/config/config.go: the process settings of the environment. strconv.ParseBool is written
-- out.
use code_guda_gateway.Prelude.{
  String, Bool, true, false, ◌||◌, Option, none, some, ◌=ₜ◌, if◌then◌else◌, trim_space, Result, ok,
  err, ◌>>=◌, >>=-eq-ok, ◌≡◌, refl, ◌∙◌, ap, arith,
}

pub record Config : Type 0 where
  pub addr : String
  pub db_path : String
  pub master_key_path : String
  pub admin_cookie_secure : Bool
  pub proxy_debug_attempts : Option Bool
  pub internal_token : String
  pub oauth_password_hash : String
  pub oauth_issuer : String

-- The variable that is no Boolean.
pub data ConfigError : Type 0 where
  bad_cookie_secure bad_debug_attempts : ConfigError

-- os.LookupEnv
abbrev pub Lookup : Type 0
Lookup = String → Option String

-- strconv.ParseBool
unfoldable pub parse_bool : String → Option Bool
parse_bool s =
    if s =ₜ "1" || s =ₜ "t" || s =ₜ "T" || s =ₜ "true" || s =ₜ "TRUE" || s =ₜ "True"
    then some true
    else if s =ₜ "0" || s =ₜ "f" || s =ₜ "F" || s =ₜ "false" || s =ₜ "FALSE" || s =ₜ "False"
    then some false
    else none

-- A variable that is set to more than space, trimmed.
abbrev pub given : Option String → Option String
given none = none
given (some v) = if trim_space v =ₜ "" then none else some (trim_space v)

abbrev or_text : Option String → String → String
or_text none fallback = fallback
or_text (some v) fallback = v

unfoldable pub lookup_default : Lookup → String → String → String
lookup_default lookup key fallback = or_text (given (lookup key)) fallback

-- A Boolean variable, if it is given.
abbrev pub flag_of : ConfigError → Option String → Result ConfigError (Option Bool)
flag_of e none = ok none
flag_of e (some v) = elim (parse_bool v) [ none ↦ err e | some b ↦ ok (some b) ]

abbrev or_true : Option Bool → Bool
or_true none = true
or_true (some b) = b

unfoldable pub load_from_lookup : Lookup → Result ConfigError Config
unfolding parse_bool lookup_default
load_from_lookup lookup = do
  secure ← flag_of bad_cookie_secure (given (lookup "GUDA_ADMIN_COOKIE_SECURE"))
  debug ← flag_of bad_debug_attempts (given (lookup "GUDA_PROXY_DEBUG_ATTEMPTS"))
  ok (record {
    addr = lookup_default lookup "ADDR" "127.0.0.1:8080";
    db_path = lookup_default lookup "DB_PATH" "/var/lib/code-guda-gateway/gateway.db";
    master_key_path =
        lookup_default lookup "GUDA_MASTER_KEY_PATH" "/etc/code-guda-gateway/master.key";
    admin_cookie_secure = or_true secure;
    proxy_debug_attempts = debug;
    internal_token = lookup_default lookup "GUDA_INTERNAL_TOKEN" "";
    oauth_password_hash = lookup_default lookup "GUDA_OAUTH_OPERATOR_PASSWORD_HASH" "";
    oauth_issuer = lookup_default lookup "GUDA_OAUTH_ISSUER" "";
  })

flag_of-false :
    (e : ConfigError) (v : Option String) (flag : Option Bool)
    → flag_of e (given v) ≡ ok flag
    → or_true flag ≡ false
    → (s : String) × (v ≡ some s) × (parse_bool (trim_space s) ≡ some false)
flag_of-false e none flag read off = absurd (ground (arith, read, off))
flag_of-false e (some s) flag read off = (s, refl, ground (arith, read, off))

abbrev cookie_of : Result ConfigError Config → Bool
cookie_of (ok c) = c.admin_cookie_secure
cookie_of (err e) = true

-- The admin cookie loses its Secure attribute only where the variable is set to a text that, trimmed,
-- is a false Boolean.
pub load_from_lookup-secure :
    (lookup : Lookup) (c : Config)
    → load_from_lookup lookup ≡ ok c
    → c.admin_cookie_secure ≡ false
    → (s : String) × (lookup "GUDA_ADMIN_COOKIE_SECURE" ≡ some s)
      × (parse_bool (trim_space s) ≡ some false)
unfolding load_from_lookup
load_from_lookup-secure lookup c read off =
    let (secure, known, rest) =
      >>=-eq-ok (flag_of bad_cookie_secure (given (lookup "GUDA_ADMIN_COOKIE_SECURE"))) _ read in
    let (debug, _, made) =
      >>=-eq-ok (flag_of bad_debug_attempts (given (lookup "GUDA_PROXY_DEBUG_ATTEMPTS"))) _ rest in
    let same : or_true secure ≡ c.admin_cookie_secure = ap cookie_of made in
    flag_of-false bad_cookie_secure (lookup "GUDA_ADMIN_COOKIE_SECURE") secure known (same ∙ off)
