-- ===== src/Oauth/Tables.antt =====
-- The tables of internal/mcpoauth (internal/store/migrations.go) and the statements on them. The
-- instants are stored as texts and parsed before they are compared.
use Prim.Native.String
use code_guda_gateway.Prelude.{
  ℕ, String, Bool, false, not, ◌&&◌, ◌||◌, Option, none, some, List, [], ◌∷◌, ◌++◌, ◌==◌, ◌=ₜ◌, ltb,
  if◌then◌else◌, Result, ok, require, is_some, ◌>>◌, suc,
}
use code_guda_gateway.Timestamp.{Stamp}
use code_guda_gateway.GatewayKeys
use code_guda_gateway.GatewayKeys.{Service}

pub record Client : Type 0 where
  pub client_id : String
  pub client_name : Option String
  pub redirect_uris : List String

pub record Code : Type 0 where
  pub code_hash : String
  pub client_id : String
  pub redirect_uri : String
  pub code_challenge : String
  pub code_challenge_method : String
  pub expires_at : Stamp
  pub issued_via : String
  pub agent_label : String
  pub ref_code_id : Option ℕ
  pub resource : String
  pub scope : String

pub record Grant : Type 0 where
  pub refresh_hash : String
  pub gateway_key_id : ℕ
  pub client_id : String
  pub access_expires_at : Stamp
  pub refresh_expires_at : Stamp
  pub resource : String
  pub scope : String
  pub family_id : String

-- A row of oauth_refresh_history.
pub record Refreshed : Type 0 where
  pub refresh_hash : String
  pub family_id : String
  pub gateway_key_id : ℕ
  pub expires_at : Stamp

-- The tables that the token endpoint works on.
pub record Store : Type 0 where
  pub keys : GatewayKeys.Table
  pub clients : List Client
  pub codes : List Code
  pub grants : List Grant
  pub history : List Refreshed

-- The server, with what it calls: time.Parse, the S256 challenge of a verifier (SHA-256 and
-- base64url), and base64url of random bytes.
pub record Server : Type 0 where
  pub issuer : String
  pub service : Service
  pub parse_time : Stamp → Option ℕ
  pub challenge : String → String
  pub base64 : List ℕ → String

unfoldable pub find_client : String → List Client → Option Client
find_client i [] = none
find_client i (c ∷ cs) = if c.client_id =ₜ i then some c else find_client i cs

unfoldable pub find_code : String → List Code → Option Code
find_code hash [] = none
find_code hash (c ∷ cs) = if c.code_hash =ₜ hash then some c else find_code hash cs

unfoldable pub delete_code : String → List Code → List Code
delete_code hash [] = []
delete_code hash (c ∷ cs) =
    if c.code_hash =ₜ hash then delete_code hash cs else c ∷ delete_code hash cs

unfoldable pub find_grant : String → List Grant → Option Grant
find_grant hash [] = none
find_grant hash (g ∷ gs) = if g.refresh_hash =ₜ hash then some g else find_grant hash gs

unfoldable pub find_grant_of_key : ℕ → List Grant → Option Grant
find_grant_of_key i [] = none
find_grant_of_key i (g ∷ gs) = if g.gateway_key_id == i then some g else find_grant_of_key i gs

unfoldable pub delete_grant : String → List Grant → List Grant
delete_grant hash [] = []
delete_grant hash (g ∷ gs) =
    if g.refresh_hash =ₜ hash then delete_grant hash gs else g ∷ delete_grant hash gs

-- The rows that the deletion affects.
unfoldable pub count_grant : String → List Grant → ℕ
count_grant hash [] = 0
count_grant hash (g ∷ gs) =
    let rest = count_grant hash gs in if g.refresh_hash =ₜ hash then suc rest else rest

unfoldable pub delete_family : String → List Grant → List Grant
delete_family family [] = []
delete_family family (g ∷ gs) =
    if g.family_id =ₜ family then delete_family family gs else g ∷ delete_family family gs

unfoldable pub find_refreshed : String → List Refreshed → Option Refreshed
find_refreshed hash [] = none
find_refreshed hash (h ∷ hs) = if h.refresh_hash =ₜ hash then some h else find_refreshed hash hs

-- id IN (SELECT gateway_key_id FROM oauth_refresh_history WHERE family_id = ?)
unfoldable pub in_family : String → ℕ → List Refreshed → Bool
in_family family i [] = false
in_family family i (h ∷ hs) =
    (h.family_id =ₜ family && h.gateway_key_id == i) || in_family family i hs

unfoldable pub disable_family :
    String → List Refreshed → List GatewayKeys.KeyRow → List GatewayKeys.KeyRow
disable_family family history [] = []
disable_family family history (r ∷ rs) =
    (if in_family family r.id history then record r { enabled = false } else r)
    ∷ disable_family family history rs

-- now.After(exp) does not hold; a text that cannot be parsed counts as expired.
abbrev pub is_current : Option ℕ → ℕ → Bool
is_current none now = false
is_current (some expiry) now = not (ltb expiry now)

pub data TokenError : Type 0 where
  oauth_error : ℕ → String → String → TokenError
  internal_error : TokenError

-- A jsonOAuthError with status 400.
abbrev pub invalid_grant : String → TokenError
invalid_grant = oauth_error 400 "invalid_grant"

abbrev pub refreshed_of : Grant → Refreshed
refreshed_of g = record {
  refresh_hash = g.refresh_hash;
  family_id = g.family_id;
  gateway_key_id = g.gateway_key_id;
  expires_at = g.refresh_expires_at;
}

-- The two INSERT statements of a new grant, which its primary keys and its unique key can refuse.
unfoldable pub insert_grant : Grant → Store → Result TokenError Store
insert_grant g st = do
  require (not (is_some (find_grant g.refresh_hash st.grants))) internal_error
  require (not (is_some (find_grant_of_key g.gateway_key_id st.grants))) internal_error
  require (not (is_some (find_refreshed g.refresh_hash st.history))) internal_error
  ok (record st { grants = st.grants ++ g ∷ []; history = st.history ++ refreshed_of g ∷ [] })

-- What the endpoint answers with; a refresh token only with offline_access.
pub record Tokens : Type 0 where
  pub access_token : String
  pub refresh_token : Option String
  pub scope : String

abbrev pub resource_url : Server → String
resource_url o = String.◌++◌ o.issuer "/mcp"
