-- ===== src/Oauth/Exchange.antt =====
-- `handleTokenAuthCode` of internal/mcpoauth/server.go. The clock is read once;
-- `key_bytes` and `refresh_bytes` are what the random source gives, `none` where it fails. A form
-- is its fields, empty where the request has none.
use Prim.Native.String
use code_guda_gateway.Prelude.{
  ℕ, ◌+◌, ◌*◌, String, Bool, true, not, ◌||◌, Option, none, some, List, ◌=ₜ◌, if◌then◌else◌,
  trim_space, Result, ok, err, ◌>>=◌, ◌>>◌, require, or_fail, map_error,
}
use code_guda_gateway.Timestamp.{format, second}
use code_guda_gateway.GatewayKeys.{insert_key_details}
use code_guda_gateway.Oauth.Scope.{has_scope, scope_offline_access}
use code_guda_gateway.Oauth.Tables.{
  Server, Store, Client, Code, Grant, Tokens, TokenError, oauth_error, internal_error,
  invalid_grant, find_client, find_code, delete_code, insert_grant, is_current, resource_url,
}

pub record CodeForm : Type 0 where
  pub code : String
  pub redirect_uri : String
  pub client_id : String
  pub code_verifier : String

unfoldable pub is_complete : CodeForm → Bool
is_complete f =
    not (f.code =ₜ "" || f.redirect_uri =ₜ "" || f.client_id =ₜ "" || f.code_verifier =ₜ "")

abbrev pub access_lifetime : ℕ
access_lifetime = 7200 * second

abbrev pub refresh_lifetime : ℕ
refresh_lifetime = 1209600 * second

-- The trimmed name of a registered client, empty where there is none.
abbrev pub shown_name : Option String → String
shown_name none = ""
shown_name (some name) = trim_space name

abbrev pub name_of : Option Client → String
name_of none = ""
name_of (some c) = shown_name c.client_name

abbrev pub first_text : String → String → String
first_text text fallback = if text =ₜ "" then fallback else text

abbrev pub tokens_of : String → String → String → Tokens
tokens_of access refresh scope = record {
  access_token = access;
  refresh_token = if has_scope scope scope_offline_access then some refresh else none;
  scope = scope;
}

-- A transaction that fails leaves the store as it found it.
abbrev pub committed : Store → Result TokenError (Tokens × Store) → Result TokenError Tokens × Store
committed st (ok (tokens, st')) = (ok tokens, st')
committed st (err e) = (err e, st)

-- How a key is issued: the arguments of CreateOAuthTxWithIssuance.
pub record KeyDetails : Type 0 where
  pub name : String
  pub issued_via : String
  pub agent_label : String
  pub ref_code_id : Option ℕ

module _ (o : Server) (now : ℕ) where
  -- The checks on a code that was found, and is deleted by now.
  unfoldable pub check_code : CodeForm → Code → Result TokenError (Unit {0})
  check_code f row = do
    require (is_current (o.parse_time row.expires_at) now) (invalid_grant "code expired")
    require
        (not (
          not (row.resource =ₜ resource_url o)
          || not (row.client_id =ₜ f.client_id)
          || not (row.redirect_uri =ₜ f.redirect_uri)))
        (invalid_grant "client_id or redirect_uri mismatch")
    require (row.code_challenge_method =ₜ "S256")
        (invalid_grant "unsupported code challenge method")
    require (o.challenge f.code_verifier =ₜ row.code_challenge)
        (invalid_grant "code verifier does not match code challenge")

  -- The gateway key, the refresh token and its grant, which both grant types mint in a transaction:
  -- `grant_of` is the grant's row, of the refresh token's hash and the key's id.
  unfoldable pub issue :
      List ℕ
      → Option (List ℕ)
      → KeyDetails
      → (String → ℕ → Grant)
      → Store
      → Result TokenError (Tokens × Store)
  issue key_bytes refresh_bytes d grant_of st = do
    (raw, id, keys) ←
        map_error (λ _. internal_error)
          (insert_key_details o.service now key_bytes d.name true d.issued_via d.agent_label
            d.ref_code_id st.keys)
    bytes ← or_fail refresh_bytes internal_error
    let g = grant_of (o.service.sha256_hex (o.base64 bytes)) id
    st' ← insert_grant g (record st { keys = keys })
    ok (tokens_of raw (o.base64 bytes) g.scope, st')

  abbrev pub grant_of_code : CodeForm → Code → String → ℕ → Grant
  grant_of_code f row hash id = record {
    refresh_hash = hash;
    gateway_key_id = id;
    client_id = f.client_id;
    access_expires_at = format o.service.calendar (now + access_lifetime);
    refresh_expires_at = format o.service.calendar (now + refresh_lifetime);
    resource = row.resource;
    scope = row.scope;
    family_id = hash;
  }

  -- Step 2: the key, its grant and the history, in one transaction.
  unfoldable pub mint :
      List ℕ → Option (List ℕ) → CodeForm → Code → Store → Result TokenError (Tokens × Store)
  unfolding issue
  mint key_bytes refresh_bytes f row st =
      let name = name_of (find_client f.client_id st.clients) in
      issue key_bytes refresh_bytes
        (record {
          name = String.◌++◌ "oauth:" (first_text name row.agent_label);
          issued_via = first_text row.issued_via "operator";
          agent_label = first_text row.agent_label (first_text name f.client_id);
          ref_code_id = row.ref_code_id;
        })
        (grant_of_code f row) st

  -- Step 1 has read the code's row: it is deleted whatever follows.
  abbrev pub exchange_found :
      List ℕ → Option (List ℕ) → CodeForm → Option Code → Store → Result TokenError Tokens × Store
  exchange_found key_bytes refresh_bytes f none st =
      (err (invalid_grant "invalid or expired code"), st)
  exchange_found key_bytes refresh_bytes f (some row) st =
      let spent : Store = (record st {
        codes = delete_code (o.service.sha256_hex f.code) st.codes;
      }) in
      committed spent (check_code f row >> mint key_bytes refresh_bytes f row spent)

  unfoldable pub exchange :
      List ℕ → Option (List ℕ) → CodeForm → Store → Result TokenError Tokens × Store
  exchange key_bytes refresh_bytes f st =
      if is_complete f
      then exchange_found key_bytes refresh_bytes f
          (find_code (o.service.sha256_hex f.code) st.codes) st
      else (err (oauth_error 400 "invalid_request" "missing required fields"), st)
