-- ===== src/Oauth/Refresh.antt =====
-- `handleTokenRefreshToken` of internal/mcpoauth/server.go: rotation, and the revocation of a family
-- whose token is presented again.
use code_guda_gateway.Prelude.{
  ℕ, ◌+◌, String, Bool, false, not, ◌&&◌, ◌||◌, Option, none, some, List, [], ◌∷◌, ◌==◌, ◌=ₜ◌, ltb,
  if◌then◌else◌, Result, err, ◌>>=◌, ◌>>◌, require, or_fail,
}
use code_guda_gateway.Timestamp.{format}
use code_guda_gateway.GatewayKeys
use code_guda_gateway.GatewayKeys.{is_usable, or_text, disable, with_rows}
use code_guda_gateway.Oauth.Scope.{has_scope, scope_offline_access}
use code_guda_gateway.Oauth.Tables.{
  Server, Store, Grant, Refreshed, Tokens, TokenError, oauth_error, invalid_grant, find_grant,
  delete_grant, count_grant, delete_family, find_refreshed, disable_family, is_current,
  resource_url,
}
use code_guda_gateway.Oauth.Exchange.{access_lifetime, KeyDetails, first_text, issue, committed}

unfoldable pub find_key : ℕ → List GatewayKeys.KeyRow → Option GatewayKeys.KeyRow
find_key i [] = none
find_key i (r ∷ rs) = if r.id == i then some r else find_key i rs

-- now.Before(exp); a text that cannot be parsed is not before anything.
abbrev pub is_before : ℕ → Option ℕ → Bool
is_before now none = false
is_before now (some expiry) = ltb now expiry

-- Every key of the family is disabled, and every grant of it deleted.
abbrev pub revoke_family : String → Store → Store
revoke_family family st = record st {
  keys = with_rows st.keys (disable_family family st.history st.keys.rows);
  grants = delete_family family st.grants;
}

-- The successor's key is issued as the old one was.
abbrev pub details_of : GatewayKeys.KeyRow → KeyDetails
details_of old = record {
  name = old.name;
  issued_via = first_text (or_text old.issued_via "") "operator";
  agent_label = first_text (or_text old.agent_label "") old.name;
  ref_code_id = old.ref_code_id;
}

-- The old grant is deleted, and its key disabled.
abbrev pub spent_on : Grant → Store → Store
spent_on g st = record st {
  grants = delete_grant g.refresh_hash st.grants;
  keys = disable g.gateway_key_id st.keys;
}

module _ (o : Server) (now : ℕ) where
  -- The hash has no grant: a known one, within its lifetime, revokes its family.
  unfoldable pub replay : Option Refreshed → Store → Store
  replay none st = st
  replay (some h) st =
      if is_before now (o.parse_time h.expires_at) then revoke_family h.family_id st else st

  unfoldable pub check_grant : String → Grant → Result TokenError (Unit {0})
  check_grant client_id g =
      require
        (not (
          not (g.resource =ₜ resource_url o)
          || not (has_scope g.scope scope_offline_access)
          || (not (client_id =ₜ "") && not (g.client_id =ₜ client_id))))
        (invalid_grant "client_id mismatch")

  -- The successor's grant: same client, resource, scope and family, and the same last day.
  abbrev pub successor_of : Grant → String → ℕ → Grant
  successor_of g hash id = record g {
    refresh_hash = hash;
    gateway_key_id = id;
    access_expires_at = format o.service.calendar (now + access_lifetime);
  }

  -- The transaction on a grant that was found.
  unfoldable pub rotate :
      List ℕ → Option (List ℕ) → String → Grant → Store → Result TokenError (Tokens × Store)
  unfolding check_grant
  rotate key_bytes refresh_bytes client_id g st = do
    check_grant client_id g
    require (count_grant g.refresh_hash st.grants == 1)
        (invalid_grant "refresh token already consumed")
    require (is_current (o.parse_time g.refresh_expires_at) now)
        (invalid_grant "refresh token expired")
    old ←
        or_fail (find_key g.gateway_key_id st.keys.rows)
          (invalid_grant "gateway key revoked or disabled")
    require (is_usable old) (invalid_grant "gateway key revoked or disabled")
    issue o now key_bytes refresh_bytes (details_of old) (successor_of g) (spent_on g st)

  abbrev pub refresh_found :
      List ℕ
      → Option (List ℕ)
      → String
      → String
      → Option Grant
      → Store
      → Result TokenError Tokens × Store
  refresh_found key_bytes refresh_bytes hash client_id none st =
      (err (invalid_grant "invalid refresh token"), replay (find_refreshed hash st.history) st)
  refresh_found key_bytes refresh_bytes hash client_id (some g) st =
      committed st (rotate key_bytes refresh_bytes client_id g st)

  unfoldable pub refresh :
      List ℕ → Option (List ℕ) → String → String → Store → Result TokenError Tokens × Store
  refresh key_bytes refresh_bytes token client_id st =
      if token =ₜ ""
      then (err (oauth_error 400 "invalid_request" "refresh_token required"), st)
      else refresh_found key_bytes refresh_bytes (o.service.sha256_hex token) client_id
          (find_grant (o.service.sha256_hex token) st.grants) st
