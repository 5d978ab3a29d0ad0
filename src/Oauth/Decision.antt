-- ===== src/Oauth/Decision.antt =====
-- internal/mcpoauth/decision.go: whether the grant of a gateway key still gives access.
use code_guda_gateway.Prelude.{ℕ, Option, none, some, if◌then◌else◌}
use code_guda_gateway.Oauth.Tables.{Server, Store, Grant, find_grant_of_key, is_current}

pub data AuthDecision : Type 0 where
  manual oauth_valid oauth_expired : AuthDecision

abbrev pub decision_of : Server → ℕ → Option Grant → AuthDecision
decision_of o now none = manual
decision_of o now (some g) =
    if is_current (o.parse_time g.access_expires_at) now then oauth_valid else oauth_expired

unfoldable pub check_oauth_grant : Server → ℕ → ℕ → Store → AuthDecision
check_oauth_grant o now i st = decision_of o now (find_grant_of_key i st.grants)
