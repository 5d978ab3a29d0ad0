-- ===== src/Oauth/Authorize.antt =====
-- `handleAuthorizePost` of internal/mcpoauth/server.go: who may have an authorization code. A stored
-- code is of a fresh hash, as its primary key requires.
use Prim.Native.String
use code_guda_gateway.Prelude.{
  ℕ, ◌+◌, ◌*◌, String, Bool, true, false, not, ◌&&◌, ◌||◌, Option, none, some, [], ◌∷◌, ◌++◌, ◌=ₜ◌,
  if◌then◌else◌, is_some, trim_space, Result, ok, err,
}
use code_guda_gateway.Timestamp.{format, second}
use code_guda_gateway.GatewayKeys.Invite
use code_guda_gateway.GatewayKeys.Invite.{InviteService, InviteCode, redeem}
use code_guda_gateway.Providers.Endpoints.{Url}
use code_guda_gateway.Secrets.{Bytes}
use code_guda_gateway.Operatorlogin
use code_guda_gateway.Operatorlogin.{Values}
use code_guda_gateway.Operatorlogin.Github.{Browser, Redirect, start, consume}
use code_guda_gateway.Oauth.Scope.{has_scope, scope_config_write}
use code_guda_gateway.Oauth.Tables.{Code, oauth_error, find_code, resource_url}
use code_guda_gateway.Oauth.Password.{verify_password}
use code_guda_gateway.Oauth.Request.{
  Authorizer, Issuance, AuthorizeForm, Draws, Refusal, Reply, issuance_mode,
  effective_password_hash, Checked, check_form, consent_values, denied_reply, oauth_refused,
  refused, shown_form, refusal, to_github, redirected,
}

-- redeemedBindHint
abbrev pub bind_hint : Option InviteCode → String
bind_hint none = ""
bind_hint (some item) = item.agent_label_bind

abbrev pub invite_message : Authorizer → Invite.Error → Invite.Table → String → String
invite_message a Invite.not_found t code = "Invalid invite code."
invite_message a Invite.is_revoked t code = "This invite code has been revoked."
invite_message a Invite.expired t code = "This invite code has expired."
invite_message a Invite.exhausted t code = "This invite code has reached its maximum redemptions."
invite_message a Invite.label_bound t code =
    String.◌++◌ "Invite code is bound to agent label "
      (String.◌++◌ (a.quote (bind_hint (Invite.find_code code t.rows))) ".")
invite_message a _ t code = "Failed to redeem invite code."

-- How a code may be issued: `issued_via`, the invite code's id, and the invite codes after it.
pub record Permit : Type 0 where
  pub issued_via : String
  pub ref_code_id : Option ℕ
  pub invites : Invite.Table

module _ (a : Authorizer) (now : ℕ) where
  abbrev pub redeemed_permit :
      String
      → Invite.Table
      → Result Invite.Error (InviteCode × Invite.Table)
      → Result Refusal Permit
  redeemed_permit code t (ok (item, t')) =
      ok (record { issued_via = "ref_code"; ref_code_id = some item.id; invites = t' })
  redeemed_permit code t (err e) = err (shown_form 401 (invite_message a e t code))

  -- The operator has approved, by GitHub or by the password.
  abbrev pub operator_approved : Bool → AuthorizeForm → Issuance → Bool
  operator_approved approved f t =
      approved
      || (not (f.password =ₜ "")
          && verify_password a.scrypt f.password (effective_password_hash a t.operator_hash))

  -- The decision, with the operator's approval by GitHub given.
  unfoldable pub permit : Bool → AuthorizeForm → Checked → Issuance → Result Refusal Permit
  permit approved f k t =
      let operator = operator_approved approved f t in
      let mode = issuance_mode t.public_issuance in
      let code = trim_space f.invite in
      if has_scope k.scope scope_config_write && not operator
      then err (
          oauth_refused
            (oauth_error 400 "invalid_scope" "configuration permission requires operator consent"))
      else if operator
      then ok (record { issued_via = "operator"; ref_code_id = none; invites = t.invites })
      else if mode =ₜ "open"
      then ok (record { issued_via = "open_register"; ref_code_id = none; invites = t.invites })
      else if mode =ₜ "ref_code"
      then (if code =ₜ ""
          then err (shown_form 401 "Invite code required.")
          else redeemed_permit code t.invites (redeem a.invites now code k.agent_label t.invites))
      else err (shown_form 401 "Invalid operator password. Please try again.")

  abbrev pub code_of : AuthorizeForm → Checked → Permit → String → Code
  code_of f k p raw = record {
    code_hash = a.server.service.sha256_hex raw;
    client_id = f.client_id;
    redirect_uri = f.redirect_uri;
    code_challenge = f.code_challenge;
    code_challenge_method = f.code_challenge_method;
    expires_at = format a.server.service.calendar (now + 300 * second);
    issued_via = p.issued_via;
    agent_label = k.agent_label;
    ref_code_id = p.ref_code_id;
    resource = resource_url a.server;
    scope = k.scope;
  }

  abbrev pub reply_of : AuthorizeForm → String → Option Url → Reply
  reply_of f raw none = refusal (refused 400 "invalid redirect_uri")
  reply_of f raw (some u) = redirected (a.with_code u raw f.state)

  -- The code's row. An invite that was redeemed stays so where the row cannot be stored.
  abbrev pub store_code :
      Option Bytes → AuthorizeForm → Checked → Permit → Issuance → Reply × Issuance
  store_code none f k p t =
      (refusal (refused 500 "internal error"), record t { invites = p.invites })
  store_code (some bytes) f k p t =
      let raw = a.server.base64 bytes in
      if is_some (find_code (code_of f k p raw).code_hash t.store.codes)
      then (refusal (refused 500 "internal error"), record t { invites = p.invites })
      else (
        reply_of f raw (a.urls.parse f.redirect_uri),
        record t {
          invites = p.invites;
          store = record (t.store) { codes = t.store.codes ++ code_of f k p raw ∷ [] };
        },
      )

  abbrev pub with_permit :
      Draws → AuthorizeForm → Checked → Result Refusal Permit → Issuance → Reply × Issuance
  with_permit d f k (err why) t = (refusal why, t)
  with_permit d f k (ok p) t = store_code d.code_bytes f k p t

  abbrev pub started :
      Issuance → Result Operatorlogin.Error (Redirect × Operatorlogin.Tables) → Reply × Issuance
  started t (ok (r, logins)) = (to_github r, record t { logins = logins })
  started t (err e) = (denied_reply, t)

  abbrev pub start_login :
      Draws
      → Browser
      → AuthorizeForm
      → Checked
      → Option Operatorlogin.Service
      → Issuance
      → Reply × Issuance
  start_login d r f k none t = (denied_reply, t)
  start_login d r f k (some s) t = started t (
      start s a.server.challenge now d.login_nonce d.fresh d.verifier d.login_state r
        (consent_values a f k) t.logins)

  -- The tables after the proof was taken.
  abbrev pub with_consent :
      Draws
      → AuthorizeForm
      → Checked
      → Issuance
      → Result Operatorlogin.Error (Unit {0}) × Operatorlogin.Tables
      → Reply × Issuance
  with_consent d f k t (err e, logins) = (denied_reply, record t { logins = logins })
  with_consent d f k t (ok _, logins) =
      with_permit d f k (permit true f k (record t { logins = logins }))
        (record t { logins = logins })

  abbrev pub consume_login :
      Draws
      → Browser
      → AuthorizeForm
      → Checked
      → Option Operatorlogin.Service
      → Issuance
      → Reply × Issuance
  consume_login d r f k none t = (denied_reply, t)
  consume_login d r f k (some s) t =
      with_consent d f k t (consume s now r f.github_consent (consent_values a f k) t.logins)

  abbrev pub authorize_checked :
      Draws → Browser → AuthorizeForm → Result Refusal Checked → Issuance → Reply × Issuance
  authorize_checked d r f (err why) t = (refusal why, t)
  authorize_checked d r f (ok k) t =
      if f.operator_login =ₜ "github"
      then start_login d r f k a.github t
      else if f.github_consent =ₜ ""
      then with_permit d f k (permit false f k t) t
      else consume_login d r f k a.github t

  unfoldable pub authorize_post : Draws → Browser → AuthorizeForm → Issuance → Reply × Issuance
  authorize_post d r f t = authorize_checked d r f (check_form a f t.store) t
