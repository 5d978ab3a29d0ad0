-- ===== src/Oauth/Token.antt =====
-- `handleToken` and `validResource` of internal/mcpoauth/server.go. The parsed form is an argument,
-- `none` where parsing fails.
use code_guda_gateway.Prelude.{
  ℕ, ◌≡◌, refl, String, Bool, true, false, Option, none, some, List, [], ◌∷◌, ◌=ₜ◌, if◌then◌else◌,
  Result, err, Bool-cases, inl, inr,
}
use code_guda_gateway.Oauth.Tables.{Server, Store, Tokens, TokenError, oauth_error, resource_url}
use code_guda_gateway.Oauth.Exchange.{CodeForm, exchange}
use code_guda_gateway.Oauth.Refresh.{refresh}
use code_guda_gateway.Oauth.Once.{Op, exchanges, refreshes, step, run}

pub record TokenForm : Type 0 where
  pub resources : List String
  pub grant_type : String
  pub code_form : CodeForm
  pub refresh_token : String

unfoldable pub valid_resource : Server → List String → Bool
valid_resource o [] = true
valid_resource o (r ∷ []) = r =ₜ resource_url o
valid_resource o (r ∷ s ∷ rest) = false

module _ (o : Server) (now : ℕ) (kb : List ℕ) (rb : Option (List ℕ)) where
  abbrev with_grant_type : TokenForm → Store → Result TokenError Tokens × Store
  with_grant_type f st =
      if f.grant_type =ₜ "authorization_code"
      then exchange o now kb rb f.code_form st
      else if f.grant_type =ₜ "refresh_token"
      then refresh o now kb rb f.refresh_token f.code_form.client_id st
      else (err (oauth_error 400 "unsupported_grant_type" "unsupported grant_type"), st)

  unfoldable pub handle_token : Option TokenForm → Store → Result TokenError Tokens × Store
  handle_token none st = (err (oauth_error 400 "invalid_request" "invalid form data"), st)
  handle_token (some f) st =
      if valid_resource o f.resources
      then with_grant_type f st
      else (err (oauth_error 400 "invalid_target" "resource must identify this MCP server"), st)

  -- A token request is a history of at most one operation.
  pub handle_token-run :
      (form : Option TokenForm) (st : Store)
      → (ops : List Op) × ((handle_token form st).1 ≡ run o ops st)
  unfolding handle_token run step
  handle_token-run none st = ([], refl)
  handle_token-run (some f) st = elim (Bool-cases (valid_resource o f.resources)) [
    | inr other ↦ ([], rw other refl)
    | inl target ↦ elim (Bool-cases (f.grant_type =ₜ "authorization_code")) [
      | inl code ↦ (exchanges now kb rb f.code_form ∷ [], rw target (rw code refl))
      | inr not_code ↦ elim (Bool-cases (f.grant_type =ₜ "refresh_token")) [
        | inl again ↦ (
          refreshes now kb rb f.refresh_token f.code_form.client_id ∷ [],
          rw target (rw not_code (rw again refl)),
        )
        | inr unknown ↦ ([], rw target (rw not_code (rw unknown refl)))
      ]
    ]
  ]
