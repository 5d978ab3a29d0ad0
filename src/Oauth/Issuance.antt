-- ===== src/Oauth/Issuance.antt =====
-- Which authorization codes are issued.

use code_guda_gateway.Prelude.{
  ℕ, ◌≡◌, ◌≢◌, refl, ap, ◌⊎◌, inl, inr, String, Bool, true, false, Option, none, some, [], ◌∷◌,
  ◌++◌, ◌=ₜ◌, is_some, trim_space, Result, ok, err, arith, eq_iff, Bool-cases, Result-cases,
}
use code_guda_gateway.GatewayKeys.Invite
use code_guda_gateway.GatewayKeys.Invite.{InviteCode, redeem}
use code_guda_gateway.Secrets.{Bytes}
use code_guda_gateway.Operatorlogin
use code_guda_gateway.Operatorlogin.Github.{Browser, Redirect, start, consume}
use code_guda_gateway.Oauth.Scope.{has_scope, scope_config_write}
use code_guda_gateway.Oauth.Tables.{find_code}
use code_guda_gateway.Oauth.Password.{verify_password}
use code_guda_gateway.Oauth.Request.{
  Authorizer, Issuance, AuthorizeForm, Draws, Refusal, redirected, Checked, issuance_mode,
  effective_password_hash, check_form, consent_values,
}
use code_guda_gateway.Oauth.Authorize.{
  Permit, redeemed_permit, operator_approved, permit, code_of, store_code, with_permit, started,
  start_login, with_consent, consume_login, authorize_post,
}

module _ (a : Authorizer) (now : ℕ) where
  -- The operator's password, or the GitHub login of an allowed operator for exactly this request.
  abbrev pub Vouched : Browser → AuthorizeForm → Checked → Issuance → Type 0
  Vouched r f k t =
      (verify_password a.scrypt f.password (effective_password_hash a t.operator_hash) ≡ true)
      ⊎ ((s : Operatorlogin.Service) × (a.github ≡ some s)
          × ((consume s now r f.github_consent (consent_values a f k) t.logins).0 ≡ ok tt))

  -- What the decision may rest on: `V` for the operator.
  abbrev PermitOf : Type 0 → AuthorizeForm → Checked → Issuance → Permit → Type 0
  PermitOf V f k t p =
      ((p.issued_via ≡ "operator") × V)
      ⊎ ((p.issued_via ≡ "open_register")
          × (issuance_mode t.public_issuance ≡ "open")
          × (has_scope k.scope scope_config_write ≡ false))
      ⊎ ((p.issued_via ≡ "ref_code")
          × (issuance_mode t.public_issuance ≡ "ref_code")
          × (has_scope k.scope scope_config_write ≡ false)
          × ((item : InviteCode) × (p.ref_code_id ≡ some item.id)
              × (redeem a.invites now (trim_space f.invite) k.agent_label t.invites
                  ≡ ok (item, p.invites))))

  redeemed_permit-eq-ok :
      (code : String) (t : Invite.Table) (x : Result Invite.Error (InviteCode × Invite.Table))
      (p : Permit)
      → redeemed_permit a now code t x ≡ ok p
      → (p.issued_via ≡ "ref_code")
        × ((item : InviteCode) × (p.ref_code_id ≡ some item.id) × (x ≡ ok (item, p.invites)))
  redeemed_permit-eq-ok code t (err e) p h = absurd (ground (arith, h))
  redeemed_permit-eq-ok code t (ok (item, t')) p h =
      (ground (arith, h), (item, ground (arith, h), ground (arith, h)))

  permit-PermitOf :
      (approved : Bool) (f : AuthorizeForm) (k : Checked) (t : Issuance) (p : Permit)
      → permit a now approved f k t ≡ ok p
      → PermitOf (operator_approved a now approved f t ≡ true) f k t p
  unfolding permit
  permit-PermitOf approved f k t p h = elim (Bool-cases (operator_approved a now approved f t)) [
    | inl approves ↦ inl (ground (arith, approves, h), approves)
    | inr stranger ↦ elim (Bool-cases (has_scope k.scope scope_config_write)) [
      | inl asks ↦ absurd (ground (arith, stranger, asks, h))
      | inr plain ↦ elim (Bool-cases (issuance_mode t.public_issuance =ₜ "open")) [
        | inl public ↦ inr (
            inl (
              ground (arith, stranger, plain, public, h),
              (eq_iff (issuance_mode t.public_issuance) "open").0 public,
              plain,
            ))
        | inr closed ↦ elim (Bool-cases (issuance_mode t.public_issuance =ₜ "ref_code")) [
          | inr off ↦ absurd (ground (arith, stranger, plain, closed, off, h))
          | inl invited ↦ elim (Bool-cases (trim_space f.invite =ₜ "")) [
            | inl blank ↦ absurd (ground (arith, stranger, plain, closed, invited, blank, h))
            | inr given ↦
                let (via, paid) =
                  redeemed_permit-eq-ok (trim_space f.invite) t.invites
                    (redeem a.invites now (trim_space f.invite) k.agent_label t.invites) p
                    (ground (arith, stranger, plain, closed, invited, given, h)) in
                inr (
                  inr (
                    via,
                    (eq_iff (issuance_mode t.public_issuance) "ref_code").0 invited,
                    plain,
                    paid,
                  ))
          ]
        ]
      ]
    ]
  ]

  -- The code's row is added to the codes, with what was asked for and what was decided.
  record IsStored (f : AuthorizeForm) (k : Checked) (p : Permit) (t t' : Issuance) : Type 0 where
    raw : String
    added : t'.store.codes ≡ t.store.codes ++ code_of a now f k p raw ∷ []

  store_code-IsStored :
      (bytes : Option Bytes) (f : AuthorizeForm) (k : Checked) (p : Permit) (t t' : Issuance)
      (loc : String)
      → store_code a now bytes f k p t ≡ (redirected loc, t')
      → IsStored f k p t t'
  store_code-IsStored none f k p t t' loc h = absurd (ground (arith, h))
  store_code-IsStored (some b) f k p t t' loc h =
      elim (Bool-cases
        (is_some (find_code (code_of a now f k p (a.server.base64 b)).code_hash t.store.codes))) [
          | inl known ↦ absurd (ground (arith, known, h))
          | inr fresh ↦ record { raw = a.server.base64 b; added = ground (arith, fresh, h) }
        ]

  with_permit-IsStored :
      (d : Draws) (f : AuthorizeForm) (k : Checked) (x : Result Refusal Permit) (t t' : Issuance)
      (loc : String)
      → with_permit a now d f k x t ≡ (redirected loc, t')
      → (p : Permit) × (x ≡ ok p) × IsStored f k p t t'
  with_permit-IsStored d f k (err why) t t' loc h = absurd (ground (arith, h))
  with_permit-IsStored d f k (ok p) t t' loc h =
      (p, refl, store_code-IsStored d.code_bytes f k p t t' loc h)

  PermitOf-map :
      (V W : Type 0) (f : AuthorizeForm) (k : Checked) (t : Issuance) (p : Permit)
      → (V → W)
      → PermitOf V f k t p
      → PermitOf W f k t p
  PermitOf-map V W f k t p g (inl (via, v)) = inl (via, g v)
  PermitOf-map V W f k t p g (inr x) = inr x

  -- A code's row was added for a request that passed the checks, as an operator vouched for it, or as
  -- public issuance allows it without the permission to configure.
  pub record IsAuthorized (r : Browser) (f : AuthorizeForm) (t t' : Issuance) : Type 0 where
    pub k : Checked
    pub p : Permit
    pub raw : String
    pub checked : check_form a f t.store ≡ ok k
    pub added : t'.store.codes ≡ t.store.codes ++ code_of a now f k p raw ∷ []
    pub permitted : PermitOf (Vouched r f k t) f k t p

  module _ (d : Draws) (r : Browser) (f : AuthorizeForm) (k : Checked) (t t' : Issuance)
      (loc : String) where
    by_password :
        check_form a f t.store ≡ ok k
        → with_permit a now d f k (permit a now false f k t) t ≡ (redirected loc, t')
        → IsAuthorized r f t t'
    by_password checked h =
        let (p, allowed, s) = with_permit-IsStored d f k (permit a now false f k t) t t' loc h in
        record {
          k = k;
          p = p;
          raw = s.raw;
          checked = checked;
          added = s.added;
          permitted =
              PermitOf-map (operator_approved a now false f t ≡ true) (Vouched r f k t) f k t p
                (λ e. inl (ground (arith, e))) (permit-PermitOf false f k t p allowed);
        }

    with_consent-IsAuthorized :
        (s : Operatorlogin.Service)
        (x : Result Operatorlogin.Error (Unit {0}) × Operatorlogin.Tables)
        → a.github ≡ some s
        → consume s now r f.github_consent (consent_values a f k) t.logins ≡ x
        → check_form a f t.store ≡ ok k
        → with_consent a now d f k t x ≡ (redirected loc, t')
        → IsAuthorized r f t t'
    with_consent-IsAuthorized s (err e, logins) known consumed checked h =
        absurd (ground (arith, h))
    with_consent-IsAuthorized s (ok u, logins) known consumed checked h =
        let t1 : Issuance = (record t { logins = logins }) in
        let (p, allowed, st) = with_permit-IsStored d f k (permit a now true f k t1) t1 t' loc h in
        record {
          k = k;
          p = p;
          raw = st.raw;
          checked = checked;
          added = st.added;
          permitted =
              PermitOf-map (operator_approved a now true f t1 ≡ true) (Vouched r f k t) f k t p
                (λ e. inr (s, known, ap (λ y. y.0) consumed))
                (permit-PermitOf true f k t1 p allowed);
        }

  consume_login-IsAuthorized :
      (d : Draws) (r : Browser) (f : AuthorizeForm) (k : Checked) (t t' : Issuance) (loc : String)
      (g : Option Operatorlogin.Service)
      → a.github ≡ g
      → check_form a f t.store ≡ ok k
      → consume_login a now d r f k g t ≡ (redirected loc, t')
      → IsAuthorized r f t t'
  consume_login-IsAuthorized d r f k t t' loc none known checked h = absurd (ground (arith, h))
  consume_login-IsAuthorized d r f k t t' loc (some s) known checked h =
      with_consent-IsAuthorized d r f k t t' loc s
        (consume s now r f.github_consent (consent_values a f k) t.logins) known refl checked h

  start_login-sends :
      (d : Draws) (r : Browser) (f : AuthorizeForm) (k : Checked) (t t' : Issuance) (loc : String)
      (g : Option Operatorlogin.Service)
      → start_login a now d r f k g t ≢ (redirected loc, t')
  start_login-sends d r f k t t' loc none h = ground (arith, h)
  start_login-sends d r f k t t' loc (some s) h =
      not_redirected
        (start s a.server.challenge now d.login_nonce d.fresh d.verifier d.login_state r
          (consent_values a f k) t.logins)
        h
    where
      not_redirected :
          (x : Result Operatorlogin.Error (Redirect × Operatorlogin.Tables))
          → started a now t x ≢ (redirected loc, t')
      not_redirected (ok y) e = ground (arith, e)
      not_redirected (err y) e = ground (arith, e)

  -- A request to authorize that is answered with a code had passed the checks on its fields, and
  -- stored the code's row; it was vouched for by the operator's password or by a GitHub login for
  -- exactly this request, or else public issuance was open, or took an invite code, and the scope does
  -- not permit to configure: `IsAuthorized`.
  pub authorize_post-IsAuthorized :
      (d : Draws) (r : Browser) (f : AuthorizeForm) (t t' : Issuance) (loc : String)
      → authorize_post a now d r f t ≡ (redirected loc, t')
      → IsAuthorized r f t t'
  unfolding authorize_post
  authorize_post-IsAuthorized d r f t t' loc h = elim (Result-cases (check_form a f t.store)) [
    | inr (why, out) ↦ absurd (ground (arith, out, h))
    | inl (k, checked) ↦ elim (Bool-cases (f.operator_login =ₜ "github")) [
      | inl github ↦
          absurd (start_login-sends d r f k t t' loc a.github (ground (arith, checked, github, h)))
      | inr other ↦ elim (Bool-cases (f.github_consent =ₜ "")) [
        | inl no_proof ↦
            by_password d r f k t t' loc checked (ground (arith, checked, other, no_proof, h))
        | inr proof ↦
            consume_login-IsAuthorized d r f k t t' loc a.github refl checked
              (ground (arith, checked, other, proof, h))
      ]
    ]
  ]
