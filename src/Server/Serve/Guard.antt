-- ===== src/Server/Serve/Guard.antt =====
-- Which requests reach the proxy of internal/server/server.go.
use code_guda_gateway.Prelude.{
  ℕ, ◌<◌, ◌≡◌, ◌≢◌, refl, sym, subst, ◌∙◌, ◌⊎◌, inl, inr, String, false, Option, none, some, List,
  ◌=ₜ◌, Result, ok, err, trim_space, arith, Bool-cases, Option-cases,
}
use code_guda_gateway.GatewayKeys
use code_guda_gateway.GatewayKeys.{Service, DisplayKey, lookup, touch, revoke, not_authorized}
use code_guda_gateway.GatewayKeys.Revocation.{Op, run, revoke_is_final}
use code_guda_gateway.Proxy.Headers.{Request}
use code_guda_gateway.Server.Routes.{has_prefix, is_runtime_route}
use code_guda_gateway.Server.Access.{
  Access, granted, denied, failed, access_of, bearer_of, authorized,
}
use code_guda_gateway.Server.Serve.{
  Gateway, State, serve, serve_runtime, handle_verify, verified, is_oauth,
}
use code_guda_gateway.Server.Verify.{internal_keys_verify, VerifyResponse}
use code_guda_gateway.Oauth.Tables.{Store}

-- The request carries a bearer key that is usable and not owned by OAuth.
pub record HasKey (keys : Option Service) (r : Request) (t : GatewayKeys.Table) (d : DisplayKey)
    : Type 0 where
  pub svc : Service
  pub token : String
  pub configured : keys ≡ some svc
  pub bearer : bearer_of r ≡ some token
  pub looked : lookup svc (trim_space token) t ≡ ok (some d)
  pub manual : d.oauth_owned ≡ false

access_of-granted :
    (svc : Service) (now : ℕ) (x : Result GatewayKeys.Error (Option DisplayKey))
    (t t' : GatewayKeys.Table) (d : DisplayKey)
    → access_of svc now x t ≡ granted d t'
    → (x ≡ ok (some d)) × (d.oauth_owned ≡ false) × (t' ≡ touch svc now d.id t)
access_of-granted svc now (ok (some k)) t t' d h = elim (Bool-cases k.oauth_owned) [
  | inl owned ↦ absurd (ground (arith, owned, h))
  | inr manual ↦ (ground (arith, manual, h), ground (arith, manual, h), ground (arith, manual, h))
]
access_of-granted svc now (ok none) t t' d h = absurd (ground (arith, h))
access_of-granted svc now (err not_authorized) t t' d h = absurd (ground (arith, h))
access_of-granted svc now (err GatewayKeys.random_failed) t t' d h = absurd (ground (arith, h))
access_of-granted svc now (err GatewayKeys.days_not_positive) t t' d h = absurd (ground (arith, h))

-- Access is granted to such a request only, and records the use of its key.
pub authorized-HasKey :
    (keys : Option Service) (now : ℕ) (r : Request) (t t' : GatewayKeys.Table) (d : DisplayKey)
    → authorized keys now r t ≡ granted d t'
    → HasKey keys r t d
unfolding authorized
authorized-HasKey none now r t t' d h = absurd (ground (arith, h))
authorized-HasKey (some svc) now r t t' d h = elim (Option-cases (bearer_of r)) [
  | inl missing ↦ absurd (ground (arith, missing, h))
  | inr (token, bearer) ↦
      let (looked, manual, _) =
        access_of-granted svc now (lookup svc (trim_space token) t) t t' d
          (ground (arith, bearer, h)) in
      record {
        svc = svc;
        token = token;
        configured = refl;
        bearer = bearer;
        looked = looked;
        manual = manual;
      }
]

pub Access-cases :
    (a : Access)
    → ((d : DisplayKey) × (t : GatewayKeys.Table) × (a ≡ granted d t)) ⊎ (a ≡ denied) ⊎ (a ≡ failed)
Access-cases (granted d t) = inl (d, t, refl)
Access-cases denied = inr (inl refl)
Access-cases failed = inr (inr refl)

module _ {W : Type 0} (g : Gateway W) (now : ℕ) (fresh_id today : String) (r : Request)
    (s : State W) where
  -- Nothing behind the proxy has changed, or the request carries a key.
  abbrev pub Guarded : State W → Type 0
  Guarded s' =
      (s'.upstream ≡ s.upstream) ⊎ ((d : DisplayKey) × HasKey g.gateway_keys r s.store.keys d)

  serve_runtime-Guarded : Guarded (serve_runtime g now fresh_id today r s).1
  unfolding serve_runtime
  serve_runtime-Guarded = elim (Bool-cases (is_runtime_route r.method r.path)) [
    | inr unknown ↦ rw unknown (inl refl)
    | inl known ↦ rw known (elim (Access-cases (authorized g.gateway_keys now r s.store.keys)) [
      | inl (d, t, e) ↦ inr (d, authorized-HasKey g.gateway_keys now r s.store.keys t d e)
      | inr (inl e) ↦ rw e (inl refl)
      | inr (inr e) ↦ rw e (inl refl)
    ])
  ]

  handle_verify-upstream : (handle_verify g now fresh_id today r s).1.upstream ≡ s.upstream
  unfolding handle_verify
  handle_verify-upstream = kept (
      internal_keys_verify g.gateway_keys g.oauth_server g.internal_token now r (g.decode r)
        s.store)
    where
      kept :
          (x : Result ℕ VerifyResponse × Store)
          → (verified g now fresh_id today s x).1.upstream ≡ s.upstream
      kept (ok resp, st) = refl
      kept (err status, st) = refl

  -- Outside the admin and the OAuth routes, a request changes what is behind the proxy (a provider
  -- key's state, a request sent upstream) only if it carries a bearer key that is usable and not
  -- owned by OAuth.
  pub serve-Guarded :
      has_prefix "/admin" r.path ≡ false
      → is_oauth g now fresh_id today r ≡ false
      → Guarded (serve g now fresh_id today r s).1
  unfolding serve
  serve-Guarded admin oauth = elim (Bool-cases (r.path =ₜ "/healthz")) [
    | inl health ↦ rw (admin, serve) (rw health (inl refl))
    | inr other ↦ elim (Bool-cases (r.path =ₜ "/internal/keys/verify")) [
      | inl verify ↦ rw (admin, serve) (rw other (rw verify (inl handle_verify-upstream)))
      | inr rest ↦ rw (admin, serve) (rw other (rw rest (rw oauth serve_runtime-Guarded)))
    ]
  ]

  -- Once a gateway key is revoked, whatever is done with the keys afterwards, a request outside the
  -- admin and the OAuth routes changes what is behind the proxy only if it carries another key.
  pub serve_after_revocation :
      (svc : Service) (i now₀ : ℕ) (t : GatewayKeys.Table) (ops : List Op)
      → g.gateway_keys ≡ some svc
      → s.store.keys ≡ run svc ops (revoke svc now₀ i t)
      → i < t.next_id
      → has_prefix "/admin" r.path ≡ false
      → is_oauth g now fresh_id today r ≡ false
      → ((serve g now fresh_id today r s).1.upstream ≡ s.upstream)
        ⊎ ((d : DisplayKey) × HasKey g.gateway_keys r s.store.keys d × (d.id ≢ i))
  serve_after_revocation svc i now₀ t ops configured history issued admin oauth =
      elim (serve-Guarded admin oauth) [
        | inl same ↦ inl same
        | inr (d, k) ↦
            let same_svc : k.svc ≡ svc = some_path k.svc svc (sym k.configured ∙ configured) in
            let looked : lookup svc (trim_space k.token) (run svc ops (revoke svc now₀ i t))
                ≡ ok (some d) =
              subst (λ x. lookup svc (trim_space k.token) x ≡ ok (some d)) history
                (subst (λ x. lookup x (trim_space k.token) s.store.keys ≡ ok (some d)) same_svc
                  k.looked) in
            inr (d, k, revoke_is_final svc i now₀ t ops (trim_space k.token) d issued looked)
      ]
    where
      some_path : (a b : Service) → some a ≡ some b → a ≡ b
      some_path a b e = ground (arith, e)
