-- ===== src/Operatorlogin/Stored.antt =====
-- What `put` leaves for `take`.
use Prim.Native.String.{len}
use code_guda_gateway.Prelude.{
  ℕ, ◌+◌, ◌/◌, ◌≡◌, refl, sym, subst, ◌∙◌, inl, inr, String, true, ◌&&◌, none, some, List, [], ◌∷◌,
  ◌++◌, ◌==◌, ltb, length, ok, arith, eq_iff, Option-cases, Result-cases,
}
use code_guda_gateway.Timestamp.{second}
use code_guda_gateway.Secrets.{Bytes, encrypt, decrypt-encrypt, gcm_nonce_size}
use code_guda_gateway.Operatorlogin.{
  Configuration, Flow, FlowRow, Service, Tables, enabled_config, ttl,
}
use code_guda_gateway.Operatorlogin.Flows.{
  is_active, find_flow, delete_expired, has_token, is_taken, flow_row, opened, put, take,
}

-- Decoding reads back what encoding wrote.
abbrev pub ReadsBack : Service → Flow → Type 0
ReadsBack s f = s.codec.decode_flow (s.codec.encode_flow f) ≡ some f

opened-encrypt :
    (s : Service) (nonce sealed : Bytes) (f : Flow)
    → ReadsBack s f
    → length nonce ≡ gcm_nonce_size
    → encrypt s.aead s.key (some nonce) (s.codec.encode_flow f) ≡ ok sealed
    → opened s (s.codec.encode_base64 sealed) ≡ ok f
unfolding opened
opened-encrypt s nonce sealed f back h e =
    rw (s.codec.decode-encode_base64 sealed)
      (rw (decrypt-encrypt s.aead s.key nonce (s.codec.encode_flow f) sealed h e) (rw back refl))

-- A configuration that is enabled stands in the settings.
pub record IsEnabled (t : Tables) (c : Configuration) : Type 0 where
  pub stored : t.config ≡ some c
  pub enabled : c.enabled ≡ true

pub enabled_config-IsEnabled :
    (s : Service) (t : Tables) (c : Configuration) → enabled_config s t ≡ ok c → IsEnabled t c
unfolding enabled_config
enabled_config-IsEnabled s t c h = elim (Option-cases t.config) [
  | inl out ↦ absurd (ground (arith, out, h))
  | inr (d, e) ↦ record { stored = ground (arith, e, h); enabled = ground (arith, e, h) }
]

-- What `put` leaves.
pub record IsPut (s : Service) (now : ℕ) (nonce : Bytes) (token : String) (c : Configuration)
    (browser phase : String) (f : Flow) (t t' : Tables) : Type 0 where
  pub sealed : Bytes
  pub made : encrypt s.aead s.key (some nonce) (s.codec.encode_flow f) ≡ ok sealed
  pub before : List FlowRow
  pub free : find_flow (has_token (s.codec.sha256_hex token)) before ≡ none
  pub added : t'.flows ≡ before ++ flow_row s now c browser phase token sealed ∷ []
  pub same : t'.config ≡ t.config

pub put-IsPut :
    (s : Service) (now : ℕ) (nonce : Bytes) (token : String) (c : Configuration)
    (browser phase : String) (f : Flow) (t t' : Tables)
    → put s now (some nonce) token c browser phase f t ≡ ok t'
    → IsPut s now nonce token c browser phase f t t'
unfolding put
put-IsPut s now nonce token c browser phase f t t' h =
    elim (Result-cases (encrypt s.aead s.key (some nonce) (s.codec.encode_flow f))) [
      | inr (e, out) ↦ absurd (ground (arith, out, h))
      | inl (sealed, made) ↦ record {
        sealed = sealed;
        made = made;
        before = delete_expired (now / second) t.flows;
        free = ground (arith, made, h);
        added = ground (arith, made, h);
        same = ground (arith, made, h);
      }
    ]

find_flow-last :
    (s : Service) (now : ℕ) (c : Configuration) (token browser phase : String) (rs : List FlowRow)
    (x : FlowRow)
    → find_flow (has_token (s.codec.sha256_hex token)) rs ≡ none
    → is_taken s now c token browser phase x ≡ true
    → find_flow (is_taken s now c token browser phase) (rs ++ x ∷ []) ≡ some x
unfolding find_flow
find_flow-last s now c token browser phase [] x n e = rw e refl
find_flow-last s now c token browser phase (y ∷ rs) x n e =
    ground (arith, find_flow-last s now c token browser phase rs x)

pub take-put :
    (s : Service) (now later : ℕ) (nonce : Bytes) (token : String) (c : Configuration)
    (browser phase : String) (f : Flow) (t t' : Tables)
    → put s now (some nonce) token c browser phase f t ≡ ok t'
    → ReadsBack s f
    → length nonce ≡ gcm_nonce_size
    → IsEnabled t c
    → (len token == 43 && len browser == 43) ≡ true
    → ltb (later / second) ((now + ttl) / second) ≡ true
    → (take s later c token browser phase t').0 ≡ ok f
unfolding take
take-put s now later nonce token c browser phase f t t' h back sized on proper early =
    let p = put-IsPut s now nonce token c browser phase f t t' h in
    let row = flow_row s now c browser phase token p.sealed in
    let active : is_active c.revision t'.config ≡ true =
      subst (λ x. is_active c.revision x ≡ true) (sym (p.same ∙ on.stored))
        (ground (arith, eq_iff c.revision c.revision, on.enabled)) in
    let found : find_flow (is_taken s later c token browser phase) t'.flows ≡ some row =
      subst (λ rs. find_flow (is_taken s later c token browser phase) rs ≡ some row) (sym p.added)
        (find_flow-last s later c token browser phase p.before row p.free (
          ground (
            arith,
            eq_iff row.token_hash row.token_hash,
            eq_iff row.browser_hash row.browser_hash,
            eq_iff c.revision c.revision,
            eq_iff phase phase,
            early,
          ))) in
    rw proper (rw active (rw found (opened-encrypt s nonce p.sealed f back sized p.made)))
