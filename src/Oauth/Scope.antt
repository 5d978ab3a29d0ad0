-- ===== src/Oauth/Scope.antt =====
-- The scopes of internal/mcpoauth/server.go: `hasScope` and `normalizeScope`.
use code_guda_gateway.Prelude.{
  ◌≡◌, ◌≢◌, refl, sym, subst, inl, inr, String, Bool, true, false, ◌&&◌, ◌||◌, Option, none, some,
  List, [], ◌∷◌, ◌++◌, ◌=ₜ◌, if◌then◌else◌, fields, join_spaced, arith, Bool-cases, eq_iff,
}

-- The loop of hasScope, and the `seen` map of normalizeScope.
unfoldable pub has_word : List String → String → Bool
has_word [] want = false
has_word (v ∷ rest) want = v =ₜ want || has_word rest want

unfoldable pub has_scope : String → String → Bool
unfolding has_word
has_scope scope want = has_word (fields scope) want

abbrev pub scope_mcp : String
scope_mcp = "mcp"

abbrev pub scope_offline_access : String
scope_offline_access = "offline_access"

abbrev pub scope_config_write : String
scope_config_write = "config:write"

unfoldable pub all_known : List String → Bool
all_known [] = true
all_known (v ∷ rest) =
    (v =ₜ scope_mcp || v =ₜ scope_offline_access || v =ₜ scope_config_write) && all_known rest

abbrev pub if_seen : Bool → String → List String
if_seen true scope = scope ∷ []
if_seen false scope = []

unfoldable pub scopes_out : Bool → Bool → String
scopes_out offline config =
    join_spaced
      (scope_mcp ∷ (if_seen offline scope_offline_access ++ if_seen config scope_config_write))

unfoldable pub normalize_scope : String → Option String
unfolding all_known has_word scopes_out
normalize_scope raw =
    if raw =ₜ ""
    then some "mcp offline_access"
    else if all_known (fields raw) && has_word (fields raw) scope_mcp
    then some (
        scopes_out (has_word (fields raw) scope_offline_access)
          (has_word (fields raw) scope_config_write))
    else none

scopes_out_lem :
    (offline config : Bool)
    → (normalize_scope (scopes_out offline config) ≡ some (scopes_out offline config))
      × (has_scope (scopes_out offline config) scope_mcp ≡ true)
      × (has_scope (scopes_out offline config) scope_offline_access ≡ offline)
      × (has_scope (scopes_out offline config) scope_config_write ≡ config)
unfolding normalize_scope has_scope scopes_out has_word all_known fields join_spaced
scopes_out_lem true true = (refl, refl, refl, refl)
scopes_out_lem true false = (refl, refl, refl, refl)
scopes_out_lem false true = (refl, refl, refl, refl)
scopes_out_lem false false = (refl, refl, refl, refl)

-- What a normalised scope grants: `mcp` always, and `config:write` exactly where the request asks
-- for it; `offline_access` exactly where a request that is not empty asks for it.
pub record Grants (raw scope : String) : Type 0 where
  pub stable : normalize_scope scope ≡ some scope
  pub mcp : has_scope scope scope_mcp ≡ true
  pub config : has_scope scope scope_config_write ≡ has_scope raw scope_config_write
  pub offline : raw ≢ "" → has_scope scope scope_offline_access ≡ has_scope raw scope_offline_access

default_scope-Grants : Grants "" "mcp offline_access"
unfolding normalize_scope has_scope scopes_out has_word all_known fields join_spaced
default_scope-Grants = record {
  stable = refl;
  mcp = refl;
  config = refl;
  offline = λ n. absurd (n refl);
}

scopes_out-Grants :
    (raw : String)
    → Grants raw
        (scopes_out (has_scope raw scope_offline_access) (has_scope raw scope_config_write))
scopes_out-Grants raw =
    let (stable, mcp, offline, config) =
      scopes_out_lem (has_scope raw scope_offline_access) (has_scope raw scope_config_write) in
    record { stable = stable; mcp = mcp; config = config; offline = λ _. offline }

-- A scope that is accepted is normalised once and for all, and grants what was asked for: `Grants`.
pub normalize_scope-Grants :
    (raw scope : String) → normalize_scope raw ≡ some scope → Grants raw scope
unfolding normalize_scope has_scope
normalize_scope-Grants raw scope h = elim (Bool-cases (raw =ₜ "")) [
  | inl blank ↦
      let same : raw ≡ "" = (eq_iff raw "").0 blank in
      let out : ◌≡◌ {A = String} "mcp offline_access" scope = ground (arith, blank, h) in
      subst (λ s. Grants raw s) out
        (subst (λ r. Grants r "mcp offline_access") (sym same) default_scope-Grants)
  | inr given ↦
      let out : scopes_out (has_scope raw scope_offline_access) (has_scope raw scope_config_write)
          ≡ scope =
        ground (arith, given, h) in
      subst (λ s. Grants raw s) out (scopes_out-Grants raw)
]
