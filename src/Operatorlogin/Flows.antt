-- ===== src/Operatorlogin/Flows.antt =====
-- `put` and `take` of internal/operatorlogin/github.go: login flows, which are good once. An
-- instant in the table is in whole seconds.
use Prim.Native.String.{len}
use code_guda_gateway.Prelude.{
  ℕ, ◌+◌, ◌/◌, String, Bool, false, not, ◌&&◌, Option, none, some, List, [], ◌∷◌, ◌++◌, ◌==◌, ltb,
  leb, ◌=ₜ◌, if◌then◌else◌, length, is_some, Result, ok, err, ◌>>=◌, ◌>>◌, require, or_fail,
  map_error,
}
use code_guda_gateway.Timestamp.{second}
use code_guda_gateway.Secrets.{Bytes, encrypt, decrypt}
use code_guda_gateway.Operatorlogin.{
  Error, denied, seal_failed, flow_taken, Configuration, Flow, FlowRow, Service, Tables, ttl,
}

-- EXISTS (SELECT 1 FROM settings …): the stored configuration is enabled, at this revision.
abbrev pub is_active : String → Option Configuration → Bool
is_active revision none = false
is_active revision (some c) = c.revision =ₜ revision && c.enabled

unfoldable pub delete_expired : ℕ → List FlowRow → List FlowRow
delete_expired now [] = []
delete_expired now (r ∷ rs) =
    if leb r.expires_at now then delete_expired now rs else r ∷ delete_expired now rs

unfoldable pub find_flow : (FlowRow → Bool) → List FlowRow → Option FlowRow
find_flow test [] = none
find_flow test (r ∷ rs) = if test r then some r else find_flow test rs

unfoldable pub delete_flows : (FlowRow → Bool) → List FlowRow → List FlowRow
delete_flows test [] = []
delete_flows test (r ∷ rs) = if test r then delete_flows test rs else r ∷ delete_flows test rs

abbrev pub has_token : String → FlowRow → Bool
has_token hash r = r.token_hash =ₜ hash

-- The row that `put` inserts, and the DELETE statement's condition in `take`.
abbrev pub flow_row : Service → ℕ → Configuration → String → String → String → Bytes → FlowRow
flow_row s now c browser phase token sealed = record {
  token_hash = s.codec.sha256_hex token;
  browser_hash = s.codec.sha256_hex browser;
  revision = c.revision;
  phase = phase;
  payload = s.codec.encode_base64 sealed;
  expires_at = (now + ttl) / second;
}

abbrev pub is_taken : Service → ℕ → Configuration → String → String → String → FlowRow → Bool
is_taken s now c token browser phase r =
    r.token_hash =ₜ s.codec.sha256_hex token
    && r.browser_hash =ₜ s.codec.sha256_hex browser
    && r.revision =ₜ c.revision
    && r.phase =ₜ phase
    && ltb (now / second) r.expires_at

-- What a payload holds.
unfoldable pub opened : Service → String → Result Error Flow
opened s payload = do
  sealed ← or_fail (s.codec.decode_base64 payload) denied
  raw ← map_error (λ _. denied) (decrypt s.aead s.key sealed)
  or_fail (s.codec.decode_flow raw) denied

-- The row is deleted, whatever its payload.
abbrev pub take_found :
    Service → (FlowRow → Bool) → Option FlowRow → Tables → Result Error Flow × Tables
take_found s test none t = (err denied, t)
take_found s test (some row) t =
    (opened s row.payload, record t { flows = delete_flows test t.flows })

module _ (s : Service) (now : ℕ) where
  unfoldable pub put :
      Option Bytes → String → Configuration → String → String → Flow → Tables → Result Error Tables
  put drawn token c browser phase f t = do
    sealed ← map_error (λ _. seal_failed) (encrypt s.aead s.key drawn (s.codec.encode_flow f))
    require (is_active c.revision t.config) denied
    let live = delete_expired (now / second) t.flows
    require (ltb (length live) 1000) denied
    let row = flow_row s now c browser phase token sealed
    require (not (is_some (find_flow (has_token row.token_hash) live))) flow_taken
    ok (record t { flows = live ++ row ∷ [] })

  unfoldable pub take :
      Configuration → String → String → String → Tables → Result Error Flow × Tables
  take c token browser phase t =
      if not (len token == 43 && len browser == 43)
      then (err denied, t)
      else if is_active c.revision t.config
      then take_found s (is_taken s now c token browser phase)
          (find_flow (is_taken s now c token browser phase) t.flows) t
      else (err denied, t)
