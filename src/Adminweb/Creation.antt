-- ===== src/Adminweb/Creation.antt =====
-- internal/adminweb/handlers.go: the handlers that create endpoints and change their quotas. The
-- bytes that encrypt the keys are arguments.
use Prim.Native.String.{String}
use code_guda_gateway.Prelude.{
  ℕ, Bool, true, false, not, ◌||◌, Option, none, some, ◌=ₜ◌, if◌then◌else◌, trim_space, Result, ok,
  err,
}
use code_guda_gateway.Secrets.{Bytes}
use code_guda_gateway.Providers.Names
use code_guda_gateway.Providers.Settings.{SettingsError, names}
use code_guda_gateway.Providers.QuotaConfig.{EndpointQuotaInput}
use code_guda_gateway.Providers.KeyTable.{KeyTable}
use code_guda_gateway.Providers.Keys.{add_endpoint, add_endpoint_with_quota}
use code_guda_gateway.Providers.Keys.Quota.{update_endpoint_quota, rotate_endpoint_quota_key}
use code_guda_gateway.Providers.Keys.Display.{DisplayProviderKey, get, add}
use code_guda_gateway.Audit.{record_event}
use code_guda_gateway.Adminweb.Endpoints.{
  Wiring, Store, raw_of, and_also, named, status_of, not_found, tell, parse_action_id,
  endpoints_prefix,
}

pub record CreateBody : Type 0 where
  pub provider : String
  pub name : String
  pub base_url : String
  pub key : String
  pub api_key : String
  pub quota : Option EndpointQuotaInput

abbrev given_url : Option String → String
given_url none = ""
given_url (some url) = and_also ";quota_base_url=" url ""

abbrev text_or_empty : Option String → String
text_or_empty none = ""
text_or_empty (some s) = s

-- `invalid_quota_url` wraps the errors of a bad quota and of a bad URL.
abbrev bad_creation : Names.Error → Bool
bad_creation Names.duplicate_name = true
bad_creation Names.unknown_provider = true
bad_creation Names.invalid_base_url = true
bad_creation Names.invalid_quota_url = true
bad_creation _ = false

abbrev bad_endpoint_creation : Names.Error → Bool
bad_endpoint_creation Names.invalid_quota_config = true
bad_endpoint_creation e = bad_creation e

abbrev bad_quota : Names.Error → Bool
bad_quota Names.invalid_quota_config = true
bad_quota Names.invalid_quota_url = true
bad_quota Names.invalid_base_url = true
bad_quota e = not_found e

abbrev bad_quota_key : Names.Error → Bool
bad_quota_key Names.invalid_quota_config = true
bad_quota_key Names.invalid_quota_url = true
bad_quota_key e = not_found e

-- The status of an error of Add, whose settings give the URL.
abbrev pub status_of_add : SettingsError → ℕ
status_of_add (names e) = status_of bad_creation e
status_of_add _ = 500

abbrev quota_told : DisplayProviderKey → String
quota_told k =
    and_also ";quota_mode=" k.quota_mode
      (and_also ";quota_flow=" k.quota_flow (given_url k.quota_base_url))

abbrev asked : CreateBody → String → String
asked b rest = and_also "provider=" b.provider (and_also ";name=" b.name rest)

module _ (w : Wiring) (drawn quota_drawn : Option Bytes) where
  -- handleProviderKeysCreate
  unfoldable pub keys_create : Option CreateBody → Store → ℕ × Store
  unfolding add add_endpoint get record_event
  keys_create body s = elim body [
    | none ↦ (400, s)
    | some b ↦
        if not (trim_space b.base_url =ₜ "")
        then elim (add_endpoint w.keys w.now drawn quota_drawn b.provider b.name b.base_url
            (raw_of b.key b.api_key) s.keys) [
              | err e ↦ (status_of bad_creation e, s)
              | ok (i, keys) ↦ tell w "provider_key.add" "provider_key" (λ k. asked b "") i keys s
            ]
        else elim (add w.keys w.now drawn b.provider b.name (raw_of b.key b.api_key) s.settings
            s.keys) [
              | err e ↦ (status_of_add e, s)
              | ok (i, keys) ↦ tell w "provider_key.add" "provider_key" (λ k. asked b "") i keys s
            ]
  ]

  -- AddEndpointWithQuota where the body has a quota, AddEndpoint where it has none.
  abbrev pub created : CreateBody → KeyTable → Result Names.Error (ℕ × KeyTable)
  created b t = elim b.quota [
    | none ↦
        add_endpoint w.keys w.now drawn quota_drawn b.provider b.name b.base_url
          (raw_of b.key b.api_key) t
    | some q ↦
        add_endpoint_with_quota w.keys w.now drawn quota_drawn b.provider b.name b.base_url
          (raw_of b.key b.api_key) q t
  ]

  -- handleProviderEndpointsCreate
  unfoldable pub endpoints_create : Option CreateBody → Store → ℕ × Store
  unfolding add_endpoint add_endpoint_with_quota get record_event
  endpoints_create body s = elim body [
    | none ↦ (400, s)
    | some b ↦
        if trim_space b.base_url =ₜ ""
          || b.provider =ₜ ""
          || b.name =ₜ ""
          || raw_of b.key b.api_key =ₜ ""
        then (400, s)
        else elim (created b s.keys) [
          | err e ↦ (status_of bad_endpoint_creation e, s)
          | ok (i, keys) ↦
              tell w "provider_endpoint.add" "provider_endpoint"
                (λ k. asked b (and_also ";base_url=" k.base_url (quota_told k))) i keys s
        ]
  ]

  -- handleProviderEndpointsUpdateQuota
  unfoldable pub endpoints_update_quota : String → Option EndpointQuotaInput → Store → ℕ × Store
  unfolding parse_action_id get update_endpoint_quota record_event
  endpoints_update_quota path body s =
      elim (parse_action_id endpoints_prefix "/update-quota" path) [
        | none ↦ (400, s)
        | some i ↦ elim body [
          | none ↦ (400, s)
          | some b ↦ if not (trim_space b.raw_key =ₜ "") then (400, s) else elim (get i s.keys) [
            | err e ↦ (status_of not_found e, s)
            | ok row ↦
                elim (update_endpoint_quota w.keys w.now i (record b { raw_key = "" }) s.keys) [
                  | err e ↦ (status_of bad_quota e, s)
                  | ok keys ↦
                      tell w "provider_endpoint.update_quota" "provider_endpoint"
                        (λ k. named row (quota_told k)) i keys s
                ]
          ]
        ]
      ]

  -- handleProviderEndpointsRotateQuotaKey
  unfoldable pub endpoints_rotate_quota_key : String → Option String → Store → ℕ × Store
  unfolding parse_action_id get rotate_endpoint_quota_key record_event
  endpoints_rotate_quota_key path body s =
      elim (parse_action_id endpoints_prefix "/rotate-quota-key" path) [
        | none ↦ (400, s)
        | some i ↦ elim body [
          | none ↦ (400, s)
          | some key ↦ if trim_space key =ₜ "" then (400, s) else elim (get i s.keys) [
            | err e ↦ (status_of not_found e, s)
            | ok row ↦ elim (rotate_endpoint_quota_key w.keys w.now quota_drawn i key s.keys) [
              | err e ↦ (status_of bad_quota_key e, s)
              | ok keys ↦
                  tell w "provider_endpoint.rotate_quota_key" "provider_endpoint"
                    (λ k.
                      named row
                        (and_also ";quota_fingerprint=" (text_or_empty k.quota_key_fingerprint) ""))
                    i keys s
            ]
          ]
        ]
      ]
