-- ===== src/Adminweb/Endpoints.antt =====
-- internal/adminweb/handlers.go: the handlers that change provider endpoints and the
-- providers' URLs; Creation has those of new endpoints and of quotas. A body is what encoding/json
-- decodes, `none` where it fails; of an answer the status is modelled. An id is a
-- number; one below 0 stands for 0, which no row has either. An error of the audit log is ignored.
use Prim.Native.Char.{code}
use Prim.Native.String
use Prim.Native.String.{String, [], ◌∷◌}
use code_guda_gateway.Prelude.{
  ℕ, Bool, true, false, not, Option, none, some, ◌==◌, ◌=ₜ◌, if◌then◌else◌, ℤ, pos_part, decimal,
  parse_int, strip_prefix, trim_space, Result, ok, err,
}
use mathlib.Core.Option
use code_guda_gateway.Secrets.{Bytes}
use code_guda_gateway.Providers.Names
use code_guda_gateway.Providers.Settings.{
  SettingsRepo, SettingsTables, SettingsError, names, set_base_url,
}
use code_guda_gateway.Providers.KeyTable.{KeyTable}
use code_guda_gateway.Providers.Keys.{KeyRepo, update_base_url, rotate_key, delete}
use code_guda_gateway.Providers.Keys.State.{
  enable, disable, reset_cooldown, reset_selection, demote_to_end, archive, restore_archived,
}
use code_guda_gateway.Providers.Keys.Display.{DisplayProviderKey, get}
use code_guda_gateway.Audit.{AuditError, AuditEvent, AuditRepo, AuditTable, record_event}

-- strings.TrimPrefix and TrimSuffix
unfoldable pub trim_prefix : String → String → String
trim_prefix p s = elim (strip_prefix p s) [ none ↦ s | some rest ↦ rest ]

unfoldable pub trim_suffix : String → String → String
trim_suffix suffix [] = ""
trim_suffix suffix (c ∷ s) =
    let rest = trim_suffix suffix s in if (c ∷ s) =ₜ suffix then "" else c ∷ rest

-- What stands before the first slash.
unfoldable pub before_slash : String → String
before_slash [] = ""
before_slash (c ∷ s) = let rest = before_slash s in if code c == b'/' then "" else c ∷ rest

abbrev id_of : Option ℤ → Option ℕ
id_of = Option.map pos_part

unfoldable pub parse_action_id : String → String → String → Option ℕ
unfolding trim_prefix trim_suffix
parse_action_id prefix suffix path =
    id_of (parse_int (trim_suffix "/" (trim_suffix suffix (trim_prefix prefix path))))

-- parseProviderEndpointID and parseProviderKeyID
unfoldable pub parse_row_id : String → String → Option ℕ
unfolding trim_prefix trim_suffix before_slash
parse_row_id prefix path =
    id_of (parse_int (before_slash (trim_suffix "/" (trim_prefix prefix path))))

-- The repositories that the handlers use, and the clock.
pub record Wiring : Type 0 where
  pub keys : KeyRepo
  pub settings : SettingsRepo
  pub audit : AuditRepo
  pub now : ℕ

pub record Store : Type 0 where
  pub keys : KeyTable
  pub settings : SettingsTables
  pub audit : AuditTable

-- An audit event of the admin interface, on an endpoint; the client's address is left out.
abbrev pub event_of : String → String → ℕ → String → AuditEvent
event_of action kind id detail = record {
  actor_kind = "admin_web";
  actor_id = "";
  action = action;
  target_kind = kind;
  target_id = decimal id;
  detail = detail;
  client_ip = "";
}

abbrev pub recorded : Result AuditError AuditTable → AuditTable → AuditTable
recorded (ok t) old = t
recorded (err e) old = old

abbrev pub and_also : String → String → String → String
and_also name value rest = String.◌++◌ name (String.◌++◌ value rest)

abbrev pub named : DisplayProviderKey → String → String
named k rest = and_also "provider=" k.provider (and_also ";name=" k.name rest)

-- The bodies of the requests.
pub record KeyBody : Type 0 where
  pub key : String
  pub api_key : String

pub record PatchBody : Type 0 where
  pub enabled : Option Bool
  pub base_url : String

abbrev pub raw_of : String → String → String
raw_of key api_key = if key =ₜ "" then api_key else key

-- The actions that need only an id.
pub data Action : Type 0 where
  resets_cooldown resets_selection demotes archives restores : Action

abbrev pub suffix_of : Action → String
suffix_of resets_cooldown = "/reset-cooldown"
suffix_of resets_selection = "/reset-selection"
suffix_of demotes = "/demote"
suffix_of archives = "/archive"
suffix_of restores = "/restore"

abbrev pub endpoints_prefix : String
endpoints_prefix = "/admin/api/provider-endpoints/"

abbrev pub keys_prefix : String
keys_prefix = "/admin/api/provider-keys/"

-- The status of an error of the repository: 400 for those that the handler names.
abbrev pub status_of : (Names.Error → Bool) → Names.Error → ℕ
status_of is_bad e = if is_bad e then 400 else 500

abbrev pub not_found : Names.Error → Bool
not_found Names.provider_key_not_found = true
not_found _ = false

abbrev pub bad_url : Names.Error → Bool
bad_url Names.invalid_base_url = true
bad_url e = not_found e

-- The status of an error of SetBaseURL, of Grok and of a provider that the path names.
abbrev pub status_of_url : SettingsError → ℕ
status_of_url (names Names.invalid_base_url) = 400
status_of_url _ = 500

abbrev pub status_of_setting : SettingsError → ℕ
status_of_setting (names Names.unknown_provider) = 400
status_of_setting e = status_of_url e

module _ (w : Wiring) where
  abbrev pub with_event : AuditEvent → Store → Store
  with_event ev s = record s { audit = recorded (record_event w.audit w.now ev s.audit) s.audit }

  -- The row after a change, and the event that tells of it.
  abbrev pub tell :
      String → String → (DisplayProviderKey → String) → ℕ → KeyTable → Store → ℕ × Store
  tell action kind detail i keys s = elim (get i keys) [
    | err e ↦ (500, record s { keys = keys })
    | ok k ↦ (200, with_event (event_of action kind i (detail k)) (record s { keys = keys }))
  ]

  -- handleProviderEndpointAction and handleProviderKeyAction
  abbrev pub act : Action → ℕ → KeyTable → Result Names.Error KeyTable
  act resets_cooldown = reset_cooldown w.keys w.now
  act resets_selection = reset_selection w.keys w.now
  act demotes = demote_to_end w.keys w.now
  act archives = archive w.keys w.now
  act restores = restore_archived w.keys w.now

  abbrev pub acted : Result Names.Error KeyTable → Store → ℕ × Store
  acted (err e) s = (500, s)
  acted (ok keys) s = (200, record s { keys = keys })

  unfoldable pub endpoint_action : String → Action → String → Store → ℕ × Store
  unfolding parse_action_id reset_cooldown reset_selection demote_to_end archive restore_archived
  endpoint_action prefix a path s = elim (parse_action_id prefix (suffix_of a) path) [
    | none ↦ (400, s)
    | some i ↦ acted (act a i s.keys) s
  ]

  -- handleProviderEndpointsDelete and handleProviderKeysDelete
  unfoldable pub endpoint_delete : String → String → Store → ℕ × Store
  unfolding parse_row_id delete
  endpoint_delete prefix path s = elim (parse_row_id prefix path) [
    | none ↦ (400, s)
    | some i ↦ (200, record s { keys = delete i s.keys })
  ]

  abbrev pub switched : Option Bool → ℕ → Store → ℕ × Store
  switched none i s = (400, s)
  switched (some true) i s = (200, record s { keys = enable w.keys w.now i s.keys })
  switched (some false) i s = (200, record s { keys = disable w.keys w.now i s.keys })

  abbrev pub changed_or : (Names.Error → Bool) → Result Names.Error KeyTable → Store → ℕ × Store
  changed_or is_bad (err e) s = (status_of is_bad e, s)
  changed_or is_bad (ok keys) s = (200, record s { keys = keys })

  -- handleProviderEndpointsPatch
  unfoldable pub endpoints_patch : String → Option PatchBody → Store → ℕ × Store
  unfolding parse_row_id update_base_url enable disable
  endpoints_patch path body s = elim (parse_row_id endpoints_prefix path) [
    | none ↦ (400, s)
    | some i ↦ elim body [
      | none ↦ (400, s)
      | some b ↦
          if not (trim_space b.base_url =ₜ "")
          then changed_or bad_url (update_base_url w.keys w.now i b.base_url s.keys) s
          else switched b.enabled i s
    ]
  ]

  -- handleProviderKeysPatch
  unfoldable pub keys_patch : String → Option (Option Bool) → Store → ℕ × Store
  unfolding parse_row_id enable disable
  keys_patch path body s = elim (parse_row_id keys_prefix path) [
    | none ↦ (400, s)
    | some i ↦ elim body [ none ↦ (400, s) | some enabled ↦ switched enabled i s ]
  ]

  -- handleProviderEndpointsUpdateBaseURL
  unfoldable pub endpoints_update_base_url : String → Option String → Store → ℕ × Store
  unfolding parse_action_id get update_base_url record_event
  endpoints_update_base_url path body s =
      elim (parse_action_id endpoints_prefix "/update-base-url" path) [
        | none ↦ (400, s)
        | some i ↦ elim body [
          | none ↦ (400, s)
          | some url ↦ if trim_space url =ₜ "" then (400, s) else elim (get i s.keys) [
            | err e ↦ (status_of not_found e, s)
            | ok row ↦ elim (update_base_url w.keys w.now i url s.keys) [
              | err e ↦ (status_of bad_url e, s)
              | ok keys ↦
                  tell "provider_endpoint.update_base_url" "provider_endpoint"
                    (λ k. named row (and_also ";base_url=" k.base_url "")) i keys s
            ]
          ]
        ]
      ]

  -- handleProviderEndpointsRotateKey
  unfoldable pub endpoints_rotate_key : Option Bytes → String → Option KeyBody → Store → ℕ × Store
  unfolding parse_action_id get rotate_key record_event
  endpoints_rotate_key drawn path body s =
      elim (parse_action_id endpoints_prefix "/rotate-key" path) [
        | none ↦ (400, s)
        | some i ↦ elim body [
          | none ↦ (400, s)
          | some b ↦ if raw_of b.key b.api_key =ₜ "" then (400, s) else elim (get i s.keys) [
            | err e ↦ (500, s)
            | ok row ↦ elim (rotate_key w.keys w.now drawn i (raw_of b.key b.api_key) s.keys) [
              | err e ↦ (500, s)
              | ok keys ↦
                  tell "provider_endpoint.rotate_key" "provider_endpoint"
                    (λ k. named row (and_also ";fingerprint=" k.fingerprint "")) i keys s
            ]
          ]
        ]
      ]

  abbrev pub configured :
      (SettingsError → ℕ) → Result SettingsError SettingsTables → Store → ℕ × Store
  configured status (err e) s = (status e, s)
  configured status (ok settings) s = (200, record s { settings = settings })

  unfoldable pub grok_patch_base_url : Option String → Store → ℕ × Store
  unfolding set_base_url
  grok_patch_base_url body s = elim body [
    | none ↦ (400, s)
    | some url ↦
        if url =ₜ ""
        then (400, s)
        else configured status_of_url (set_base_url w.settings Names.provider_grok url s.settings) s
  ]

  -- handleProviderSettingsPatch
  unfoldable pub settings_patch : String → Option String → Store → ℕ × Store
  unfolding set_base_url trim_prefix
  settings_patch path body s = elim body [
    | none ↦ (400, s)
    | some url ↦
        if url =ₜ ""
        then (400, s)
        else configured status_of_setting
            (set_base_url w.settings (trim_prefix "/admin/api/provider-settings/" path) url
              s.settings)
            s
  ]
