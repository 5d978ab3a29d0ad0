-- ===== src/Adminweb/Handle.antt =====
-- internal/adminweb/handlers.go: the cases of the dispatch whose handlers are those of Endpoints and
-- Creation.
use code_guda_gateway.Prelude.{ℕ, String, Bool, Option, none, some}
use code_guda_gateway.Secrets.{Bytes}
use code_guda_gateway.Providers.QuotaConfig.{EndpointQuotaInput}
use code_guda_gateway.Adminweb.{
  provider_keys_create, provider_endpoints_create, provider_endpoints_update_quota,
  provider_endpoints_rotate_quota_key, Handler, grok_patch, provider_settings_patch,
  provider_endpoints_update_base_url, provider_endpoints_rotate_key, endpoint_reset_cooldown,
  endpoint_reset_selection, endpoint_demote_to_end, endpoint_archive, endpoint_restore_archived,
  provider_endpoints_patch, provider_endpoints_delete, provider_keys_reset_cooldown,
  provider_keys_reset_selection, provider_keys_demote, provider_keys_archive, provider_keys_restore,
  provider_keys_patch, provider_keys_delete,
}
use code_guda_gateway.Adminweb.Endpoints.{
  Wiring, Store, KeyBody, PatchBody, resets_cooldown, resets_selection, demotes, archives, restores,
  endpoints_prefix, keys_prefix, endpoint_action, endpoint_delete, endpoints_patch, keys_patch,
  endpoints_update_base_url, endpoints_rotate_key, grok_patch_base_url, settings_patch,
}
use code_guda_gateway.Adminweb.Creation.{
  CreateBody, keys_create, endpoints_create, endpoints_update_quota, endpoints_rotate_quota_key,
}

-- What of a request the handlers read besides its path, and the bytes that new keys draw.
pub record Inputs : Type 0 where
  pub url : Option String
  pub key : Option KeyBody
  pub patch : Option PatchBody
  pub enabled : Option (Option Bool)
  pub creation : Option CreateBody
  pub quota : Option EndpointQuotaInput
  pub quota_key : Option String
  pub drawn : Option Bytes
  pub quota_drawn : Option Bytes

module _ (w : Wiring) where
  -- The handlers of Endpoints and Creation by their names in the `switch`, `none` for the others.
  unfoldable pub handle : Handler → Inputs → String → Store → Option (ℕ × Store)
  unfolding endpoint_action endpoint_delete endpoints_patch keys_patch endpoints_update_base_url
      endpoints_rotate_key grok_patch_base_url settings_patch keys_create endpoints_create
      endpoints_update_quota endpoints_rotate_quota_key
  handle provider_endpoints_update_base_url i path s =
      some (endpoints_update_base_url w path i.url s)
  handle provider_endpoints_rotate_key i path s = some (endpoints_rotate_key w i.drawn path i.key s)
  handle endpoint_reset_cooldown i path s =
      some (endpoint_action w endpoints_prefix resets_cooldown path s)
  handle endpoint_reset_selection i path s =
      some (endpoint_action w endpoints_prefix resets_selection path s)
  handle endpoint_demote_to_end i path s = some (endpoint_action w endpoints_prefix demotes path s)
  handle endpoint_archive i path s = some (endpoint_action w endpoints_prefix archives path s)
  handle endpoint_restore_archived i path s =
      some (endpoint_action w endpoints_prefix restores path s)
  handle provider_endpoints_patch i path s = some (endpoints_patch w path i.patch s)
  handle provider_endpoints_delete i path s = some (endpoint_delete w endpoints_prefix path s)
  handle provider_keys_reset_cooldown i path s =
      some (endpoint_action w keys_prefix resets_cooldown path s)
  handle provider_keys_reset_selection i path s =
      some (endpoint_action w keys_prefix resets_selection path s)
  handle provider_keys_demote i path s = some (endpoint_action w keys_prefix demotes path s)
  handle provider_keys_archive i path s = some (endpoint_action w keys_prefix archives path s)
  handle provider_keys_restore i path s = some (endpoint_action w keys_prefix restores path s)
  handle provider_keys_patch i path s = some (keys_patch w path i.enabled s)
  handle provider_keys_delete i path s = some (endpoint_delete w keys_prefix path s)
  handle grok_patch i path s = some (grok_patch_base_url w i.url s)
  handle provider_settings_patch i path s = some (settings_patch w path i.url s)
  handle provider_keys_create i path s = some (keys_create w i.drawn i.quota_drawn i.creation s)
  handle provider_endpoints_create i path s =
      some (endpoints_create w i.drawn i.quota_drawn i.creation s)
  handle provider_endpoints_update_quota i path s =
      some (endpoints_update_quota w i.drawn i.quota_drawn path i.quota s)
  handle provider_endpoints_rotate_quota_key i path s =
      some (endpoints_rotate_quota_key w i.drawn i.quota_drawn path i.quota_key s)
  handle _ i path s = none
