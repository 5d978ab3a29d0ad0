-- ===== src/Adminweb/Refused.antt =====
-- internal/adminweb/handlers.go: a handler that creates an endpoint or changes its quota, and any of
-- Handle, has changed nothing where it answers 400.
use code_guda_gateway.Prelude.{
  ℕ, ◌≡◌, sym, ap, ◌∙◌, String, not, ◌||◌, Option, some, ◌=ₜ◌, trim_space, arith,
}
use code_guda_gateway.Secrets.{Bytes}
use code_guda_gateway.Providers.QuotaConfig.{EndpointQuotaInput}
use code_guda_gateway.Providers.Keys.{add_endpoint}
use code_guda_gateway.Providers.Keys.Quota.{update_endpoint_quota, rotate_endpoint_quota_key}
use code_guda_gateway.Providers.Keys.Display.{get, add}
use code_guda_gateway.Adminweb.{
  provider_keys_create, provider_endpoints_create, provider_endpoints_update_quota,
  provider_endpoints_rotate_quota_key, Handler, grok_patch, provider_settings_patch,
  provider_endpoints_update_base_url, provider_endpoints_rotate_key, endpoint_reset_cooldown,
  endpoint_reset_selection, endpoint_demote_to_end, endpoint_archive, endpoint_restore_archived,
  provider_endpoints_patch, provider_endpoints_delete, provider_keys_reset_cooldown,
  provider_keys_reset_selection, provider_keys_demote, provider_keys_archive, provider_keys_restore,
  provider_keys_patch, provider_keys_delete,
}
use code_guda_gateway.Adminweb.Endpoints.{
  Wiring, Store, raw_of, parse_action_id, endpoints_prefix, keys_prefix, resets_cooldown,
  resets_selection, demotes, archives, restores,
}
use code_guda_gateway.Adminweb.Creation.{
  CreateBody, created, keys_create, endpoints_create, endpoints_update_quota,
  endpoints_rotate_quota_key,
}
use code_guda_gateway.Adminweb.Handle.{Inputs, handle}
use code_guda_gateway.Adminweb.Untouched.{
  Untouched, unless_some, unless_ok, unless_blank, told, either_way,
  endpoints_update_base_url-Untouched, endpoints_rotate_key-Untouched, endpoint_action-Untouched,
  endpoint_delete-Untouched, keys_patch-Untouched, endpoints_patch-Untouched,
  grok_patch_base_url-Untouched, settings_patch-Untouched,
}

module _ (w : Wiring) (drawn quota_drawn : Option Bytes) where
  keys_create-Untouched :
      (body : Option CreateBody) (s : Store) → Untouched s (keys_create w drawn quota_drawn body s)
  unfolding keys_create
  keys_create-Untouched body s = unless_some body s _ (λ b.
      either_way (not (trim_space b.base_url =ₜ "")) s _ _
        (unless_ok
          (add_endpoint w.keys w.now drawn quota_drawn b.provider b.name b.base_url
            (raw_of b.key b.api_key) s.keys)
          s _ _ (λ x. told (get x.0 x.1) s _ _))
        (unless_ok
          (add w.keys w.now drawn b.provider b.name (raw_of b.key b.api_key) s.settings s.keys) s _
          _ (λ x. told (get x.0 x.1) s _ _)))

  endpoints_create-Untouched :
      (body : Option CreateBody) (s : Store)
      → Untouched s (endpoints_create w drawn quota_drawn body s)
  unfolding endpoints_create
  endpoints_create-Untouched body s = unless_some body s _ (λ b.
      unless_blank
        (trim_space b.base_url =ₜ ""
          || b.provider =ₜ ""
          || b.name =ₜ ""
          || raw_of b.key b.api_key =ₜ "")
        s _
        (unless_ok (created w drawn quota_drawn b s.keys) s _ _ (λ x. told (get x.0 x.1) s _ _)))

  endpoints_update_quota-Untouched :
      (path : String) (body : Option EndpointQuotaInput) (s : Store)
      → Untouched s (endpoints_update_quota w drawn quota_drawn path body s)
  unfolding endpoints_update_quota
  endpoints_update_quota-Untouched path body s =
      unless_some (parse_action_id endpoints_prefix "/update-quota" path) s _ (λ i.
        unless_some body s _ (λ b. unless_blank (not (trim_space b.raw_key =ₜ "")) s _ (
          unless_ok (get i s.keys) s _ _ (λ row.
            unless_ok (update_endpoint_quota w.keys w.now i (record b { raw_key = "" }) s.keys) s _
              _ (λ keys. told (get i keys) s _ _)))))

  endpoints_rotate_quota_key-Untouched :
      (path : String) (body : Option String) (s : Store)
      → Untouched s (endpoints_rotate_quota_key w drawn quota_drawn path body s)
  unfolding endpoints_rotate_quota_key
  endpoints_rotate_quota_key-Untouched path body s =
      unless_some (parse_action_id endpoints_prefix "/rotate-quota-key" path) s _ (λ i.
        unless_some body s _ (λ key. unless_blank (trim_space key =ₜ "") s _ (
          unless_ok (get i s.keys) s _ _ (λ row.
            unless_ok (rotate_endpoint_quota_key w.keys w.now quota_drawn i key s.keys) s _ _
              (λ keys. told (get i keys) s _ _)))))

module _ (w : Wiring) where
  answered :
      (s after : Store) (o : ℕ × Store) → Untouched s o → some o ≡ some (400, after) → after ≡ s
  answered s after o k p =
      let same : o ≡ (400, after) = ground (arith, p) in
      sym (ap (λ x. x.1) same) ∙ k (ap (λ x. x.0) same)

  -- A handler of Handle that answers 400 leaves the store as it was, the audit log included.
  pub bad_request_changes_nothing :
      (h : Handler) (i : Inputs) (path : String) (s after : Store)
      → handle w h i path s ≡ some (400, after)
      → after ≡ s
  unfolding handle
  bad_request_changes_nothing provider_endpoints_update_base_url i path s after p =
      answered s after _ (endpoints_update_base_url-Untouched w path i.url s) p
  bad_request_changes_nothing provider_endpoints_rotate_key i path s after p =
      answered s after _ (endpoints_rotate_key-Untouched w i.drawn path i.key s) p
  bad_request_changes_nothing endpoint_reset_cooldown i path s after p =
      answered s after _ (endpoint_action-Untouched w endpoints_prefix resets_cooldown path s) p
  bad_request_changes_nothing endpoint_reset_selection i path s after p =
      answered s after _ (endpoint_action-Untouched w endpoints_prefix resets_selection path s) p
  bad_request_changes_nothing endpoint_demote_to_end i path s after p =
      answered s after _ (endpoint_action-Untouched w endpoints_prefix demotes path s) p
  bad_request_changes_nothing endpoint_archive i path s after p =
      answered s after _ (endpoint_action-Untouched w endpoints_prefix archives path s) p
  bad_request_changes_nothing endpoint_restore_archived i path s after p =
      answered s after _ (endpoint_action-Untouched w endpoints_prefix restores path s) p
  bad_request_changes_nothing provider_endpoints_patch i path s after p =
      answered s after _ (endpoints_patch-Untouched w path i.patch s) p
  bad_request_changes_nothing provider_endpoints_delete i path s after p =
      answered s after _ (endpoint_delete-Untouched w endpoints_prefix path s) p
  bad_request_changes_nothing provider_keys_reset_cooldown i path s after p =
      answered s after _ (endpoint_action-Untouched w keys_prefix resets_cooldown path s) p
  bad_request_changes_nothing provider_keys_reset_selection i path s after p =
      answered s after _ (endpoint_action-Untouched w keys_prefix resets_selection path s) p
  bad_request_changes_nothing provider_keys_demote i path s after p =
      answered s after _ (endpoint_action-Untouched w keys_prefix demotes path s) p
  bad_request_changes_nothing provider_keys_archive i path s after p =
      answered s after _ (endpoint_action-Untouched w keys_prefix archives path s) p
  bad_request_changes_nothing provider_keys_restore i path s after p =
      answered s after _ (endpoint_action-Untouched w keys_prefix restores path s) p
  bad_request_changes_nothing provider_keys_patch i path s after p =
      answered s after _ (keys_patch-Untouched w path i.enabled s) p
  bad_request_changes_nothing provider_keys_delete i path s after p =
      answered s after _ (endpoint_delete-Untouched w keys_prefix path s) p
  bad_request_changes_nothing grok_patch i path s after p =
      answered s after _ (grok_patch_base_url-Untouched w i.url s) p
  bad_request_changes_nothing provider_settings_patch i path s after p =
      answered s after _ (settings_patch-Untouched w path i.url s) p
  bad_request_changes_nothing provider_keys_create i path s after p =
      answered s after _ (keys_create-Untouched w i.drawn i.quota_drawn i.creation s) p
  bad_request_changes_nothing provider_endpoints_create i path s after p =
      answered s after _ (endpoints_create-Untouched w i.drawn i.quota_drawn i.creation s) p
  bad_request_changes_nothing provider_endpoints_update_quota i path s after p =
      answered s after _ (endpoints_update_quota-Untouched w i.drawn i.quota_drawn path i.quota s) p
  bad_request_changes_nothing provider_endpoints_rotate_quota_key i path s after p =
      answered s after _
        (endpoints_rotate_quota_key-Untouched w i.drawn i.quota_drawn path i.quota_key s) p
  bad_request_changes_nothing _ i path s after p = absurd (ground (arith, p))
