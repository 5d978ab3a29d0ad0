-- ===== src/Adminweb/Untouched.antt =====
-- internal/adminweb/handlers.go: a handler of endpoints that answers 400 has changed nothing.
use code_guda_gateway.Prelude.{
  ℕ, ◌≡◌, refl, String, Bool, true, false, not, Option, none, some, ◌=ₜ◌, trim_space, Result, ok,
  err, arith, if◌then◌else◌,
}
use code_guda_gateway.Secrets.{Bytes}
use code_guda_gateway.Providers.Names
use code_guda_gateway.Providers.Settings.{SettingsTables, SettingsError, set_base_url}
use code_guda_gateway.Providers.KeyTable.{KeyTable}
use code_guda_gateway.Providers.Keys.{update_base_url, rotate_key}
use code_guda_gateway.Providers.Keys.Display.{DisplayProviderKey, get}
use code_guda_gateway.Adminweb.Endpoints.{
  configured, grok_patch_base_url, settings_patch, status_of_url, status_of_setting, trim_prefix,
  Action, raw_of, endpoint_action, endpoint_delete, keys_patch, act, acted, switched, changed_or,
  bad_url, suffix_of, endpoints_prefix, keys_prefix, Wiring, Store, KeyBody, PatchBody,
  parse_action_id, parse_row_id, endpoints_patch, endpoints_update_base_url, endpoints_rotate_key,
}

-- An answer of 400 leaves the store as it was.
abbrev pub Untouched : Store → ℕ × Store → Type 0
Untouched s (status, after) = status ≡ 400 → after ≡ s

pub unless_some {ℓ} :
    {A : Type ℓ} (o : Option A) (s : Store) (next : A → ℕ × Store)
    → ((a : A) → Untouched s (next a))
    → Untouched s (elim o [ none ↦ (400, s) | some a ↦ next a ])
unless_some none s next k = λ _. refl
unless_some (some a) s next k = k a

pub unless_ok {ℓ} :
    {E : Type 0} {A : Type ℓ} (x : Result E A) (s : Store) (status : E → ℕ) (next : A → ℕ × Store)
    → ((a : A) → Untouched s (next a))
    → Untouched s (elim x [ err e ↦ (status e, s) | ok a ↦ next a ])
unless_ok (err e) s status next k = λ _. refl
unless_ok (ok a) s status next k = k a

pub unless_blank :
    (blank : Bool) (s : Store) (next : ℕ × Store)
    → Untouched s next
    → Untouched s (if blank then (400, s) else next)
unless_blank true s next k = λ _. refl
unless_blank false s next k = k

pub told :
    (x : Result Names.Error DisplayProviderKey) (s failed : Store)
    (after : DisplayProviderKey → Store)
    → Untouched s (elim x [ err e ↦ (500, failed) | ok k ↦ (200, after k) ])
told (err e) s failed after p = absurd (ground (arith, p))
told (ok k) s failed after p = absurd (ground (arith, p))

pub either_way :
    (b : Bool) (s : Store) (yes_answer no_answer : ℕ × Store)
    → Untouched s yes_answer
    → Untouched s no_answer
    → Untouched s (if b then yes_answer else no_answer)
either_way true s x y p q = p
either_way false s x y p q = q

module _ (w : Wiring) where
  pub endpoints_update_base_url-Untouched :
      (path : String) (body : Option String) (s : Store)
      → Untouched s (endpoints_update_base_url w path body s)
  unfolding endpoints_update_base_url
  endpoints_update_base_url-Untouched path body s =
      unless_some (parse_action_id "/admin/api/provider-endpoints/" "/update-base-url" path) s _
        (λ i. unless_some body s _ (λ url. unless_blank (trim_space url =ₜ "") s _ (
          unless_ok (get i s.keys) s _ _ (λ row.
            unless_ok (update_base_url w.keys w.now i url s.keys) s _ _
              (λ keys. told (get i keys) s _ _)))))

  pub endpoints_rotate_key-Untouched :
      (drawn : Option Bytes) (path : String) (body : Option KeyBody) (s : Store)
      → Untouched s (endpoints_rotate_key w drawn path body s)
  unfolding endpoints_rotate_key
  endpoints_rotate_key-Untouched drawn path body s =
      unless_some (parse_action_id endpoints_prefix "/rotate-key" path) s _ (λ i.
        unless_some body s _ (λ b. unless_blank (raw_of b.key b.api_key =ₜ "") s _ (
          unless_ok (get i s.keys) s (λ _. 500) _
            (λ row.
              unless_ok (rotate_key w.keys w.now drawn i (raw_of b.key b.api_key) s.keys) s
                (λ _. 500) _ (λ keys. told (get i keys) s _ _)))))

  acted-Untouched : (x : Result Names.Error KeyTable) (s : Store) → Untouched s (acted w x s)
  acted-Untouched (err e) s = λ _. refl
  acted-Untouched (ok keys) s = λ p. absurd (ground (arith, p))

  pub endpoint_action-Untouched :
      (prefix : String) (a : Action) (path : String) (s : Store)
      → Untouched s (endpoint_action w prefix a path s)
  unfolding endpoint_action
  endpoint_action-Untouched prefix a path s =
      unless_some (parse_action_id prefix (suffix_of a) path) s _
        (λ i. acted-Untouched (act w a i s.keys) s)

  pub endpoint_delete-Untouched :
      (prefix path : String) (s : Store) → Untouched s (endpoint_delete w prefix path s)
  unfolding endpoint_delete
  endpoint_delete-Untouched prefix path s =
      unless_some (parse_row_id prefix path) s _ (λ i. λ p. absurd (ground (arith, p)))

  switched-Untouched :
      (enabled : Option Bool) (i : ℕ) (s : Store) → Untouched s (switched w enabled i s)
  switched-Untouched none i s = λ _. refl
  switched-Untouched (some true) i s = λ p. absurd (ground (arith, p))
  switched-Untouched (some false) i s = λ p. absurd (ground (arith, p))

  pub keys_patch-Untouched :
      (path : String) (body : Option (Option Bool)) (s : Store)
      → Untouched s (keys_patch w path body s)
  unfolding keys_patch
  keys_patch-Untouched path body s =
      unless_some (parse_row_id keys_prefix path) s _
        (λ i. unless_some body s _ (λ enabled. switched-Untouched enabled i s))

  changed_or-Untouched :
      (is_bad : Names.Error → Bool) (x : Result Names.Error KeyTable) (s : Store)
      → Untouched s (changed_or w is_bad x s)
  changed_or-Untouched is_bad (err e) s = λ _. refl
  changed_or-Untouched is_bad (ok keys) s = λ p. absurd (ground (arith, p))

  pub endpoints_patch-Untouched :
      (path : String) (body : Option PatchBody) (s : Store)
      → Untouched s (endpoints_patch w path body s)
  unfolding endpoints_patch
  endpoints_patch-Untouched path body s = unless_some (parse_row_id endpoints_prefix path) s _ (λ i.
      unless_some body s _ (λ b.
        either_way (not (trim_space b.base_url =ₜ "")) s _ _
          (changed_or-Untouched bad_url (update_base_url w.keys w.now i b.base_url s.keys) s)
          (switched-Untouched b.enabled i s)))

  configured-Untouched :
      (status : SettingsError → ℕ) (x : Result SettingsError SettingsTables) (s : Store)
      → Untouched s (configured w status x s)
  configured-Untouched status (err e) s = λ _. refl
  configured-Untouched status (ok settings) s = λ p. absurd (ground (arith, p))

  pub grok_patch_base_url-Untouched :
      (body : Option String) (s : Store) → Untouched s (grok_patch_base_url w body s)
  unfolding grok_patch_base_url
  grok_patch_base_url-Untouched body s = unless_some body s _ (λ url. unless_blank (url =ₜ "") s _ (
      configured-Untouched status_of_url
        (set_base_url w.settings Names.provider_grok url s.settings) s))

  pub settings_patch-Untouched :
      (path : String) (body : Option String) (s : Store)
      → Untouched s (settings_patch w path body s)
  unfolding settings_patch
  settings_patch-Untouched path body s = unless_some body s _ (λ url. unless_blank (url =ₜ "") s _ (
      configured-Untouched status_of_setting
        (set_base_url w.settings (trim_prefix "/admin/api/provider-settings/" path) url s.settings)
        s))
