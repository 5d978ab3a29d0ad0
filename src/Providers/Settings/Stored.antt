-- ===== src/Providers/Settings/Stored.antt =====
-- Settings as they are read back.
use code_guda_gateway.Prelude.{
  ◌≡◌, refl, String, Bool, true, false, some, [], ◌∷◌, ◌=ₜ◌, arith, eq_iff,
}
use code_guda_gateway.Providers.Settings.{
  Rows, SettingsTables, find_setting, put_setting, get_setting, set_setting,
  get_proxy_debug_attempts, set_proxy_debug_attempts,
}

find_setting-put :
    (key value : String) (rs : Rows) → find_setting key (put_setting key value rs) ≡ some value
unfolding find_setting put_setting
find_setting-put key value [] = ground (arith, eq_iff key key)
find_setting-put key value (r ∷ rs) = ground (arith, eq_iff key key, find_setting-put key value rs)

find_setting-put_other :
    (key other value : String) (rs : Rows)
    → (key =ₜ other) ≡ false
    → find_setting other (put_setting key value rs) ≡ find_setting other rs
unfolding find_setting put_setting
find_setting-put_other key other value [] n = ground (arith, n)
find_setting-put_other key other value (r ∷ rs) n =
    ground (arith, n, eq_iff r.0 key, find_setting-put_other key other value rs)

-- A setting is read back as it was set.
pub get_setting-set :
    (key fallback value : String) (t : SettingsTables)
    → get_setting key fallback (set_setting key value t) ≡ value
unfolding get_setting set_setting
get_setting-set key fallback value t = rw (find_setting-put key value t.settings) refl

-- Setting one setting leaves the others as they are.
pub get_setting-set_other :
    (key other fallback value : String) (t : SettingsTables)
    → (key =ₜ other) ≡ false
    → get_setting other fallback (set_setting key value t) ≡ get_setting other fallback t
unfolding get_setting set_setting
get_setting-set_other key other fallback value t n =
    rw (find_setting-put_other key other value t.settings n) refl

-- The debugging of attempts is read back as it was set.
pub get_proxy_debug_attempts-set :
    (enabled : Bool) (t : SettingsTables)
    → get_proxy_debug_attempts (set_proxy_debug_attempts enabled t) ≡ enabled
unfolding get_proxy_debug_attempts set_proxy_debug_attempts
get_proxy_debug_attempts-set true t =
    rw (get_setting-set "proxy_debug_attempts" "false" "true" t) refl
get_proxy_debug_attempts-set false t =
    rw (get_setting-set "proxy_debug_attempts" "false" "false" t) refl
