-- ===== src/Providers/Pool/Counts.antt =====
-- internal/providers/key_quota.go: the counts of a pool's summary agree with each other, with its
-- pages and with the endpoints that a refresh skips.
use code_guda_gateway.Prelude.{
  ℕ, suc, ◌+◌, ◌≤◌, ◌≡◌, refl, eq_iff, if◌then◌else◌, subst, Result, map_error, pos_part, drop, ℤ,
  zero, take, >>=-eq-ok, ok, ◌↔◌, ◌⊎◌, inl, inr, Bool-cases, ◌=ₜ◌, pos, ◌≤ℤ◌, String, Bool, true,
  false, Option, List, [], ◌∷◌, length, is_some, ◌&&◌, not, length-append, arith,
}
use code_guda_gateway.Providers.Keys.Display.{DisplayProviderKey, list}
use code_guda_gateway.Providers.Names.{
  validate_provider, clamp_limit_offset, clamp_limit_offset_bounds,
}
use code_guda_gateway.Providers.QuotaTables.{
  ProviderKeyQuota, DetailsJson, KeyQuotaRow, QuotaError, list_by_provider,
}
use code_guda_gateway.Providers.KeyTable.{KeyTable}
use code_guda_gateway.Providers.Pool.{
  PoolClock, Tally, tally_key, tally_keys, pool_view_all, start_tally, add_quota, count_status,
  one_if, ProviderPoolRow, ProviderPool, PoolListOptions, pool_key_skip_reason, cooldown_active,
  provider_pool, normalize_pool_view, pool_of, derive_pool_key_status, PoolKeyStatus, quota_of_key,
}

-- After `n` endpoints.
pub record IsBalanced (view : String) (n : ℕ) (t : Tally) : Type 0 where
  pub shown : (view =ₜ pool_view_all) ≡ false → length t.items ≡ t.enabled
  pub all : (view =ₜ pool_view_all) ≡ true → length t.items ≡ n
  pub ready : t.available + t.cooling ≤ t.enabled
  pub enabled : t.enabled ≤ n
  pub refreshed : t.refreshed ≤ n

-- What an available endpoint's quota leaves of the tally.
record KeepsCounts (t u : Tally) : Type 0 where
  items : u.items ≡ t.items
  enabled : u.enabled ≡ t.enabled
  available : u.available ≡ t.available
  cooling : u.cooling ≡ t.cooling
  refreshed : u.refreshed ≡ t.refreshed

add_quota-KeepsCounts : (q : Option ProviderKeyQuota) (t : Tally) → KeepsCounts t (add_quota q t)
add_quota-KeepsCounts q t = record {
  items = ground arith;
  enabled = ground arith;
  available = ground arith;
  cooling = ground arith;
  refreshed = ground arith;
}

count_shown :
    (status : PoolKeyStatus) (q : Option ProviderKeyQuota) (t : Tally)
    → ((count_status status q t).items ≡ t.items)
      × ((count_status status q t).enabled ≡ t.enabled)
      × ((count_status status q t).refreshed ≡ t.refreshed)
count_shown PoolKeyStatus.available q t =
    let kept = add_quota-KeepsCounts q (record t { available = suc t.available }) in
    (kept.items, kept.enabled, kept.refreshed)
count_shown PoolKeyStatus.cooling q t = (refl, refl, refl)
count_shown PoolKeyStatus.disabled q t = (refl, refl, refl)
count_shown PoolKeyStatus.archived q t = (refl, refl, refl)
count_shown PoolKeyStatus.not_refreshed q t = (refl, refl, refl)

tally_key-IsBalanced :
    (clock : PoolClock) (view : String) (k : DisplayProviderKey) (q : Option ProviderKeyQuota)
    (n : ℕ) (t : Tally)
    → IsBalanced view n t
    → IsBalanced view (suc n) (tally_key clock view k q t)
unfolding tally_key derive_pool_key_status
tally_key-IsBalanced clock view k q n t b =
    let status = derive_pool_key_status clock k (is_some q) in
    let started : Tally = (record t {
      enabled = t.enabled + one_if (k.enabled && not (is_some k.archived_at));
      refreshed = t.refreshed + one_if (is_some q);
    }) in
    let (same_items, same_enabled, same_refreshed) = count_shown status q started in
    let appended = length-append t.items (record { key = k; status = status; quota = q } ∷ []) in
    let kept = add_quota-KeepsCounts q (record started { available = suc started.available }) in
    record {
      shown = λ chosen. ground (arith, b.shown chosen, same_items, same_enabled, appended);
      all = λ whole. ground (arith, b.all whole, same_items, appended);
      ready = ground (arith, b.ready, same_enabled, kept.available, kept.cooling);
      enabled = ground (arith, b.enabled, same_enabled);
      refreshed = ground (arith, b.refreshed, same_refreshed);
    }

tally_keys-IsBalanced :
    (clock : PoolClock) (view : String) (quotas : List ProviderKeyQuota)
    (ks : List DisplayProviderKey) (n : ℕ) (t : Tally)
    → IsBalanced view n t
    → IsBalanced view (n + length ks) (tally_keys clock view quotas ks t)
unfolding tally_keys
tally_keys-IsBalanced clock view quotas [] n t b = subst (λ m. IsBalanced view m t) (omega arith) b
tally_keys-IsBalanced clock view quotas (k ∷ ks) n t b =
    subst (λ m. IsBalanced view m (tally_keys clock view quotas (k ∷ ks) t)) (omega arith)
      (tally_keys-IsBalanced clock view quotas ks (suc n) _
        (tally_key-IsBalanced clock view k (quota_of_key k.id quotas) n t b))

-- The counts of a pool: the pages have at most `limit` rows, at most 100, and go through the enabled
-- endpoints, or through all of them in the view of all; those that are available or cooling are
-- enabled, and the enabled and the refreshed are among all.
pub data HasCounts (pool : ProviderPool) : Type 0 where
  has_counts :
      length pool.items ≤ 100
      → pos (length pool.items) ≤ℤ pool.page.limit
      → (pool.page.total ≡ pool.summary.enabled_key_count)
        ⊎ (pool.page.total ≡ pool.summary.key_count)
      → pool.summary.available_key_count + pool.summary.cooling_key_count
        ≤ pool.summary.enabled_key_count
      → pool.summary.enabled_key_count ≤ pool.summary.key_count
      → pool.summary.refreshed_key_count ≤ pool.summary.key_count
      → HasCounts pool

start_tally-IsBalanced : {view : String} → IsBalanced view 0 start_tally
start_tally-IsBalanced = record {
  shown = λ _. refl;
  all = λ _. refl;
  ready = omega arith;
  enabled = omega arith;
  refreshed = omega arith;
}

abbrev ok_pool : ProviderPool → Result QuotaError ProviderPool
ok_pool = ok

ok-inj : {a b : ProviderPool} → ok_pool a ≡ ok_pool b → a ≡ b
ok-inj h = cc

length-take : (n : ℕ) (xs : List ProviderPoolRow) → length (take n xs) ≤ n
length-take zero xs = omega arith
length-take (suc n) [] = omega arith
length-take (suc n) (x ∷ xs) = omega (arith, length-take n xs)

pool_of-HasCounts :
    (view provider : String) (limit offset : ℤ) (key_count : ℕ) (t : Tally)
    → pos 1 ≤ℤ limit
    → limit ≤ℤ pos 100
    → IsBalanced view key_count t
    → HasCounts (pool_of provider (limit, offset) key_count t)
pool_of-HasCounts view provider limit offset key_count t least most b =
    let short = length-take (pos_part limit) (drop (pos_part offset) t.items) in
    has_counts (ground (arith, short, least, most)) (ground (arith, short, least, most))
      (elim (Bool-cases (view =ₜ pool_view_all)) [
        | inl whole ↦ inr (b.all whole)
        | inr chosen ↦ inl (b.shown chosen)
      ])
      b.ready b.enabled b.refreshed

tallied-IsBalanced :
    (clock : PoolClock) (view : String) (quotas : List ProviderKeyQuota)
    (ks : List DisplayProviderKey)
    → IsBalanced view (length ks) (tally_keys clock view quotas ks start_tally)
tallied-IsBalanced clock view quotas ks =
    subst (λ n. IsBalanced view n (tally_keys clock view quotas ks start_tally)) (omega arith)
      (tally_keys-IsBalanced clock view quotas ks 0 start_tally start_tally-IsBalanced)

-- Every pool has consistent counts: a page of at most 100 rows within its limit, pages through the
-- enabled endpoints, or through all of them, the available and the cooling endpoints among the
-- enabled, and the enabled and the refreshed among all.
pub provider_pool-HasCounts :
    (clock : PoolClock) (json : DetailsJson) (to_lower : String → String) (provider : String)
    (opts : PoolListOptions) (keys : KeyTable) (quotas : List KeyQuotaRow) {pool : ProviderPool}
    → provider_pool clock json to_lower provider opts keys quotas ≡ ok pool
    → HasCounts pool
unfolding provider_pool tally_keys
provider_pool-HasCounts clock json to_lower provider opts keys quotas {pool} went =
    let (checked, _, after_check) =
      >>=-eq-ok (map_error QuotaError.names (validate_provider provider)) _ went in
    let (view, _, after_view) = >>=-eq-ok (normalize_pool_view to_lower opts.view) _ after_check in
    let (ks, _, after_list) =
      >>=-eq-ok (map_error QuotaError.names (list provider keys)) _ after_view in
    let (qs, _, made) = >>=-eq-ok (list_by_provider json provider quotas) _ after_list in
    let page = clamp_limit_offset opts.limit opts.offset (pos 25) (pos 100) in
    let bounds =
      clamp_limit_offset_bounds opts.limit opts.offset (pos 25) (pos 100) (omega arith)
        (omega arith) in
    subst HasCounts (ok-inj made) (
      pool_of-HasCounts view provider page.0 page.1 (length ks)
        (tally_keys clock view qs ks start_tally) bounds.0 bounds.1
        (tallied-IsBalanced clock view qs ks))

no_reason :
    (is_archived is_disabled is_cooling : Bool)
    → ((if is_archived
          then "archived"
          else if is_disabled
          then "disabled"
          else if is_cooling
          then "cooldown"
          else "")
        =ₜ "")
      ≡ true
    → (is_archived ≡ false) × (is_disabled ≡ false) × (is_cooling ≡ false)
no_reason true b c h = ground arith
no_reason false true c h = ground arith
no_reason false false true h = ground arith
no_reason false false false h = (refl, refl, refl)

-- The refresh of all endpoints skips none exactly where the pool shows the endpoint as available or
-- as not refreshed yet.
pub pool_key_skip_reason_iff :
    (clock : PoolClock) (k : DisplayProviderKey) (has_quota : Bool)
    → (pool_key_skip_reason clock k ≡ "") ↔ (
        (derive_pool_key_status clock k has_quota ≡ PoolKeyStatus.available)
        ⊎ (derive_pool_key_status clock k has_quota ≡ PoolKeyStatus.not_refreshed))
unfolding pool_key_skip_reason derive_pool_key_status
pool_key_skip_reason_iff clock k has_quota = (
  λ e.
      let (kept, on, ready) =
        no_reason (is_some k.archived_at) (not k.enabled) (cooldown_active clock k.cooldown_until)
          ((eq_iff (pool_key_skip_reason clock k) "").1 e) in
      ground (arith, kept, on, ready),
  λ e. ground arith,
)
