-- ===== src/Providers/Refresh/Routing.antt =====
-- internal/providers/quota_refresh.go: refreshing the quotas of endpoints records events, and leaves
-- everything that routing reads as it was: the calls, and (Keys) the refresh of endpoints.
pub mod Keys
use code_guda_gateway.Prelude.{
  ℕ, zero, suc, ◌≡◌, refl, ◌∙◌, sym, ap, String, Bool, true, false, Option, none, some, List, [],
  ◌∷◌, map, Result, ok, err, arith, Bool-cases, Option-cases, Result-cases, inl, inr, ◌=ₜ◌, ◌==◌,
}
use code_guda_gateway.Providers.KeyTable.{KeyRow, KeyTable, update_rows, update}
use code_guda_gateway.Providers.Names.{provider_tavily, provider_firecrawl}
use code_guda_gateway.Providers.Keys.{KeyRepo}
use code_guda_gateway.Providers.Keys.State.{LastEvent, mark_last_event}
use code_guda_gateway.Providers.Keys.Quota.{ResolvedEndpointQuota, resolve_endpoint_quota}
use code_guda_gateway.Providers.Keys.Display.{DisplayProviderKey, get, list}
use code_guda_gateway.Providers.Endpoints.{trim_right_slashes, join_endpoint_url}
use Prim.Native.String
use code_guda_gateway.Providers.QuotaTables.{
  QuotaCache, ProviderKeyQuota, KeyQuotaRow, upsert_key_quota,
}
use code_guda_gateway.Providers.Refresh.{
  QuotaClient, World, Times, send, get_json, post_json, record_quota_event, record_event_of,
}
use code_guda_gateway.Providers.Refresh.Accounts.{
  AccountsJson, Progress, accounts_url, progress_of, fetch_pages, page_step, fetch_accounts,
  parse_admin_credential, login_accounts, fetch_logged_in, fetch_with, start_progress, max_pages,
  conclude_pages,
}
use code_guda_gateway.Providers.Refresh.Endpoint.{
  QuotaRefresher, times_at, parse_tavily, parse_firecrawl, of_flow, fetch_endpoint,
  fetch_admin_tokens, fetch_flow, refresh_from_sidecar, refresh_key,
}

-- An endpoint without its last event and the time of its last change.
abbrev pub without_event : KeyRow → KeyRow
without_event r = record r {
  last_event_at = none;
  last_event_source = none;
  last_event_status_class = none;
  last_event_http_status = none;
  last_event_message_redacted = none;
  updated_at = [];
}

abbrev pub routing : KeyTable → KeyTable
routing t = record t { rows = map without_event t.rows }

mark_last_event-rows :
    (i : ℕ) (f : KeyRow → KeyRow) (rs : List KeyRow)
    → ((r : KeyRow) → without_event (f r) ≡ without_event r)
    → map without_event (update_rows i f rs) ≡ map without_event rs
unfolding update_rows
mark_last_event-rows i f [] same = refl
mark_last_event-rows i f (r ∷ rs) same = elim (Bool-cases (r.id == i)) [
  | inl e ↦ rw e (cc (same r, mark_last_event-rows i f rs same))
  | inr e ↦ rw e (ap (◌∷◌ (without_event r)) (mark_last_event-rows i f rs same))
]

mark_last_event-routing :
    (repo : KeyRepo) (now i : ℕ) (ev : LastEvent) (t : KeyTable)
    → routing (mark_last_event repo now i ev t) ≡ routing t
unfolding mark_last_event update
mark_last_event-routing repo now i ev t =
    ap (λ rows. record t { rows = rows }) (mark_last_event-rows i _ t.rows (λ r. refl))

module _ {N : Type 0} where
  pub record_event_of-routing :
      (repo : KeyRepo) (now : ℕ) (recorded : Bool) (i : Option ℕ) (status : ℕ) (e : Option String)
      (w : World N)
      → routing (record_event_of repo now recorded i status e w).keys ≡ routing w.keys
  unfolding record_event_of record_quota_event
  record_event_of-routing repo now false i status e w = refl
  record_event_of-routing repo now true none status e w = refl
  record_event_of-routing repo now true (some i) status e w =
      mark_last_event-routing repo now i _ w.keys

  get_json-keys :
      (client : QuotaClient N) (url bearer : String) (w : World N)
      → (get_json client url bearer w).1.keys ≡ w.keys
  unfolding get_json send
  get_json-keys client url bearer w = refl

  login-keys :
      (client : QuotaClient N) (json : AccountsJson) (base user pass : String) (w : World N)
      → (login_accounts client json base user pass w).1.keys ≡ w.keys
  unfolding login_accounts post_json send
  login-keys client json base user pass w = refl

  fetch_pages-keys :
      (client : QuotaClient N) (json : AccountsJson) (base token : String) (left page : ℕ)
      (p : Progress) (w : World N)
      → (fetch_pages client json base token left page p w).1.keys ≡ w.keys
  unfolding fetch_pages
  fetch_pages-keys client json base token zero page p w = refl
  fetch_pages-keys client json base token (suc left) page p w =
      let called = get_json client (accounts_url base page) token w in
      let step = page_step json called.0 p in
      ground (
        arith,
        get_json-keys client (accounts_url base page) token w,
        fetch_pages-keys client json base token left (suc page) (progress_of step.0 p) called.1,
      )

  fetch_logged_in-routing :
      (repo : KeyRepo) (now : ℕ) (client : QuotaClient N) (json : AccountsJson) (times : Times)
      (base : String) (i : Option ℕ) (recorded : Bool)
      (login : Result (ℕ × String) String × World N)
      → routing (fetch_logged_in repo now client json times base i recorded login).1.keys
        ≡ routing login.1.keys
  fetch_logged_in-routing repo now client json times base i recorded (err (status, e), w) =
      record_event_of-routing repo now recorded i status (some e) w
  fetch_logged_in-routing repo now client json times base i recorded (ok token, w) =
      let pages = fetch_pages client json base token max_pages 1 (start_progress 200) w in
      let q = conclude_pages repo times i pages.0 in
      record_event_of-routing repo now recorded i q.1 q.2 pages.1
      ∙ ap routing (fetch_pages-keys client json base token max_pages 1 (start_progress 200) w)

  fetch_with-routing :
      (repo : KeyRepo) (now : ℕ) (client : QuotaClient N) (json : AccountsJson) (times : Times)
      (base : String) (i : Option ℕ) (recorded : Bool) (credential : Option (String × String))
      (w : World N)
      → routing (fetch_with repo now client json times base i recorded credential w).1.keys
        ≡ routing w.keys
  fetch_with-routing repo now client json times base i recorded none w =
      record_event_of-routing repo now recorded i 0 _ w
  fetch_with-routing repo now client json times base i recorded (some (user, pass)) w =
      fetch_logged_in-routing repo now client json times base i recorded
        (login_accounts client json base user pass w)
      ∙ ap routing (login-keys client json base user pass w)

  pub fetch_accounts-routing :
      (repo : KeyRepo) (now : ℕ) (client : QuotaClient N) (json : AccountsJson) (times : Times)
      (base credential : String) (i : Option ℕ) (recorded : Bool) (w : World N)
      → routing (fetch_accounts repo now client json times base credential i recorded w).1.keys
        ≡ routing w.keys
  unfolding fetch_accounts
  fetch_accounts-routing repo now client json times base credential i recorded w =
      fetch_with-routing repo now client json times (trim_right_slashes base) i recorded
        (parse_admin_credential json credential) w
