-- ===== src/Providers/Refresh/Pages.antt =====
-- internal/providers/quota_refresh.go: the loop over the pages of a Grok2API v3 server's accounts. It
-- makes at most 50 requests, and that is enough for a server of up to 5000 accounts.
pub mod Counts
pub mod Steps
pub mod Served
use code_guda_gateway.Prelude.{
  ℕ, zero, suc, ◌+◌, ◌*◌, ◌≤◌, ◌≡◌, refl, ◌∙◌, sym, ap, subst, String, Bool, true, false, Option,
  none, some, List, [], ◌∷◌, Result, ok, err, arith, Bool-cases, Option-cases, Result-cases, inl,
  inr,
}
use code_guda_gateway.Providers.Keys.{KeyRepo}
use code_guda_gateway.Providers.Refresh.{
  QuotaClient, QuotaRequest, Reply, World, Times, get_json, post_json, record_event_of,
  record_quota_event, send,
}
use code_guda_gateway.Providers.Refresh.Accounts.{
  AccountsJson, Progress, fetch_pages, page_step, progress_of, accounts_url, fetch_accounts,
  fetch_with, fetch_logged_in, login_accounts, start_progress, max_pages, conclude_pages,
  parse_admin_credential,
}

abbrev counted : {N : Type 0} → ℕ → Reply × N → Reply × (N × ℕ)
counted c (reply, n) = (reply, (n, suc c))

-- A client that counts the requests that go through it.
abbrev pub counting : {N : Type 0} → QuotaClient N → QuotaClient (N × ℕ)
counting client = record {
  send = λ request counted_net. counted counted_net.1 (client.send request counted_net.0);
}

abbrev pub requests : {N : Type 0} → World (N × ℕ) → ℕ
requests w = w.net.1

module _ {N : Type 0} (client : QuotaClient N) (json : AccountsJson) where
  get_json-requests :
      (url bearer : String) (w : World (N × ℕ))
      → requests (get_json (counting client) url bearer w).1 ≡ suc (requests w)
  unfolding get_json send
  get_json-requests url bearer w = refl

  login-requests :
      (base user pass : String) (w : World (N × ℕ))
      → requests (login_accounts (counting client) json base user pass w).1 ≡ suc (requests w)
  unfolding login_accounts post_json send
  login-requests base user pass w = refl

  fetch_pages-requests :
      (base token : String) (left page : ℕ) (p : Progress) (w : World (N × ℕ))
      → requests (fetch_pages (counting client) json base token left page p w).1 ≤ requests w + left
  unfolding fetch_pages
  fetch_pages-requests base token zero page p w = omega arith
  fetch_pages-requests base token (suc left) page p w =
      let called = get_json (counting client) (accounts_url base page) token w in
      let step = page_step json called.0 p in
      ground (
        arith,
        get_json-requests (accounts_url base page) token w,
        fetch_pages-requests base token left (suc page) (progress_of step.0 p) called.1,
      )

  module _ (repo : KeyRepo) (now : ℕ) (times : Times) where
    record_event_of-requests :
        (recorded : Bool) (i : Option ℕ) (status : ℕ) (e : Option String) (w : World (N × ℕ))
        → requests (record_event_of repo now recorded i status e w) ≡ requests w
    unfolding record_event_of record_quota_event
    record_event_of-requests false i status e w = refl
    record_event_of-requests true none status e w = refl
    record_event_of-requests true (some i) status e w = refl

    fetch_logged_in-requests :
        (base : String) (i : Option ℕ) (recorded : Bool)
        (login : Result (ℕ × String) String × World (N × ℕ))
        → requests (fetch_logged_in repo now (counting client) json times base i recorded login).1
          ≤ requests login.1 + 50
    fetch_logged_in-requests base i recorded (err (status, e), w) =
        omega (arith, record_event_of-requests recorded i status (some e) w)
    fetch_logged_in-requests base i recorded (ok token, w) =
        let start = start_progress 200 in
        let pages = fetch_pages (counting client) json base token max_pages 1 start w in
        let (q, status, e) = conclude_pages repo times i pages.0 in
        omega (
          arith,
          record_event_of-requests recorded i status e pages.1,
          fetch_pages-requests base token max_pages 1 start w,
        )

    fetch_with-requests :
        (base : String) (i : Option ℕ) (recorded : Bool) (credential : Option (String × String))
        (w : World (N × ℕ))
        → requests (fetch_with repo now (counting client) json times base i recorded credential w).1
          ≤ requests w + 51
    fetch_with-requests base i recorded none w =
        omega (arith, record_event_of-requests recorded i 0 (some "invalid credential") w)
    fetch_with-requests base i recorded (some (user, pass)) w = omega (
      arith,
      login-requests base user pass w,
      fetch_logged_in-requests base i recorded
          (login_accounts (counting client) json base user pass w),
    )

    -- Whatever the server answers, a refresh of a v3 quota ends after at most 51 requests: the login
    -- and 50 pages.
    pub fetch_accounts-requests :
        (base credential : String) (i : Option ℕ) (recorded : Bool) (w : World (N × ℕ))
        → requests
            (fetch_accounts repo now (counting client) json times base credential i recorded w).1
          ≤ requests w + 51
    unfolding fetch_accounts
    fetch_accounts-requests base credential i recorded w =
        fetch_with-requests _ i recorded (parse_admin_credential json credential) w
