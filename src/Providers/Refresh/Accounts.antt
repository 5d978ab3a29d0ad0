-- ===== src/Providers/Refresh/Accounts.antt =====
-- internal/providers/quota_refresh.go: the quota of a Grok2API v3 server: the admin's credential, the
-- login, and the accounts, a page at a time. A float64 of a payload is what the source asks of it:
-- its int64 conversion, and whether it is positive.
use Prim.Native.Char.{Char, code}
use Prim.Native.String
use Prim.Native.String.{String, [], ◌∷◌}
use code_guda_gateway.Prelude.{
  ℕ, zero, suc, ◌+◌, Bool, true, false, not, ◌&&◌, ◌||◌, Option, none, some, List, [], ◌∷◌, ◌==◌,
  ◌=ₜ◌, ltb, if◌then◌else◌, ℤ, pos, ltb_int, leb_int, add_int64, sub_int64, length, is_some,
  decimal, strip_prefix, trim_space, Result, ok, err,
}
use code_guda_gateway.Providers.Endpoints.{trim_right_slashes}
use code_guda_gateway.Providers.Names.{provider_grok}
use code_guda_gateway.Providers.Keys.{KeyRepo}
use code_guda_gateway.Providers.QuotaTables.{Detail, QuotaCache}
use code_guda_gateway.Providers.Refresh.{
  QuotaClient, Fetched, World, Times, bad_credential, page_limit, get_json, post_json,
  record_event_of, quota_cache_shell, quota_failure, quota_http_failure, quota_malformed,
}
use code_guda_gateway.Providers.Refresh.Normalize.{clamp_used_non_negative}

pub record Float : Type 0 where
  pub truncated : ℤ
  pub is_positive : Bool

pub record QuotaWindow : Type 0 where
  pub remaining : ℤ
  pub total : ℤ

pub record Billing : Type 0 where
  pub monthly_limit : Float
  pub remaining : Float

pub record AccountQuota : Type 0 where
  pub limit_known : Bool
  pub remaining : Float
  pub limit : Float

pub record Account : Type 0 where
  pub enabled : Bool
  pub auth_status : String
  pub quota_windows : List QuotaWindow
  pub billing : Option Billing
  pub quota : Option AccountQuota

pub record AccountsPage : Type 0 where
  pub items : List Account
  pub total : ℤ

-- encoding/json on the payloads; an error of decoding a page has its text.
pub record AccountsJson : Type 0 where
  pub encode_login : String → String → String
  pub decode_login : String → Option String
  pub decode_credential : String → Option (String × String)
  pub decode_page : String → Result String AccountsPage

pub record QuotaTotals : Type 0 where
  pub remaining : ℤ
  pub limit : ℤ
  pub account_count : ℕ
  pub window_count : ℕ

abbrev pub no_totals : QuotaTotals
no_totals = record { remaining = pos 0; limit = pos 0; account_count = 0; window_count = 0 }

abbrev pub add_amounts : ℤ → ℤ → QuotaTotals → QuotaTotals
add_amounts remaining limit t = record t {
  remaining = add_int64 t.remaining remaining;
  limit = add_int64 t.limit limit;
}

unfoldable pub add_windows : List QuotaWindow → QuotaTotals → QuotaTotals
add_windows [] t = t
add_windows (w ∷ ws) t =
    add_windows ws
      (record (add_amounts w.remaining w.total t) { window_count = suc t.window_count })

abbrev pub add_billing : Option Billing → QuotaTotals → QuotaTotals
add_billing none t = t
add_billing (some b) t =
    if b.monthly_limit.is_positive
    then add_amounts b.remaining.truncated b.monthly_limit.truncated t
    else t

abbrev pub add_unified : Option AccountQuota → Option Billing → QuotaTotals → QuotaTotals
add_unified none billing t = add_billing billing t
add_unified (some q) billing t =
    if q.limit_known
    then add_amounts q.remaining.truncated q.limit.truncated t
    else add_billing billing t

abbrev pub add_capacity : Account → QuotaTotals → QuotaTotals
add_capacity a t = elim a.quota_windows [
  | [] ↦ add_unified a.quota a.billing t
  | w ∷ ws ↦ add_windows (w ∷ ws) t
]

unfoldable pub is_routable : Account → Bool
is_routable a = a.enabled && a.auth_status =ₜ "active"

-- One round of the loop of normalizeGrok2APIV3Accounts.
unfoldable pub add_account : Account → QuotaTotals → QuotaTotals
unfolding add_windows is_routable
add_account a t =
    if is_routable a then add_capacity a (record t { account_count = suc t.account_count }) else t

unfoldable pub add_accounts : List Account → QuotaTotals → QuotaTotals
unfolding add_account
add_accounts [] t = t
add_accounts (a ∷ rest) t = add_accounts rest (add_account a t)

unfoldable pub normalize_accounts : List Account → QuotaTotals
unfolding add_accounts
normalize_accounts items = add_accounts items no_totals

abbrev prepend : Char → Option (String × String) → Option (String × String)
prepend c none = none
prepend c (some (before, after)) = some (c ∷ before, after)

-- strings.Cut(s, ":")
unfoldable pub cut_colon : String → Option (String × String)
cut_colon [] = none
cut_colon (c ∷ s) =
    let rest = cut_colon s in if code c == b':' then some ("", s) else prepend c rest

abbrev credential_of : Option (String × String) → Option (String × String)
credential_of none = none
credential_of (some (user, pass)) =
    if trim_space user =ₜ "" || pass =ₜ "" then none else some (trim_space user, pass)

-- parseGrok2APIV3AdminCred
unfoldable pub parse_admin_credential : AccountsJson → String → Option (String × String)
unfolding cut_colon
parse_admin_credential json raw =
    let text = trim_space raw in
    if text =ₜ ""
    then none
    else if is_some (strip_prefix "{" text)
    then credential_of (json.decode_credential text)
    else credential_of (cut_colon text)

-- What loginGrok2APIV3 returns: a token, or the status and the error.
abbrev pub token_of : AccountsJson → Fetched → Result (ℕ × String) String
token_of json f = elim f.error [
  | some e ↦ err (f.status, e)
  | none ↦ elim (json.decode_login f.body) [
    | none ↦ err (f.status, "grok2api v3 login response malformed")
    | some token ↦
        if trim_space token =ₜ ""
        then err (f.status, "grok2api v3 login missing accessToken")
        else ok (trim_space token)
  ]
]

unfoldable pub login_accounts :
    {N : Type 0}
    → QuotaClient N
    → AccountsJson
    → String
    → String
    → String
    → World N
    → Result (ℕ × String) String × World N
unfolding post_json
login_accounts client json admin_base username password w =
    let (f, after) =
      post_json client false (String.◌++◌ admin_base "/api/admin/v1/auth/login") ""
        (json.encode_login username password) w in
    (token_of json f, after)

abbrev pub page_size : ℕ
page_size = 100

abbrev pub max_pages : ℕ
max_pages = 50

abbrev pub accounts_url : String → ℕ → String
accounts_url admin_base page = String.◌++◌ admin_base (
    String.◌++◌ "/api/admin/v1/accounts?page="
      (String.◌++◌ (decimal page) (String.◌++◌ "&pageSize=" (decimal page_size))))

-- What the loop over the pages has: the sums, the count of accounts, and the total and the status of
-- the last answer.
pub record Progress : Type 0 where
  pub totals : QuotaTotals
  pub fetched : ℕ
  pub declared : ℤ
  pub status : ℕ

-- How the loop ends: on an error of the call, on a page that is not understood, or done.
pub data Paged : Type 0 where
  failed : ℕ → String → Paged
  malformed : ℕ → String → Paged
  finished : Progress → Paged

abbrev pub add_totals : QuotaTotals → QuotaTotals → QuotaTotals
add_totals page t = record {
  remaining = add_int64 t.remaining page.remaining;
  limit = add_int64 t.limit page.limit;
  account_count = t.account_count + page.account_count;
  window_count = t.window_count + page.window_count;
}

abbrev pub is_last_page : AccountsPage → ℕ → Bool
is_last_page page fetched =
    (ltb_int (pos 0) page.total && leb_int page.total (pos fetched))
    || ltb (length page.items) page_size

abbrev pub is_empty : List Account → Bool
is_empty [] = true
is_empty (a ∷ rest) = false

abbrev pub advance : AccountsPage → ℕ → Progress → Progress
advance page status p = record {
  totals = add_totals (normalize_accounts page.items) p.totals;
  fetched = p.fetched + length page.items;
  declared = page.total;
  status = status;
}

-- The step after a page: whether to go on, and the progress.
unfoldable pub take_page : AccountsPage → ℕ → Progress → Bool × Progress
unfolding normalize_accounts
take_page page status p =
    if is_empty page.items
    then (false, record p { declared = page.total; status = status })
    else (not (is_last_page page (p.fetched + length page.items)), advance page status p)

-- An answer to a page: the outcome so far, and whether the loop goes on.
unfoldable pub page_step : AccountsJson → Fetched → Progress → Paged × Bool
unfolding take_page
page_step json f p = elim f.error [
  | some e ↦ (failed f.status e, false)
  | none ↦ elim (json.decode_page f.body) [
    | err e ↦ (malformed f.status e, false)
    | ok page ↦ (finished (take_page page f.status p).1, (take_page page f.status p).0)
  ]
]

abbrev pub progress_of : Paged → Progress → Progress
progress_of (finished q) p = q
progress_of (failed status e) p = p
progress_of (malformed status e) p = p

-- The status before the first page is never read: there is a first page.
abbrev pub start_progress : ℕ → Progress
start_progress status = record {
  totals = no_totals;
  fetched = 0;
  declared = pos 0;
  status = status;
}

-- The loop over the pages, with `left` of them to go.
unfoldable pub fetch_pages :
    {N : Type 0}
    → QuotaClient N
    → AccountsJson
    → String
    → String
    → (left page : ℕ) → Progress
    → World N
    → Paged × World N
unfolding get_json page_step
fetch_pages client json admin_base token zero page p w = (finished p, w)
fetch_pages client json admin_base token (suc left) page p w =
    let (f, after) = get_json client (accounts_url admin_base page) token w in
    let (outcome, goes_on) = page_step json f p in
    let rest =
      fetch_pages client json admin_base token left (suc page) (progress_of outcome p) after in
    if goes_on then rest else (outcome, after)

abbrev pub quota_of_totals : Times → Option ℕ → QuotaTotals → QuotaCache
quota_of_totals times key_id t =
    record (quota_cache_shell provider_grok "grok2api_v3_accounts" times key_id) {
      remaining = some t.remaining;
      limit_value = some t.limit;
      used = clamp_used_non_negative (some (sub_int64 t.limit t.remaining));
      details = some (
          ("account_count", Detail.whole (some (pos t.account_count)))
          ∷ ("window_count", Detail.whole (some (pos t.window_count)))
          ∷ ("remaining_basis", Detail.text "quota_windows")
          ∷ []);
    }

abbrev page_limit_message : String
page_limit_message = "grok2api v3 accounts response exceeded 50-page safety limit"

-- What follows the loop: the snapshot, and the status and the error of its event.
unfoldable pub conclude_pages : KeyRepo → Times → Option ℕ → Paged → QuotaCache × ℕ × Option String
unfolding clamp_used_non_negative
conclude_pages repo times key_id (failed status e) = (
  quota_http_failure repo provider_grok "grok2api_v3_accounts" times key_id status e,
  status,
  some e,
)
conclude_pages repo times key_id (malformed status e) =
    (quota_malformed provider_grok "grok2api_v3_accounts" times key_id, status, some e)
conclude_pages repo times key_id (finished p) =
    if ltb_int (pos p.fetched) p.declared
    then (
      quota_failure provider_grok "grok2api_v3_accounts" times key_id page_limit,
      p.status,
      some page_limit_message,
    )
    else (quota_of_totals times key_id p.totals, p.status, none)

-- The rest of fetchGrok2APIV3Accounts after a login.
abbrev pub fetch_logged_in :
    {N : Type 0}
    → KeyRepo
    → ℕ
    → QuotaClient N
    → AccountsJson
    → Times
    → String
    → Option ℕ
    → Bool
    → Result (ℕ × String) String × World N
    → QuotaCache × World N
fetch_logged_in repo now client json times admin_base key_id record_event (err (status, e), w) = (
  quota_http_failure repo provider_grok "grok2api_v3_admin" times key_id status e,
  record_event_of repo now record_event key_id status (some e) w,
)
fetch_logged_in repo now client json times admin_base key_id record_event (ok token, w) =
    let (paged, after) =
      fetch_pages client json admin_base token max_pages 1 (start_progress 200) w in
    let (q, status, error) = conclude_pages repo times key_id paged in
    (q, record_event_of repo now record_event key_id status error after)

abbrev pub fetch_with :
    {N : Type 0}
    → KeyRepo
    → ℕ
    → QuotaClient N
    → AccountsJson
    → Times
    → String
    → Option ℕ
    → Bool
    → Option (String × String)
    → World N
    → QuotaCache × World N
fetch_with repo now client json times admin_base key_id record_event none w = (
  quota_failure provider_grok "grok2api_v3_admin" times key_id bad_credential,
  record_event_of repo now record_event key_id 0 (some "invalid credential") w,
)
fetch_with repo now client json times admin_base key_id record_event (some (user, pass)) w =
    fetch_logged_in repo now client json times admin_base key_id record_event
      (login_accounts client json admin_base user pass w)

unfoldable pub fetch_accounts :
    {N : Type 0}
    → KeyRepo
    → ℕ
    → QuotaClient N
    → AccountsJson
    → Times
    → String
    → String
    → Option ℕ
    → Bool
    → World N
    → QuotaCache × World N
unfolding parse_admin_credential login_accounts fetch_pages conclude_pages
fetch_accounts repo now client json times base credential key_id record_event w =
    fetch_with repo now client json times (trim_right_slashes base) key_id record_event
      (parse_admin_credential json credential) w
