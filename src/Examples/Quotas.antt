-- ===== src/Examples/Quotas.antt =====
-- Runs of the quota tables, the pools and the refresh of quotas.
use code_guda_gateway.Prelude.{
  ℕ, zero, suc, ◌+◌, ◌≤◌, ◌≡◌, inl, inr, refl, ap, sym, true, none, some, List, [], ◌∷◌, pos,
  length, arith, ok,
}
use code_guda_gateway.Providers.Names.{validate_provider}
use code_guda_gateway.Providers.KeyTable.{find_row, update}
use code_guda_gateway.Providers.Keys.Display.{DisplayProviderKey, scan_display_key, list_rows, list}
use code_guda_gateway.Providers.QuotaTables.{DetailsJson}
use code_guda_gateway.Providers.Pool.{cooldown_active}
use code_guda_gateway.Providers.Refresh.{
  QuotaClient, answer, World, Times, get_json, send, read_reply,
}
use code_guda_gateway.Providers.Refresh.Accounts.{
  Account, AccountsJson, fetch_accounts, fetch_logged_in,
}
use code_guda_gateway.Providers.Refresh.Endpoint.{parse_tokens, QuotaRefresher, times_at}
use code_guda_gateway.Providers.Refresh.Provider.{refresh_all_keys}
use code_guda_gateway.Providers.Refresh.Routing.{routing}
use code_guda_gateway.Providers.Refresh.Routing.Keys.{refresh_all_keys-routing}
use code_guda_gateway.Providers.Refresh.Outcomes.{IsTallied, refresh_all_keys-IsTallied}
use code_guda_gateway.Providers.Refresh.Pages.{counting, requests, fetch_accounts-requests}
use code_guda_gateway.Providers.Refresh.Pages.Counts.{length-drop}
use code_guda_gateway.Providers.Refresh.Pages.Steps.{
  after_pages, page_after, IsAsked, ServesAccounts,
}
use code_guda_gateway.Providers.Refresh.Pages.Served.{
  CountsAccounts, fetch_logged_in-CountsAccounts,
}
use code_guda_gateway.Examples.World.{repo, decode}
use code_guda_gateway.Secrets.{decrypt}
use code_guda_gateway.Examples.Endpoints.{row, table}

-- A server with one account, which answers every request alike.
abbrev account : Account
account = record {
  enabled = true;
  auth_status = "active";
  quota_windows = record { remaining = pos 3; total = pos 5 } ∷ [];
  billing = none;
  quota = none;
}

abbrev accounts : List Account
accounts = account ∷ []

abbrev client : QuotaClient (Unit {0})
client = record { send = λ request net. (answer 200 (ok "page"), net) }

abbrev accounts_json : AccountsJson
accounts_json = record {
  encode_login = λ user pass. user;
  decode_login = λ body. some "token";
  decode_credential = λ text. none;
  decode_page = λ body. ok (record { items = accounts; total = pos 1 });
}

after_all : (n : ℕ) → length (after_pages (suc n) accounts) ≡ 0
after_all zero = refl
after_all (suc n) = omega (arith, length-drop 100 (after_pages (suc n) accounts), after_all n)

pages_served :
    (n : ℕ)
    → IsAsked n accounts
    → page_after n accounts ≡ record { items = accounts; total = pos 1 }
pages_served zero asked = refl
pages_served (suc n) (inl e) = absurd (omega (arith, e))
pages_served (suc n) (inr more) = absurd (omega (arith, more, after_all n))

serves : ServesAccounts client accounts_json "https://h" "token" accounts
unfolding get_json send read_reply
serves = record {
  answers = λ n w asked. refl;
  pages = λ n w asked. ap ok (sym (pages_served n asked));
}

abbrev times : Times
times = times_at repo 0

abbrev world : World (Unit {0})
world = record { keys = table; net = tt }

fetch_logged_in-CountsAccounts_example :
    CountsAccounts accounts
      (fetch_logged_in repo 0 client accounts_json times "https://h"
        (some 1)
        true
        (ok "token", world)).0
fetch_logged_in-CountsAccounts_example =
    fetch_logged_in-CountsAccounts client accounts_json "https://h" "token" accounts serves repo 0
      times (some 1) true world (omega arith)

-- A server that gives the same accounts on every page, of a million that it declares.
abbrev endless : AccountsJson
endless = record accounts_json {
  decode_page = λ body. ok (record { items = accounts; total = pos 1000000 });
}

fetch_accounts-requests_example :
    requests
      (fetch_accounts repo 0
        (counting client)
        endless
        times
        "https://h"
        "user:pass"
        (some 1)
        true
        (record { keys = table; net = (tt, 0) })).1
    ≤ 0 + 51
fetch_accounts-requests_example =
    fetch_accounts-requests client endless repo 0 times "https://h" "user:pass" (some 1) true
      (record { keys = table; net = (tt, 0) })

abbrev details_json : DetailsJson
details_json = record { marshal = λ ds. some "{}"; unmarshal = λ s. some [] }

abbrev refresher : QuotaRefresher (Unit {0})
refresher = record {
  keys = repo;
  client = client;
  json = record {
    decode_tavily = λ body. none;
    decode_firecrawl = λ body. none;
    decode_tokens = λ body. some (((some (pos 3), some (pos 5)) ∷ []) ∷ []);
    accounts = accounts_json;
    details = details_json;
  };
  parse_stamp = λ stamp. none;
}

refresh_all_keys-routing_example :
    routing (refresh_all_keys refresher 0 "grok" world []).world.keys ≡ routing table
refresh_all_keys-routing_example = refresh_all_keys-routing refresher 0 "grok" world []

abbrev keys : List DisplayProviderKey
keys = scan_display_key (row 1 (some (0 ∷ []))) ∷ scan_display_key (row 2 none) ∷ []

listed : list "grok" table ≡ ok keys
unfolding list list_rows validate_provider
listed = refl

stored : (refresh_all_keys refresher 0 "grok" world []).error ≡ none
unfolding refresh_all_keys validate_provider cooldown_active find_row decrypt decode parse_tokens
    update
stored = refl

refresh_all_keys-IsTallied_example :
    IsTallied (1 ∷ 2 ∷ []) (refresh_all_keys refresher 0 "grok" world []).out
unfolding scan_display_key
refresh_all_keys-IsTallied_example =
    refresh_all_keys-IsTallied refresher 0 "grok" world [] keys listed stored
