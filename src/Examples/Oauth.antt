-- ===== src/Examples/Oauth.antt =====
-- Runs of the token endpoint: an authorization code, its refresh token, and a second use of each.

use code_guda_gateway.Prelude.{
  ℕ, zero, suc, ◌+◌, ◌*◌, ◌≡◌, refl, String, true, false, Option, none, some, List, [], ◌∷◌, ok,
  err, trim_space, fields, join_spaced, split_word,
}
use code_guda_gateway.Timestamp.{Stamp, second, format}
use code_guda_gateway.Idgen.{random_base62, base62_char}
use code_guda_gateway.GatewayKeys.{
  Service, KeyRow, DisplayKey, new_row, insert, insert_key_details, find_hash, lookup, update,
  disable,
}
use code_guda_gateway.Oauth.Scope.{has_scope, has_word, normalize_scope, all_known, scopes_out}
use code_guda_gateway.Oauth.Tables.{
  Server, Code, Grant, Store, Tokens, invalid_grant, refreshed_of, insert_grant, find_client,
  find_code, delete_code, find_grant, find_grant_of_key, delete_grant, count_grant, find_refreshed,
}
use code_guda_gateway.Oauth.Exchange.{CodeForm, exchange, is_complete, check_code, issue, mint}
use code_guda_gateway.Oauth.Refresh.{refresh, find_key, rotate, check_grant, is_before}
use code_guda_gateway.Oauth.Linked.{IsLinked}
use code_guda_gateway.Oauth.Once.{refreshes, run, run-IsLinked, code_is_single_use}
use code_guda_gateway.Oauth.Conditions.{IsChecked, exchange_conditions}
use code_guda_gateway.Oauth.Replay.{Avoids, replay_revokes_successor}
use code_guda_gateway.Examples.World.{calendar}

abbrev svc : Service
svc = record { calendar = calendar; sha256_hex = λ s. s }

-- The whole second that a text starts with.
abbrev parsed : Stamp → Option ℕ
parsed [] = none
parsed (n ∷ rest) = some (n * second)

abbrev token_text : List ℕ → String
token_text [] = "first"
token_text (n ∷ ns) = "second"

abbrev pub o : Server
o = record {
  issuer = "https://g";
  service = svc;
  parse_time = parsed;
  challenge = λ s. s;
  base64 = token_text;
}

abbrev draws : ℕ → ℕ → List ℕ
draws zero n = []
draws (suc k) n = n ∷ draws k n

abbrev code : Code
code = record {
  code_hash = "c";
  client_id = "app";
  redirect_uri = "http://localhost/cb";
  code_challenge = "v";
  code_challenge_method = "S256";
  expires_at = 100 ∷ [];
  issued_via = "operator";
  agent_label = "laptop";
  ref_code_id = none;
  resource = "https://g/mcp";
  scope = "mcp offline_access";
}

abbrev form : CodeForm
form = record {
  code = "c";
  redirect_uri = "http://localhost/cb";
  client_id = "app";
  code_verifier = "v";
}

abbrev other_row : KeyRow
other_row =
    new_row svc (5 * second) 1 "gsk_BBBBBBBBBBBBBBBBBBBBBBBBBBBBBBBB" "desk" false "operator" "desk"
      none

abbrev pub start : Store
start = record {
  keys = record { rows = other_row ∷ []; next_id = 2 };
  clients = [];
  codes = code ∷ [];
  grants = [];
  history = [];
}

abbrev now : ℕ
now = 10 * second

abbrev first_key : String
first_key = "gsk_AAAAAAAAAAAAAAAAAAAAAAAAAAAAAAAA"

abbrev tokens : Tokens
tokens = record {
  access_token = first_key;
  refresh_token = some "first";
  scope = "mcp offline_access";
}

abbrev exchanged : Store
exchanged = (exchange o now (draws 32 0) (some []) form start).1

complete : is_complete form ≡ true
unfolding is_complete
complete = refl

code_is_single_use_example :
    exchange o
      (now + second)
      (draws 32 0)
      none
      form
      (run o (refreshes now (draws 32 1) none "first" "app" ∷ []) exchanged)
    ≡ (
      err (invalid_grant "invalid or expired code"),
      run o (refreshes now (draws 32 1) none "first" "app" ∷ []) exchanged,
    )
code_is_single_use_example =
    code_is_single_use o now (now + second) (draws 32 0) (draws 32 0) (some []) none form form
      (refreshes now (draws 32 1) none "first" "app" ∷ []) start complete complete refl

exchanges : exchange o now (draws 32 0) (some []) form start ≡ (ok tokens, exchanged)
unfolding exchange is_complete check_code mint issue insert_key_details random_base62 base62_char
    find_client find_code delete_code insert_grant find_grant find_grant_of_key find_refreshed
    has_scope has_word fields split_word trim_space
exchanges = refl

unseen : find_hash first_key start.keys.rows ≡ none
unfolding find_hash
unseen = refl

exchange_conditions_example :
    (row : Code) × (find_code "c" start.codes ≡ some row)
    × IsChecked o now form row
    × (tokens.scope ≡ row.scope)
    × ((d : DisplayKey) × (lookup svc first_key exchanged.keys ≡ ok (some d))
        × (d.oauth_owned ≡ true))
exchange_conditions_example =
    exchange_conditions o now (draws 32 0) (some []) form start exchanged tokens exchanges unseen

abbrev grant : Grant
grant = record {
  refresh_hash = "first";
  gateway_key_id = 2;
  client_id = "app";
  access_expires_at = format calendar (now + 7200 * second);
  refresh_expires_at = format calendar (now + 1209600 * second);
  resource = "https://g/mcp";
  scope = "mcp offline_access";
  family_id = "first";
}

abbrev store_of_first : Store
store_of_first = record {
  keys =
      insert start.keys (new_row svc now 2 first_key "oauth:laptop" true "operator" "laptop" none);
  clients = [];
  codes = [];
  grants = grant ∷ [];
  history = refreshed_of grant ∷ [];
}

first-IsLinked : IsLinked store_of_first
unfolding find_refreshed
first-IsLinked = (refl, tt)

found_first : find_grant "first" store_of_first.grants ≡ some grant
unfolding find_grant
found_first = refl

abbrev third_key : String
third_key = "gsk_CCCCCCCCCCCCCCCCCCCCCCCCCCCCCCCC"

abbrev refreshed : Store
refreshed = (refresh o (now + second) (draws 32 2) (some (0 ∷ [])) "first" "app" store_of_first).1

abbrev new_tokens : Tokens
new_tokens = record {
  access_token = third_key;
  refresh_token = some "second";
  scope = "mcp offline_access";
}

abbrev second_grant : Grant
second_grant = record grant {
  refresh_hash = "second";
  gateway_key_id = 3;
  access_expires_at = format calendar (now + 7201 * second);
}

refreshes_first :
    refresh o (now + second) (draws 32 2) (some (0 ∷ [])) "first" "app" store_of_first
    ≡ (ok new_tokens, refreshed)
unfolding refresh rotate check_grant find_key issue insert_key_details random_base62 base62_char
    insert_grant find_grant find_grant_of_key find_refreshed delete_grant count_grant has_scope
    has_word fields split_word trim_space disable update format
refreshes_first = refl

-- The second grant stands in the table in place of the first, and is told of.
run-IsLinked_example : IsLinked (
    run o (refreshes (now + second) (draws 32 2) (some (0 ∷ [])) "first" "app" ∷ []) store_of_first)
run-IsLinked_example =
    run-IsLinked o (refreshes (now + second) (draws 32 2) (some (0 ∷ [])) "first" "app" ∷ [])
      store_of_first first-IsLinked

grants_replaced : (refreshed.grants ≡ second_grant ∷ [])
unfolding refresh rotate check_grant find_key issue insert_key_details random_base62 base62_char
    insert_grant find_grant find_grant_of_key find_refreshed delete_grant count_grant has_scope
    has_word fields split_word trim_space disable update format
grants_replaced = refl

unseen_third : find_hash third_key store_of_first.keys.rows ≡ none
unfolding find_hash
unseen_third = refl

before_last : is_before (now + 2 * second) (parsed grant.refresh_expires_at) ≡ true
unfolding format
before_last = refl

replay_revokes_successor_example :
    (d : DisplayKey) × (lookup svc third_key refreshed.keys ≡ ok (some d))
    × ((refresh o (now + 2 * second) (draws 32 0) none "first" "app" refreshed).0
        ≡ err (invalid_grant "invalid refresh token"))
    × Avoids d.id (
        lookup svc third_key
          (refresh o (now + 2 * second) (draws 32 0) none "first" "app" refreshed).1.keys)
replay_revokes_successor_example =
    replay_revokes_successor o (now + second) (now + 2 * second) (draws 32 2) (draws 32 0)
      (some (0 ∷ [])) none "first" "app" "app" third_key store_of_first refreshed grant new_tokens
      first-IsLinked found_first refreshes_first unseen_third before_last

normal_scope : normalize_scope "config:write  mcp" ≡ some "mcp config:write"
unfolding normalize_scope has_scope has_word all_known scopes_out fields split_word join_spaced
    trim_space
normal_scope = refl
