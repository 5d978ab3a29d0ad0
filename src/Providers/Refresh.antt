-- ===== src/Providers/Refresh.antt =====
-- internal/providers/quota_refresh.go: the HTTP calls of a quota refresh, the event that it records
-- and the snapshots of its failures. The HTTP client is a parameter over a state of its own. The
-- clock stands still during a refresh.
pub mod Normalize
pub mod Accounts
pub mod Endpoint
pub mod Provider
pub mod Routing
pub mod Outcomes
pub mod Budgets
pub mod Pages
use Prim.Native.String
use Prim.Native.String.{String, slice}
use code_guda_gateway.Prelude.{
  ℕ, ◌*◌, Bool, true, false, ◌||◌, Option, none, some, ◌==◌, ◌=ₜ◌, ltb, leb, if◌then◌else◌, decimal,
  contains_text, Result, ok, err,
}
use code_guda_gateway.Timestamp.{Stamp}
use code_guda_gateway.Providers.Names
use code_guda_gateway.Providers.Settings.{SettingsError}
use code_guda_gateway.Providers.Redact.{redact}
use code_guda_gateway.Providers.KeyTable.{KeyTable}
use code_guda_gateway.Providers.Keys.{KeyRepo}
use code_guda_gateway.Providers.Keys.State.{LastEvent, mark_last_event}
use code_guda_gateway.Providers.QuotaTables.{QuotaCache}

abbrev pub max_quota_response_bytes : ℕ
max_quota_response_bytes = 16777216

-- `body` is a JSON body; every request accepts JSON.
pub record QuotaRequest : Type 0 where
  pub method : String
  pub url : String
  pub authorization : Option String
  pub body : Option String
  pub follows_redirects : Bool

-- A request that could not be made or had no answer, with the error's text; or a status and a body,
-- or the error of reading it.
pub data Reply : Type 0 where
  no_answer : String → Reply
  answer : ℕ → Result String String → Reply

pub record QuotaClient (N : Type 0) : Type 0 where
  pub send : QuotaRequest → N → Reply × N

pub record Fetched : Type 0 where
  pub body : String
  pub status : ℕ
  pub error : Option String

-- What requestHTTP and postJSONWithClient make of an answer.
unfoldable pub read_reply : Reply → Fetched
read_reply (no_answer e) = record { body = ""; status = 0; error = some e }
read_reply (answer status (err e)) = record { body = ""; status = status; error = some e }
read_reply (answer status (ok body)) = record {
  body = slice body 0 max_quota_response_bytes;
  status = status;
  error =
      if ltb status 200 || leb 300 status
      then some (String.◌++◌ "upstream status " (decimal status))
      else none;
}

abbrev bearer_header : String → Option String
bearer_header bearer = if bearer =ₜ "" then none else some (String.◌++◌ "Bearer " bearer)

-- What a refresh changes: the endpoints' table, and the HTTP client's state.
pub record World (N : Type 0) : Type 0 where
  pub keys : KeyTable
  pub net : N

unfoldable pub send : {N : Type 0} → QuotaClient N → QuotaRequest → World N → Fetched × World N
unfolding read_reply
send client request w =
    let (reply, net) = client.send request w.net in (read_reply reply, record w { net = net })

-- getJSON
unfoldable pub get_json :
    {N : Type 0} → QuotaClient N → String → String → World N → Fetched × World N
unfolding send
get_json client url bearer = send client (record {
  method = "GET";
  url = url;
  authorization = bearer_header bearer;
  body = none;
  follows_redirects = true;
})

-- postJSON, and postJSONNoRedirect
unfoldable pub post_json :
    {N : Type 0} → QuotaClient N → Bool → String → String → String → World N → Fetched × World N
unfolding send
post_json client follows_redirects url bearer body = send client (record {
  method = "POST";
  url = url;
  authorization = bearer_header bearer;
  body = some body;
  follows_redirects = follows_redirects;
})

-- The error of a call, with its status.
abbrev event_of : KeyRepo → ℕ → Option String → LastEvent
event_of repo status none = record {
  source = "quota_refresh";
  status_class = "2xx";
  http_status = none;
  message = "quota refresh ok";
}
event_of repo status (some e) = record {
  source = "quota_refresh";
  status_class = "error";
  http_status = if status == 0 then none else some status;
  message =
      if status == 0
      then "quota refresh failed"
      else redact repo.patterns (String.◌++◌ "quota refresh failed: " e);
}

unfoldable pub record_quota_event :
    {N : Type 0} → KeyRepo → ℕ → ℕ → ℕ → Option String → World N → World N
unfolding mark_last_event
record_quota_event repo now key_id status error w = record w {
  keys = mark_last_event repo now key_id (event_of repo status error) w.keys;
}

-- The event of a call on behalf of an endpoint.
unfoldable pub record_event_of :
    {N : Type 0} → KeyRepo → ℕ → Bool → Option ℕ → ℕ → Option String → World N → World N
unfolding record_quota_event
record_event_of repo now false key_id status error w = w
record_event_of repo now true none status error w = w
record_event_of repo now true (some i) status error w = record_quota_event repo now i status error w

-- The times of a refresh: `checked` and `expires`.
pub record Times : Type 0 where
  pub checked : Stamp
  pub expires : Stamp

unfoldable pub quota_cache_shell : String → String → Times → Option ℕ → QuotaCache
quota_cache_shell provider source times key_id = record {
  provider = provider;
  provider_key_id = key_id;
  source = source;
  available = true;
  used = none;
  limit_value = none;
  remaining = none;
  period_start = none;
  period_end = none;
  checked_at = times.checked;
  expires_at = times.expires;
  message_redacted = none;
  details = none;
}

abbrev pub unavailable : String → String → Times → Option ℕ → String → QuotaCache
unavailable provider source times key_id message = record {
  provider = provider;
  provider_key_id = key_id;
  source = source;
  available = false;
  used = none;
  limit_value = none;
  remaining = none;
  period_start = none;
  period_end = none;
  checked_at = times.checked;
  expires_at = times.expires;
  message_redacted = some message;
  details = none;
}

-- The errors that quotaFailure is given. Of their texts only those that wrap a failed decryption
-- contain "decrypt".
pub data Failure : Type 0 where
  of_keys : Names.Error → Failure
  of_settings : SettingsError → Failure
  bad_credential page_limit : Failure

abbrev failure_message : Failure → String
failure_message (of_keys Names.no_enabled_key) = "no enabled provider key available"
failure_message (of_keys (Names.secret e)) =
    "stored provider key could not be decrypted (check GUDA_MASTER_KEY_PATH)"
failure_message (of_settings SettingsError.seal_failed) =
    "stored provider key could not be decrypted (check GUDA_MASTER_KEY_PATH)"
failure_message _ = "quota refresh failed"

unfoldable pub quota_failure : String → String → Times → Option ℕ → Failure → QuotaCache
quota_failure provider source times key_id e =
    unavailable provider source times key_id (failure_message e)

abbrev http_failure_message : ℕ → String → String
http_failure_message status e =
    if status == 401 || status == 403
    then "credential rejected by upstream"
    else if status == 404
    then "quota endpoint not found"
    else if contains_text e "timeout"
    then "quota refresh timed out"
    else "quota refresh failed"

unfoldable pub quota_http_failure :
    KeyRepo → String → String → Times → Option ℕ → ℕ → String → QuotaCache
quota_http_failure repo provider source times key_id status e =
    unavailable provider source times key_id (redact repo.patterns (http_failure_message status e))

unfoldable pub quota_malformed : String → String → Times → Option ℕ → QuotaCache
quota_malformed provider source times key_id =
    unavailable provider source times key_id "quota response was not understood"
