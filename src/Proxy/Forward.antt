-- ===== src/Proxy/Forward.antt =====
-- `Forward` of internal/proxy/proxy.go over a state `S`, which holds what the selector, the HTTP
-- client and the recorder change. One round of the loop is `attempt`; the loop runs on the count of
-- rounds left, and `attempt + left` is the count of rounds throughout.
use code_guda_gateway.Prelude.{
  ℕ, zero, suc, ◌+◌, String, Bool, true, false, not, ◌||◌, Option, none, some, [], ◌==◌, leb, ◌=ₜ◌,
  if◌then◌else◌, ℤ, pos, pos_part, leb_int, trim_space, Result, ok, err,
}
use mathlib.Core.Option
use code_guda_gateway.Timestamp.{Calendar, Stamp, format, add_time}
use code_guda_gateway.Cooldown.{
  Settings, Policy, default_max_retries, default_transient_cooldown, parse_retry_after,
  should_mark_success,
}
use code_guda_gateway.Providers.Names.{Error, no_enabled_key}
use code_guda_gateway.Providers.Endpoints.{Urls}
use code_guda_gateway.Providers.Keys.{SelectedEndpoint}
use code_guda_gateway.Usage.{
  route_family_from_path, status_class_from_http, status_class_from_network_error,
}
use code_guda_gateway.Proxy.Headers.{
  Header, Request, Target, Upstream, header_get, upstream_request,
}
use code_guda_gateway.Proxy.Classify.{
  Decoder, Response, applied_policy, client_response, tavily_attempt_diagnostic,
}

-- The interface KeySelector, which the server always passes; what it returns as an error of a mark is ignored by the proxy.
pub record KeySelector (S : Type 0) : Type 0 where
  pub select_endpoint : String → S → Result Error SelectedEndpoint × S
  pub mark_success : ℕ → S → S
  pub mark_failure_with_cooldown : ℕ → ℕ → String → Option ℕ → Option String → S → S

-- An answer whose body may turn out unreadable.
pub record Answer : Type 0 where
  pub status : ℕ
  pub header : Header
  pub body : Option String

-- http.Client.Do: `none` is a network error.
pub record HttpClient (S : Type 0) : Type 0 where
  pub send : Upstream → S → Option Answer × S

-- A row of the attempt log; the fields that the proxy leaves empty are left out.
pub record AttemptLog : Type 0 where
  pub request_id : String
  pub provider : String
  pub route_family : String
  pub path : String
  pub attempt_index : ℕ
  pub provider_key_id : ℕ
  pub upstream_status : Option ℕ
  pub status_class : String
  pub reason : Option String
  pub cooldown_until : Option Stamp
  pub terminal : Bool
  pub message_redacted : Option String

-- The interface AttemptRecorder; `Record`'s error is ignored.
pub record AttemptRecorder (S : Type 0) : Type 0 where
  pub is_enabled : S → Bool
  pub record_row : AttemptLog → S → S

pub record Proxy (S : Type 0) : Type 0 where
  pub keys : KeySelector S
  pub client : HttpClient S
  pub attempts : Option (AttemptRecorder S)
  pub settings : Settings
  pub calendar : Calendar
  pub urls : Urls
  pub decoder : Decoder
  pub parse_time : String → Option ℕ

-- SetCooldownSettings
abbrev pub set_cooldown_settings : {S : Type 0} → Settings → Proxy S → Proxy S
set_cooldown_settings s p = record p { settings = s }

pub data ForwardError : Type 0 where
  not_configured unread_request base_url_missing request_failed unread_response : ForwardError
  upstream_failed : ForwardError
  selection : Error → ForwardError

-- `status_code` and `network_error` of proxy.Result, with its error.
pub record ForwardResult : Type 0 where
  pub error : Option ForwardError
  pub status_code : ℕ
  pub network_error : Bool

-- What the call writes to the client, and what it returns.
pub record Outcome : Type 0 where
  pub written : Response
  pub result : ForwardResult

-- http.Error with a result that carries an error
abbrev pub refuse : ℕ → String → ForwardError → Outcome
refuse status text e = record {
  written = record { status = status; header = []; body = text };
  result = record { error = some e; status_code = status; network_error = false };
}

abbrev pub reply : Response → Outcome
reply resp = record {
  written = resp;
  result = record { error = none; status_code = resp.status; network_error = false };
}

-- One round ends the call, or leaves the answer to write if no endpoint is left.
pub data Round (S : Type 0) : Type 0 where
  done : Outcome → S → Round S
  again : Response → S → Round S

-- `lastStatus` is 0 before the first answer.
abbrev pub no_answer : Response
no_answer = record { status = 0; header = []; body = "" }

-- What stays the same during one call.
pub record Call : Type 0 where
  pub request : Request
  pub target : Target
  pub body : String
  pub request_id : String
  pub now : ℕ
  pub max_attempts : ℕ
  pub logging : Bool

module _ {S : Type 0} (p : Proxy S) (c : Call) where
  -- recordAttempt
  unfoldable pub record_attempt : AttemptLog → S → S
  record_attempt row s = elim p.attempts [
    | none ↦ s
    | some r ↦ if c.logging then r.record_row row s else s
  ]

  -- The row of one round.
  abbrev pub attempt_row :
      ℕ → SelectedEndpoint → Option ℕ → String → Option String → Option ℕ → Bool → AttemptLog
  attempt_row attempt endpoint status class reason until terminal = record {
    request_id = c.request_id;
    provider = c.target.provider;
    route_family = route_family_from_path c.request.path;
    path = c.request.path;
    attempt_index = attempt + 1;
    provider_key_id = endpoint.id;
    upstream_status = status;
    status_class = class;
    reason = reason;
    cooldown_until = Option.map (format p.calendar) until;
    terminal = terminal;
    message_redacted = none;
  }

  -- The two tests of the source for the last round, which agree below `max_attempts`.
  abbrev pub is_last : ℕ → Bool
  is_last attempt = leb c.max_attempts (attempt + 1)

  -- The round whose request failed on the way.
  unfoldable pub on_network_error : ℕ → SelectedEndpoint → Response → S → Round S
  on_network_error attempt endpoint last s =
      let cool =
        if leb_int p.settings.transient (pos 0)
        then default_transient_cooldown
        else p.settings.transient in
      let until = add_time c.now cool in
      let s₁ =
        p.keys.mark_failure_with_cooldown endpoint.id 0 "network_error" (some until)
          (some "network_error") s in
      let s₂ =
        record_attempt
          (attempt_row attempt endpoint none status_class_from_network_error (some "network_error")
            (some until) (is_last attempt))
          s₁ in
      if is_last attempt
      then done
          (record {
            written = record { status = 502; header = []; body = "upstream request failed" };
            result = record {
              error = some request_failed;
              status_code = 502;
              network_error = true;
            };
          })
          s₂
      else again last s₂

  -- The cooldown of a failed answer: the policy's, or Retry-After's at a 429.
  unfoldable pub cooldown_of : Policy → Response → ℤ
  cooldown_of policy resp =
      if resp.status == 429
      then elim (parse_retry_after p.parse_time (header_get "Retry-After" resp.header) c.now) [
        | none ↦ policy.cooldown_dur
        | some d ↦ d
      ]
      else policy.cooldown_dur

  abbrev pub cooled_until : Policy → Response → Option ℕ
  cooled_until policy resp =
      if policy.apply_cooldown then some (add_time c.now (cooldown_of policy resp)) else none

  abbrev pub reason_of : Policy → Option String
  reason_of policy = if policy.apply_cooldown then some policy.reason else none

  abbrev diagnosed : Option (String × String) → AttemptLog → AttemptLog
  diagnosed none row = row
  diagnosed (some (reason, message)) row = record row {
    reason = some reason;
    message_redacted = some message;
  }

  abbrev with_diagnostic : Response → AttemptLog → AttemptLog
  with_diagnostic resp row =
      if c.logging
      then diagnosed (tavily_attempt_diagnostic p.decoder c.target.provider resp.status resp.body)
          row
      else row

  -- The round whose answer does not count as a success.
  unfoldable pub on_failure : ℕ → SelectedEndpoint → Response → S → Round S
  on_failure attempt endpoint resp s =
      let policy = applied_policy p.decoder c.target.provider resp.status resp.body p.settings in
      let until = cooled_until policy resp in
      let terminal = not policy.retry_across_keys || is_last attempt in
      let s₁ =
        p.keys.mark_failure_with_cooldown endpoint.id resp.status resp.body until (reason_of policy)
          s in
      let s₂ =
        record_attempt
          (with_diagnostic resp (
            attempt_row attempt endpoint (some resp.status) (status_class_from_http resp.status)
              (reason_of policy) until terminal))
          s₁ in
      if terminal
      then done (reply (client_response c.target.provider resp)) s₂
      else again (client_response c.target.provider resp) s₂

  -- The round whose answer is 2xx.
  unfoldable pub on_success : ℕ → SelectedEndpoint → Response → S → Round S
  on_success attempt endpoint resp s = done (reply resp) (
      record_attempt
        (attempt_row attempt endpoint (some resp.status) (status_class_from_http resp.status) none
          none true)
        (p.keys.mark_success endpoint.id s))

  unfoldable pub on_answer : ℕ → SelectedEndpoint → Option Answer → Response → S → Round S
  on_answer attempt endpoint none last s = on_network_error attempt endpoint last s
  on_answer attempt endpoint (some a) last s = elim a.body [
    | none ↦ done (refuse 502 "failed to read upstream response" unread_response) s
    | some text ↦
        let resp : Response = record { status = a.status; header = a.header; body = text } in
        if should_mark_success resp.status
        then on_success attempt endpoint resp s
        else on_failure attempt endpoint resp s
  ]

  -- `do`: an endpoint whose URL cannot be joined counts as a network error.
  unfoldable pub do_request : SelectedEndpoint → S → Option Answer × S
  do_request endpoint s = elim (upstream_request p.urls c.request c.target endpoint c.body) [
    | ok up ↦ p.client.send up s
    | err e ↦ (none, s)
  ]

  unfoldable pub no_endpoint : Error → Response → Outcome
  no_endpoint no_enabled_key last =
      if last.status == 0
      then refuse 502 "upstream API keys are not configured" (selection no_enabled_key)
      else reply last
  no_endpoint e last = refuse 500 "internal error" (selection e)

  unfoldable pub try_endpoint : ℕ → SelectedEndpoint → Response → S → Round S
  try_endpoint attempt endpoint last s =
      if trim_space endpoint.base_url =ₜ ""
      then done (refuse 502 "upstream base URL is not configured" base_url_missing) s
      else (let (answer, s') = do_request endpoint s in on_answer attempt endpoint answer last s')

  abbrev pub with_selected : ℕ → Response → Result Error SelectedEndpoint × S → Round S
  with_selected attempt last (ok endpoint, s) = try_endpoint attempt endpoint last s
  with_selected attempt last (err e, s) = done (no_endpoint e last) s

  unfoldable pub attempt : ℕ → Response → S → Round S
  attempt n last s = with_selected n last (p.keys.select_endpoint c.target.provider s)

  -- What follows the loop.
  abbrev pub after_loop : Response → Outcome
  after_loop last =
      if last.status == 0 then refuse 502 "upstream request failed" upstream_failed else reply last

  -- The loop, with the rounds left and the number of this one.
  unfoldable pub attempts_loop : ℕ → ℕ → Response → S → Outcome × S
  attempts_loop zero n last s = (after_loop last, s)
  attempts_loop (suc left) n last s = elim (attempt n last s) [
    | done o s' ↦ (o, s')
    | again last' s' ↦ attempts_loop left (n + 1) last' s'
  ]

abbrev pub max_attempts_of : Settings → ℕ
max_attempts_of s =
    if leb_int s.max_retries (pos 0) then default_max_retries else pos_part s.max_retries

abbrev pub logging_of : {S : Type 0} → Option (AttemptRecorder S) → S → Bool
logging_of none s = false
logging_of (some r) s = r.is_enabled s

-- `Forward`; `fresh_id` is the request id made from the clock.
unfoldable pub forward : {S : Type 0} → Proxy S → String → ℕ → Request → Target → S → Outcome × S
forward p fresh_id now r target s =
    if trim_space target.provider =ₜ ""
    then (refuse 502 "upstream API keys are not configured" not_configured, s)
    else elim r.body [
      | none ↦ (refuse 400 "failed to read request body" unread_request, s)
      | some body ↦
          let given = header_get "X-Request-ID" r.header in
          let call : Call = (record {
            request = r;
            target = target;
            body = body;
            request_id = if given =ₜ "" then fresh_id else given;
            now = now;
            max_attempts = max_attempts_of p.settings;
            logging = logging_of p.attempts s;
          }) in
          attempts_loop p call (max_attempts_of p.settings) 0 no_answer s
    ]
