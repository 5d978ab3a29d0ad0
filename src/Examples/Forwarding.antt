-- ===== src/Examples/Forwarding.antt =====
-- Runs of the proxy over a state that counts the requests sent.

use code_guda_gateway.Prelude.{
  pos, ℕ, ◌+◌, ◌≤◌, ◌≡◌, ◌≢◌, refl, none, some, [], ◌∷◌, arith, ok, trim_space, strip_prefix,
}
use code_guda_gateway.Cooldown.{default_settings}
use code_guda_gateway.Providers.Endpoints.{
  normalize_base_url, check_base_url, trim_right_slashes, trim_left_slashes, join_endpoint_url,
}
use code_guda_gateway.Providers.Keys.{SelectedEndpoint}
use code_guda_gateway.Proxy.Headers.{
  Request, Target, Upstream, header_values, header_set, header_del, upstream_request,
  upstream_request_authorization,
}
use code_guda_gateway.Proxy.Classify.{client_response-status}
use code_guda_gateway.Proxy.Forward.{set_cooldown_settings, Proxy, Answer, forward, max_attempts_of}
use code_guda_gateway.Proxy.Outcome.{
  AnswersSatisfy, IsSound, with_body, forward-IsSound, forward-hides-plan_limit,
}
use code_guda_gateway.Proxy.Attempts.{CountsSends, forward-sends-le}
use code_guda_gateway.Examples.World.{calendar, urls}

abbrev endpoint : SelectedEndpoint
endpoint = record { id = 1; provider = "tavily"; name = "a"; base_url = "https://h"; api_key = "k" }

abbrev pub limited : Answer
limited = record { status = 432; header = []; body = some "limit" }

-- Every request is answered with Tavily's plan limit.
abbrev pub proxy : Proxy ℕ
proxy = set_cooldown_settings default_settings (record {
  keys = record {
    select_endpoint = λ provider s. (ok endpoint, s);
    mark_success = λ i s. s;
    mark_failure_with_cooldown = λ i status msg until reason s. s;
  };
  client = record { send = λ up s. (some limited, s + 1) };
  attempts = none;
  settings = record {
    rate_limit = pos 0;
    transient = pos 0;
    credential = pos 0;
    max_retries = pos 0;
  };
  calendar = calendar;
  urls = urls;
  decoder = record { error_payload = λ b. none; detail_error = λ b. none; to_lower = λ s. s };
  parse_time = λ s. none;
})

abbrev pub request : Request
request = record {
  method = "POST";
  path = "/tavily/search";
  raw_query = "q=1";
  header = ("Authorization", "Bearer gsk_x") ∷ ("Accept", "json") ∷ [];
  body = some "{}";
}

abbrev target : Target
target = record { path = "/search"; provider = "tavily" }

abbrev sent : Upstream
sent = record {
  method = "POST";
  url = "https://h/search";
  header = ("Authorization", "Bearer k") ∷ ("Accept", "json") ∷ [];
  body = "{}";
}

builds : upstream_request urls request target endpoint "{}" ≡ ok sent
unfolding upstream_request header_set header_del join_endpoint_url normalize_base_url check_base_url
    trim_right_slashes trim_left_slashes trim_space strip_prefix
builds = refl

upstream_request_authorization_example :
    (sent.method ≡ request.method)
    × (sent.body ≡ "{}")
    × (join_endpoint_url urls "https://h" "/search" "q=1" ≡ ok "https://h/search")
    × (header_values "Authorization" sent.header ≡ "Bearer k" ∷ [])
upstream_request_authorization_example =
    upstream_request_authorization urls request target endpoint "{}" "Authorization" builds

never_432 : AnswersSatisfy proxy "tavily" (λ resp. resp.status ≢ 432)
never_432 up s a text h read = client_response-status (with_body a text)

forward-IsSound_example :
    IsSound (λ resp. resp.status ≢ 432) (forward proxy "id" 0 request target 0).0
forward-IsSound_example =
    forward-IsSound proxy (λ resp. resp.status ≢ 432) "id" 0 request target 0 never_432

forward-hides-plan_limit_example :
    (forward proxy "id" 0 request
      (record { path = "/search"; provider = "tavily" })
      0).0.written.status
    ≢ 432
forward-hides-plan_limit_example = forward-hides-plan_limit proxy "id" 0 request "/search" 0

counts : CountsSends proxy (λ s. s)
counts = record {
  recorded = λ r row s e. cc;
  sent = λ up s. omega arith;
  selected = λ provider s. omega arith;
  succeeded = λ i s. omega arith;
  failed = λ i status msg until reason s. omega arith;
}

forward-sends-le_example :
    (forward proxy "id" 0 request target 0).1 ≤ 0 + max_attempts_of default_settings
forward-sends-le_example = forward-sends-le proxy (λ s. s) "id" 0 request target 0 counts
