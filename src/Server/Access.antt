-- ===== src/Server/Access.antt =====
-- `authorized` and `recordUsage` of internal/server/server.go.
use code_guda_gateway.Prelude.{
  ℕ, String, Option, none, some, List, ◌==◌, if◌then◌else◌, strip_prefix, trim_space, Result, ok,
  err,
}
use code_guda_gateway.GatewayKeys
use code_guda_gateway.GatewayKeys.{Service, DisplayKey, lookup, touch, not_authorized}
use code_guda_gateway.Usage.{
  route_family_from_path, status_class_from_http, status_class_from_network_error,
}
use code_guda_gateway.Usage.Counters
use code_guda_gateway.Usage.Counters.{UsageIncrement, UsageDaily, increment}
use code_guda_gateway.Proxy.Headers.{Request, header_get}
use code_guda_gateway.Proxy.Forward.{ForwardResult}

-- What `authorized` returns: a key with the table in which its use is recorded, no key, or an error.
pub data Access : Type 0 where
  granted : DisplayKey → GatewayKeys.Table → Access
  denied : Access
  failed : Access

abbrev pub access_of :
    Service → ℕ → Result GatewayKeys.Error (Option DisplayKey) → GatewayKeys.Table → Access
access_of svc now (err not_authorized) t = denied
access_of svc now (err e) t = failed
access_of svc now (ok none) t = denied
access_of svc now (ok (some d)) t =
    if d.oauth_owned then denied else granted d (touch svc now d.id t)

-- The text of the Authorization header after "Bearer ".
abbrev pub bearer_of : Request → Option String
bearer_of r = strip_prefix "Bearer " (header_get "Authorization" r.header)

abbrev access_with : Service → ℕ → Option String → GatewayKeys.Table → Access
access_with svc now none t = denied
access_with svc now (some token) t = access_of svc now (lookup svc (trim_space token) t) t

unfoldable pub authorized : Option Service → ℕ → Request → GatewayKeys.Table → Access
authorized none now r t = denied
authorized (some svc) now r t = access_with svc now (bearer_of r) t

-- The status class of a result, `none` where nothing is recorded.
unfoldable pub status_class_of : ForwardResult → Option String
status_class_of res =
    if res.network_error
    then some status_class_from_network_error
    else if res.status_code == 0
    then none
    else some (status_class_from_http res.status_code)

abbrev pub usage_of : DisplayKey → String → String → String → UsageIncrement
usage_of d provider path class = record {
  day = "";
  gateway_key_id = some d.id;
  provider = provider;
  route_family = route_family_from_path path;
  status_class = class;
}

-- An increment that fails is only logged.
abbrev counted : Result Counters.Error (List UsageDaily) → List UsageDaily → List UsageDaily
counted (ok rows) old = rows
counted (err e) old = old

abbrev pub count_class :
    String → DisplayKey → String → String → Option String → List UsageDaily → List UsageDaily
count_class today d provider path none rows = rows
count_class today d provider path (some class) rows =
    counted (increment today (usage_of d provider path class) rows) rows

unfoldable pub record_usage :
    String → DisplayKey → String → String → ForwardResult → List UsageDaily → List UsageDaily
unfolding status_class_of
record_usage today d provider path res rows =
    count_class today d provider path (status_class_of res) rows
