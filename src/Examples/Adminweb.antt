-- ===== src/Examples/Adminweb.antt =====
-- Runs of the guard of the admin interface and of its handlers of endpoints.
use code_guda_gateway.Prelude.{
  ◌≡◌, ◌≢◌, ◌*◌, arith, refl, true, none, some, [], ok, strip_prefix, trim_space, parse_int,
}
use code_guda_gateway.Timestamp.{second, format}
use code_guda_gateway.Adminauth.Session.{validate_session, validate_csrf, find_session, is_excluded}
use code_guda_gateway.Adminweb.{
  Request, is_writer, handled, provider_endpoints_patch, login, serve_api, api, serve_http,
}
use code_guda_gateway.Adminweb.Guard.{writers_are_guarded}
use code_guda_gateway.Adminweb.Endpoints.{Wiring, Store}
use code_guda_gateway.Adminweb.Handle.{Inputs, handle}
use code_guda_gateway.Adminweb.Refused.{bad_request_changes_nothing}
use code_guda_gateway.Examples.World.{repo}
use code_guda_gateway.Examples.Adminauth.{svc, opened}
use code_guda_gateway.Examples.Endpoints.{table}
use code_guda_gateway.Examples.Pools.{audit_repo, no_events}

abbrev patch_request : Request
patch_request = record {
  method = "PATCH";
  path = "/admin/api/provider-endpoints/1";
  cookie = some "sid";
  csrf_header = "sid:correct-horse-battery";
  csrf_form = "";
}

patch_served : serve_http svc (10 * second) patch_request opened ≡ handled provider_endpoints_patch
unfolding serve_http api serve_api strip_prefix is_excluded validate_session trim_space find_session
    format
patch_served = refl

writes : is_writer provider_endpoints_patch ≡ true
unfolding is_writer
writes = refl

not_login : provider_endpoints_patch ≢ login
not_login p = absurd (ground (arith, p))

writers_are_guarded_example :
    (validate_session svc (10 * second) "sid" opened ≡ ok true)
    × (validate_csrf svc "sid" "sid:correct-horse-battery" opened ≡ ok true)
unfolding trim_space
writers_are_guarded_example =
    writers_are_guarded svc (10 * second) patch_request opened provider_endpoints_patch patch_served
      writes not_login

abbrev wiring : Wiring
wiring = record {
  settings = record {
    urls = repo.urls;
    aead = repo.aead;
    encode_hex = λ bytes. "";
    decode_hex = λ text. none;
    load_location = λ zone. true;
    host_timezone = "UTC";
  };
  keys = repo;
  audit = audit_repo;
  now = 10 * second;
}

abbrev store : Store
store = record {
  keys = table;
  settings = record { settings = []; base_urls = [] };
  audit = no_events;
}

abbrev empty_patch : Inputs
empty_patch = record {
  url = none;
  key = none;
  patch = some (record { enabled = none; base_url = " " });
  enabled = none;
  creation = none;
  quota = none;
  quota_key = none;
  drawn = none;
  quota_drawn = none;
}

patch_refused :
    handle wiring provider_endpoints_patch empty_patch "/admin/api/provider-endpoints/1" store
    ≡ some (400, store)
unfolding handle parse_int strip_prefix trim_space
patch_refused = refl

bad_request_changes_nothing_example : store ≡ store
bad_request_changes_nothing_example =
    bad_request_changes_nothing wiring provider_endpoints_patch empty_patch
      "/admin/api/provider-endpoints/1" store store patch_refused
