-- ===== src/Examples/Issuance.antt =====
-- A run of the authorization form while public issuance is open.

use code_guda_gateway.Prelude.{
  ◌*◌, ◌≡◌, refl, none, some, [], ◌∷◌, strip_prefix, trim_space, fields,
}
use code_guda_gateway.Timestamp.{second}
use code_guda_gateway.Operatorlogin.Github.{Browser}
use code_guda_gateway.Oauth.Scope.{normalize_scope, has_scope}
use code_guda_gateway.Oauth.Tables.{Client, find_client, find_code}
use code_guda_gateway.Oauth.Token.{valid_resource}
use code_guda_gateway.Oauth.Issuer.{redirect_matches}
use code_guda_gateway.Oauth.Request.{
  Authorizer, Issuance, AuthorizeForm, Draws, redirected, check_form, any_match,
}
use code_guda_gateway.Oauth.Authorize.{permit, authorize_post}
use code_guda_gateway.Oauth.Issuance.{IsAuthorized, authorize_post-IsAuthorized}
use code_guda_gateway.Examples.World.{calendar, urls}
use code_guda_gateway.Examples.Oauth.{o, start}

abbrev a : Authorizer
a = record {
  server = o;
  urls = urls;
  escaped_path = λ u. u.path;
  with_code = λ u code state. code;
  quote = λ s. s;
  scrypt = record { key = λ p s n r q l. none; encode = λ b. ""; decode = λ s. none };
  password_hash = "";
  invites = record { calendar = calendar; parse_time = λ t. none };
  github = none;
  fetch_metadata = λ c. none;
}

abbrev client : Client
client = record { client_id = "app"; client_name = some "App"; redirect_uris = "https://h/cb" ∷ [] }

abbrev issuance : Issuance
issuance = record {
  store = record start { clients = client ∷ [] };
  invites = record { rows = []; next_id = 1 };
  logins = record { config = none; flows = [] };
  public_issuance = some "open";
  operator_hash = none;
}

abbrev form : AuthorizeForm
form = record {
  client_id = "app";
  redirect_uri = "https://h/cb";
  state = "";
  code_challenge = "v";
  code_challenge_method = "S256";
  scope = "";
  resources = [];
  password = "";
  agent_label = "";
  invite = "";
  operator_login = "";
  github_consent = "";
}

abbrev draws : Draws
draws = record {
  code_bytes = some [];
  login_nonce = none;
  fresh = "";
  verifier = "";
  login_state = "";
}

abbrev browser : Browser
browser = record { origin = ""; fetch_site = ""; cookie = none }

abbrev after : Issuance
after = (authorize_post a (10 * second) draws browser form issuance).1

issues : authorize_post a (10 * second) draws browser form issuance ≡ (redirected "first", after)
unfolding authorize_post check_form normalize_scope valid_resource find_client strip_prefix
    any_match redirect_matches permit has_scope find_code trim_space fields
issues = refl

authorize_post-IsAuthorized_example : IsAuthorized a (10 * second) browser form issuance after
authorize_post-IsAuthorized_example =
    authorize_post-IsAuthorized a (10 * second) draws browser form issuance after "first" issues
