-- ===== src/Examples/Adminauth.antt =====
-- Runs of the admin token and its sessions.

use code_guda_gateway.Prelude.{
  ℕ, zero, suc, ◌+◌, ◌*◌, ◌≤◌, ◌≡◌, refl, String, true, false, Option, none, some, List, [], ◌∷◌,
  ok, ◌=ₜ◌, trim_space, strip_prefix, ◌↔◌, pos,
}
use code_guda_gateway.Timestamp.{Stamp, second, format}
use code_guda_gateway.Idgen.{random_base62, base62_char}
use code_guda_gateway.Adminauth.{
  Service, Tables, AdminToken, verify, valid_admin_secret, all_printable, display_prefix,
  last_token, rotate, replace_admin_token,
}
use code_guda_gateway.Adminauth.Session.{
  LoginResult, login, find_session, csrf_token_for_session, validate_session, csrf_token,
  middleware, is_excluded,
}
use code_guda_gateway.Adminauth.Login.{login_session}
use code_guda_gateway.Adminauth.Rotation.{rotate_ends_sessions}
use code_guda_gateway.Examples.World.{calendar}

abbrev parsed : Stamp → Option ℕ
parsed [] = none
parsed (n ∷ rest) = some (n * second)

abbrev pub svc : Service
svc = record {
  calendar = calendar;
  sha256_hex = λ s. s;
  parse_time = parsed;
  session_ttl = 3600 * second;
  cookie_secure = true;
}

abbrev plain_secret : String
plain_secret = "correct-horse-battery"

abbrev row : AdminToken
row = record {
  id = 1;
  token_hash = plain_secret;
  key_prefix = "correct-";
  created_at = format calendar (5 * second);
  rotated_at = none;
}

abbrev tables : Tables
tables = record { tokens = row ∷ []; next_id = 2; sessions = [] }

abbrev result : LoginResult
result = record {
  session_id = "sid";
  csrf_token = "sid:correct-horse-battery";
  cookie = record { value = "sid"; secure = true; expires = 3610 * second; max_age = pos 3600 };
}

abbrev pub opened : Tables
opened = record tables {
  sessions =
      record {
        id = "sid";
        token_hash = plain_secret;
        csrf_token_hash = "sid:correct-horse-battery";
        created_at = format calendar (10 * second);
        expires_at = format calendar (3610 * second);
      }
      ∷ [];
}

logs_in : login svc (10 * second) (some "sid") plain_secret tables ≡ ok (result, opened)
unfolding login verify valid_admin_secret all_printable trim_space strip_prefix last_token
    find_session csrf_token_for_session
logs_in = refl

reads_end :
    parsed (format calendar (10 * second + 3600 * second)) ≡ some (10 * second + 3600 * second)
unfolding format
reads_end = refl

login_session_example :
    (verify svc plain_secret tables ≡ true)
    × (validate_session svc (3000 * second) "sid" opened ≡ ok true ↔ 3000 * second ≤ 3610 * second)
    × (csrf_token svc (3000 * second) "sid" opened ≡ ok "sid:correct-horse-battery"
        ↔ 3000 * second ≤ 3610 * second)
login_session_example =
    login_session svc (10 * second) (some "sid") plain_secret tables opened result (3000 * second)
      logs_in refl reads_end

abbrev draws : ℕ → List ℕ
draws zero = []
draws (suc n) = 0 ∷ draws n

abbrev new_secret : String
new_secret = "gat_AAAAAAAAAAAAAAAAAAAAAAAAAAAAAAAA"

abbrev rotated : Tables
rotated = record opened {
  tokens =
      record row {
        token_hash = new_secret;
        key_prefix = "gat_AAAA";
        rotated_at = some (format calendar (20 * second));
      }
      ∷ [];
  sessions = [];
}

rotates : rotate svc (20 * second) (draws 32) opened ≡ ok (new_secret, rotated)
unfolding rotate replace_admin_token random_base62 base62_char display_prefix
rotates = refl

not_listed : is_excluded "/admin/api/keys" ("/admin/login" ∷ []) ≡ false
unfolding is_excluded
not_listed = refl

other_hash : (new_secret =ₜ trim_space plain_secret) ≡ false
unfolding trim_space
other_hash = refl

rotate_ends_sessions_example :
    (middleware svc ("/admin/login" ∷ []) (30 * second) "/admin/api/keys" (some "sid") rotated
      ≡ some 401)
    × (verify svc plain_secret rotated ≡ false)
rotate_ends_sessions_example =
    rotate_ends_sessions svc (20 * second) (draws 32) opened row new_secret rotated (30 * second)
      (some "sid") "/admin/api/keys" ("/admin/login" ∷ []) plain_secret refl rotates not_listed
      other_hash
