-- ===== src/Adminauth/Session.antt =====
-- internal/adminauth/session.go and middleware.go: browser sessions of the admin interface. The
-- random session id is an argument, `none` where the random source fails. Of a cookie the
-- attributes that differ between its two uses are modelled.
use Prim.Native.String
use code_guda_gateway.Prelude.{
  ℕ, ◌+◌, ◌/◌, String, Bool, true, false, not, ◌||◌, Option, none, some, List, [], ◌∷◌, ◌++◌, ◌=ₜ◌,
  ltb, if◌then◌else◌, trim_space, Result, ok, err, ◌>>=◌, ◌>>◌, require, or_fail, is_some, ℤ, pos,
  negsuc,
}
use code_guda_gateway.Timestamp.{format, second}
use code_guda_gateway.Adminauth.{
  Service, Tables, SessionRow, Error, invalid_token, session_invalid, random_failed, bad_expiry,
  session_taken, verify,
}

pub record Cookie : Type 0 where
  pub value : String
  pub secure : Bool
  pub expires : ℕ
  pub max_age : ℤ

pub record LoginResult : Type 0 where
  pub session_id : String
  pub csrf_token : String
  pub cookie : Cookie

unfoldable pub find_session : String → List SessionRow → Option SessionRow
find_session sid [] = none
find_session sid (x ∷ xs) = if x.id =ₜ sid then some x else find_session sid xs

unfoldable pub delete_session : String → List SessionRow → List SessionRow
delete_session sid [] = []
delete_session sid (x ∷ xs) =
    if x.id =ₜ sid then delete_session sid xs else x ∷ delete_session sid xs

-- SessionIDFromRequest, of the cookie's value.
abbrev pub session_id_from_request : Option String → String
session_id_from_request none = ""
session_id_from_request (some value) = trim_space value

unfoldable pub is_excluded : String → List String → Bool
is_excluded path [] = false
is_excluded path (p ∷ ps) = p =ₜ path || is_excluded path ps

-- What Middleware answers itself, `none` where it calls the next handler.
abbrev pub answer_of : Result Error Bool → Option ℕ
answer_of (ok true) = none
answer_of (ok false) = some 401
answer_of (err session_invalid) = some 401
answer_of (err e) = some 500

module _ (s : Service) where
  unfoldable pub csrf_token_for_session : String → String → String
  csrf_token_for_session sid token_hash =
      s.sha256_hex (String.◌++◌ sid (String.◌++◌ ":" token_hash))

  abbrev pub session_of : ℕ → String → String → SessionRow
  session_of now sid raw = record {
    id = sid;
    token_hash = s.sha256_hex raw;
    csrf_token_hash = s.sha256_hex (csrf_token_for_session sid (s.sha256_hex raw));
    created_at = format s.calendar now;
    expires_at = format s.calendar (now + s.session_ttl);
  }

  -- Login; the id is the table's primary key.
  unfoldable pub login : ℕ → Option String → String → Tables → Result Error (LoginResult × Tables)
  login now random raw t = do
    require (verify s raw t) invalid_token
    sid ← or_fail random random_failed
    require (not (is_some (find_session sid t.sessions))) session_taken
    ok (
      record {
        session_id = sid;
        csrf_token = csrf_token_for_session sid (s.sha256_hex raw);
        cookie = record {
          value = sid;
          secure = s.cookie_secure;
          expires = now + s.session_ttl;
          max_age = pos (s.session_ttl / second);
        };
      },
      record t { sessions = t.sessions ++ session_of now sid raw ∷ [] },
    )

  unfoldable pub validate_session : ℕ → String → Tables → Result Error Bool
  validate_session now sid t = do
    require (not (sid =ₜ "")) session_invalid
    row ← or_fail (find_session sid t.sessions) session_invalid
    expires ← or_fail (s.parse_time row.expires_at) bad_expiry
    require (not (ltb expires now)) session_invalid
    ok true

  unfoldable pub csrf_token : ℕ → String → Tables → Result Error String
  csrf_token now sid t = do
    valid ← validate_session now sid t
    require valid session_invalid
    row ← or_fail (find_session sid t.sessions) session_invalid
    ok (csrf_token_for_session sid row.token_hash)

  unfoldable pub validate_csrf : String → String → Tables → Result Error Bool
  validate_csrf sid token t = do
    require (not (sid =ₜ "" || token =ₜ "")) session_invalid
    row ← or_fail (find_session sid t.sessions) session_invalid
    require (not (row.csrf_token_hash =ₜ "")) session_invalid
    ok (row.csrf_token_hash =ₜ s.sha256_hex token)

  -- Logout, with the cookie that clears the browser's.
  unfoldable pub logout : String → Tables → Cookie × Tables
  logout sid t = (
    record { value = ""; secure = s.cookie_secure; expires = 0; max_age = negsuc 0 },
    if sid =ₜ "" then t else record t { sessions = delete_session sid t.sessions },
  )

  unfoldable pub middleware : List String → ℕ → String → Option String → Tables → Option ℕ
  middleware excluded now path cookie t =
      if is_excluded path excluded
      then none
      else answer_of (validate_session now (session_id_from_request cookie) t)
