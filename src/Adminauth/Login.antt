-- ===== src/Adminauth/Login.antt =====
-- A session from its login on.
use code_guda_gateway.Prelude.{
  ℕ, ◌+◌, ◌≤◌, ◌≡◌, refl, subst, inl, inr, String, true, false, Option, none, some, List, [], ◌∷◌,
  ◌++◌, ◌=ₜ◌, ok, arith, eq_iff, Option-cases, ◌↔◌,
}
use code_guda_gateway.Timestamp.{format}
use code_guda_gateway.Adminauth.{Service, Tables, SessionRow, verify}
use code_guda_gateway.Adminauth.Session.{
  LoginResult, find_session, login, session_of, validate_session, csrf_token_for_session,
  csrf_token, validate_csrf,
}

find_session-append :
    (sid : String) (xs : List SessionRow) (x : SessionRow)
    → find_session sid xs ≡ none
    → x.id ≡ sid
    → find_session sid (xs ++ x ∷ []) ≡ some x
unfolding find_session
find_session-append sid [] x n e = ground (arith, eq_iff x.id sid)
find_session-append sid (y ∷ xs) x n e = ground (arith, find_session-append sid xs x)

-- What a login leaves: the session's row under the id that it returns.
pub record IsLogin (s : Service) (now : ℕ) (raw : String) (t t' : Tables) (r : LoginResult)
    : Type 0 where
  pub verified : verify s raw t ≡ true
  pub stored : find_session r.session_id t'.sessions ≡ some (session_of s now r.session_id raw)
  pub csrf : r.csrf_token ≡ csrf_token_for_session s r.session_id (s.sha256_hex raw)

login-IsLogin :
    (s : Service) (now : ℕ) (random : Option String) (raw : String) (t t' : Tables)
    (r : LoginResult)
    → login s now random raw t ≡ ok (r, t')
    → IsLogin s now raw t t' r
unfolding login
login-IsLogin s now random raw t t' r h = elim (Option-cases random) [
  | inl out ↦ absurd (ground (arith, out, h))
  | inr (sid, drawn) ↦
      let same : sid ≡ r.session_id = ground (arith, drawn, h) in
      let free : find_session sid t.sessions ≡ none = ground (arith, drawn, h) in
      let rows : t.sessions ++ session_of s now sid raw ∷ [] ≡ t'.sessions =
        ground (arith, drawn, h) in
      record {
        verified = ground (arith, h);
        stored =
            subst (λ i. find_session i t'.sessions ≡ some (session_of s now i raw)) same
              (subst (λ xs. find_session sid xs ≡ some (session_of s now sid raw)) rows
                (find_session-append sid t.sessions (session_of s now sid raw) free refl));
        csrf = ground (arith, drawn, h, same);
      }
]

module _ (s : Service) (now : ℕ) (random : Option String) (raw : String) (t t' : Tables)
    (r : LoginResult) where
  -- A login by a token that is verified opens a session that is valid up to the last instant of its
  -- lifetime and at none after it, where time.Parse reads what Format wrote; during it the session's
  -- CSRF token is the one that the login returned.
  pub login_session :
      (later : ℕ)
      → login s now random raw t ≡ ok (r, t')
      → (r.session_id =ₜ "") ≡ false
      → s.parse_time (format s.calendar (now + s.session_ttl)) ≡ some (now + s.session_ttl)
      → (verify s raw t ≡ true)
        × (validate_session s later r.session_id t' ≡ ok true ↔ later ≤ now + s.session_ttl)
        × (csrf_token s later r.session_id t' ≡ ok r.csrf_token ↔ later ≤ now + s.session_ttl)
  unfolding validate_session csrf_token
  login_session later h named parsed =
      let l = login-IsLogin s now random raw t t' r h in
      (
        l.verified,
        (
          (λ v. ground (arith, v, named, l.stored, parsed)),
          λ early. ground (arith, named, l.stored, parsed),
        ),
        (
          (λ v. ground (arith, v, named, l.stored, parsed)),
          λ early. ground (arith, named, l.stored, parsed, l.csrf),
        ),
      )

  -- Of that session exactly the texts with the hash of its CSRF token are accepted as one.
  pub login_csrf :
      (token : String)
      → login s now random raw t ≡ ok (r, t')
      → (r.session_id =ₜ "") ≡ false
      → (token =ₜ "") ≡ false
      → (s.sha256_hex r.csrf_token =ₜ "") ≡ false
      → validate_csrf s r.session_id token t' ≡ ok (s.sha256_hex r.csrf_token =ₜ s.sha256_hex token)
  unfolding validate_csrf
  login_csrf token h named given hashed =
      let l = login-IsLogin s now random raw t t' r h in
      ground (arith, named, given, l.stored, l.csrf, hashed)
