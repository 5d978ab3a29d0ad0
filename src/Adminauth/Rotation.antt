-- ===== src/Adminauth/Rotation.antt =====
-- The rotation of the admin token.
use code_guda_gateway.Prelude.{
  ℕ, ◌≡◌, refl, inl, inr, String, false, Option, some, List, [], ◌∷◌, ◌=ₜ◌, trim_space, ok, err,
  arith, Option-cases,
}
use code_guda_gateway.Timestamp.{format}
use code_guda_gateway.Idgen.{random_base62}
use code_guda_gateway.Adminauth.{
  Service, Tables, AdminToken, session_invalid, verify, rotate, replace_admin_token, display_prefix,
  last_token,
}
use code_guda_gateway.Adminauth.Session.{
  validate_session, find_session, middleware, is_excluded, session_id_from_request,
}

rotate-hash :
    (s : Service) (now : ℕ) (bytes : List ℕ) (t : Tables) (x : AdminToken) (raw : String)
    (t' : Tables)
    → t.tokens ≡ x ∷ []
    → rotate s now bytes t ≡ ok (raw, t')
    → (t'.sessions ≡ [])
      × (y : AdminToken) × (t'.tokens ≡ y ∷ [])
      × (y.token_hash ≡ s.sha256_hex raw)
unfolding rotate replace_admin_token
rotate-hash s now bytes t x raw t' one h = elim (Option-cases (random_base62 bytes 32)) [
  | inl out ↦ absurd (ground (arith, out, h))
  | inr (suffix, drawn) ↦ (
    ground (arith, drawn, h, one),
    record x {
      token_hash = s.sha256_hex raw;
      key_prefix = display_prefix raw;
      rotated_at = some (format s.calendar now);
    },
    ground (arith, drawn, h, one),
    refl,
  )
]

validate_session-empty :
    (s : Service) (later : ℕ) (sid : String) (t : Tables)
    → t.sessions ≡ []
    → validate_session s later sid t ≡ err session_invalid
unfolding validate_session find_session
validate_session-empty s later sid t e = ground (arith, e)

-- A rotation of the one admin token ends every session, at every later time: the middleware answers
-- 401 to each request for a path that is not excluded. No text with another hash than the new
-- token's is verified any more.
pub rotate_ends_sessions :
    (s : Service) (now : ℕ) (bytes : List ℕ) (t : Tables) (x : AdminToken) (raw : String)
    (t' : Tables) (later : ℕ) (cookie : Option String) (path : String) (excluded : List String)
    (old : String)
    → t.tokens ≡ x ∷ []
    → rotate s now bytes t ≡ ok (raw, t')
    → is_excluded path excluded ≡ false
    → (s.sha256_hex raw =ₜ s.sha256_hex (trim_space old)) ≡ false
    → (middleware s excluded later path cookie t' ≡ some 401) × (verify s old t' ≡ false)
unfolding middleware verify last_token
rotate_ends_sessions s now bytes t x raw t' later cookie path excluded old one h listed differs =
    let (none_left, y, tokens, hash) = rotate-hash s now bytes t x raw t' one h in
    (
      ground (
        arith,
        listed,
        validate_session-empty s later (session_id_from_request cookie) t' none_left,
      ),
      ground (arith, tokens, hash, differs),
    )
