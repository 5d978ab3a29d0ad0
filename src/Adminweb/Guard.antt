-- ===== src/Adminweb/Guard.antt =====
-- internal/adminweb/handlers.go: no handler that may change the state runs without a session and its
-- CSRF token, but the login.
use code_guda_gateway.Prelude.{
  ℕ, ◌≡◌, ◌≢◌, refl, sym, subst, ◌∙◌, String, Bool, true, false, not, ◌&&◌, ◌||◌, Option, none,
  some, List, [], ◌∷◌, ◌=ₜ◌, is_some, strip_prefix, eq_iff, arith, ok, Result, err, Bool-cases, inl,
  inr, ◌⊎◌, if◌then◌else◌,
}
use code_guda_gateway.Adminauth.{
  Service, Tables, Error, no_admin_token, invalid_token, token_already_set, session_invalid,
  random_failed, bad_expiry, session_taken,
}
use code_guda_gateway.Adminauth.Session.{
  session_id_from_request, validate_csrf, validate_session, middleware, is_excluded, answer_of,
}
use code_guda_gateway.Adminweb.{
  has_suffix, matches_pattern, Request, Handler, login, handled, static_file, page, refused, Rule,
  api_rules, dispatch, is_writer, is_changing_method, requires_csrf, csrf_of, csrf_answer,
  unless_answered, served_by, Served, serve_api, api, serve_page, serve_http,
}

-- A rule whose handler may change the state is one of a method that is guarded; the rule of the
-- login is the only one with its handler, and has the excluded path.
abbrev guards : Rule → Bool
guards r = not (is_writer r.handler) || is_changing_method r.method

abbrev all_guard : List Rule → Bool
all_guard [] = true
all_guard (r ∷ rs) = guards r && all_guard rs

rules_guard : all_guard api_rules ≡ true
unfolding is_writer
rules_guard = refl

-- The rule is taken, or the next ones decide.
picked :
    (hit same : Bool) (mine : Handler) (rest : Option Handler) (h : Handler)
    → (if hit && same then some mine else rest) ≡ some h
    → ((same ≡ true) × (mine ≡ h)) ⊎ (rest ≡ some h)
picked true true mine rest h found = inl (refl, ground (arith, found))
picked true false mine rest h found = inr found
picked false same mine rest h found = inr found

both : (a b : Bool) → a && b ≡ true → (a ≡ true) × (b ≡ true)
both true b p = (refl, p)
both false b p = absurd (ground (arith, p))

implied : (a b : Bool) → not a || b ≡ true → a ≡ true → b ≡ true
implied true b p q = p
implied false b p q = absurd (ground (arith, q))

dispatch-guards :
    (method path : String) (rs : List Rule) (h : Handler)
    → all_guard rs ≡ true
    → dispatch method path rs ≡ some h
    → is_writer h ≡ true
    → is_changing_method method ≡ true
unfolding dispatch
dispatch-guards method path [] h all found writes = absurd (ground (arith, found))
dispatch-guards method path (r ∷ rs) h all found writes =
    let (first, others) = both (guards r) (all_guard rs) all in
    elim (picked (matches_pattern r.pattern_of path) (method =ₜ r.method) r.handler
      (dispatch method path rs) h found) [
        | inl (same, mine) ↦
            subst (λ m. is_changing_method m ≡ true) (sym ((eq_iff method r.method).0 same))
              (implied (is_writer r.handler) (is_changing_method r.method) first
                (subst (λ x. is_writer x ≡ true) (sym mine) writes))
        | inr later ↦ dispatch-guards method path rs h others later writes
      ]

-- Below the path of the login the dispatch knows the login alone.
dispatch-login :
    (method : String)
    → dispatch method "/admin/api/login" api_rules ≡ (if method =ₜ "POST" then some login else none)
unfolding dispatch has_suffix strip_prefix
dispatch-login method = refl

unless_answered-handled :
    (answer : Option ℕ) (next : Served) (h : Handler)
    → unless_answered answer next ≡ handled h
    → (answer ≡ none) × (next ≡ handled h)
unless_answered-handled none next h went = (refl, went)
unless_answered-handled (some status) next h went = absurd (ground (arith, went))

answer_of-none : (v : Result Error Bool) → answer_of v ≡ none → v ≡ ok true
answer_of-none (ok true) let_through = refl
answer_of-none (ok false) let_through = absurd (ground (arith, let_through))
answer_of-none (err no_admin_token) let_through = absurd (ground (arith, let_through))
answer_of-none (err invalid_token) let_through = absurd (ground (arith, let_through))
answer_of-none (err token_already_set) let_through = absurd (ground (arith, let_through))
answer_of-none (err session_invalid) let_through = absurd (ground (arith, let_through))
answer_of-none (err random_failed) let_through = absurd (ground (arith, let_through))
answer_of-none (err bad_expiry) let_through = absurd (ground (arith, let_through))
answer_of-none (err session_taken) let_through = absurd (ground (arith, let_through))

csrf_answer-none : (v : Result Error Bool) → csrf_answer v ≡ none → v ≡ ok true
csrf_answer-none (ok true) let_through = refl
csrf_answer-none (ok false) let_through = absurd (ground (arith, let_through))
csrf_answer-none (err no_admin_token) let_through = absurd (ground (arith, let_through))
csrf_answer-none (err invalid_token) let_through = absurd (ground (arith, let_through))
csrf_answer-none (err token_already_set) let_through = absurd (ground (arith, let_through))
csrf_answer-none (err session_invalid) let_through = absurd (ground (arith, let_through))
csrf_answer-none (err random_failed) let_through = absurd (ground (arith, let_through))
csrf_answer-none (err bad_expiry) let_through = absurd (ground (arith, let_through))
csrf_answer-none (err session_taken) let_through = absurd (ground (arith, let_through))

csrf_required :
    (r : Request)
    → is_changing_method r.method ≡ true
    → (r.path =ₜ "/admin/api/login") ≡ false
    → requires_csrf r ≡ true
unfolding requires_csrf
csrf_required r changing other = rw changing (rw other refl)

served_by-handled :
    (found : Option Handler) (h : Handler) → served_by found ≡ handled h → found ≡ some h
served_by-handled none h p = absurd (ground (arith, p))
served_by-handled (some x) h p = ground (arith, p)

only_api :
    (files apis pages is_get : Bool) (x : Served) (h : Handler)
    → (if files
        then static_file
        else if apis
        then x
        else if pages
        then (if is_get then page else refused 405)
        else refused 404)
      ≡ handled h
    → x ≡ handled h
only_api true apis pages is_get x h went = absurd (ground (arith, went))
only_api false true pages is_get x h went = went
only_api false false true true x h went = absurd (ground (arith, went))
only_api false false true false x h went = absurd (ground (arith, went))
only_api false false false is_get x h went = absurd (ground (arith, went))

checked :
    (required : Bool) (answer : Option ℕ) (next : Served) (h : Handler)
    → (if required then unless_answered answer next else next) ≡ handled h
    → (next ≡ handled h) × (required ≡ true → answer ≡ none)
checked true answer next h went =
    let (none_given, there) = unless_answered-handled answer next h went in (there, λ _. none_given)
checked false answer next h went = (went, λ required. absurd (ground (arith, required)))

login_only : (b : Bool) (h : Handler) → (if b then some login else none) ≡ some h → h ≡ login
login_only true h p = ground (arith, p)
login_only false h p = absurd (ground (arith, p))

not_login :
    (r : Request) (h : Handler)
    → dispatch r.method r.path api_rules ≡ some h
    → h ≢ login
    → (r.path =ₜ "/admin/api/login") ≡ false
not_login r h found other = elim (Bool-cases (r.path =ₜ "/admin/api/login")) [
  | inr off ↦ off
  | inl there ↦ absurd (
      other (
        login_only (r.method =ₜ "POST") h (
          sym (dispatch-login r.method)
          ∙ subst (λ p. dispatch r.method p api_rules ≡ some h)
              ((eq_iff r.path "/admin/api/login").0 there) found)))
]

unexcluded :
    (excluded : Bool) (answer : Option ℕ)
    → (if excluded || false then none else answer) ≡ none
    → (excluded ≡ false)
    → answer ≡ none
unexcluded true answer through other = absurd (ground (arith, other))
unexcluded false answer through other = through

flipped : (a b : String) → (a =ₜ b) ≡ false → (b =ₜ a) ≡ false
flipped a b differ = elim (Bool-cases (b =ₜ a)) [
  | inr off ↦ off
  | inl same ↦ absurd (ground (arith, differ, (eq_iff a b).1 (sym ((eq_iff b a).0 same))))
]

middleware-none :
    (s : Service) (now : ℕ) (path : String) (cookie : Option String) (t : Tables)
    → middleware s ("/admin/api/login" ∷ []) now path cookie t ≡ none
    → (path =ₜ "/admin/api/login") ≡ false
    → validate_session s now (session_id_from_request cookie) t ≡ ok true
unfolding middleware is_excluded
middleware-none s now path cookie t through other =
    answer_of-none (validate_session s now (session_id_from_request cookie) t) (
      unexcluded ("/admin/api/login" =ₜ path)
        (answer_of (validate_session s now (session_id_from_request cookie) t)) through
        (flipped path "/admin/api/login" other))

module _ (s : Service) (now : ℕ) (r : Request) (t : Tables) (h : Handler) where
  serve_http-handled : serve_http s now r t ≡ handled h → api s now r t ≡ handled h
  unfolding serve_http serve_page
  serve_http-handled went =
      only_api (r.path =ₜ "/admin/static" || is_some (strip_prefix "/admin/static/" r.path))
        (is_some (strip_prefix "/admin/api/" r.path))
        (r.path =ₜ "/admin" || is_some (strip_prefix "/admin/" r.path)) (r.method =ₜ "GET")
        (api s now r t) h went

  api-handled :
      api s now r t ≡ handled h
      → (middleware s ("/admin/api/login" ∷ []) now r.path r.cookie t ≡ none)
        × (serve_api s now r t ≡ handled h)
  unfolding api
  api-handled went =
      unless_answered-handled (middleware s ("/admin/api/login" ∷ []) now r.path r.cookie t)
        (serve_api s now r t) h went

  serve_api-handled :
      serve_api s now r t ≡ handled h
      → (served_by (dispatch r.method r.path api_rules) ≡ handled h)
        × (requires_csrf r ≡ true
            → csrf_answer (validate_csrf s (session_id_from_request r.cookie) (csrf_of r) t) ≡ none)
  unfolding serve_api
  serve_api-handled went =
      checked (requires_csrf r)
        (csrf_answer (validate_csrf s (session_id_from_request r.cookie) (csrf_of r) t))
        (served_by (dispatch r.method r.path api_rules)) h went

  -- Of a request that reaches a handler that may change the state, other than the login, both the
  -- session and the CSRF token are valid.
  pub writers_are_guarded :
      serve_http s now r t ≡ handled h
      → is_writer h ≡ true
      → h ≢ login
      → (validate_session s now (session_id_from_request r.cookie) t ≡ ok true)
        × (validate_csrf s (session_id_from_request r.cookie) (csrf_of r) t ≡ ok true)
  writers_are_guarded went writes other =
      let (through, inner) = api-handled (serve_http-handled went) in
      let (served, csrf) = serve_api-handled inner in
      let found = served_by-handled (dispatch r.method r.path api_rules) h served in
      let elsewhere = not_login r h found other in
      let changing = dispatch-guards r.method r.path api_rules h rules_guard found writes in
      (
        middleware-none s now r.path r.cookie t through elsewhere,
        csrf_answer-none (validate_csrf s (session_id_from_request r.cookie) (csrf_of r) t)
            (csrf (csrf_required r changing elsewhere)),
      )
