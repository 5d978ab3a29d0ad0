-- ===== src/Oauth/Register.antt =====
-- `handleRegister`, `allowRegistration` and `lookupClient` of internal/mcpoauth/server.go. The decoded
-- body is an argument, `none` where decoding fails. The window starts at an instant, and counts.
use Prim.Native.String.{len}
use code_guda_gateway.Prelude.{
  ℕ, ◌+◌, ◌*◌, ◌-◌, String, Bool, true, false, not, ◌&&◌, ◌||◌, Option, some, List, [], ◌∷◌, ◌++◌,
  ltb, leb, ◌==◌, if◌then◌else◌, length, is_some, Result, ok, err, ◌>>=◌, ◌>>◌, require, or_fail,
}
use code_guda_gateway.Timestamp.{second}
use code_guda_gateway.Providers.Endpoints.{Urls}
use code_guda_gateway.Oauth.Tables.{
  Client, Store, TokenError, oauth_error, internal_error, find_client,
}
use code_guda_gateway.Oauth.Issuer.{validate_redirect_uri}

pub record Window : Type 0 where
  pub start : ℕ
  pub registrations : ℕ

abbrev pub window_at : ℕ → Window → Window
window_at now w =
    if leb (60 * second) (now - w.start) then record { start = now; registrations = 0 } else w

unfoldable pub allow_registration : ℕ → Window → Bool × Window
allow_registration now w =
    let v = window_at now w in
    if leb 60 v.registrations
    then (false, v)
    else (true, record v { registrations = v.registrations + 1 })

pub record RegisterRequest : Type 0 where
  pub client_name : String
  pub redirect_uris : List String

unfoldable pub all_redirects : Urls → List String → Bool
all_redirects urls [] = true
all_redirects urls (u ∷ us) = validate_redirect_uri urls u && all_redirects urls us

-- The insertion of the client, whose id is hex of random bytes.
unfoldable pub register_client :
    Urls → Option String → Option RegisterRequest → Store → Result TokenError (Client × Store)
register_client urls fresh decoded st = do
  req ← or_fail decoded (oauth_error 400 "invalid_request" "invalid json body")
  require
      (not (
        length req.redirect_uris == 0
        || ltb 16 (length req.redirect_uris)
        || ltb 256 (len req.client_name)))
      (oauth_error 400 "invalid_redirect_uri" "redirect_uris required")
  require (all_redirects urls req.redirect_uris)
      (oauth_error 400 "invalid_redirect_uri" "redirect uri must be https or loopback http")
  client_id ← or_fail fresh internal_error
  require (not (is_some (find_client client_id st.clients))) internal_error
  let c : Client = (record {
    client_id = client_id;
    client_name = some req.client_name;
    redirect_uris = req.redirect_uris;
  })
  ok (c, record st { clients = st.clients ++ c ∷ [] })

abbrev registered : Store → Result TokenError (Client × Store) → Result TokenError Client × Store
registered st (ok (c, st')) = (ok c, st')
registered st (err e) = (err e, st)

unfoldable pub handle_register :
    Urls
    → ℕ
    → Option String
    → Option RegisterRequest
    → Window × Store
    → Result TokenError Client × Window × Store
unfolding allow_registration
handle_register urls now fresh decoded (w, st) =
    let (allowed, w') = allow_registration now w in
    if allowed
    then (let (answer, st') = registered st (register_client urls fresh decoded st) in
        (answer, w', st'))
    else (err (oauth_error 429 "temporarily_unavailable" "registration rate limit"), w', st)
