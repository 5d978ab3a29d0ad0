-- ===== src/Operatorlogin/Github.antt =====
-- `Start`, `Finish` and `Consume` of internal/operatorlogin/github.go. The HTTP client and the
-- decoding of GitHub's answers are parameters. `Finish` contacts GitHub between two accesses to the
-- tables: `meanwhile` is what other requests do to them until then.
use Prim.Native.String
use Prim.Native.String.{len}
use code_guda_gateway.Prelude.{
  ℕ, String, Bool, not, ◌&&◌, ◌||◌, Option, none, some, List, [], ◌∷◌, ◌==◌, ltb, ◌=ₜ◌,
  if◌then◌else◌, is_some, strip_prefix, Result, ok, err, ◌>>=◌, ◌>>◌, require, or_fail, map_error,
}
use code_guda_gateway.Secrets.{Bytes, decrypt}
use code_guda_gateway.Operatorlogin.{
  Error, denied, Configuration, Flow, Values, Service, Tables, enabled_config, allowed,
  callback_path,
}
use code_guda_gateway.Operatorlogin.Flows.{put, take}

-- Of the browser's request: headers, the cookie and the query's values.
pub record Browser : Type 0 where
  pub origin : String
  pub fetch_site : String
  pub cookie : Option String

pub record Callback : Type 0 where
  pub states : List String
  pub codes : List String
  pub error : String

pub record Ask : Type 0 where
  pub method : String
  pub target : String
  pub body : Option Values
  pub token : String

-- An answer, with its body where it can be read.
pub record Answer : Type 0 where
  pub status : ℕ
  pub body : Option String

pub record TokenAnswer : Type 0 where
  pub access_token : String
  pub token_type : String
  pub error : String

-- GitHub's user, with the id in decimal.
pub record User : Type 0 where
  pub id : String
  pub login : String

pub record Github : Type 0 where
  pub send : Ask → Option Answer
  pub decode_token : String → Option TokenAnswer
  pub decode_user : String → Option User
  pub equal_fold : String → String → Bool

-- Start's redirect, and its cookie.
pub record Redirect : Type 0 where
  pub target : String
  pub query : Values
  pub browser : String
  pub secure : Bool

-- What Finish returns: the form, the proof and the login.
pub record Approval : Type 0 where
  pub form : Values
  pub proof : String
  pub login : String

abbrev is_proper : String → Bool
is_proper value = len value == 43

-- The cookie's value where it has the right length, or a fresh one.
abbrev pub browser_of : Option String → String → String
browser_of none fresh = fresh
browser_of (some value) fresh = if is_proper value then value else fresh

-- The checks on Origin and Sec-Fetch-Site.
abbrev pub same_site : Service → Browser → Bool
same_site s r =
    not (not (r.origin =ₜ "") && not (r.origin =ₜ s.issuer)) && not (r.fetch_site =ₜ "cross-site")

abbrev pub one_of : List String → Option String
one_of (v ∷ []) = some v
one_of _ = none

-- `request`: status 200 and at most 65536 bytes.
unfoldable pub request {ℓ} : {A : Type ℓ} → Github → (String → Option A) → Ask → Result Error A
request g decode ask = do
  answer ← or_fail (g.send ask) denied
  require (answer.status == 200) denied
  raw ← or_fail answer.body denied
  require (not (ltb 65536 (len raw))) denied
  or_fail (decode raw) denied

-- An error after the flow was taken leaves the tables as they are then.
abbrev pub kept : Tables → Result Error (Approval × Tables) → Result Error Approval × Tables
kept t (ok (a, t')) = (ok a, t')
kept t (err e) = (err e, t)

module _ (s : Service) where
  abbrev pub redirect_of : (String → String) → Configuration → String → String → String → Redirect
  redirect_of challenge c browser verifier state = record {
    target = "https://github.com/login/oauth/authorize";
    query =
        ("client_id", c.client_id ∷ [])
        ∷ ("redirect_uri", String.◌++◌ s.issuer callback_path ∷ [])
        ∷ ("state", state ∷ [])
        ∷ ("scope", "" ∷ [])
        ∷ ("code_challenge", challenge verifier ∷ [])
        ∷ ("code_challenge_method", "S256" ∷ [])
        ∷ ("allow_signup", "false" ∷ [])
        ∷ ("prompt", "select_account" ∷ [])
        ∷ [];
    browser = browser;
    secure = is_some (strip_prefix "https://" s.issuer);
  }

  -- Start; the three texts are what the random source gives, and `challenge` is S256.
  unfoldable pub start :
      (String → String)
      → ℕ
      → Option Bytes
      → String
      → String
      → String
      → Browser
      → Values
      → Tables
      → Result Error (Redirect × Tables)
  start challenge now drawn fresh verifier state r form t = do
    c ← enabled_config s t
    require (same_site s r) denied
    let browser = browser_of r.cookie fresh
    t' ←
        put s now drawn state c browser "github"
          (record { form = form; verifier = verifier; user_id = ""; login = "" }) t
    ok (redirect_of challenge c browser verifier state, t')

  -- Finish up to the taking of the flow.
  abbrev pub callback_of :
      Browser → Callback → Tables → Result Error (Configuration × String × String)
  callback_of r q t = do
    c ← enabled_config s t
    browser ← or_fail r.cookie denied
    state ← or_fail (one_of q.states) denied
    ok (c, browser, state)

  -- GitHub's identity of the user, which the configuration must allow.
  unfoldable pub identify : Github → Configuration → Callback → Flow → Result Error Flow
  unfolding request
  identify g c q f = do
    require (q.error =ₜ "") denied
    code ← or_fail (one_of q.codes) denied
    require (not (len code == 0 || ltb 1024 (len code))) denied
    sealed ← or_fail (s.codec.decode_base64 c.secret) denied
    secret ← map_error (λ _. denied) (decrypt s.aead s.key sealed)
    result ← request g g.decode_token (record {
      method = "POST";
      target = "https://github.com/login/oauth/access_token";
      body = some (
          ("client_id", c.client_id ∷ [])
          ∷ ("client_secret", secret ∷ [])
          ∷ ("code", code ∷ [])
          ∷ ("redirect_uri", String.◌++◌ s.issuer callback_path ∷ [])
          ∷ ("code_verifier", f.verifier ∷ [])
          ∷ []);
      token = "";
    })
    require (result.error =ₜ "") denied
    require (not (result.access_token =ₜ "")) denied
    require (g.equal_fold result.token_type "bearer") denied
    user ← request g g.decode_user (record {
      method = "GET";
      target = "https://api.github.com/user";
      body = none;
      token = result.access_token;
    })
    require (allowed c.allowed_ids user.id && not (user.login =ₜ "")) denied
    ok (record f { user_id = user.id; login = user.login; verifier = "" })

  -- The settings are read again, and the approval is stored.
  unfoldable pub approve :
      ℕ
      → Option Bytes
      → String
      → Configuration
      → String
      → Flow
      → Tables
      → Result Error (Approval × Tables)
  approve now drawn proof c browser f t = do
    current ← enabled_config s t
    require (current.revision =ₜ c.revision) denied
    t' ← put s now drawn proof c browser "consent" f t
    ok (record { form = f.form; proof = proof; login = f.login }, t')

  module _ (g : Github) (now later : ℕ) (drawn : Option Bytes) (proof : String)
      (meanwhile : Tables → Tables) where
    abbrev pub finish_with :
        Callback
        → Configuration
        → String
        → Result Error Flow × Tables
        → Result Error Approval × Tables
    finish_with q c browser (err e, t) = (err e, t)
    finish_with q c browser (ok f, t) =
        kept (meanwhile t) (
          identify g c q f >>= λ vouched. approve later drawn proof c browser vouched (meanwhile t))

    abbrev pub finish_checked :
        Callback
        → Result Error (Configuration × String × String)
        → Tables
        → Result Error Approval × Tables
    finish_checked q (err e) t = (err e, t)
    finish_checked q (ok (c, browser, state)) t =
        finish_with q c browser (take s now c state browser "github" t)

    unfoldable pub finish : Browser → Callback → Tables → Result Error Approval × Tables
    finish r q t = finish_checked q (callback_of r q t) t

  abbrev pub agrees : Configuration → Values → Result Error Flow → Result Error (Unit {0})
  agrees c form (err e) = err e
  agrees c form (ok f) =
      require
        (allowed c.allowed_ids f.user_id
          && s.codec.encode_values f.form =ₜ s.codec.encode_values form)
        denied

  abbrev pub consume_checked :
      ℕ
      → String
      → Values
      → Result Error (Configuration × String)
      → Tables
      → Result Error (Unit {0}) × Tables
  consume_checked now proof form (err e) t = (err e, t)
  consume_checked now proof form (ok (c, browser)) t =
      let (f, t') = take s now c proof browser "consent" t in (agrees c form f, t')

  abbrev pub consumer_of : Browser → Tables → Result Error (Configuration × String)
  consumer_of r t = do
    c ← enabled_config s t
    require (same_site s r) denied
    browser ← or_fail r.cookie denied
    ok (c, browser)

  unfoldable pub consume : ℕ → Browser → String → Values → Tables → Result Error (Unit {0}) × Tables
  consume now r proof form t = consume_checked now proof form (consumer_of r t) t
