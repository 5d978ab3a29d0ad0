-- ===== src/Operatorlogin/Approval.antt =====
-- The approval that a login gives: what `Consume` requires, and how it follows `Finish`.

use Prim.Native.String.{len}
use code_guda_gateway.Prelude.{
  ℕ, ◌+◌, ◌/◌, ◌≡◌, refl, ap, sym, subst, ◌∙◌, inl, inr, String, true, ◌&&◌, Option, none, some,
  ◌==◌, ltb, ◌=ₜ◌, length, or_fail, Result, ok, err, require, arith, eq_iff, Result-cases,
  >>=-eq-ok,
}
use code_guda_gateway.Timestamp.{second}
use code_guda_gateway.Secrets.{Bytes, gcm_nonce_size}
use code_guda_gateway.Operatorlogin.{
  Error, denied, Configuration, Flow, Values, Service, Tables, enabled_config, allowed, ttl,
}
use code_guda_gateway.Operatorlogin.Flows.{put, take}
use code_guda_gateway.Operatorlogin.Stored.{
  ReadsBack, IsEnabled, enabled_config-IsEnabled, put-IsPut, take-put,
}
use code_guda_gateway.Operatorlogin.Github.{
  Browser, Callback, Github, one_of, Approval, same_site, callback_of, identify, approve, kept,
  finish, finish_with, consumer_of, consume,
}

-- What Finish stores for an approval, of the user with this id.
abbrev pub approved_flow : Approval → String → Flow
approved_flow a i = record { form = a.form; verifier = ""; user_id = i; login = a.login }

-- What `approve` did where it succeeded.
record IsApproved (s : Service) (later : ℕ) (drawn : Option Bytes) (proof : String)
    (c : Configuration) (browser : String) (v : Flow) (b : Tables) (a : Approval) (t' : Tables)
    : Type 0 where
  current : Configuration
  on : enabled_config s b ≡ ok current
  same : current.revision ≡ c.revision
  stored : put s later drawn proof c browser "consent" v b ≡ ok t'
  form : a.form ≡ v.form
  login : a.login ≡ v.login
  named : a.proof ≡ proof

approve-IsApproved :
    (s : Service) (later : ℕ) (drawn : Option Bytes) (proof : String) (c : Configuration)
    (browser : String) (v : Flow) (b : Tables) (a : Approval) (t' : Tables)
    → approve s later drawn proof c browser v b ≡ ok (a, t')
    → IsApproved s later drawn proof c browser v b a t'
unfolding approve
approve-IsApproved s later drawn proof c browser v b a t' h =
    elim (Result-cases (enabled_config s b)) [
      | inr (e, out) ↦ absurd (ground (arith, out, h))
      | inl (current, on) ↦ elim (Result-cases (put s later drawn proof c browser "consent" v b)) [
        | inr (e, out) ↦ absurd (ground (arith, on, out, h))
        | inl (t1, stored) ↦ record {
          current = current;
          on = on;
          same = (eq_iff current.revision c.revision).0 (ground (arith, on, h));
          stored = stored ∙ ground (arith, on, stored, h);
          form = ground (arith, on, stored, h);
          login = ground (arith, on, stored, h);
          named = ground (arith, on, stored, h);
        }
      ]
    ]

kept-eq-ok :
    (t : Tables) (x : Result Error (Approval × Tables)) {a : Approval} {t' : Tables}
    → kept t x ≡ (ok a, t')
    → x ≡ ok (a, t')
kept-eq-ok t (ok (a, t1)) h = ground (arith, h)
kept-eq-ok t (err e) h = absurd (ground (arith, h))

pub or_fail-eq-ok {ℓ} : {A : Type ℓ} (x : Option A) {a : A} → or_fail x denied ≡ ok a → x ≡ some a
or_fail-eq-ok none h = cc
or_fail-eq-ok (some a) h = ground (arith, h)

-- What Finish did where it succeeded.
record IsFinished (s : Service) (g : Github) (later : ℕ) (drawn : Option Bytes) (proof : String)
    (q : Callback) (r : Browser) (a : Approval) (t t' : Tables) : Type 0 where
  c : Configuration
  browser : String
  taken : Flow
  vouched : Flow
  between : Tables
  cookie : r.cookie ≡ some browser
  was : enabled_config s t ≡ ok c
  identified : identify s g c q taken ≡ ok vouched
  approved : IsApproved s later drawn proof c browser vouched between a t'

module _ (s : Service) (g : Github) (now later : ℕ) (drawn : Option Bytes) (proof : String)
    (meanwhile : Tables → Tables) where
  finish_with-IsFinished :
      (q : Callback) (r : Browser) (c : Configuration) (browser : String) (t t' : Tables)
      (a : Approval) (x : Result Error Flow × Tables)
      → r.cookie ≡ some browser
      → enabled_config s t ≡ ok c
      → finish_with s g now later drawn proof meanwhile q c browser x ≡ (ok a, t')
      → IsFinished s g later drawn proof q r a t t'
  finish_with-IsFinished q r c browser t t' a (err e, t1) _ _ h = absurd (ground (arith, h))
  finish_with-IsFinished q r c browser t t' a (ok f, t1) cookie was h =
      let (v, known, given) = >>=-eq-ok (identify s g c q f) _ (kept-eq-ok (meanwhile t1) _ h) in
      record {
        c = c;
        browser = browser;
        taken = f;
        vouched = v;
        between = meanwhile t1;
        cookie = cookie;
        was = was;
        identified = known;
        approved = approve-IsApproved s later drawn proof c browser v (meanwhile t1) a t' given;
      }

  callback_of-eq-ok :
      (r : Browser) (q : Callback) (t : Tables) (c : Configuration) (browser state : String)
      → callback_of s r q t ≡ ok (c, browser, state)
      → (r.cookie ≡ some browser) × (enabled_config s t ≡ ok c)
  callback_of-eq-ok r q t c browser state h =
      let (d, on, rest) = >>=-eq-ok (enabled_config s t) _ h in
      let (b, given, more) = >>=-eq-ok (or_fail r.cookie denied) _ rest in
      let (sent, _, last) = >>=-eq-ok (or_fail (one_of q.states) denied) _ more in
      let same : b ≡ browser = ground (arith, last) in
      let same_config : d ≡ c = ground (arith, last) in
      (or_fail-eq-ok r.cookie given ∙ ap some same, on ∙ ap ok same_config)

  finish-IsFinished :
      (r : Browser) (q : Callback) (t t' : Tables) (a : Approval)
      → finish s g now later drawn proof meanwhile r q t ≡ (ok a, t')
      → IsFinished s g later drawn proof q r a t t'
  unfolding finish
  finish-IsFinished r q t t' a h = elim (Result-cases (callback_of s r q t)) [
    | inr (e, out) ↦ absurd (ground (arith, out, h))
    | inl ((c, browser, state), asked) ↦
        let (cookie, was) = callback_of-eq-ok r q t c browser state asked in
        finish_with-IsFinished q r c browser t t' a (take s now c state browser "github" t) cookie
          was (rw asked at h)
  ]

identify-allowed :
    (s : Service) (g : Github) (c : Configuration) (q : Callback) (f v : Flow)
    → identify s g c q f ≡ ok v
    → allowed c.allowed_ids v.user_id ≡ true
unfolding identify
identify-allowed s g c q f v h = ground (arith, h)

identify-verifier :
    (s : Service) (g : Github) (c : Configuration) (q : Callback) (f v : Flow)
    → identify s g c q f ≡ ok v
    → v.verifier ≡ ""
unfolding identify
identify-verifier s g c q f v h = ground (arith, h)

enabled_config-config :
    (s : Service) (t t' : Tables) → t'.config ≡ t.config → enabled_config s t' ≡ enabled_config s t
unfolding enabled_config
enabled_config-config s t t' e = rw e refl

consumer_of-cookie :
    (s : Service) (r : Browser) (t : Tables) (c : Configuration) (browser : String)
    → enabled_config s t ≡ ok c
    → same_site s r ≡ true
    → r.cookie ≡ some browser
    → consumer_of s r t ≡ ok (c, browser)
consumer_of-cookie s r t c browser on site cookie = rw on (rw site (rw cookie refl))

-- After a login that Finish approved, with the configuration as it was, a Consume of the proof from
-- the same browser within ten minutes (in whole seconds), whose Origin is missing or the issuer's and
-- whose Sec-Fetch-Site is not cross-site, accepts exactly the forms that encode as the approved form
-- does, where the nonce has 12 bytes, the proof and the browser's text have 43, and the JSON of the
-- stored flow is read back as it was written.
pub finish_then_consume :
    (s : Service) (g : Github) (now later : ℕ) (bytes : Bytes) (proof : String)
    (meanwhile : Tables → Tables) (r r' : Browser) (q : Callback) (t t' : Tables) (a : Approval)
    (browser : String) (last : ℕ) (form : Values)
    → finish s g now later (some bytes) proof meanwhile r q t ≡ (ok a, t')
    → ((i : String) → ReadsBack s (approved_flow a i))
    → length bytes ≡ gcm_nonce_size
    → t'.config ≡ t.config
    → r.cookie ≡ some browser
    → r'.cookie ≡ some browser
    → (len proof == 43 && len browser == 43) ≡ true
    → same_site s r' ≡ true
    → ltb (last / second) ((later + ttl) / second) ≡ true
    → (consume s last r' proof form t').0
      ≡ require (s.codec.encode_values a.form =ₜ s.codec.encode_values form) denied
unfolding consume
finish_then_consume s g now later bytes proof meanwhile r r' q t t' a browser last form h back sized
      config cookie cookie' proper site early =
    let f = finish-IsFinished s g now later (some bytes) proof meanwhile r q t t' a h in
    let p =
      put-IsPut s later bytes proof f.c f.browser "consent" f.vouched f.between t'
        f.approved.stored in
    let was = enabled_config-IsEnabled s t f.c f.was in
    let same : f.browser ≡ browser = ground (arith, f.cookie, cookie) in
    let on : IsEnabled f.between f.c = record {
      stored = sym p.same ∙ config ∙ was.stored;
      enabled = was.enabled;
    } in
    let blank = identify-verifier s g f.c q f.taken f.vouched f.identified in
    let stored : approved_flow a f.vouched.user_id ≡ f.vouched = (λ i. record {
      form = f.approved.form i;
      verifier = sym blank i;
      user_id = f.vouched.user_id;
      login = f.approved.login i;
    }) in
    let taken : (take s last f.c proof browser "consent" t').0 ≡ ok f.vouched =
      subst (λ b. (take s last f.c proof b "consent" t').0 ≡ ok f.vouched) same
        (take-put s later last bytes proof f.c f.browser "consent" f.vouched f.between t'
          f.approved.stored (subst (ReadsBack s) stored (back f.vouched.user_id)) sized on
          (subst (λ b. (len proof == 43 && len b == 43) ≡ true) (sym same) proper) early) in
    rw
      (consumer_of-cookie s r' t' f.c browser (enabled_config-config s t t' config ∙ f.was) site
        cookie')
      (rw taken (
        rw (identify-allowed s g f.c q f.taken f.vouched f.identified) (
          ap (λ x. require (s.codec.encode_values x =ₜ s.codec.encode_values form) denied)
            (sym f.approved.form))))
