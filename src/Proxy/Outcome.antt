-- ===== src/Proxy/Outcome.antt =====
-- What `Forward` of internal/proxy/proxy.go writes and returns.
use code_guda_gateway.Prelude.{
  ℕ, zero, suc, ◌+◌, ◌≡◌, ◌≢◌, refl, subst, ◌⊎◌, inl, inr, String, true, not, ◌||◌, Option, none,
  some, List, [], ◌∷◌, In, ◌==◌, ◌=ₜ◌, if◌then◌else◌, trim_space, arith, ==_iff, Result, ok, err,
  Bool-cases, Option-cases, Result-cases,
}
use code_guda_gateway.Cooldown.{should_mark_success}
use code_guda_gateway.Providers.Names.{Error, no_enabled_key, provider_tavily}
use code_guda_gateway.Providers.Keys.{SelectedEndpoint}
use code_guda_gateway.Proxy.Headers.{Request, Target, Upstream, upstream_request}
use code_guda_gateway.Proxy.Classify.{
  Response, is_tavily_plan_limit, applied_policy, client_response, client_response-status,
}
use code_guda_gateway.Proxy.Forward.{
  Proxy, Answer, Call, ForwardError, with_selected, Outcome, Round, done, again, no_answer, reply,
  refuse, is_last, on_network_error, on_failure, on_success, on_answer, do_request, no_endpoint,
  try_endpoint, attempt, attempts_loop, max_attempts_of, forward,
}

-- A success is shown as it came.
client_response_of_success :
    (provider : String) (resp : Response)
    → should_mark_success resp.status ≡ true
    → client_response provider resp ≡ resp
unfolding client_response is_tavily_plan_limit should_mark_success
client_response_of_success provider resp h = ground arith

-- The statuses that the gateway answers itself.
abbrev pub refusals : List ℕ
refusals = 400 ∷ 500 ∷ 502 ∷ []

module _ (P : Response → Type 0) where
  -- The written status is the one returned, a network error is a 502, what is written without an
  -- error satisfies `P`, and with one it is a refusal.
  pub record IsSound (o : Outcome) : Type 0 where
    pub agrees : o.result.status_code ≡ o.written.status
    pub network : o.result.network_error ≡ true → o.written.status ≡ 502
    pub answered : o.result.error ≡ none → P o.written
    pub refused : (o.result.error ≡ none) ⊎ In o.written.status refusals

  -- An answer to fall back on: none yet, or one that satisfies `P`.
  abbrev Kept : Response → Type 0
  Kept last = (last.status ≡ 0) ⊎ P last

  abbrev RoundSound : {S : Type 0} → Round S → Type 0
  RoundSound (done o s) = IsSound o
  RoundSound (again last s) = Kept last

  refuse-IsSound :
      (status : ℕ) (text : String) (e : ForwardError)
      → In status refusals
      → IsSound (refuse status text e)
  refuse-IsSound status text e m = record {
    agrees = refl;
    network = λ w. cc;
    answered = λ w. cc;
    refused = inr m;
  }

  reply-IsSound : (resp : Response) → P resp → IsSound (reply resp)
  reply-IsSound resp h = record {
    agrees = refl;
    network = λ e. cc;
    answered = λ e. h;
    refused = inl refl;
  }

  Kept-IsSound :
      (last : Response) (o : Outcome)
      → IsSound o
      → Kept last
      → IsSound (if last.status == 0 then o else reply last)
  Kept-IsSound last o refused (inl z) = rw ((==_iff last.status 0).1 z) refused
  Kept-IsSound last o refused (inr h) = elim (Bool-cases (last.status == 0)) [
    | inl e ↦ rw e refused
    | inr e ↦ rw e (reply-IsSound last h)
  ]

abbrev pub with_body : Answer → String → Response
with_body a text = record { status = a.status; header = a.header; body = text }

-- Every readable answer that the client brings, as the gateway's client gets to see it.
abbrev pub AnswersSatisfy : {S : Type 0} → Proxy S → String → (Response → Type 0) → Type 0
AnswersSatisfy {S} p provider P =
    (up : Upstream) (s : S) (a : Answer) (text : String)
    → (p.client.send up s).0 ≡ some a
    → a.body ≡ some text
    → P (client_response provider (with_body a text))

pub Round-cases :
    {S : Type 0} (r : Round S)
    → ((o : Outcome) × (s : S) × (r ≡ done o s))
      ⊎ ((last : Response) × (s : S) × (r ≡ again last s))
Round-cases (done o s) = inl (o, s, refl)
Round-cases (again last s) = inr (last, s, refl)

module _ {S : Type 0} (p : Proxy S) (c : Call) (P : Response → Type 0) where
  on_network_error-RoundSound :
      (n : ℕ) (e : SelectedEndpoint) (last : Response) (s : S)
      → Kept P last
      → RoundSound P (on_network_error p c n e last s)
  unfolding on_network_error
  on_network_error-RoundSound n e last s h = elim (Bool-cases (is_last p c n)) [
    | inl t ↦ rw t (record {
      agrees = refl;
      network = λ _. refl;
      answered = λ w. cc;
      refused = inr (inr (inr (inl refl)));
    })
    | inr t ↦ rw t h
  ]

  on_failure-RoundSound :
      (n : ℕ) (e : SelectedEndpoint) (resp : Response) (s : S)
      → P (client_response c.target.provider resp)
      → RoundSound P (on_failure p c n e resp s)
  unfolding on_failure
  on_failure-RoundSound n e resp s h =
      elim (Bool-cases (
        not
          (applied_policy p.decoder c.target.provider resp.status resp.body
            p.settings).retry_across_keys
        || is_last p c n)) [
          | inl t ↦ rw t (reply-IsSound P (client_response c.target.provider resp) h)
          | inr t ↦ rw t (inr h)
        ]

  on_answer-RoundSound :
      (n : ℕ) (e : SelectedEndpoint) (o : Option Answer) (last : Response) (s : S)
      → ((a : Answer) (text : String)
          → o ≡ some a
          → a.body ≡ some text
          → P (client_response c.target.provider (with_body a text)))
      → Kept P last
      → RoundSound P (on_answer p c n e o last s)
  unfolding on_answer on_success
  on_answer-RoundSound n e none last s h k = on_network_error-RoundSound n e last s k
  on_answer-RoundSound n e (some a) last s h k = elim (Option-cases a.body) [
    | inl unread ↦ rw unread (refuse-IsSound P _ _ _ (inr (inr (inl refl))))
    | inr (text, read) ↦ rw read (elim (Bool-cases (should_mark_success a.status)) [
      | inl good ↦ rw good (
          reply-IsSound P (with_body a text) (
            subst P (client_response_of_success c.target.provider (with_body a text) good)
              (h a text refl read)))
      | inr bad ↦ rw bad (on_failure-RoundSound n e (with_body a text) s (h a text refl read))
    ])
  ]

  no_endpoint-IsSound :
      (e : Error) (last : Response) → Kept P last → IsSound P (no_endpoint p c e last)
  unfolding no_endpoint
  no_endpoint-IsSound no_enabled_key last k =
      Kept-IsSound P last _ (refuse-IsSound P _ _ _ (inr (inr (inl refl)))) k
  no_endpoint-IsSound e last k = refuse-IsSound P _ _ _ (inr (inl refl))

  module _ (brought : AnswersSatisfy p c.target.provider P) where
    do_request-answers :
        (e : SelectedEndpoint) (s : S) (a : Answer) (text : String)
        → (do_request p c e s).0 ≡ some a
        → a.body ≡ some text
        → P (client_response c.target.provider (with_body a text))
    unfolding do_request
    do_request-answers e s a text h read =
        elim (Result-cases (upstream_request p.urls c.request c.target e c.body)) [
          | inl (up, built) ↦ brought up s a text (rw (built, do_request) at h) read
          | inr (e', unbuilt) ↦
              let broken : ◌≡◌ {A = Option Answer} none (some a) = rw (unbuilt, do_request) at h in
              cc
        ]

    try_endpoint-RoundSound :
        (n : ℕ) (e : SelectedEndpoint) (last : Response) (s : S)
        → Kept P last
        → RoundSound P (try_endpoint p c n e last s)
    unfolding try_endpoint
    try_endpoint-RoundSound n e last s k = elim (Bool-cases (trim_space e.base_url =ₜ "")) [
      | inl blank ↦ rw blank (refuse-IsSound P _ _ _ (inr (inr (inl refl))))
      | inr url ↦ rw url (
          on_answer-RoundSound n e (do_request p c e s).0 last (do_request p c e s).1
            (do_request-answers e s) k)
    ]

    attempt-RoundSound :
        (n : ℕ) (last : Response) (s : S) → Kept P last → RoundSound P (attempt p c n last s)
    unfolding attempt
    attempt-RoundSound n last s k =
        with_selected-RoundSound (p.keys.select_endpoint c.target.provider s)
      where
        with_selected-RoundSound :
            (r : Result Error SelectedEndpoint × S) → RoundSound P (with_selected p c n last r)
        with_selected-RoundSound (ok e, s') = try_endpoint-RoundSound n e last s' k
        with_selected-RoundSound (err e, s') = no_endpoint-IsSound e last k

    attempts_loop-IsSound :
        (left n : ℕ) (last : Response) (s : S)
        → Kept P last
        → IsSound P (attempts_loop p c left n last s).0
    unfolding attempts_loop
    attempts_loop-IsSound zero n last s k =
        Kept-IsSound P last _ (refuse-IsSound P _ _ _ (inr (inr (inl refl)))) k
    attempts_loop-IsSound (suc left) n last s k = elim (Round-cases (attempt p c n last s)) [
      | inl (o, s', e) ↦
          rw (e, attempts_loop) (subst (RoundSound P) e (attempt-RoundSound n last s k))
      | inr (last', s', e) ↦
          rw (e, attempts_loop)
            (attempts_loop-IsSound left (n + 1) last' s'
              (subst (RoundSound P) e (attempt-RoundSound n last s k)))
    ]

-- Whatever holds of every upstream answer as the client gets to see it holds of what a call writes
-- without an error, and with one the gateway writes 400, 500 or 502; a call's result tells the
-- status that was written, and says "network error" only with a 502.
pub forward-IsSound :
    {S : Type 0} (p : Proxy S) (P : Response → Type 0) (fresh_id : String) (now : ℕ) (r : Request)
    (t : Target) (s : S)
    → AnswersSatisfy p t.provider P
    → IsSound P (forward p fresh_id now r t s).0
unfolding forward
forward-IsSound p P fresh_id now r t s brought = elim (Bool-cases (trim_space t.provider =ₜ "")) [
  | inl blank ↦ rw blank (refuse-IsSound P _ _ _ (inr (inr (inl refl))))
  | inr named ↦ rw named (elim (Option-cases r.body) [
    | inl unread ↦ rw unread (refuse-IsSound P _ _ _ (inl refl))
    | inr (body, read) ↦
        rw read (
          attempts_loop-IsSound p _ P brought (max_attempts_of p.settings) 0 no_answer s (inl refl))
  ])
]

not_refusal : (status : ℕ) → In status refusals → status ≢ 432
not_refusal status m e = ground arith

-- A client of Tavily never sees the plan limit's status 432, on any path.
pub forward-hides-plan_limit :
    {S : Type 0} (p : Proxy S) (fresh_id : String) (now : ℕ) (r : Request) (path : String) (s : S)
    → (forward p fresh_id now r
        (record { path = path; provider = provider_tavily })
        s).0.written.status
      ≢ 432
forward-hides-plan_limit p fresh_id now r path s e =
    let sound =
      forward-IsSound p (λ resp. resp.status ≢ 432) fresh_id now r
        (record { path = path; provider = provider_tavily }) s
        (λ up s' a text _ _. client_response-status (with_body a text)) in
    elim sound.refused [ inl fine ↦ sound.answered fine e | inr m ↦ not_refusal _ m e ]
