-- ===== src/Proxy/Attempts.antt =====
-- The requests that `Forward` of internal/proxy/proxy.go sends upstream.
use native.Mathlib.Nat.{le_trans, le_refl, le-add_right}
use code_guda_gateway.Prelude.{
  ℕ, zero, suc, ◌+◌, ◌≤◌, ◌≡◌, inl, inr, String, not, ◌||◌, Option, none, some, ◌=ₜ◌, trim_space,
  arith, subst, Result, ok, err, Bool-cases, Option-cases, Result-cases,
}
use code_guda_gateway.Cooldown.{should_mark_success}
use code_guda_gateway.Providers.Names.{Error}
use code_guda_gateway.Providers.Keys.{SelectedEndpoint}
use code_guda_gateway.Proxy.Headers.{Request, Target, Upstream, upstream_request}
use code_guda_gateway.Proxy.Classify.{Response, applied_policy}
use code_guda_gateway.Proxy.Forward.{
  Proxy, Answer, Call, AttemptLog, AttemptRecorder, Round, done, again, no_answer, is_last,
  record_attempt, on_network_error, on_failure, on_success, on_answer, do_request, try_endpoint,
  with_selected, attempt, attempts_loop, max_attempts_of, forward,
}
use code_guda_gateway.Proxy.Outcome.{Round-cases, with_body}

-- A count in the state that only a request sent upstream can raise, and by one.
pub record CountsSends {S : Type 0} (p : Proxy S) (count : S → ℕ) : Type 0 where
  pub sent : (up : Upstream) (s : S) → count (p.client.send up s).1 ≤ count s + 1
  pub selected : (provider : String) (s : S) → count (p.keys.select_endpoint provider s).1 ≤ count s
  pub succeeded : (i : ℕ) (s : S) → count (p.keys.mark_success i s) ≤ count s
  pub failed :
      (i status : ℕ) (msg : String) (until : Option ℕ) (reason : Option String) (s : S)
      → count (p.keys.mark_failure_with_cooldown i status msg until reason s) ≤ count s
  pub recorded :
      (r : AttemptRecorder S) (row : AttemptLog) (s : S)
      → p.attempts ≡ some r
      → count (r.record_row row s) ≤ count s

module _ {S : Type 0} (p : Proxy S) (c : Call) (count : S → ℕ) (h : CountsSends p count) where
  abbrev state_of : Round S → S
  state_of (done o s) = s
  state_of (again last s) = s

  record_attempt-count : (row : AttemptLog) (s : S) → count (record_attempt p c row s) ≤ count s
  unfolding record_attempt
  record_attempt-count row s = elim (Option-cases p.attempts) [
    | inl off ↦ rw (off, record_attempt) (omega arith)
    | inr (r, on) ↦
        rw (on, record_attempt)
          (elim (Bool-cases c.logging) [
            | inl yes' ↦ rw yes' (h.recorded r row s on)
            | inr no' ↦ rw no' (omega arith)
          ])
  ]

  on_network_error-count :
      (n : ℕ) (e : SelectedEndpoint) (last : Response) (s : S)
      → count (state_of (on_network_error p c n e last s)) ≤ count s
  unfolding on_network_error
  on_network_error-count n e last s = elim (Bool-cases (is_last p c n)) [
    | inl t ↦ rw t (le_trans (record_attempt-count _ _) (h.failed _ _ _ _ _ s))
    | inr t ↦ rw t (le_trans (record_attempt-count _ _) (h.failed _ _ _ _ _ s))
  ]

  on_failure-count :
      (n : ℕ) (e : SelectedEndpoint) (resp : Response) (s : S)
      → count (state_of (on_failure p c n e resp s)) ≤ count s
  unfolding on_failure
  on_failure-count n e resp s =
      elim (Bool-cases (
        not
          (applied_policy p.decoder c.target.provider resp.status resp.body
            p.settings).retry_across_keys
        || is_last p c n)) [
          | inl t ↦ rw t (le_trans (record_attempt-count _ _) (h.failed _ _ _ _ _ s))
          | inr t ↦ rw t (le_trans (record_attempt-count _ _) (h.failed _ _ _ _ _ s))
        ]

  on_success-count :
      (n : ℕ) (e : SelectedEndpoint) (resp : Response) (s : S)
      → count (state_of (on_success p c n e resp s)) ≤ count s
  unfolding on_success
  on_success-count n e resp s = le_trans (record_attempt-count _ _) (h.succeeded _ s)

  on_answer-count :
      (n : ℕ) (e : SelectedEndpoint) (o : Option Answer) (last : Response) (s : S)
      → count (state_of (on_answer p c n e o last s)) ≤ count s
  unfolding on_answer
  on_answer-count n e none last s = on_network_error-count n e last s
  on_answer-count n e (some a) last s = elim (Option-cases a.body) [
    | inl unread ↦ rw unread (le_refl (count s))
    | inr (text, read) ↦ rw read (elim (Bool-cases (should_mark_success a.status)) [
      | inl good ↦ rw good (on_success-count n e (with_body a text) s)
      | inr bad ↦ rw bad (on_failure-count n e (with_body a text) s)
    ])
  ]

  do_request-count : (e : SelectedEndpoint) (s : S) → count (do_request p c e s).1 ≤ count s + 1
  unfolding do_request
  do_request-count e s = elim (Result-cases (upstream_request p.urls c.request c.target e c.body)) [
    | inl (up, built) ↦ rw (built, do_request) (h.sent up s)
    | inr (e', unbuilt) ↦ rw (unbuilt, do_request) (omega arith)
  ]

  attempt-count :
      (n : ℕ) (last : Response) (s : S) → count (state_of (attempt p c n last s)) ≤ count s + 1
  unfolding attempt try_endpoint
  attempt-count n last s =
      le_trans (chosen (p.keys.select_endpoint c.target.provider s))
        (omega (arith, h.selected c.target.provider s))
    where
      chosen :
          (r : Result Error SelectedEndpoint × S)
          → count (state_of (with_selected p c n last r)) ≤ count r.1 + 1
      chosen (err e, s') = omega arith
      chosen (ok e, s') = elim (Bool-cases (trim_space e.base_url =ₜ "")) [
        | inl blank ↦ rw blank (omega arith)
        | inr url ↦ rw url (le_trans (on_answer-count n e _ last _) (do_request-count e s'))
      ]

  attempts_loop-count :
      (left n : ℕ) (last : Response) (s : S)
      → count (attempts_loop p c left n last s).1 ≤ count s + left
  unfolding attempts_loop
  attempts_loop-count zero n last s = omega arith
  attempts_loop-count (suc left) n last s = elim (Round-cases (attempt p c n last s)) [
    | inl (o, s', e) ↦
        rw (e, attempts_loop)
          (omega (arith, subst (λ r. count (state_of r) ≤ count s + 1) e (attempt-count n last s)))
    | inr (last', s', e) ↦
        rw (e, attempts_loop)
          (omega (
            arith,
            subst (λ r. count (state_of r) ≤ count s + 1) e (attempt-count n last s),
            attempts_loop-count left (n + 1) last' s',
          ))
  ]

-- One call sends at most `max_retries` requests upstream (three where that setting is not
-- positive), for any count that only a sent request raises, and by one.
pub forward-sends-le :
    {S : Type 0} (p : Proxy S) (count : S → ℕ) (fresh_id : String) (now : ℕ) (r : Request)
    (t : Target) (s : S)
    → CountsSends p count
    → count (forward p fresh_id now r t s).1 ≤ count s + max_attempts_of p.settings
unfolding forward
forward-sends-le p count fresh_id now r t s h = elim (Bool-cases (trim_space t.provider =ₜ "")) [
  | inl blank ↦ rw blank (le-add_right (count s) _)
  | inr named ↦ rw named (elim (Option-cases r.body) [
    | inl unread ↦ rw unread (le-add_right (count s) _)
    | inr (body, read) ↦
        rw read (attempts_loop-count p _ count h (max_attempts_of p.settings) 0 no_answer s)
  ])
]
