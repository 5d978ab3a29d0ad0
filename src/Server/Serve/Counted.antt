-- ===== src/Server/Serve/Counted.antt =====
-- The usage that a forwarded request leaves.
use code_guda_gateway.Prelude.{
  ℕ, ◌+◌, ◌≡◌, ◌≢◌, ap, sym, ◌∙◌, inl, inr, String, Bool, true, false, some, List, ◌=ₜ◌,
  if◌then◌else◌, is_some, err, In, arith, Result-cases,
}
use code_guda_gateway.GatewayKeys
use code_guda_gateway.GatewayKeys.{DisplayKey}
use code_guda_gateway.Usage.Counters
use code_guda_gateway.Usage.Counters.{
  UsageIncrement, UsageDaily, on_day, increment, requests_where, requests_where-increment,
}
use code_guda_gateway.Proxy.Headers.{Request, Target}
use code_guda_gateway.Proxy.Forward.{ForwardResult, Outcome, forward}
use code_guda_gateway.Proxy.Outcome.{AnswersSatisfy, IsSound, refusals, forward-IsSound}
use code_guda_gateway.Server.Routes.{
  is_runtime_route, is_runtime_route-is_some, runtime_target, runtime_target-provider,
  provider_nonempty,
}
use code_guda_gateway.Server.Access.{granted, authorized, status_class_of, usage_of, record_usage}
use code_guda_gateway.Server.Serve.{Gateway, State, serve_runtime, forward_as}
use code_guda_gateway.Server.Serve.Classes.{IsClassOf, class_of_status, route_family-IsGiven}

increment_accepts :
    (today : String) (inc : UsageIncrement) (rows : List UsageDaily) (x : Counters.Error)
    → (inc.provider =ₜ "") ≡ false
    → (inc.route_family =ₜ "") ≡ false
    → (inc.status_class =ₜ "") ≡ false
    → increment today inc rows ≢ err x
unfolding increment
increment_accepts today inc rows x p f c e = ground (arith, p, f, c, e)

module _ (today : String) (d : DisplayKey) (provider path class : String) (res : ForwardResult)
    (rows : List UsageDaily) (test : UsageIncrement → Bool) where
  record_usage-requests :
      status_class_of res ≡ some class
      → (provider =ₜ "") ≡ false
      → (class =ₜ "") ≡ false
      → requests_where test (record_usage today d provider path res rows)
        ≡ requests_where test rows
          + (if test (on_day today (usage_of d provider path class)) then 1 else 0)
  unfolding record_usage
  record_usage-requests classed named nonempty =
      elim (Result-cases (increment today (usage_of d provider path class) rows)) [
        | inl (rows', e) ↦ rw classed (
            rw e
              (requests_where-increment today (usage_of d provider path class) rows rows' test e))
        | inr (x, refused) ↦ absurd (accepted x refused)
      ]
    where
      accepted :
          (x : Counters.Error) → increment today (usage_of d provider path class) rows ≢ err x
      accepted x e =
          increment_accepts today (usage_of d provider path class) rows x named
            (route_family-IsGiven path).given nonempty e

-- A sound outcome has a status, where the answers that are shown have one.
status_of_sound : (o : Outcome) → IsSound (λ resp. resp.status ≢ 0) o → o.result.status_code ≢ 0
status_of_sound o sound zero = elim sound.refused [
  | inl fine ↦ sound.answered fine (sym sound.agrees ∙ zero)
  | inr m ↦ not_zero o.written.status m (sym sound.agrees ∙ zero)
]
  where
    not_zero : (status : ℕ) → In status refusals → status ≢ 0
    not_zero status m e = ground arith

-- A request that is forwarded for a key counts exactly once, whatever comes of it, where the answers
-- that are shown have a status: under the status class of the proxy's result, the sum over any
-- selection of buckets rises by one where it takes the bucket of the day, the key, the provider, the
-- route family and that class, and stays as it was elsewhere.
pub serve_runtime_counts :
    {W : Type 0} (g : Gateway W) (now : ℕ) (fresh_id today : String) (r : Request) (s : State W)
    (target : Target) (d : DisplayKey) (keys : GatewayKeys.Table)
    → runtime_target r.method r.path ≡ some target
    → authorized g.gateway_keys now r s.store.keys ≡ granted d keys
    → AnswersSatisfy g.proxy target.provider (λ resp. resp.status ≢ 0)
    → (class : String) × IsClassOf (forward g.proxy fresh_id now r target s.upstream).0.result class
      × ((test : UsageIncrement → Bool)
          → requests_where test (serve_runtime g now fresh_id today r s).1.usage
            ≡ requests_where test s.usage
              + (if test (on_day today (usage_of d target.provider r.path class)) then 1 else 0))
unfolding serve_runtime forward_as
serve_runtime_counts g now fresh_id today r s target d keys routed allowed answers =
    let result = (forward g.proxy fresh_id now r target s.upstream).0.result in
    let sound =
      forward-IsSound g.proxy (λ resp. resp.status ≢ 0) fresh_id now r target s.upstream answers in
    let (class, fits, classed, given) =
      class_of_status result
        (status_of_sound (forward g.proxy fresh_id now r target s.upstream).0 sound) in
    let known : is_runtime_route r.method r.path ≡ true =
      is_runtime_route-is_some r.method r.path ∙ ap is_some routed in
    let named =
      provider_nonempty target.provider (runtime_target-provider r.method r.path target routed) in
    (
      class,
      fits,
      λ test.
          rw (known, serve_runtime)
            (rw routed (
              rw allowed (
                record_usage-requests today d target.provider r.path class result s.usage test
                  classed named given))),
    )
