-- ===== src/Operatorlogin/Consent.antt =====
-- What `Consume` requires of its proof, and the proof after it.

use code_guda_gateway.Prelude.{
  ℕ, ◌≡◌, ◌≢◌, refl, ap, sym, subst, ◌∙◌, inl, inr, String, Bool, true, ◌&&◌, none, some, List, [],
  ◌∷◌, ◌=ₜ◌, or_fail, Result, ok, err, require, arith, eq_iff, Bool-cases, Option-cases,
  Result-cases, >>=-eq-ok,
}
use code_guda_gateway.Operatorlogin.{
  Error, denied, Configuration, Flow, FlowRow, Values, Service, Tables, enabled_config, allowed,
}
use code_guda_gateway.Operatorlogin.Flows.{
  find_flow, delete_flows, has_token, is_taken, opened, take,
}
use code_guda_gateway.Operatorlogin.Github.{Browser, same_site, consumer_of, agrees, consume}
use code_guda_gateway.Operatorlogin.Stored.{IsEnabled, enabled_config-IsEnabled}
use code_guda_gateway.Operatorlogin.Approval.{or_fail-eq-ok}

-- A flow was taken: its row stood in the table, and every row like it is gone.
record IsTaken (s : Service) (now : ℕ) (c : Configuration) (token browser phase : String) (f : Flow)
    (t t' : Tables) : Type 0 where
  row : FlowRow
  found : find_flow (is_taken s now c token browser phase) t.flows ≡ some row
  opens : opened s row.payload ≡ ok f
  left : t'.flows ≡ delete_flows (is_taken s now c token browser phase) t.flows

take-IsTaken :
    (s : Service) (now : ℕ) (c : Configuration) (token browser phase : String) (f : Flow)
    (t t' : Tables)
    → take s now c token browser phase t ≡ (ok f, t')
    → IsTaken s now c token browser phase f t t'
unfolding take
take-IsTaken s now c token browser phase f t t' h =
    elim (Option-cases (find_flow (is_taken s now c token browser phase) t.flows)) [
      | inl out ↦ absurd (ground (arith, out, h))
      | inr (row, found) ↦ record {
        row = row;
        found = found;
        opens = ground (arith, found, h);
        left = ground (arith, found, h);
      }
    ]

-- What a successful Consume had before it.
pub record IsConsented (s : Service) (now : ℕ) (r : Browser) (proof : String) (form : Values)
    (t t' : Tables) : Type 0 where
  pub c : Configuration
  pub browser : String
  pub row : FlowRow
  pub flow : Flow
  pub on : IsEnabled t c
  pub site : same_site s r ≡ true
  pub cookie : r.cookie ≡ some browser
  pub found : find_flow (is_taken s now c proof browser "consent") t.flows ≡ some row
  pub opens : opened s row.payload ≡ ok flow
  pub permitted : allowed c.allowed_ids flow.user_id ≡ true
  pub same_form : s.codec.encode_values flow.form ≡ s.codec.encode_values form
  pub left : t'.flows ≡ delete_flows (is_taken s now c proof browser "consent") t.flows

consume_checked-IsConsented :
    (s : Service) (now : ℕ) (r : Browser) (proof : String) (form : Values) (c : Configuration)
    (browser : String) (x : Result Error Flow × Tables) (t t' : Tables)
    → take s now c proof browser "consent" t ≡ x
    → ◌≡◌ {A = Result Error (Unit {0}) × Tables} (agrees s c form x.0, x.1) (ok tt, t')
    → IsEnabled t c
    → same_site s r ≡ true
    → r.cookie ≡ some browser
    → IsConsented s now r proof form t t'
consume_checked-IsConsented s now r proof form c browser (err e, t1) t t' taken h on site cookie =
    absurd (ground (arith, h))
consume_checked-IsConsented s now r proof form c browser (ok f, t1) t t' taken h on site cookie =
    let k = take-IsTaken s now c proof browser "consent" f t t1 taken in
    let test : (allowed c.allowed_ids f.user_id
          && s.codec.encode_values f.form =ₜ s.codec.encode_values form)
        ≡ true =
      ground (arith, h) in
    record {
      c = c;
      browser = browser;
      row = k.row;
      flow = f;
      on = on;
      site = site;
      cookie = cookie;
      found = k.found;
      opens = k.opens;
      permitted = ground (arith, test);
      same_form =
          (eq_iff (s.codec.encode_values f.form) (s.codec.encode_values form)).0
            (ground (arith, test));
      left = sym (ap (λ (y : Tables). y.flows) (ap (λ p. p.1) h)) ∙ k.left;
    }

-- A Consume that succeeds had the configuration enabled, an acceptable origin, and a live approval of
-- this proof, this browser and the configuration's revision, whose flow names a user who is allowed
-- and a form that encodes as the submitted one; the approval is deleted: `IsConsented`.
pub consume-IsConsented :
    (s : Service) (now : ℕ) (r : Browser) (proof : String) (form : Values) (t t' : Tables)
    → consume s now r proof form t ≡ (ok tt, t')
    → IsConsented s now r proof form t t'
unfolding consume
consume-IsConsented s now r proof form t t' h = elim (Result-cases (consumer_of s r t)) [
  | inr (e, out) ↦ absurd (ground (arith, out, h))
  | inl ((c, browser), asked) ↦
      let (d, on, rest) = >>=-eq-ok (enabled_config s t) _ asked in
      let (_, site, more) = >>=-eq-ok (require (same_site s r) denied) _ rest in
      let (b, given, last) = >>=-eq-ok (or_fail r.cookie denied) _ more in
      let same : b ≡ browser = ground (arith, last) in
      let same_config : d ≡ c = ground (arith, last) in
      consume_checked-IsConsented s now r proof form c browser
        (take s now c proof browser "consent" t) t t' refl (rw asked at h)
        (enabled_config-IsEnabled s t c (on ∙ ap ok same_config)) (ground (arith, site))
        (or_fail-eq-ok r.cookie given ∙ ap some same)
]

-- No two rows have the same token hash, as the table's primary key ensures.
unfoldable pub IsDistinct : List FlowRow → Type 0
IsDistinct [] = Unit
IsDistinct (r ∷ rs) = (find_flow (has_token r.token_hash) rs ≡ none) × IsDistinct rs

find_flow-delete_flows :
    (hash : String) (test : FlowRow → Bool) (rs : List FlowRow)
    → find_flow (has_token hash) rs ≡ none
    → find_flow (has_token hash) (delete_flows test rs) ≡ none
unfolding find_flow delete_flows
find_flow-delete_flows hash test [] e = refl
find_flow-delete_flows hash test (r ∷ rs) e = ground (arith, find_flow-delete_flows hash test rs)

find_flow-none :
    (hash : String) (test : FlowRow → Bool) (rs : List FlowRow)
    → ((r : FlowRow) → test r ≡ true → (r.token_hash =ₜ hash) ≡ true)
    → find_flow (has_token hash) rs ≡ none
    → find_flow test rs ≡ none
unfolding find_flow
find_flow-none hash test [] k e = refl
find_flow-none hash test (r ∷ rs) k e = ground (arith, k r, find_flow-none hash test rs k)

find_flow-deleted :
    (hash : String) (test : FlowRow → Bool) (rs : List FlowRow) (row : FlowRow)
    → ((r : FlowRow) → test r ≡ true → (r.token_hash =ₜ hash) ≡ true)
    → IsDistinct rs
    → find_flow test rs ≡ some row
    → find_flow (has_token hash) (delete_flows test rs) ≡ none
unfolding find_flow delete_flows IsDistinct
find_flow-deleted hash test [] row k d e = absurd (ground (arith, e))
find_flow-deleted hash test (r ∷ rs) row k d e = elim (Bool-cases (test r)) [
  | inl hit ↦
      let same : r.token_hash ≡ hash = (eq_iff r.token_hash hash).0 (k r hit) in
      let gone =
        find_flow-delete_flows hash test rs
          (subst (λ x. find_flow (has_token x) rs ≡ none) same d.0) in
      rw hit gone
  | inr miss ↦
      let rest : find_flow test rs ≡ some row = ground (arith, miss, e) in
      elim (Bool-cases (r.token_hash =ₜ hash)) [
        | inl same ↦
            let at_hash =
              subst (λ x. find_flow (has_token x) rs ≡ none) ((eq_iff r.token_hash hash).0 same)
                d.0 in
            absurd (ground (arith, find_flow-none hash test rs k at_hash, rest))
        | inr other ↦ rw miss (rw other (find_flow-deleted hash test rs row k d.1 rest))
      ]
]

take_of_spent :
    (s : Service) (now : ℕ) (c : Configuration) (token browser phase : String) (t : Tables)
    → find_flow (has_token (s.codec.sha256_hex token)) t.flows ≡ none
    → (take s now c token browser phase t).0 ≡ err denied
unfolding take
take_of_spent s now c token browser phase t e =
    let missed : find_flow (is_taken s now c token browser phase) t.flows ≡ none =
      find_flow-none (s.codec.sha256_hex token) (is_taken s now c token browser phase) t.flows
        (λ r h. ground (arith, h)) e in
    ground (arith, missed)

-- A proof is good once: after a Consume that succeeded, a Consume of the same proof does not succeed,
-- by whatever browser, for whatever form and at whatever time.
pub consume_once :
    (s : Service) (now now' : ℕ) (r r' : Browser) (proof : String) (form form' : Values)
    (t t' : Tables)
    → IsDistinct t.flows
    → consume s now r proof form t ≡ (ok tt, t')
    → (consume s now' r' proof form' t').0 ≢ ok tt
consume_once s now now' r r' proof form form' t t' distinct h again =
    let k = consume-IsConsented s now r proof form t t' h in
    let j =
      consume-IsConsented s now' r' proof form' t' (consume s now' r' proof form' t').1
        (λ i. (again i, (consume s now' r' proof form' t').1)) in
    let hash = s.codec.sha256_hex proof in
    let spent : find_flow (has_token hash) t'.flows ≡ none =
      subst (λ rs. find_flow (has_token hash) rs ≡ none) (sym k.left)
        (find_flow-deleted hash (is_taken s now k.c proof k.browser "consent") t.flows k.row
          (λ x e. ground (arith, e)) distinct k.found) in
    let missed =
      find_flow-none hash (is_taken s now' j.c proof j.browser "consent") t'.flows
        (λ x e. ground (arith, e)) spent in
    ground (arith, missed, j.found)
