-- ===== src/Usage/Counters.antt =====
-- The table usage_daily of internal/usage/usage.go and its upsert. In SQLite a NULL in the primary
-- key conflicts with nothing. The rows stand as they were inserted.
use code_guda_gateway.Prelude.{
  ℕ, ◌+◌, ◌≡◌, refl, subst, ap, inl, inr, String, Bool, true, false, ◌&&◌, ◌||◌, Option, none, some,
  List, [], ◌∷◌, ◌++◌, ◌==◌, ◌=ₜ◌, if◌then◌else◌, arith, eq_iff, ==_iff, Bool-cases, Result, ok,
  err,
}

pub data Error : Type 0 where
  fields_required : Error

pub record UsageIncrement : Type 0 where
  pub day : String
  pub gateway_key_id : Option ℕ
  pub provider : String
  pub route_family : String
  pub status_class : String

pub record UsageDaily : Type 0 where
  pub bucket : UsageIncrement
  pub request_count : ℕ

-- Equality in SQL: never with NULL.
abbrev pub conflicting_id : Option ℕ → Option ℕ → Bool
conflicting_id none _ = false
conflicting_id (some i) none = false
conflicting_id (some i) (some j) = i == j

-- ON CONFLICT(day, gateway_key_id, provider, route_family, status_class)
unfoldable pub conflicts : UsageIncrement → UsageIncrement → Bool
conflicts a b =
    a.day =ₜ b.day
    && conflicting_id a.gateway_key_id b.gateway_key_id
    && a.provider =ₜ b.provider
    && a.route_family =ₜ b.route_family
    && a.status_class =ₜ b.status_class

-- The upsert: DO UPDATE of the row in conflict, or a new row.
unfoldable pub upsert : UsageIncrement → List UsageDaily → List UsageDaily
upsert inc [] = record { bucket = inc; request_count = 1 } ∷ []
upsert inc (r ∷ rs) =
    if conflicts r.bucket inc
    then record r { request_count = r.request_count + 1 } ∷ rs
    else r ∷ upsert inc rs

abbrev pub on_day : String → UsageIncrement → UsageIncrement
on_day today inc = record inc { day = if inc.day =ₜ "" then today else inc.day }

-- Increment; `today` is DayUTC of the clock.
unfoldable pub increment :
    String → UsageIncrement → List UsageDaily → Result Error (List UsageDaily)
increment today inc rows =
    if inc.provider =ₜ "" || inc.route_family =ₜ "" || inc.status_class =ₜ ""
    then err fields_required
    else ok (upsert (on_day today inc) rows)

-- What a reader of the table adds up: the requests of every row that a test on its bucket takes.
unfoldable pub requests_where : (UsageIncrement → Bool) → List UsageDaily → ℕ
requests_where test [] = 0
requests_where test (r ∷ rs) =
    (if test r.bucket then r.request_count else 0) + requests_where test rs

same_id : (a b : Option ℕ) → conflicting_id a b ≡ true → a ≡ b
same_id none b h = cc
same_id (some i) none h = cc
same_id (some i) (some j) h = ap some ((==_iff i j).0 h)

conflicts-eq : (a b : UsageIncrement) → conflicts a b ≡ true → a ≡ b
unfolding conflicts
conflicts-eq a b h =
    let d : a.day ≡ b.day = ground (arith, eq_iff a.day b.day) in
    let i : a.gateway_key_id ≡ b.gateway_key_id =
      same_id a.gateway_key_id b.gateway_key_id (ground arith) in
    let p : a.provider ≡ b.provider = ground (arith, eq_iff a.provider b.provider) in
    let f : a.route_family ≡ b.route_family =
      ground (arith, eq_iff a.route_family b.route_family) in
    let c : a.status_class ≡ b.status_class =
      ground (arith, eq_iff a.status_class b.status_class) in
    λ k. record {
      day = d k;
      gateway_key_id = i k;
      provider = p k;
      route_family = f k;
      status_class = c k;
    }

requests_where-upsert :
    (test : UsageIncrement → Bool) (inc : UsageIncrement) (rows : List UsageDaily)
    → requests_where test (upsert inc rows) ≡ requests_where test rows + (if test inc then 1 else 0)
unfolding requests_where upsert
requests_where-upsert test inc [] = ground arith
requests_where-upsert test inc (r ∷ rs) = elim (Bool-cases (conflicts r.bucket inc)) [
  | inl hit ↦ rw hit (ground (arith, ap test (conflicts-eq r.bucket inc hit)))
  | inr miss ↦ rw miss (ground (arith, requests_where-upsert test inc rs))
]

-- Of an increment that is accepted, whatever selection of buckets is added up counts exactly one
-- request more where it takes the increment's bucket, on the day of the clock if none is given, and
-- as many as before elsewhere.
pub requests_where-increment :
    (today : String) (inc : UsageIncrement) (rows rows' : List UsageDaily)
    (test : UsageIncrement → Bool)
    → increment today inc rows ≡ ok rows'
    → requests_where test rows'
      ≡ requests_where test rows + (if test (on_day today inc) then 1 else 0)
unfolding increment
requests_where-increment today inc rows rows' test h =
    let stored : upsert (on_day today inc) rows ≡ rows' = ground arith in
    subst
      (λ kept.
        requests_where test kept
        ≡ requests_where test rows + (if test (on_day today inc) then 1 else 0))
      stored (requests_where-upsert test (on_day today inc) rows)

-- Increments without a gateway key never meet: each adds a row, whatever the table holds.
pub upsert-without_key :
    (inc : UsageIncrement) (rows : List UsageDaily)
    → inc.gateway_key_id ≡ none
    → upsert inc rows ≡ rows ++ record { bucket = inc; request_count = 1 } ∷ []
unfolding upsert conflicts
upsert-without_key inc [] e = refl
upsert-without_key inc (r ∷ rs) e = elim (Bool-cases (conflicts r.bucket inc)) [
  | inl hit ↦ absurd (ground (arith, hit))
  | inr miss ↦ rw miss (ap (◌∷◌ r) (upsert-without_key inc rs e))
]
