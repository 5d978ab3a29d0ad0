-- ===== src/Usage/Daily.antt =====
-- `ListDaily` of internal/usage/usage.go. A day is a text, and so is an order of texts by bytes, which
-- is that by code points; a missing gateway key sorts first.
use Prim.Native.Nat.{Ordering}
use Prim.Native.String.{compare}
use code_guda_gateway.Prelude.{
  ◌≡◌, refl, ap, ◌∙◌, inl, inr, ◌+◌, arith, Bool-cases, ℕ, String, Bool, true, false, not, ◌&&◌,
  ◌||◌, Option, none, some, List, [], ◌∷◌, ◌=ₜ◌, ◌==◌, ltb, if◌then◌else◌,
}
use code_guda_gateway.Usage.Counters.{UsageIncrement, UsageDaily, requests_where}

pub record ListFilter : Type 0 where
  pub day : String
  pub from : String
  pub to : String
  pub provider : String
  pub route_family : String
  pub status_class : String

abbrev then_compare : Ordering → Ordering → Ordering
then_compare Ordering.lt o = Ordering.lt
then_compare Ordering.eq o = o
then_compare Ordering.gt o = Ordering.gt

abbrev compare_id : Option ℕ → Option ℕ → Ordering
compare_id none none = Ordering.eq
compare_id none (some j) = Ordering.lt
compare_id (some i) none = Ordering.gt
compare_id (some i) (some j) =
    if ltb i j then Ordering.lt else if i == j then Ordering.eq else Ordering.gt

-- ORDER BY day, gateway_key_id, provider, route_family, status_class
unfoldable pub compare_bucket : UsageIncrement → UsageIncrement → Ordering
compare_bucket a b = then_compare (compare a.day b.day) (
    then_compare (compare_id a.gateway_key_id b.gateway_key_id) (
      then_compare (compare a.provider b.provider) (
        then_compare (compare a.route_family b.route_family)
          (compare a.status_class b.status_class))))

abbrev is_gt : Ordering → Bool
is_gt Ordering.lt = false
is_gt Ordering.eq = false
is_gt Ordering.gt = true

abbrev is_lt : Ordering → Bool
is_lt Ordering.lt = true
is_lt Ordering.eq = false
is_lt Ordering.gt = false

-- A condition of the WHERE clause, which an empty field leaves out.
abbrev unless_empty : String → Bool → Bool
unless_empty field test = field =ₜ "" || test

unfoldable pub is_listed : ListFilter → UsageIncrement → Bool
is_listed f b =
    unless_empty f.day (b.day =ₜ f.day)
    && unless_empty f.from (not (is_lt (compare b.day f.from)))
    && unless_empty f.to (not (is_gt (compare b.day f.to)))
    && unless_empty f.provider (b.provider =ₜ f.provider)
    && unless_empty f.route_family (b.route_family =ₜ f.route_family)
    && unless_empty f.status_class (b.status_class =ₜ f.status_class)

unfoldable pub insert_daily : UsageDaily → List UsageDaily → List UsageDaily
insert_daily x [] = x ∷ []
insert_daily x (y ∷ ys) =
    let rest = insert_daily x ys in
    if is_gt (compare_bucket x.bucket y.bucket) then y ∷ rest else x ∷ y ∷ ys

unfoldable pub list_daily : ListFilter → List UsageDaily → List UsageDaily
list_daily f [] = []
list_daily f (r ∷ rs) =
    let rest = list_daily f rs in if is_listed f r.bucket then insert_daily r rest else rest

requests_where-insert_daily :
    (test : UsageIncrement → Bool) (x : UsageDaily) (rs : List UsageDaily)
    → requests_where test (insert_daily x rs) ≡ requests_where test (x ∷ rs)
unfolding requests_where insert_daily
requests_where-insert_daily test x [] = refl
requests_where-insert_daily test x (y ∷ ys) = ground (arith, requests_where-insert_daily test x ys)

-- A listing adds up to the requests of exactly the buckets that its filter takes.
pub requests_where-list_daily :
    (f : ListFilter) (test : UsageIncrement → Bool) (rs : List UsageDaily)
    → requests_where test (list_daily f rs) ≡ requests_where (λ b. is_listed f b && test b) rs
unfolding requests_where list_daily
requests_where-list_daily f test [] = refl
requests_where-list_daily f test (r ∷ rs) =
    let rest = requests_where-list_daily f test rs in
    elim (Bool-cases (is_listed f r.bucket)) [
      | inl listed ↦ rw listed (
          requests_where-insert_daily test r (list_daily f rs)
          ∙ ap (λ n. (if test r.bucket then r.request_count else 0) + n) rest)
      | inr out ↦ rw out (omega (arith, rest))
    ]
