-- ===== src/Proxy/Log.antt =====
-- internal/proxy/attemptlog.go: the log of attempts, pruned to its newest rows. Rows stand in the
-- order of their ids. Of a row the fields that the proxy fills are modelled.
use code_guda_gateway.Prelude.{
  ℕ, suc, zero, ◌-◌, ◌≤◌, ◌≡◌, subst, String, Bool, not, ◌||◌, Option, none, some, List, [], ◌∷◌,
  ◌++◌, ◌=ₜ◌, ltb, if◌then◌else◌, length, take, drop, trim_space, ℤ, pos, negsuc, pos_part, Result,
  ok, ◌>>◌, require, arith,
}
use mathlib.Core.Option
use code_guda_gateway.Timestamp.{Calendar, Stamp, format}
use code_guda_gateway.Providers.Names.{clamp_limit_offset}
use code_guda_gateway.Providers.Redact.{Patterns, redact}
use code_guda_gateway.Proxy.Forward.{AttemptLog}

pub record LogRow : Type 0 where
  pub id : ℕ
  pub occurred_at : Stamp
  pub attempt : AttemptLog

pub record LogTable : Type 0 where
  pub rows : List LogRow
  pub next_id : ℕ

pub record AttemptLogRepo : Type 0 where
  pub calendar : Calendar
  pub patterns : Patterns
  pub retention : ℕ

pub data LogError : Type 0 where
  request_id_required provider_required route_family_required path_required status_class_required :
      LogError

-- The retention of NewAttemptLogRepo.
abbrev pub retention_of : ℤ → ℕ
retention_of (negsuc n) = 1000
retention_of (pos n) = if ltb n 1 then 1000 else n

abbrev pub is_given : String → Bool
is_given text = not (trim_space text =ₜ "")

unfoldable pub check_row : AttemptLog → Result LogError (Unit {0})
check_row row = do
  require (is_given row.request_id) request_id_required
  require (is_given row.provider) provider_required
  require (is_given row.route_family) route_family_required
  require (is_given row.path) path_required
  require (is_given row.status_class) status_class_required

-- The DELETE statement: the newest rows are kept.
unfoldable pub prune : ℕ → List LogRow → List LogRow
prune retention rows = drop (length rows - retention) rows

abbrev pub redacted_row : Patterns → AttemptLog → AttemptLog
redacted_row p row = record row { message_redacted = Option.map (redact p) row.message_redacted }

-- OccurredAt, or the clock where it is blank.
abbrev pub occurred : AttemptLogRepo → ℕ → Option Stamp → Stamp
occurred r now none = format r.calendar now
occurred r now (some given) = given

unfoldable pub record_log :
    AttemptLogRepo → ℕ → Option Stamp → AttemptLog → LogTable → Result LogError LogTable
unfolding check_row prune
record_log r now given row t = do
  check_row row
  let logged : LogRow = (record {
    id = t.next_id;
    occurred_at = occurred r now given;
    attempt = redacted_row r.patterns row;
  })
  ok (record { rows = prune r.retention (t.rows ++ logged ∷ []); next_id = suc t.next_id })

pub record LogFilter : Type 0 where
  pub request_id : String
  pub limit : ℤ
  pub offset : ℤ

pub record LogPage : Type 0 where
  pub items : List LogRow
  pub limit : ℤ
  pub offset : ℤ
  pub total : ℕ

-- The WHERE clause.
unfoldable pub of_request : String → List LogRow → List LogRow
of_request i [] = []
of_request i (r ∷ rs) =
    let rest = of_request i rs in
    if not (is_given i) || r.attempt.request_id =ₜ i then r ∷ rest else rest

-- ORDER BY id DESC
unfoldable pub newest_first : List LogRow → List LogRow
newest_first [] = []
newest_first (r ∷ rs) = newest_first rs ++ r ∷ []

unfoldable pub list_logs : LogFilter → LogTable → LogPage
list_logs f t =
    let (limit, offset) = clamp_limit_offset f.limit f.offset (pos 50) (pos 200) in
    let matching = of_request f.request_id t.rows in
    record {
      items = take (pos_part limit) (drop (pos_part offset) (newest_first matching));
      limit = limit;
      offset = offset;
      total = length matching;
    }

length-drop : (n : ℕ) (xs : List LogRow) → length (drop n xs) ≡ length xs - n
length-drop zero xs = omega arith
length-drop (suc n) [] = omega arith
length-drop (suc n) (x ∷ xs) = omega (arith, length-drop n xs)

-- However many rows the table had, after an attempt is recorded it has at most `retention`.
pub record_log-length :
    (r : AttemptLogRepo) (now : ℕ) (given : Option Stamp) (row : AttemptLog) (t t' : LogTable)
    → record_log r now given row t ≡ ok t'
    → length t'.rows ≤ r.retention
unfolding record_log prune
record_log-length r now given row t t' h =
    let logged : LogRow = (record {
      id = t.next_id;
      occurred_at = occurred r now given;
      attempt = redacted_row r.patterns row;
    }) in
    let all = t.rows ++ logged ∷ [] in
    let kept : drop (length all - r.retention) all ≡ t'.rows = ground (arith, h) in
    subst (λ rows. length rows ≤ r.retention) kept
      (omega (arith, length-drop (length all - r.retention) all))
