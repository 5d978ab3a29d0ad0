-- ===== src/Audit.antt =====
-- internal/audit/audit.go: the log of administrative actions. Its one pattern is matched by hand here;
-- strings.ToLower and the patterns of the redaction are parameters. A text's `len` counts bytes.
pub mod Privacy
pub mod Recent
use Prim.Native.Char.{Char, code}
use Prim.Native.String
use Prim.Native.String.{String, [], ◌∷◌, len}
use code_guda_gateway.Prelude.{
  ℕ, zero, suc, ◌+◌, Bool, true, false, not, ◌&&◌, ◌||◌, Option, none, some, List, [], ◌∷◌, ◌++◌,
  ◌==◌, ◌=ₜ◌, ltb, leb, if◌then◌else◌, ℤ, pos, pos_part, ltb_int, leb_int, length, take, drop,
  trim_space, contains_text, Result, ok, err, ◌>>◌, require,
}
use code_guda_gateway.Timestamp.{Stamp, Calendar, format, lt_bytes}
use code_guda_gateway.Providers.Redact.{Patterns, redact}

pub record AuditEvent : Type 0 where
  pub actor_kind : String
  pub actor_id : String
  pub action : String
  pub target_kind : String
  pub target_id : String
  pub detail : String
  pub client_ip : String

pub record StoredAuditEvent : Type 0 where
  pub id : ℕ
  pub occurred_at : Stamp
  pub actor_kind : String
  pub actor_id : Option String
  pub action : String
  pub target_kind : Option String
  pub target_id : Option String
  pub detail_redacted : String
  pub client_ip_redacted : Option String

-- The table audit_events, in the order of the ids.
pub record AuditTable : Type 0 where
  pub rows : List StoredAuditEvent
  pub next_id : ℕ

-- An empty text or time is no condition.
pub record ListFilter : Type 0 where
  pub action : String
  pub actor_kind : String
  pub from : Stamp
  pub until : Stamp
  pub limit : ℤ
  pub offset : ℤ

pub record AuditRepo : Type 0 where
  pub calendar : Calendar
  pub patterns : Patterns
  pub to_lower : String → String

pub data AuditError : Type 0 where
  action_required bad_limit : AuditError

-- ContainsAny(detail, "{}\n\r")
unfoldable pub contains_any : (ℕ → Bool) → String → Bool
contains_any p [] = false
contains_any p (c ∷ s) = if p (code c) then true else contains_any p s

abbrev is_brace_or_break : ℕ → Bool
is_brace_or_break c = c == b'{' || c == b'}' || c == 10 || c == 13

abbrev is_lower : ℕ → Bool
is_lower c = leb b'a' c && leb c b'z'

abbrev is_name_char : ℕ → Bool
is_name_char c = is_lower c || (leb b'0' c && leb c b'9') || c == b'_'

-- What follows `[a-z0-9_]*=`.
unfoldable pub after_name : String → Option String
after_name [] = none
after_name (c ∷ s) =
    let rest = after_name s in
    if code c == b'=' then some s else if is_name_char (code c) then rest else none

-- `[^{}\n]{1,64}` to the end of the text, with `most` characters to come.
unfoldable pub is_value : ℕ → String → Bool
is_value most [] = true
is_value zero (c ∷ s) = false
is_value (suc most) (c ∷ s) =
    not (code c == b'{' || code c == b'}' || code c == 10) && is_value most s

abbrev matches_value : Option String → Bool
matches_value none = false
matches_value (some value) = not (value =ₜ "") && is_value 64 value

-- auditDetailSegment
unfoldable pub is_segment : String → Bool
unfolding after_name is_value
is_segment [] = false
is_segment (c ∷ s) = is_lower (code c) && matches_value (after_name s)

abbrev prepend_first : Char → List String → List String
prepend_first c [] = (c ∷ "") ∷ []
prepend_first c (w ∷ ws) = (c ∷ w) ∷ ws

-- strings.Split by one character
unfoldable pub split_on : ℕ → String → List String
split_on sep [] = "" ∷ []
split_on sep (c ∷ s) =
    let rest = split_on sep s in if code c == sep then "" ∷ rest else prepend_first c rest

unfoldable pub trimmed_chunks : List String → List String
trimmed_chunks [] = []
trimmed_chunks (w ∷ ws) =
    let rest = trimmed_chunks ws in if trim_space w =ₜ "" then rest else trim_space w ∷ rest

unfoldable pub split_audit_detail_parts : String → List String
unfolding split_on trimmed_chunks
split_audit_detail_parts raw =
    let detail = trim_space raw in
    if detail =ₜ ""
    then []
    else if contains_text detail ";"
    then trimmed_chunks (split_on b';' detail)
    else if contains_text detail ","
    then trimmed_chunks (split_on b',' detail)
    else detail ∷ []

abbrev all_segments : List String → Bool
all_segments [] = true
all_segments (w ∷ ws) = is_segment w && all_segments ws

abbrev some_segments : List String → Bool
some_segments [] = false
some_segments (w ∷ ws) = is_segment w && all_segments ws

abbrev audit_detail_max_len : ℕ
audit_detail_max_len = 80

unfoldable pub is_categorical_audit_detail : (String → String) → String → Bool
unfolding contains_any split_audit_detail_parts is_segment
is_categorical_audit_detail to_lower detail =
    let lower = to_lower detail in
    if ltb audit_detail_max_len (len detail)
    then false
    else if contains_any is_brace_or_break detail
    then false
    else if contains_text lower "request body"
        || contains_text lower "\"messages\""
        || contains_text lower "prompt"
        || contains_text lower "\"content\""
    then false
    else some_segments (split_audit_detail_parts detail)

unfoldable pub sanitize_audit_detail : AuditRepo → String → String → String
unfolding is_categorical_audit_detail
sanitize_audit_detail r detail action =
    if detail =ₜ ""
    then ""
    else if not (is_categorical_audit_detail r.to_lower detail)
    then if action =ₜ "" then "action_recorded" else action
    else redact r.patterns detail

-- Four parts keep the first.
abbrev pub coarse_ip : List String → String
coarse_ip (a ∷ b ∷ c ∷ d ∷ []) = String.◌++◌ a ".x.x.x"
coarse_ip _ = "ip"

unfoldable pub redact_client_ip : String → String
unfolding split_on
redact_client_ip raw =
    let ip = trim_space raw in
    if ip =ₜ "" then "" else if contains_text ip ":" then "ipv6" else coarse_ip (split_on b'.' ip)

abbrev null_string : String → Option String
null_string s = if s =ₜ "" then none else some s

abbrev stored_event : AuditRepo → ℕ → ℕ → AuditEvent → StoredAuditEvent
stored_event r now id ev = record {
  id = id;
  occurred_at = format r.calendar now;
  actor_kind = if ev.actor_kind =ₜ "" then "system" else ev.actor_kind;
  actor_id = null_string ev.actor_id;
  action = ev.action;
  target_kind = null_string ev.target_kind;
  target_id = null_string ev.target_id;
  detail_redacted = sanitize_audit_detail r ev.detail ev.action;
  client_ip_redacted = null_string (redact_client_ip ev.client_ip);
}

-- Record
unfoldable pub record_event : AuditRepo → ℕ → AuditEvent → AuditTable → Result AuditError AuditTable
unfolding sanitize_audit_detail redact_client_ip
record_event r now ev t = do
  require (not (ev.action =ₜ "")) action_required
  ok (record { rows = t.rows ++ stored_event r now t.next_id ev ∷ []; next_id = suc t.next_id })

abbrev given_stamp : Stamp → Bool
given_stamp [] = false
given_stamp (b ∷ bytes) = true

-- The WHERE clause.
unfoldable pub matches : ListFilter → StoredAuditEvent → Bool
matches f e =
    (f.action =ₜ "" || e.action =ₜ f.action)
    && (f.actor_kind =ₜ "" || e.actor_kind =ₜ f.actor_kind)
    && (not (given_stamp f.from) || not (lt_bytes e.occurred_at f.from))
    && (not (given_stamp f.until) || not (lt_bytes f.until e.occurred_at))

unfoldable pub matching : ListFilter → List StoredAuditEvent → List StoredAuditEvent
unfolding matches
matching f [] = []
matching f (e ∷ es) = let rest = matching f es in if matches f e then e ∷ rest else rest

-- List: LIMIT and OFFSET only with a limit.
unfoldable pub list_events : ListFilter → AuditTable → List StoredAuditEvent
unfolding matching
list_events f t =
    let found = matching f t.rows in
    if ltb_int (pos 0) f.limit
    then take (pos_part f.limit) (drop (pos_part f.offset) found)
    else found

-- ORDER BY id DESC, and the reversal in place
unfoldable pub reversed : List StoredAuditEvent → List StoredAuditEvent
reversed [] = []
reversed (e ∷ es) = reversed es ++ e ∷ []

-- ListRecent
unfoldable pub list_recent : ℤ → AuditTable → Result AuditError (List StoredAuditEvent)
unfolding reversed
list_recent limit t = do
  require (leb_int (pos 1) limit) bad_limit
  ok (reversed (take (pos_part limit) (reversed t.rows)))
