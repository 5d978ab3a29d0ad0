-- ===== src/Providers/Keys/State.antt =====
-- internal/providers/keys.go: the operations that change an endpoint's routing state and counters.
-- Those that return a `Result` report a missing row; the others do nothing then.
use code_guda_gateway.Prelude.{ℕ, ◌+◌, String, Bool, true, false, Option, none, some, Result}
use mathlib.Core.Option
use code_guda_gateway.Timestamp.{Stamp, format}
use code_guda_gateway.Providers.Names.{Error}
use code_guda_gateway.Providers.Redact.{redact}
use code_guda_gateway.Providers.KeyTable.{KeyRow, KeyTable, update, update_existing}
use code_guda_gateway.Providers.Keys.{KeyRepo}

pub record LastEvent : Type 0 where
  pub source : String
  pub status_class : String
  pub http_status : Option ℕ
  pub message : String

-- COALESCE
abbrev pub coalesce : Option Stamp → Option Stamp → Option Stamp
coalesce none old = old
coalesce (some new) old = some new

-- last_failed_at is written only with a cooldown.
abbrev pub failed_at : Option ℕ → Stamp → Option Stamp
failed_at none now = none
failed_at (some until) now = some now

module _ (repo : KeyRepo) (now : ℕ) where
  abbrev pub now_text : Stamp
  now_text = format repo.calendar now

  unfoldable pub set_enabled : Bool → ℕ → KeyTable → KeyTable
  set_enabled on i = update i (λ r. record r { enabled = on; updated_at = now_text })

  unfoldable pub disable : ℕ → KeyTable → KeyTable
  unfolding set_enabled
  disable = set_enabled false

  unfoldable pub enable : ℕ → KeyTable → KeyTable
  unfolding set_enabled
  enable = set_enabled true

  unfoldable pub reset_cooldown : ℕ → KeyTable → Result Error KeyTable
  reset_cooldown i = update_existing i (λ r. record r {
    cooldown_until = none;
    cooldown_reason = none;
    last_failed_at = none;
    updated_at = now_text;
  })

  unfoldable pub reset_selection : ℕ → KeyTable → Result Error KeyTable
  reset_selection i =
      update_existing i (λ r. record r { last_failed_at = none; updated_at = now_text })

  unfoldable pub demote_to_end : ℕ → KeyTable → Result Error KeyTable
  demote_to_end i =
      update_existing i (λ r. record r { last_failed_at = some now_text; updated_at = now_text })

  unfoldable pub archive : ℕ → KeyTable → Result Error KeyTable
  archive i =
      update_existing i
        (λ r. record r { enabled = false; archived_at = some now_text; updated_at = now_text })

  unfoldable pub restore_archived : ℕ → KeyTable → Result Error KeyTable
  restore_archived i =
      update_existing i
        (λ r. record r { enabled = false; archived_at = none; updated_at = now_text })

  unfoldable pub mark_last_event : ℕ → LastEvent → KeyTable → KeyTable
  mark_last_event i ev = update i (λ r. record r {
    last_event_at = some now_text;
    last_event_source = some ev.source;
    last_event_status_class = some ev.status_class;
    last_event_http_status = ev.http_status;
    last_event_message_redacted = some (redact repo.patterns ev.message);
    updated_at = now_text;
  })

  abbrev pub succeeded : KeyRow → KeyRow
  succeeded r = record r {
    last_success_at = some now_text;
    consecutive_failures = 0;
    last_failed_at = none;
    updated_at = now_text;
  }

  unfoldable pub mark_success : ℕ → KeyTable → KeyTable
  mark_success i = update i succeeded

  abbrev pub failed : ℕ → String → Option ℕ → Option String → KeyRow → KeyRow
  failed status msg until reason r = record r {
    last_error_at = some now_text;
    last_error_status = some status;
    last_error_message_redacted = some (redact repo.patterns msg);
    consecutive_failures = r.consecutive_failures + 1;
    total_failures = r.total_failures + 1;
    cooldown_until = Option.map (format repo.calendar) until;
    cooldown_reason = reason;
    last_failed_at = coalesce (failed_at until now_text) r.last_failed_at;
    updated_at = now_text;
  }

  unfoldable pub mark_failure_with_cooldown :
      ℕ → ℕ → String → Option ℕ → Option String → KeyTable → KeyTable
  mark_failure_with_cooldown i status msg until reason = update i (failed status msg until reason)

  unfoldable pub mark_failure : ℕ → ℕ → String → KeyTable → KeyTable
  unfolding mark_failure_with_cooldown
  mark_failure i status msg = mark_failure_with_cooldown i status msg none none
