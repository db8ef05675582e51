-- ===== src/Executor/State.antt =====
-- The states of an execution in adoption_executor.py, its identifier, and conditional writes on its
-- row.
use proxmox_cloudstack_sync.Base.{
  ℕ, String, Bool, true, false, ◌&&◌, Option, none, some, ltb, leb, ◌==◌, str_eq, holds_text,
  if◌then◌else◌,
}
use proxmox_cloudstack_sync.Json.{Json, as_text, same_codes, codes, strip}
use proxmox_cloudstack_sync.Outcome.{Outcome, ok, raised, execution_invalid}
use proxmox_cloudstack_sync.Store.{Db, Execution, ExecutionState}
use proxmox_cloudstack_sync.Store.ExecutionState.{
  planned, deploy_submitting, deploy_submitted, submission_unknown, deploy_succeeded,
  start_submitting, start_submitted, start_unknown, verifying, succeeded, failed, cleanup_required,
  cleanup_submitting, cleanup_submitted, cleanup_authorized, rolled_back,
}
use proxmox_cloudstack_sync.Store.Rows.{update, count}
use proxmox_cloudstack_sync.Session.{Commit, committed, rolled_back as undone}
use proxmox_cloudstack_sync.Registry.Validate.{Python}

-- `ACTIVE_STATES`
unfoldable pub is_active : ExecutionState → Bool
is_active succeeded = false
is_active failed = false
is_active cleanup_required = false
is_active rolled_back = false
is_active _ = true

-- the text of the column
unfoldable pub state_text : ExecutionState → String
state_text planned = "planned"
state_text deploy_submitting = "deploy_submitting"
state_text deploy_submitted = "deploy_submitted"
state_text submission_unknown = "submission_unknown"
state_text deploy_succeeded = "deploy_succeeded"
state_text start_submitting = "start_submitting"
state_text start_submitted = "start_submitted"
state_text start_unknown = "start_unknown"
state_text verifying = "verifying"
state_text succeeded = "succeeded"
state_text failed = "failed"
state_text cleanup_required = "cleanup_required"
state_text cleanup_submitting = "cleanup_submitting"
state_text cleanup_submitted = "cleanup_submitted"
state_text cleanup_authorized = "cleanup_authorized"
state_text rolled_back = "rolled_back"

unfoldable pub same_state : ExecutionState → ExecutionState → Bool
unfolding state_text
same_state s t = str_eq (state_text s) (state_text t)

-- `_canonical_uuid`
unfoldable pub executor_uuid : Python → Json → Outcome String
unfolding as_text holds_text strip same_codes
executor_uuid py value = elim (as_text value) [
  | none ↦ raised (execution_invalid "execution identity must be a canonical UUID")
  | some s ↦
      if same_codes (codes s) (strip (codes s)) && holds_text (py.uuid_str s) s
      then ok s
      else raised (execution_invalid "execution identity must be a canonical UUID")
]

-- `expires_at < now`, which NULL is not
unfoldable pub lapsed : ℕ → Option ℕ → Bool
lapsed now none = false
lapsed now (some t) = ltb t now

-- `expires_at >= now`, which NULL is not
unfoldable pub not_past : ℕ → Option ℕ → Bool
not_past now none = false
not_past now (some t) = leb now t

abbrev pub executions_updated : (Execution → Bool) → (Execution → Execution) → Db → Db
executions_updated test values db = record db { executions = update test values db.executions }

-- `UPDATE … WHERE …`, committed if one row was changed and rolled back if not
abbrev pub set_execution : (Execution → Bool) → (Execution → Execution) → Db → Commit Bool
set_execution test values db =
    if count test db.executions == 1
    then committed true (executions_updated test values db)
    else undone false
