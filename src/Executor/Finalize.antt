-- ===== src/Executor/Finalize.antt =====
-- `_finalize_cleanup_release` of adoption_executor.py: the claim of a VM that is gone is released,
-- and its execution completed, in one transaction.
use proxmox_cloudstack_sync.Base.{
  ℕ, zero, suc, String, Bool, true, false, ◌&&◌, ◌||◌, Option, none, some, ◌==◌, is_none, str_eq,
  holds_text, if◌then◌else◌,
}
use proxmox_cloudstack_sync.Outcome.{
  Outcome, ok, raised, execution_conflict, execution_invalid, no_result_found,
}
use proxmox_cloudstack_sync.Store.{
  Db, Claim, Execution, ExecutionState, claim_by_id, is_state, reserved, released, cleanup,
  execution_by_id,
}
use proxmox_cloudstack_sync.Store.ExecutionState.{
  cleanup_submitting, cleanup_submitted, cleanup_authorized, rolled_back,
}
use proxmox_cloudstack_sync.Store.Rows.{update, count}
use proxmox_cloudstack_sync.Session.{
  Exec, Commit, committed, rolled_back as undone, pure, lift, raise, guard, when◌then◌otherwise◌,
  ◌>>=◌, ◌>>◌, query, current_time, transact, attempt,
}
use proxmox_cloudstack_sync.Registry.Validate.{require}
use proxmox_cloudstack_sync.Executor.State.{same_state, not_past}
use proxmox_cloudstack_sync.Executor.Commit.{refreshed}

-- `state in {"cleanup_submitting", "cleanup_authorized", "cleanup_submitted"}`
unfoldable pub is_cleaning : ExecutionState → Bool
is_cleaning cleanup_submitting = true
is_cleaning cleanup_authorized = true
is_cleaning cleanup_submitted = true
is_cleaning _ = false

-- in "reserved" or "cleanup", with no CloudStack identity
unfoldable pub is_unbound : Claim → Bool
is_unbound c =
    (is_state c.state reserved || is_state c.state cleanup)
    && (is_none c.cloudstack_vm_ref && is_none c.cloudstack_instance_name)

unfoldable pub is_releasable : String → ℕ → Execution → Claim → Bool
unfolding is_cleaning is_unbound holds_text not_past
is_releasable lease now e c =
    is_cleaning e.state
    && (holds_text e.worker_lease_id lease
        && (not_past now e.worker_lease_expires_at && is_unbound c))

-- the WHERE of the UPDATE of the claim
unfoldable pub releasable : String → ℕ → Claim → Bool
unfolding is_unbound
releasable claim_id generation c =
    str_eq c.id claim_id && (c.generation == generation && is_unbound c)

unfoldable pub released_row : ℕ → Claim → Claim
released_row now c = record c { state = released; updated_at = now }

-- the WHERE of the UPDATE of the execution
unfoldable pub completable : String → String → ℕ → String → Execution → Bool
unfolding is_cleaning holds_text
completable id claim_id generation lease e =
    str_eq e.id id
    && (str_eq e.claim_id claim_id
        && (e.generation == generation
            && (is_cleaning e.state && holds_text e.worker_lease_id lease)))

unfoldable pub completed_row : ℕ → Execution → Execution
completed_row now e = record e {
  state = rolled_back;
  error_code = none;
  worker_lease_id = none;
  worker_lease_expires_at = none;
  updated_at = now;
}

-- Two updates in one transaction, committed if each changed one row.
unfoldable pub both_rows :
    (Claim → Bool)
    → (Claim → Claim)
    → (Execution → Bool)
    → (Execution → Execution)
    → Db
    → Commit Bool
both_rows claim_test claim_values test values db =
    if count claim_test db.claims == 1 && count test db.executions == 1
    then committed true (record db {
      claims = update claim_test claim_values db.claims;
      executions = update test values db.executions;
    })
    else undone false

unfoldable pub release_write : Execution → String → String → ℕ → Db → Commit Bool
unfolding releasable released_row completable completed_row both_rows
release_write e claim_id lease now =
    both_rows (releasable claim_id e.generation) (released_row now)
      (completable e.id claim_id e.generation lease) (completed_row now)

unfoldable pub claim_of : Execution → Option Claim → Outcome Claim
claim_of e none = raised (execution_conflict "cleanup claim generation changed")
claim_of e (some c) =
    if c.generation == e.generation
    then ok c
    else raised (execution_conflict "cleanup claim generation changed")

module _ (write_guard : Exec (Unit {0})) (id lease : String) where
  -- The loop goes on where the transaction failed with an error that may be retried.
  unfoldable pub release_verdict : Exec Execution → Option Bool → Exec Execution
  release_verdict again none = again
  release_verdict again (some done) =
      when done
      then refreshed no_result_found id
      otherwise (raise (execution_conflict "cleanup release lost a concurrent transition"))

  unfoldable pub try_release : Execution → Claim → Exec (Option Bool)
  try_release e c = attempt (do done ← transact (release_write e c.id lease); pure (some done))

  unfoldable pub release_checked : Exec Execution → Execution → Claim → ℕ → Exec Execution
  unfolding same_state
  release_checked again e c now =
      when same_state e.state rolled_back && is_state c.state released then pure e otherwise (do
        guard (is_releasable lease now e c)
            (execution_conflict "unbound claim cannot be released after cleanup")
        write_guard
        done ← try_release e c
        release_verdict again done)

  unfoldable pub release_attempts : ℕ → Exec Execution
  unfolding claim_of
  release_attempts zero = raise (execution_conflict "cleanup release CAS limit reached")
  release_attempts (suc left) = do
    row ← query (execution_by_id id)
    e ← lift (require row (execution_invalid "adoption execution not found"))
    claim ← query (claim_by_id e.claim_id)
    c ← lift (claim_of e claim)
    now ← current_time
    release_checked (release_attempts left) e c now

  unfoldable pub finalize_cleanup_release : Exec Execution
  finalize_cleanup_release = release_attempts 3
