-- ===== src/Executor/Retry.antt =====
-- `_claim_is_bound` and `request_execution_retry` of adoption_executor.py: an operator lets an
-- ambiguous submission go on.
use proxmox_cloudstack_sync.Base.{
  ℕ, zero, suc, String, Bool, true, false, ◌&&◌, ◌||◌, not, Option, none, some, List, [], ◌∷◌, ◌==◌,
  is_none, str_eq, holds_text, if◌then◌else◌,
}
use proxmox_cloudstack_sync.Json.{Json, Fields}
use proxmox_cloudstack_sync.Outcome.{
  Outcome, ok, raised, execution_conflict, execution_invalid, no_result_found, value_error,
}
use proxmox_cloudstack_sync.Store.{
  Db, Claim, Execution, ExecutionState, claim_by_id, is_state, reserved, bound, managed,
}
use proxmox_cloudstack_sync.Store.ExecutionState.{
  planned, submission_unknown, deploy_succeeded, start_unknown, verifying,
}
use proxmox_cloudstack_sync.Session.{
  Exec, Commit, pure, lift, raise, guard, when◌then◌otherwise◌, ◌>>=◌, ◌>>◌, query, transact,
  retry_operational,
}
use proxmox_cloudstack_sync.Registry.Validate.{Python, require}
use proxmox_cloudstack_sync.Executor.State.{executor_uuid, same_state, set_execution}
use proxmox_cloudstack_sync.Executor.Commit.{refreshed}
use proxmox_cloudstack_sync.Executor.Client.{Client, load_exact_external_vm, vm_is}
use proxmox_cloudstack_sync.Executor.Observe.{exact_vm}

unfoldable pub claim_is_bound : Execution → Option Claim → Bool
unfolding holds_text
claim_is_bound e none = false
claim_is_bound e (some c) =
    c.generation == e.generation
    && ((is_state c.state bound || is_state c.state managed) && holds_text c.cloudstack_vm_ref e.id)

unfoldable pub is_unknown : ExecutionState → Bool
is_unknown submission_unknown = true
is_unknown start_unknown = true
is_unknown _ = false

-- a row that the session has read before: its object keeps the values of the first query
abbrev pub cached : Claim → Option Claim → Option Claim
cached c none = none
cached c (some row) = some c

-- in "reserved", with no CloudStack identity
unfoldable pub is_unused : Claim → Bool
is_unused c =
    is_state c.state reserved && (is_none c.cloudstack_vm_ref && is_none c.cloudstack_instance_name)

unfoldable pub claim_of_execution : Execution → Option Claim → Outcome Claim
claim_of_execution e none = raised (execution_conflict "execution claim generation changed")
claim_of_execution e (some c) =
    if c.generation == e.generation
    then ok c
    else raised (execution_conflict "execution claim generation changed")

unfoldable pub settled_start : Bool → Claim → Fields → Outcome ExecutionState
unfolding vm_is is_unused
settled_start bound_here c vm =
    if vm_is "running" vm
    then ok verifying
    else if vm_is "stopped" vm && (is_unused c || bound_here)
    then ok deploy_succeeded
    else raised (execution_conflict "ambiguous start cannot be retried safely")

unfoldable pub settled_deployment : Option Fields → Outcome ExecutionState
unfolding vm_is
settled_deployment none = raised (execution_conflict "ambiguous deployment identity is not exact")
settled_deployment (some vm) =
    if vm_is "stopped" vm
    then ok deploy_succeeded
    else raised (execution_conflict "ambiguous deployment is still in progress")

module _ (py : Python) (e : Execution) (plan : Json) where
  -- after a submission whose end is not known
  unfoldable pub retry_deployment : List Fields → Exec ExecutionState
  unfolding exact_vm settled_deployment
  retry_deployment [] = pure planned
  retry_deployment (vm ∷ vms) = do
    found ← lift (exact_vm py e plan (vm ∷ vms))
    lift (settled_deployment found)

  unfoldable pub retry_start_vm : Claim → Option Fields → Exec ExecutionState
  unfolding settled_start claim_is_bound vm_is is_unused
  retry_start_vm c none = raise (execution_conflict "ambiguous start VM identity is not exact")
  retry_start_vm c (some vm) =
      when vm_is "stopped" vm && not (is_unused c)
      then (do
        row ← query (claim_by_id e.claim_id)
        lift (settled_start (claim_is_bound e (cached c row)) c vm))
      otherwise lift (settled_start false c vm)

  unfoldable pub retry_start : Claim → List Fields → Exec ExecutionState
  unfolding exact_vm
  retry_start c vms = do found ← lift (exact_vm py e plan vms); retry_start_vm c found

  -- the state from which the execution goes on
  unfoldable pub next_state : Claim → List Fields → Exec ExecutionState
  unfolding same_state
  next_state c vms =
      when same_state e.state submission_unknown
      then retry_deployment vms
      otherwise retry_start c vms

-- the WHERE of the UPDATE
unfoldable pub retryable : String → ExecutionState → Execution → Bool
unfolding same_state
retryable id expected e =
    str_eq e.id id && (same_state e.state expected && is_none e.worker_lease_id)

unfoldable pub retried_row : ExecutionState → ℕ → Execution → Execution
retried_row next now e = record e { state = next; error_code = none; updated_at = now }

unfoldable pub retry_write : String → ExecutionState → ExecutionState → ℕ → Db → Commit Bool
unfolding retryable retried_row
retry_write id expected next now = set_execution (retryable id expected) (retried_row next now)

module _ (write_guard : Exec (Unit {0})) (id : String) (expected next : ExecutionState) where
  unfoldable pub retry_verdict : Exec Execution → Execution → Exec Execution
  unfolding same_state
  retry_verdict again e =
      when same_state e.state next && is_none e.worker_lease_id
      then pure e
      otherwise (when same_state e.state expected && is_none e.worker_lease_id
          then again
          otherwise (raise (execution_conflict "execution retry raced with another worker")))

  unfoldable pub retry_attempts : ℕ → Exec Execution
  retry_attempts zero = raise (execution_conflict "execution retry CAS limit reached")
  retry_attempts (suc left) = do
    write_guard
    retry_operational (do changed ← transact (retry_write id expected next); pure tt)
    current ← refreshed no_result_found id
    retry_verdict (retry_attempts left) current

unfoldable pub request_execution_retry : Python → Client → Exec (Unit {0}) → Json → Exec Execution
unfolding is_unknown claim_of_execution executor_uuid
request_execution_retry py client write_guard execution_id = do
  id ← lift (executor_uuid py execution_id)
  e ← refreshed (execution_invalid "adoption execution not found") id
  guard (is_unknown e.state) (execution_conflict "execution is not awaiting an explicit retry")
  plan ← lift (require (py.loads e.plan_json) (value_error "JSONDecodeError"))
  vms ← load_exact_external_vm client e.id
  claim ← query (claim_by_id e.claim_id)
  c ← lift (claim_of_execution e claim)
  next ← next_state py e plan c vms
  retry_attempts write_guard e.id e.state next 3
