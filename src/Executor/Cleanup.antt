-- ===== src/Executor/Cleanup.antt =====
-- `request_execution_cleanup` of adoption_executor.py: the removal of a VM that CloudStack has made
-- for a claim which is not bound.
use proxmox_cloudstack_sync.Base.{
  ℕ, zero, suc, String, Bool, true, false, ◌&&◌, Option, none, some, List, [], ◌∷◌, ◌==◌, is_none,
  str_eq, holds_text, if◌then◌else◌,
}
use proxmox_cloudstack_sync.Json.{Json, Fields, get, as_text}
use proxmox_cloudstack_sync.Outcome.{
  Outcome, ok, raised, execution_conflict, execution_invalid, no_result_found, object_deleted,
  value_error,
}
use proxmox_cloudstack_sync.Store.{Db, Claim, Execution, claim_by_id}
use proxmox_cloudstack_sync.Store.ExecutionState.{
  cleanup_required, cleanup_submitting, cleanup_submitted,
}
use proxmox_cloudstack_sync.Session.{
  Exec, Commit, pure, lift, raise, guard, when◌then◌otherwise◌, ◌>>=◌, ◌>>◌, query, transact,
  attempt,
}
use proxmox_cloudstack_sync.Registry.Validate.{Python, require}
use proxmox_cloudstack_sync.Executor.State.{executor_uuid, same_state, set_execution}
use proxmox_cloudstack_sync.Executor.Commit.{refreshed, flush}
use proxmox_cloudstack_sync.Executor.Match.{vm_matches_plan}
use proxmox_cloudstack_sync.Executor.Client.{Client, load_exact_external_vm, vm_is, caught, job_of}
use proxmox_cloudstack_sync.Executor.Finalize.{is_unbound}

-- the WHERE of the UPDATE that announces the removal
unfoldable pub removable : String → Execution → Bool
unfolding same_state
removable id e =
    str_eq e.id id && (same_state e.state cleanup_required && is_none e.worker_lease_id)

unfoldable pub removing_row : String → String → ℕ → Execution → Execution
removing_row id instance_name now e = record e {
  state = cleanup_submitting;
  error_code = none;
  cloudstack_vm_ref = some id;
  cloudstack_instance_name = some instance_name;
  updated_at = now;
}

unfoldable pub removing_write : String → String → ℕ → Db → Commit Bool
unfolding removable removing_row
removing_write id instance_name now =
    set_execution (removable id) (removing_row id instance_name now)

-- Whether this call has announced the removal, or an error has hidden whether it has.
pub data Announcement : Type 0 where
  won lost retried : Announcement

abbrev pub announcement : Option Bool → Announcement
announcement (some true) = won
announcement (some false) = lost
announcement none = retried

unfoldable pub is_removing : String → String → Execution → Bool
unfolding same_state holds_text
is_removing id instance_name e =
    same_state e.state cleanup_submitting
    && (holds_text e.cloudstack_vm_ref id && holds_text e.cloudstack_instance_name instance_name)

abbrev pub was_retried : Announcement → Bool
was_retried retried = true
was_retried _ = false

-- the claim, still unbound
unfoldable pub unbound_claim : Execution → Option Claim → Outcome Claim
unfolding is_unbound
unbound_claim e none = raised (execution_conflict "cleanup is allowed only before claim binding")
unbound_claim e (some c) =
    if (c.generation == e.generation) && is_unbound c
    then ok c
    else raised (execution_conflict "cleanup is allowed only before claim binding")

module _ (py : Python) where
  -- the name of the stopped VM that is to be removed; its NICs may differ from the plan
  unfoldable pub removable_vm : Execution → Json → List Fields → Outcome String
  unfolding vm_matches_plan vm_is as_text get
  removable_vm e plan (vm ∷ []) = elim (vm_matches_plan py vm e plan true) [
    | raised x ↦ raised x
    | ok false ↦ raised (execution_conflict "cleanup VM identity is not exact")
    | ok true ↦
        if vm_is "stopped" vm
        then elim (as_text (get "instancename" vm)) [
          | none ↦ raised (execution_invalid "cleanup VM instance name is missing")
          | some s ↦
              if str_eq s ""
              then raised (execution_invalid "cleanup VM instance name is missing")
              else ok s
        ]
        else raised (execution_conflict "cleanup VM is not stopped")
  ]
  removable_vm e plan _ = raised (execution_conflict "cleanup VM identity is not exact")

module _ (client : Client) (write_guard : Exec (Unit {0})) (id instance_name : String) where
  unfoldable pub removal_answered : Execution → Option Json → Exec Execution
  unfolding job_of
  removal_answered e none = do
    write_guard
    flush e
        (record e { state = cleanup_submitting; error_code = some "cleanup_submission_unknown" })
    refreshed object_deleted id
  removal_answered e (some response) = do
    write_guard
    job ← lift (job_of response)
    flush e (elim job [
      | none ↦ record e { state = cleanup_submitting; error_code = some "cleanup_job_id_missing" }
      | some j ↦ record e { state = cleanup_submitted; cleanup_job_id = some j }
    ])
    refreshed object_deleted id

  -- after the announcement
  unfoldable pub submit_removal : Exec Execution
  submit_removal = do
    e ← refreshed no_result_found id
    write_guard
    response ← caught (client.destroy_virtual_machine id)
    removal_answered e response

  unfoldable pub removal_verdict : Exec Execution → Announcement → Execution → Exec Execution
  unfolding is_removing same_state
  removal_verdict again how e =
      when is_removing id instance_name e
      then (when was_retried how
          then pure e
          otherwise (raise (execution_conflict "cleanup was started concurrently")))
      otherwise (when same_state e.state cleanup_required && is_none e.worker_lease_id
          then again
          otherwise (raise (execution_conflict "cleanup was started concurrently")))

  unfoldable pub after_announcement : Exec Execution → Announcement → Exec Execution
  after_announcement again won = submit_removal
  after_announcement again how = do
    current ← refreshed no_result_found id
    removal_verdict again how current

  unfoldable pub removal_attempts : ℕ → Exec Execution
  removal_attempts zero = raise (execution_conflict "cleanup submission CAS limit reached")
  removal_attempts (suc left) = do
    write_guard
    done ← attempt (do changed ← transact (removing_write id instance_name); pure (some changed))
    after_announcement (removal_attempts left) (announcement done)

unfoldable pub request_execution_cleanup : Python → Client → Exec (Unit {0}) → Json → Exec Execution
unfolding executor_uuid same_state unbound_claim removable_vm
request_execution_cleanup py client write_guard execution_id = do
  id ← lift (executor_uuid py execution_id)
  e ← refreshed (execution_invalid "adoption execution not found") id
  guard (same_state e.state cleanup_required)
      (execution_conflict "execution does not require cleanup")
  claim ← query (claim_by_id e.claim_id)
  c ← lift (unbound_claim e claim)
  plan ← lift (require (py.loads e.plan_json) (value_error "JSONDecodeError"))
  vms ← load_exact_external_vm client e.id
  instance_name ← lift (removable_vm py e plan vms)
  removal_attempts client write_guard id instance_name 3
