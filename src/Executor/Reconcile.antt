-- ===== src/Executor/Reconcile.antt =====
-- `reconcile_execution` of adoption_executor.py: one step of an execution, under a worker lease.
use proxmox_cloudstack_sync.Base.{ℕ, zero, suc, String, Option, none, some, List, holds_text}
use proxmox_cloudstack_sync.Json.{Json, Fields}
use proxmox_cloudstack_sync.Outcome.{
  execution_invalid, execution_conflict, no_result_found, value_error,
}
use proxmox_cloudstack_sync.Store.{Execution, ExecutionState}
use proxmox_cloudstack_sync.Store.ExecutionState.{
  planned, deploy_submitting, deploy_submitted, submission_unknown, deploy_succeeded,
  start_submitting, start_submitted, start_unknown, verifying, succeeded, cleanup_required,
  cleanup_submitting, cleanup_submitted, cleanup_authorized,
}
use proxmox_cloudstack_sync.Session.{
  Exec, pure, lift, raise, guard, when◌then◌otherwise◌, ◌>>=◌, ◌>>◌, current_time,
}
use proxmox_cloudstack_sync.Registry.Validate.{Python, require}
use proxmox_cloudstack_sync.Executor.Acquire.{acquire_execution}
use proxmox_cloudstack_sync.Executor.Client.{Client, load_exact_external_vm, completed, status_of}
use proxmox_cloudstack_sync.Executor.Commit.{
  refreshed, assert_lease, holds_lease, save, commit_public,
}
use proxmox_cloudstack_sync.Executor.Observe.{
  submission_observed, planned_observed, deployment_observed, failure_observed, start_observed,
  stopped_observed, start_job_observed, cleanup_observed, removal_observed,
}
use proxmox_cloudstack_sync.Executor.Submit.{submit, deployment, start}
use proxmox_cloudstack_sync.Executor.Finalize.{finalize_cleanup_release}

-- `activate(claim_id, generation, execution_id, lease_id)`
abbrev pub Activate : Type 0
Activate = String → ℕ → String → String → Exec (Unit {0})

module _ (py : Python) (client : Client) (activate : Activate) (write_guard : Exec (Unit {0}))
    (lease : String) where
  -- the VMs with the identifier of the execution, while the lease is in force
  unfoldable pub observed_vms : Execution → Exec (List Fields)
  observed_vms e = do vms ← load_exact_external_vm client e.id; assert_lease e.id lease; pure vms

  unfoldable pub job_result : Execution → Option String → Exec ℕ
  unfolding status_of
  job_result e job = do
    result ← client.query_async_job job
    assert_lease e.id lease
    lift (status_of result)

  abbrev pub commit_target : Execution → Execution → Exec Execution
  commit_target = commit_public write_guard lease

  module _ (e : Execution) (plan : Json) where
    unfoldable pub reconcile_submission : Exec Execution
    unfolding submission_observed
    reconcile_submission = do
      vms ← observed_vms e
      target ← lift (submission_observed py e plan vms)
      commit_target e target

    -- a target is committed, and where there is none the other action is taken
    unfoldable pub commit_or : Exec Execution → Option Execution → Exec Execution
    commit_or other none = other
    commit_or other (some target) = commit_target e target

    unfoldable pub reconcile_planned : Exec Execution
    unfolding planned_observed
    reconcile_planned = do
      vms ← observed_vms e
      target ← lift (planned_observed py e plan vms)
      commit_or (submit write_guard lease (deployment py client plan) e) target

    unfoldable pub deploy_job_done : ℕ → Exec Execution
    unfolding deployment_observed failure_observed save
    deploy_job_done zero = commit_target e (save deploy_submitted none e)
    deploy_job_done (suc zero) = do
      vms ← observed_vms e
      target ← lift (deployment_observed py e plan vms)
      commit_target e target
    deploy_job_done (suc (suc n)) = do
      vms ← observed_vms e
      commit_target e (failure_observed e vms)

    unfoldable pub reconcile_deploy_submitted : Exec Execution
    reconcile_deploy_submitted = do status ← job_result e e.deploy_job_id; deploy_job_done status

    unfoldable pub reconcile_start_submission : Exec Execution
    unfolding start_observed
    reconcile_start_submission = do
      vms ← observed_vms e
      target ← lift (start_observed py e plan vms)
      commit_target e target

    unfoldable pub reconcile_deploy_succeeded : Exec Execution
    unfolding stopped_observed
    reconcile_deploy_succeeded = do
      vms ← observed_vms e
      target ← lift (stopped_observed py e plan vms)
      commit_or (submit write_guard lease (start py client plan) e) target

    unfoldable pub reconcile_start_submitted : Exec Execution
    unfolding start_job_observed
    reconcile_start_submitted = do
      status ← job_result e e.start_job_id
      commit_target e (start_job_observed e status)

    -- A fresh session reads the execution that the activation has found verified.
    unfoldable pub activation_done : Exec Execution
    unfolding save
    activation_done = do
      loaded ← refreshed no_result_found e.id
      now ← current_time
      guard (holds_lease lease now loaded)
          (execution_conflict "execution worker lease is not current")
      commit_target loaded (save succeeded none loaded)

    unfoldable pub activation_pending : Exec Execution
    unfolding save holds_text
    activation_pending = do
      loaded ← refreshed no_result_found e.id
      (when holds_text loaded.worker_lease_id lease
          then commit_target loaded (save verifying (some "activation_pending") loaded)
          otherwise (pure loaded))

    unfoldable pub reconcile_verifying : Exec Execution
    reconcile_verifying = do
      done ← completed (activate e.claim_id e.generation e.id lease)
      (when done then activation_done otherwise activation_pending)

    unfoldable pub reconcile_cleanup : Exec Execution
    unfolding cleanup_observed
    reconcile_cleanup = do
      vms ← observed_vms e
      target ← lift (cleanup_observed py e plan vms)
      commit_or (finalize_cleanup_release write_guard e.id lease) target

    unfoldable pub cleanup_job_done : ℕ → Exec Execution
    unfolding removal_observed save
    cleanup_job_done zero = commit_target e (save cleanup_submitted none e)
    cleanup_job_done (suc zero) = do
      vms ← observed_vms e
      commit_or (finalize_cleanup_release write_guard e.id lease) (removal_observed e vms)
    cleanup_job_done (suc (suc n)) =
        commit_target e (save cleanup_required (some "cleanup_job_failed") e)

    unfoldable pub reconcile_cleanup_submitted : Exec Execution
    reconcile_cleanup_submitted = do status ← job_result e e.cleanup_job_id; cleanup_job_done status

    unfoldable pub reconcile_state : ExecutionState → Exec Execution
    reconcile_state deploy_submitting = reconcile_submission
    reconcile_state submission_unknown = reconcile_submission
    reconcile_state planned = reconcile_planned
    reconcile_state deploy_submitted = reconcile_deploy_submitted
    reconcile_state start_submitting = reconcile_start_submission
    reconcile_state start_unknown = reconcile_start_submission
    reconcile_state deploy_succeeded = reconcile_deploy_succeeded
    reconcile_state start_submitted = reconcile_start_submitted
    reconcile_state verifying = reconcile_verifying
    reconcile_state cleanup_submitting = reconcile_cleanup
    reconcile_state cleanup_authorized = reconcile_cleanup
    reconcile_state cleanup_submitted = reconcile_cleanup_submitted
    reconcile_state _ = raise (execution_invalid "unknown execution state")

  unfoldable pub reconcile_leased : Option Execution → Exec (Option Execution)
  reconcile_leased none = pure none
  reconcile_leased (some e) = do
    plan ← lift (require (py.loads e.plan_json) (value_error "JSONDecodeError"))
    result ← reconcile_state e plan e.state
    pure (some result)

  unfoldable pub reconcile_execution : Json → ℕ → Exec (Option Execution)
  reconcile_execution execution_id lease_seconds = do
    acquired ← acquire_execution py write_guard lease execution_id lease_seconds
    reconcile_leased acquired
