-- ===== src/Executor/Observe.antt =====
-- `reconcile_execution` of adoption_executor.py: what it makes of the VMs and jobs that CloudStack
-- shows. The result is the row that is to be committed.
use proxmox_cloudstack_sync.Base.{
  ℕ, zero, suc, String, false, Option, none, some, List, [], ◌∷◌, str_eq, if◌then◌else◌,
}
use proxmox_cloudstack_sync.Json.{Json, Fields, get, as_text}
use proxmox_cloudstack_sync.Outcome.{Outcome, ok}
use proxmox_cloudstack_sync.Store.{Execution}
use proxmox_cloudstack_sync.Store.ExecutionState.{
  submission_unknown, deploy_succeeded, start_submitted, start_unknown, verifying, failed,
  cleanup_required, cleanup_submitting,
}
use proxmox_cloudstack_sync.Registry.Validate.{Python, ◌>>=◌}
use proxmox_cloudstack_sync.Executor.Match.{vm_matches_plan}
use proxmox_cloudstack_sync.Executor.Client.{vm_is}
use proxmox_cloudstack_sync.Executor.Commit.{save}

-- `_save(execution, state="deploy_succeeded", cloudstack_vm_ref=…, cloudstack_instance_name=…)`
unfoldable pub deployed : Fields → Execution → Execution
unfolding as_text get save
deployed vm e = record (save deploy_succeeded none e) {
  cloudstack_vm_ref = some e.id;
  cloudstack_instance_name = as_text (get "instancename" vm);
}

-- `execution.error_code or "cleanup_pending_unknown_job"`
unfoldable pub pending_code : Option String → String
pending_code none = "cleanup_pending_unknown_job"
pending_code (some s) = if str_eq s "" then "cleanup_pending_unknown_job" else s

module _ (e : Execution) where
  unfoldable pub stopped_or_unknown : Fields → Execution
  unfolding vm_is deployed save
  stopped_or_unknown vm =
      if vm_is "stopped" vm
      then deployed vm e
      else save submission_unknown (some "deploy_vm_not_yet_stopped") e

  unfoldable pub identified : Option Fields → Execution
  unfolding save stopped_or_unknown
  identified none = save cleanup_required (some "cloudstack_vm_identity_mismatch") e
  identified (some vm) = stopped_or_unknown vm

  -- in "deploy_submitted", after the job has failed
  unfoldable pub failure_observed : List Fields → Execution
  unfolding save
  failure_observed [] = save failed (some "deploy_job_failed") e
  failure_observed (vm ∷ vms) = save cleanup_required (some "deploy_job_failed_with_vm") e

  -- in "start_submitted", by the status of the job
  unfoldable pub start_job_observed : ℕ → Execution
  unfolding save
  start_job_observed zero = save start_submitted none e
  start_job_observed (suc zero) = save verifying none e
  start_job_observed (suc (suc n)) = save start_unknown (some "start_job_failed") e

  -- in "cleanup_submitted", after the job has succeeded
  unfoldable pub removal_observed : List Fields → Option Execution
  unfolding save
  removal_observed [] = none
  removal_observed (vm ∷ vms) =
      some (save cleanup_required (some "cleanup_job_succeeded_but_vm_present") e)

module _ (py : Python) (e : Execution) (plan : Json) where
  -- `len(vms) == 1 and _vm_matches_plan(vms[0], execution, plan)`, and the VM
  unfoldable pub exact_vm : List Fields → Outcome (Option Fields)
  unfolding vm_matches_plan
  exact_vm (vm ∷ []) = do
    matched ← vm_matches_plan py vm e plan false
    ok (if matched then some vm else none)
  exact_vm _ = ok none

  -- in "deploy_submitting" and "submission_unknown"
  unfoldable pub submission_observed : List Fields → Outcome Execution
  unfolding exact_vm save identified
  submission_observed [] = ok (save submission_unknown (some "deploy_submission_unknown") e)
  submission_observed (vm ∷ []) = do found ← exact_vm (vm ∷ []); ok (identified e found)
  submission_observed (vm ∷ other ∷ vms) =
      ok (save cleanup_required (some "cloudstack_vm_ambiguous") e)

  -- in "planned", where there is none if no VM exists and the deployment is to be submitted
  unfoldable pub planned_observed : List Fields → Outcome (Option Execution)
  unfolding exact_vm identified
  planned_observed [] = ok none
  planned_observed (vm ∷ vms) = do found ← exact_vm (vm ∷ vms); ok (some (identified e found))

  -- in "deploy_submitted", after the job has succeeded
  unfoldable pub deployment_observed : List Fields → Outcome Execution
  unfolding exact_vm save vm_is deployed
  deployment_observed vms = do
    found ← exact_vm vms
    ok (elim found [
      | none ↦ save cleanup_required (some "deployed_vm_verification_failed") e
      | some vm ↦
          if vm_is "stopped" vm
          then deployed vm e
          else save cleanup_required (some "deployed_vm_not_stopped") e
    ])

  -- in "start_submitting" and "start_unknown"
  unfoldable pub start_observed : List Fields → Outcome Execution
  unfolding exact_vm save vm_is
  start_observed vms = do
    found ← exact_vm vms
    ok (elim found [
      | none ↦ save start_unknown (some "start_submission_unknown") e
      | some vm ↦
          if vm_is "running" vm
          then save verifying none e
          else save start_unknown (some "start_submission_unknown") e
    ])

  -- in "deploy_succeeded", where there is none if the VM is to be started
  unfoldable pub stopped_observed : List Fields → Outcome (Option Execution)
  unfolding exact_vm save vm_is
  stopped_observed vms = do
    found ← exact_vm vms
    ok (elim found [
      | none ↦ some (save cleanup_required (some "pre_start_vm_verification_failed") e)
      | some vm ↦
          if vm_is "stopped" vm
          then none
          else some (save cleanup_required (some "pre_start_vm_not_stopped") e)
    ])

  -- in "cleanup_submitting" and "cleanup_authorized", where there is none if no VM is left
  unfoldable pub cleanup_observed : List Fields → Outcome (Option Execution)
  unfolding exact_vm save pending_code
  cleanup_observed [] = ok none
  cleanup_observed (vm ∷ vms) = do
    found ← exact_vm (vm ∷ vms)
    ok (elim found [
      | none ↦ some (save cleanup_required (some "cleanup_identity_mismatch") e)
      | some v ↦ some (save cleanup_submitting (some (pending_code e.error_code)) e)
    ])
