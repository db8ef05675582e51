-- ===== src/Executor/Samples.antt =====
-- Concrete inputs of the executor, and what it does on them.
use proxmox_cloudstack_sync.Base.{
  ◌≡◌, refl, true, none, some, [], ◌∷◌, str_eq, if◌then◌else◌, find, filter, holds_text,
}
use proxmox_cloudstack_sync.Json.{
  Json, Fields, bool, int, pos, text, arr, obj, nil, end, field, get, has_key, equals_nat,
  equals_text, as_text, as_fields, as_positive, is_normalized, strip, same_codes,
}
use proxmox_cloudstack_sync.Json.Equal.{
  truthy, is_null, is_true, is_false, as_list, item_list, field_at, subscript, get_of,
}
use proxmox_cloudstack_sync.Outcome.{ok, is_retryable}
use proxmox_cloudstack_sync.Store.{Db, Execution, execution_by_id, claim_by_id}
use proxmox_cloudstack_sync.Store.ExecutionState.{planned, deploy_submitted}
use proxmox_cloudstack_sync.Store.Rows.{update, count, touch}
use proxmox_cloudstack_sync.Session.{
  Exec, ◌>>=◌, arrive, query, transact, current_time, retry_operational,
}
use proxmox_cloudstack_sync.Registry.Validate.{Python}
use proxmox_cloudstack_sync.Registry.Samples.{
  python, manifest, sha, quiet, open_guard, with_claim, reserved_claim,
}
use proxmox_cloudstack_sync.Executor.State.{
  is_active, state_text, same_state, executor_uuid, lapsed, not_past,
}
use proxmox_cloudstack_sync.Executor.Acquire.{
  takeable, leased_row, acquire_write, is_taken, acquire_verdict, try_acquire, acquire_attempts,
  acquire_execution,
}
use proxmox_cloudstack_sync.Executor.Values.{
  signed_positive, customized_cpu_speed_mhz, root_disk_size_gib,
}
use proxmox_cloudstack_sync.Executor.Nics.{iterated, allocation, all_fields}
use proxmox_cloudstack_sync.Executor.Params.{
  str, customized_params, network_params, networks_params, override_params, deploy_params,
}
use proxmox_cloudstack_sync.Executor.Client.{
  Client, vm_response, load_exact_external_vm, caught, job_of,
}
use proxmox_cloudstack_sync.Executor.Commit.{
  holds_lease, refreshed, assert_lease, save, same_text, same_time, flushed, flush_write, flush,
  commit_current, commit_public,
}
use proxmox_cloudstack_sync.Executor.Observe.{planned_observed}
use proxmox_cloudstack_sync.Executor.Submit.{
  submission_failed, submission_target, submission_answered, submission_settled, guarded_call,
  submit_loaded, submit, deploy_call, deployment,
}
use proxmox_cloudstack_sync.Executor.Reconcile.{
  Activate, observed_vms, commit_or, reconcile_planned, reconcile_state, reconcile_leased,
  reconcile_execution,
}

abbrev pub deployment_fields : Fields
deployment_fields = field "zone_id" (text "zone") (
    field "service_offering_id" (text "offering") (
      field "template_id" (text "template") (
        field "host_id" (text "host") (
          field "account" (text "admin") (
            field "domain_id" (text "domain") (
              field "name" (text "web") (
                field "display_name" (text "web") (
                  field "service_offering_customized" (bool true) (
                    field "cpus" (int (pos 2)) (
                      field "cpu_speed_mhz" (int (pos 2000)) (
                        field "memory_mib" (int (pos 2048)) (
                          field "root_disk_size_customized" (bool true) (
                            field "root_disk_size_gib" (int (pos 20)) (
                              field "networks" (arr nil)
                                (field "external_details" (obj end) end)))))))))))))))

abbrev pub plan : Json
plan = obj (field "deployment" (obj deployment_fields) end)

abbrev pub planning_python : Python
planning_python = record python {
  loads = λ s. if str_eq s "plan" then some plan else some (obj manifest);
}

abbrev pub planned_execution : Execution
planned_execution = record {
  id = "vm";
  claim_id = "claim";
  generation = 1;
  plan_sha256 = sha;
  plan_json = "plan";
  state = planned;
  deploy_job_id = none;
  start_job_id = none;
  cleanup_job_id = none;
  cloudstack_vm_ref = none;
  cloudstack_instance_name = none;
  error_code = none;
  worker_lease_id = none;
  worker_lease_expires_at = none;
  attempt_count = 0;
  created_at = 5;
  updated_at = 5;
}

abbrev pub with_execution : Execution → Db
with_execution e = record (with_claim reserved_claim) { executions = e ∷ [] }

-- CloudStack has no VM, and answers a submission with a job.
abbrev pub answered_with_job : Exec Json
answered_with_job w = (ok (obj (field "jobid" (text "job") end)), w)

abbrev pub client : Client
client = record {
  list_virtual_machines = λ w. (ok (arr nil), w);
  deploy_virtual_machine = λ p. answered_with_job;
  start_virtual_machine = λ vm host. answered_with_job;
  destroy_virtual_machine = λ vm. answered_with_job;
  query_async_job = λ job w. (ok (obj (field "jobstatus" (int (pos 0)) end)), w);
}

abbrev pub activate : Activate
activate claim generation vm lease w = (ok tt, w)

unfoldable pub program : Unit {0}
unfolding find filter holds_text get has_key equals_nat equals_text as_text as_fields as_positive
    is_normalized strip same_codes truthy is_null is_true is_false as_list item_list field_at
    subscript get_of is_retryable execution_by_id claim_by_id update count touch ◌>>=◌ arrive query
    transact current_time retry_operational open_guard is_active state_text same_state executor_uuid
    lapsed not_past takeable leased_row acquire_write is_taken acquire_verdict try_acquire
    acquire_attempts acquire_execution signed_positive customized_cpu_speed_mhz root_disk_size_gib
    iterated allocation all_fields str customized_params network_params networks_params
    override_params deploy_params vm_response load_exact_external_vm caught job_of holds_lease
    refreshed assert_lease save same_text same_time flushed flush_write flush commit_current
    commit_public planned_observed submission_failed submission_target submission_answered
    submission_settled guarded_call submit_loaded submit deploy_call deployment observed_vms
    commit_or reconcile_planned reconcile_state reconcile_leased reconcile_execution
program = tt

abbrev pub submitted_execution : Execution
submitted_execution = record planned_execution {
  state = deploy_submitted;
  deploy_job_id = some "job";
  attempt_count = 1;
}

submitted :
    reconcile_execution planning_python client activate open_guard "lease"
      (text "vm")
      60
      (quiet (with_execution planned_execution))
    ≡ (ok (some submitted_execution), quiet (with_execution submitted_execution))
unfolding program
submitted = refl
