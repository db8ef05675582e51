-- ===== src/Executor/Fenced.antt =====
-- `reconcile_execution` of adoption_executor.py calls CloudStack to deploy and to start a VM.
use proxmox_cloudstack_sync.Base.{ℕ, zero, suc, String, ◌≡◌, refl, Option, none, some}
use proxmox_cloudstack_sync.Json.{Json, null}
use proxmox_cloudstack_sync.Outcome.{ok}
use proxmox_cloudstack_sync.Store.{Execution, ExecutionState, execution_by_id}
use proxmox_cloudstack_sync.Store.ExecutionState.{
  planned, deploy_submitted, deploy_succeeded, cleanup_submitting, cleanup_submitted,
  cleanup_authorized,
}
use proxmox_cloudstack_sync.Session.{World, Exec, lift, ◌>>=◌}
use proxmox_cloudstack_sync.Session.Returns.{
  Returns, Returns-bind, Returns-query, Returns-current_time, Returns-pure, Returns-if,
}
use proxmox_cloudstack_sync.Registry.Validate.{Python}
use proxmox_cloudstack_sync.Executor.State.{executor_uuid}
use proxmox_cloudstack_sync.Executor.Acquire.{acquire_verdict, acquire_attempts, acquire_execution}
use proxmox_cloudstack_sync.Executor.Params.{Params}
use proxmox_cloudstack_sync.Executor.Client.{Client, load_exact_external_vm}
use proxmox_cloudstack_sync.Executor.Submit.{deployment, start, deploy_call, start_call}
use proxmox_cloudstack_sync.Executor.Reconcile.{
  Activate, observed_vms, job_result, reconcile_submission, commit_or, reconcile_planned,
  deploy_job_done, reconcile_deploy_submitted, reconcile_start_submission,
  reconcile_deploy_succeeded, reconcile_start_submitted, reconcile_verifying, reconcile_cleanup,
  activation_done, activation_pending, cleanup_job_done, reconcile_cleanup_submitted,
  reconcile_state, reconcile_leased, reconcile_execution,
}
use proxmox_cloudstack_sync.Executor.Agree.{
  bind-agree, known-agree, first-agree, IsOf, execution_by_id-IsOf,
}
use proxmox_cloudstack_sync.Executor.Replaced.{
  IsSameUnderLease, submit-agree, replaced, deploy_call-agree, start_call-agree,
}

module _ (write_guard : Exec (Unit {0})) (id lease : String) (seconds : ℕ) where
  acquire_verdict-IsOf :
      (now : ℕ) (again : Exec (Option Execution)) (o : Option Execution) (w : World)
      → IsOf id o
      → Returns (λ r v. IsOf id r) again w
      → Returns (λ r v. IsOf id r) (acquire_verdict lease now again o) w
  unfolding acquire_verdict
  acquire_verdict-IsOf now again none w h k = Returns-pure _ none w tt
  acquire_verdict-IsOf now again (some e) w h k =
      Returns-if _ _ _ _ w
        (λ _.
          Returns-if _ _ _ _ w (λ _. Returns-pure _ (some e) w h)
            (λ _. Returns-if _ _ _ _ w (λ _. Returns-pure _ none w tt) (λ _. k)))
        (λ _. Returns-pure _ none w tt)

  acquire_attempts-IsOf :
      (left : ℕ) (w : World)
      → Returns (λ r v. IsOf id r) (acquire_attempts write_guard id lease seconds left) w
  unfolding acquire_attempts
  acquire_attempts-IsOf zero w = Returns-pure _ none w tt
  acquire_attempts-IsOf (suc left) w = Returns-current_time _ _ w (
      Returns-bind _ _ _ w λ _ u. Returns-bind _ _ _ u λ _ v. Returns-query _ _ _ v λ x.
        Returns-current_time _ _ x (
          acquire_verdict-IsOf x.now _ (execution_by_id id x.db) x (execution_by_id-IsOf id x)
            (acquire_attempts-IsOf left x)))

module _ (py : Python) (client : Client) (activate : Activate) (write_guard : Exec (Unit {0}))
    (deploy : Params → Exec Json) (start_vm : String → Json → Exec Json) (id lease : String)
    (same : IsSameUnderLease id lease client deploy start_vm) where
  abbrev swapped : Client
  swapped = replaced py client deploy start_vm id lease same null

  module _ (e : Execution) (plan : Json) (named : e.id ≡ id) where
    commit_or-agree :
        (k l : Exec Execution) (o : Option Execution) (w : World)
        → k w ≡ l w
        → commit_or py client activate write_guard lease e plan k o w
          ≡ commit_or py swapped activate write_guard lease e plan l o w
    unfolding commit_or
    commit_or-agree k l none w h = h
    commit_or-agree k l (some target) w h = refl

    planned-agree :
        (w : World)
        → reconcile_planned py client activate write_guard lease e plan w
          ≡ reconcile_planned py swapped activate write_guard lease e plan w
    unfolding reconcile_planned observed_vms load_exact_external_vm deployment
    planned-agree w = bind-agree _ _ _ w λ vms u. bind-agree _ _ _ u λ o v.
        commit_or-agree _ _ o v (
          submit-agree write_guard id lease (deployment py client plan)
            (deploy_call py swapped plan)
            (deploy_call-agree py client deploy start_vm id lease same plan) e v named)

    deploy_succeeded-agree :
        (w : World)
        → reconcile_deploy_succeeded py client activate write_guard lease e plan w
          ≡ reconcile_deploy_succeeded py swapped activate write_guard lease e plan w
    unfolding reconcile_deploy_succeeded observed_vms load_exact_external_vm start
    deploy_succeeded-agree w = bind-agree _ _ _ w λ vms u. bind-agree _ _ _ u λ o v.
        commit_or-agree _ _ o v (
          submit-agree write_guard id lease (start py client plan) (start_call py swapped plan)
            (start_call-agree py client deploy start_vm id lease same plan) e v named)

    deploy_job_done-agree :
        (n : ℕ) (w : World)
        → deploy_job_done py client activate write_guard lease e plan n w
          ≡ deploy_job_done py swapped activate write_guard lease e plan n w
    unfolding deploy_job_done observed_vms load_exact_external_vm
    deploy_job_done-agree zero w = refl
    deploy_job_done-agree (suc zero) w = refl
    deploy_job_done-agree (suc (suc n)) w = refl

    cleanup_job_done-agree :
        (n : ℕ) (w : World)
        → cleanup_job_done py client activate write_guard lease e plan n w
          ≡ cleanup_job_done py swapped activate write_guard lease e plan n w
    unfolding cleanup_job_done observed_vms load_exact_external_vm
    cleanup_job_done-agree zero w = refl
    cleanup_job_done-agree (suc zero) w = bind-agree _ _ _ w λ vms v. commit_or-agree _ _ _ v refl
    cleanup_job_done-agree (suc (suc n)) w = refl

    state-agree :
        (s : ExecutionState) (w : World)
        → reconcile_state py client activate write_guard lease e plan s w
          ≡ reconcile_state py swapped activate write_guard lease e plan s w
    unfolding reconcile_state reconcile_submission reconcile_deploy_submitted
        reconcile_start_submission reconcile_start_submitted reconcile_verifying reconcile_cleanup
        reconcile_cleanup_submitted observed_vms load_exact_external_vm job_result activation_done
        activation_pending
    state-agree planned w = planned-agree w
    state-agree deploy_succeeded w = deploy_succeeded-agree w
    state-agree deploy_submitted w = bind-agree _ _ _ w deploy_job_done-agree
    state-agree cleanup_submitted w = bind-agree _ _ _ w cleanup_job_done-agree
    state-agree cleanup_submitting w =
        bind-agree _ _ _ w λ vms u. bind-agree _ _ _ u λ o v. commit_or-agree _ _ o v refl
    state-agree cleanup_authorized w =
        bind-agree _ _ _ w λ vms u. bind-agree _ _ _ u λ o v. commit_or-agree _ _ o v refl
    state-agree _ w = refl

  leased-reconciled :
      (o : Option Execution) (w : World)
      → IsOf id o
      → reconcile_leased py client activate write_guard lease o w
        ≡ reconcile_leased py swapped activate write_guard lease o w
  unfolding reconcile_leased
  leased-reconciled none w h = refl
  leased-reconciled (some e) w h =
      bind-agree _ _ _ w λ plan v. first-agree _ _ _ v (state-agree e plan h e.state v)

  -- A deployment or a start is submitted only where the database holds this worker's lease on the
  -- execution and the lease has not expired: the run is the same with any other code for the two
  -- submissions that does the same in such worlds, whatever other sessions and faults do.
  pub reconcile_execution-IsSameUnderLease :
      (execution_id : Json) (seconds : ℕ) (w : World)
      → executor_uuid py execution_id ≡ ok id
      → reconcile_execution py client activate write_guard lease execution_id seconds w
        ≡ reconcile_execution py
            (record client { deploy_virtual_machine = deploy; start_virtual_machine = start_vm })
            activate
            write_guard
            lease
            execution_id
            seconds
            w
  unfolding reconcile_execution acquire_execution ◌>>=◌ lift
  reconcile_execution-IsSameUnderLease execution_id seconds w valid = rw valid (
      known-agree (λ o v. IsOf id o) (acquire_attempts write_guard id lease seconds 3) _ _ w
        (acquire_attempts-IsOf write_guard id lease seconds 3 w) leased-reconciled)
