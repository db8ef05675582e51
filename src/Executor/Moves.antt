-- ===== src/Executor/Moves.antt =====
-- `reconcile_execution` of adoption_executor.py in every state, and the life of an execution.
use proxmox_cloudstack_sync.Base.{ℕ, zero, suc, String, ◌≡◌, refl, sym, subst, Option, none, some}
use proxmox_cloudstack_sync.Json.{Json}
use proxmox_cloudstack_sync.Outcome.{Error, no_result_found}
use proxmox_cloudstack_sync.Store.{Execution, ExecutionState}
use proxmox_cloudstack_sync.Store.ExecutionState.{
  planned, deploy_submitting, deploy_submitted, submission_unknown, deploy_succeeded,
  start_submitting, start_submitted, start_unknown, verifying, cleanup_submitting,
  cleanup_submitted, cleanup_authorized,
}
use proxmox_cloudstack_sync.Session.{Exec, ◌>>=◌}
use proxmox_cloudstack_sync.Registry.Validate.{Python}
use proxmox_cloudstack_sync.Executor.State.{state_text, same_state}
use proxmox_cloudstack_sync.Executor.Commit.{refreshed, flushed, save, commit_public}
use proxmox_cloudstack_sync.Executor.Client.{Client}
use proxmox_cloudstack_sync.Executor.Submit.{deployment, start}
use proxmox_cloudstack_sync.Executor.Reconcile.{
  Activate, reconcile_submission, commit_or, reconcile_planned, deploy_job_done,
  reconcile_deploy_submitted, reconcile_start_submission, reconcile_deploy_succeeded,
  reconcile_start_submitted, activation_done, activation_pending, reconcile_verifying,
  reconcile_cleanup, cleanup_job_done, reconcile_cleanup_submitted, reconcile_state,
}
use proxmox_cloudstack_sync.Executor.Agree.{IsOf, execution_by_id-IsOf}
use proxmox_cloudstack_sync.Executor.Life.{Step, IsDeploying, IsStarting, IsCleaning}
use proxmox_cloudstack_sync.Executor.Life.IsDeploying.{announced, unknown}
use proxmox_cloudstack_sync.Executor.Life.IsStarting.{start_announced, start_lost}
use proxmox_cloudstack_sync.Executor.Life.IsCleaning.{submitting, authorized, submitted}
use proxmox_cloudstack_sync.Executor.From.{
  From, From-bind, From-lift, From-Stays, From-if, Stays-raise, Stays-pure, Stays-current_time,
  Stays-guard,
}
use proxmox_cloudstack_sync.Executor.Sets.{From-refreshed, commit_public-From}
use proxmox_cloudstack_sync.Executor.Calls.{
  LeaveRow, Stays-completed, Stays-observed_vms, Stays-job_result, Stays-deploy_call,
  Stays-start_call,
}
use proxmox_cloudstack_sync.Executor.Targets.{
  OnTarget, submission_observed-state, planned_observed-state, deployment_observed-state,
  failure_observed-state, start_observed-state, stopped_observed-state, start_job_observed-state,
  cleanup_observed-state, removal_observed-state,
}
use proxmox_cloudstack_sync.Executor.Submitting.{submit-From}
use proxmox_cloudstack_sync.Executor.Releasing.{finalize_cleanup_release-From}

-- a step from the state of the row
step_at : {q s t : ExecutionState} → q ≡ s → Step s t → Step q t
step_at {t = t} at = subst (λ x. Step x t) (sym at)

-- The row in the database has the identifier by which it is found.
pub From-named :
    {A : Type 0} (id : String) (e : Execution) (m : Exec A)
    → (e.id ≡ id → From id e m)
    → From id e m
From-named id e m k = record {
  at = λ w h s. (k (subst (IsOf id) s (execution_by_id-IsOf id w))).at w h s;
}

From-reread :
    {B : Type 0} (id i : String) (e : Execution) (missing : Error) (g : Execution → Exec B)
    → i ≡ id
    → From id e (g e)
    → From id e (refreshed missing i >>= g)
From-reread id i e missing g same k =
    subst (λ j. From id e (refreshed missing j >>= g)) (sym same) (From-refreshed id e missing g k)

module _ (py : Python) (client : Client) (activate : Activate) (write_guard : Exec (Unit {0}))
    (lease id : String) (leave : LeaveRow id client activate write_guard) where
  module _ (e : Execution) (plan : Json) (named : e.id ≡ id) where
    commit_or-From :
        (other : Exec Execution) (t : Option Execution)
        → OnTarget (Step e.state) t
        → From id e other
        → From id e (commit_or py client activate write_guard lease e plan other t)
    unfolding commit_or
    commit_or-From other none s k = k
    commit_or-From other (some t) s k =
        commit_public-From id e t named s write_guard leave.guards lease

    commits :
        (t : Execution) → Step e.state t.state → From id e (commit_public write_guard lease e t)
    commits t s = commit_public-From id e t named s write_guard leave.guards lease

    submission-From :
        (s : ExecutionState)
        → e.state ≡ s
        → IsDeploying s
        → From id e (reconcile_submission py client activate write_guard lease e plan)
    unfolding reconcile_submission
    submission-From s at d =
        From-bind id e _ _ (Stays-observed_vms id client activate write_guard leave py lease e)
          λ vms. From-lift id e _ _ λ t h. commits t (
            submission_observed-state (Step e.state) e py plan
              (step_at at (Step.observe_deployed d)) (step_at at (Step.lose_deployment d))
              (step_at at (Step.observe_other d)) vms t h)

    planned-From :
        e.state ≡ planned
        → From id e (reconcile_planned py client activate write_guard lease e plan)
    unfolding reconcile_planned deployment flushed same_state state_text save
    planned-From at =
        From-bind id e _ _ (Stays-observed_vms id client activate write_guard leave py lease e)
          λ vms. From-lift id e _ _ λ t h.
            commit_or-From _ t
              (planned_observed-state (Step e.state) e py plan (step_at at Step.find_deployed)
                (step_at at Step.find_starting) (step_at at Step.find_other) vms t h)
              (submit-From id write_guard leave.guards lease (deployment py client plan)
                (Stays-deploy_call id client activate write_guard leave py plan) deploy_submitting e
                (record {
                  announces = step_at at Step.announce_deployment;
                  announced = λ now. rw at refl;
                  unknown = λ f. Step.lose_deployment announced;
                  without_job = λ f. Step.lose_deployment announced;
                  with_job = λ job f. Step.submit_deployment;
                })
                named)

    deploy_job_done-From :
        e.state ≡ deploy_submitted
        → (n : ℕ) → From id e (deploy_job_done py client activate write_guard lease e plan n)
    unfolding deploy_job_done save
    deploy_job_done-From at zero = commits _ (step_at at Step.stay)
    deploy_job_done-From at (suc zero) =
        From-bind id e _ _ (Stays-observed_vms id client activate write_guard leave py lease e)
          λ vms. From-lift id e _ _ λ t h. commits t (
            deployment_observed-state (Step e.state) e py plan (step_at at Step.finish_deployment)
              (step_at at Step.reject_deployment) vms t h)
    deploy_job_done-From at (suc (suc n)) =
        From-bind id e _ _ (Stays-observed_vms id client activate write_guard leave py lease e)
          λ vms. commits _ (
            failure_observed-state (Step e.state) e (step_at at Step.fail_deployment)
              (step_at at Step.reject_deployment) vms)

    start_submission-From :
        (s : ExecutionState)
        → e.state ≡ s
        → IsStarting s
        → From id e (reconcile_start_submission py client activate write_guard lease e plan)
    unfolding reconcile_start_submission
    start_submission-From s at d =
        From-bind id e _ _ (Stays-observed_vms id client activate write_guard leave py lease e)
          λ vms. From-lift id e _ _ λ t h. commits t (
            start_observed-state (Step e.state) e py plan (step_at at (Step.observe_started d))
              (step_at at (Step.lose_start d)) vms t h)

    deploy_succeeded-From :
        e.state ≡ deploy_succeeded
        → From id e (reconcile_deploy_succeeded py client activate write_guard lease e plan)
    unfolding reconcile_deploy_succeeded start flushed same_state state_text save
    deploy_succeeded-From at =
        From-bind id e _ _ (Stays-observed_vms id client activate write_guard leave py lease e)
          λ vms. From-lift id e _ _ λ t h.
            commit_or-From _ t
              (stopped_observed-state (Step e.state) e py plan (step_at at Step.reject_start) vms t
                h)
              (submit-From id write_guard leave.guards lease (start py client plan)
                (Stays-start_call id client activate write_guard leave py plan) start_submitting e
                (record {
                  announces = step_at at Step.announce_start;
                  announced = λ now. rw at refl;
                  unknown = λ f. Step.lose_start start_announced;
                  without_job = λ f. Step.lose_start start_announced;
                  with_job = λ job f. Step.submit_start;
                })
                named)

    verifying-From :
        e.state ≡ verifying
        → From id e (reconcile_verifying py client activate write_guard lease e plan)
    unfolding reconcile_verifying activation_done activation_pending save
    verifying-From at =
        From-bind id e _ _
          (Stays-completed id _ (leave.activates e.claim_id e.generation e.id lease))
          λ done.
            From-if id e _ _ _
              (From-reread id e.id e no_result_found _ named (
                From-bind id e _ _ (Stays-current_time id) λ now.
                  From-bind id e _ _ (Stays-guard id _ _)
                    λ _. commits _ (step_at at Step.activate)))
              (From-reread id e.id e no_result_found _ named (
                From-if id e _ _ _ (commits _ (step_at at Step.stay))
                  (From-Stays id e _ (Stays-pure id e))))

    cleanup-From :
        (s : ExecutionState)
        → e.state ≡ s
        → IsCleaning s
        → From id e (reconcile_cleanup py client activate write_guard lease e plan)
    unfolding reconcile_cleanup
    cleanup-From s at d =
        From-bind id e _ _ (Stays-observed_vms id client activate write_guard leave py lease e)
          λ vms. From-lift id e _ _ λ t h.
            commit_or-From _ t
              (cleanup_observed-state (Step e.state) e py plan (step_at at (Step.require_cleanup d))
                (step_at at (Step.keep_cleaning d)) vms t h)
              (finalize_cleanup_release-From id write_guard leave.guards e.id lease e)

    cleanup_job_done-From :
        e.state ≡ cleanup_submitted
        → (n : ℕ) → From id e (cleanup_job_done py client activate write_guard lease e plan n)
    unfolding cleanup_job_done save
    cleanup_job_done-From at zero = commits _ (step_at at Step.stay)
    cleanup_job_done-From at (suc zero) =
        From-bind id e _ _ (Stays-observed_vms id client activate write_guard leave py lease e)
          λ vms.
            commit_or-From _ _
              (removal_observed-state (Step e.state) e (step_at at (Step.require_cleanup submitted))
                vms)
              (finalize_cleanup_release-From id write_guard leave.guards e.id lease e)
    cleanup_job_done-From at (suc (suc n)) = commits _ (step_at at (Step.require_cleanup submitted))

    pub state-From :
        (s : ExecutionState)
        → e.state ≡ s
        → From id e (reconcile_state py client activate write_guard lease e plan s)
    unfolding reconcile_state reconcile_deploy_submitted reconcile_start_submitted
        reconcile_cleanup_submitted
    state-From planned at = planned-From at
    state-From deploy_submitting at = submission-From _ at announced
    state-From submission_unknown at = submission-From _ at unknown
    state-From deploy_submitted at =
        From-bind id e _ _ (Stays-job_result id client activate write_guard leave py lease e _)
          (deploy_job_done-From at)
    state-From start_submitting at = start_submission-From _ at start_announced
    state-From start_unknown at = start_submission-From _ at start_lost
    state-From deploy_succeeded at = deploy_succeeded-From at
    state-From start_submitted at =
        From-bind id e _ _ (Stays-job_result id client activate write_guard leave py lease e _) λ n.
          commits _ (
            start_job_observed-state (Step e.state) e (step_at at Step.stay)
              (step_at at Step.finish_start) (step_at at Step.fail_start) n)
    state-From verifying at = verifying-From at
    state-From cleanup_submitting at = cleanup-From _ at submitting
    state-From cleanup_authorized at = cleanup-From _ at authorized
    state-From cleanup_submitted at =
        From-bind id e _ _ (Stays-job_result id client activate write_guard leave py lease e _)
          (cleanup_job_done-From at)
    state-From _ at = From-Stays id e _ (Stays-raise id _)
