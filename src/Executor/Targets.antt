-- ===== src/Executor/Targets.antt =====
-- `reconcile_execution` of adoption_executor.py: the states in which an observation may leave an
-- execution.
use proxmox_cloudstack_sync.Base.{
  ℕ, zero, suc, ◌≡◌, subst, Option, none, some, List, [], ◌∷◌, Bool-cases, Option-cases, inl, inr,
}
use proxmox_cloudstack_sync.Json.{Json, Fields}
use proxmox_cloudstack_sync.Outcome.{ok}
use proxmox_cloudstack_sync.Store.{Execution, ExecutionState}
use proxmox_cloudstack_sync.Store.ExecutionState.{
  submission_unknown, deploy_succeeded, start_submitted, start_unknown, verifying, failed,
  cleanup_required, cleanup_submitting,
}
use proxmox_cloudstack_sync.Registry.Validate.{Python}
use proxmox_cloudstack_sync.Executor.Commit.{save}
use proxmox_cloudstack_sync.Executor.Client.{vm_is}
use proxmox_cloudstack_sync.Executor.Observe.{
  deployed, stopped_or_unknown, identified, failure_observed, start_job_observed, removal_observed,
  exact_vm, submission_observed, planned_observed, deployment_observed, start_observed,
  stopped_observed, cleanup_observed,
}
use proxmox_cloudstack_sync.Executor.Invert.{bind_ok, eq_of_ok-eq}

-- What holds of the state that is to be committed, if there is one.
abbrev pub OnTarget : (ExecutionState → Type 0) → Option Execution → Type 0
OnTarget P none = Unit
OnTarget P (some t) = P t.state

module _ (P : ExecutionState → Type 0) (e : Execution) where
  identified-state :
      P deploy_succeeded
      → P submission_unknown
      → P cleanup_required
      → (found : Option Fields) → P (identified e found).state
  unfolding save deployed identified stopped_or_unknown
  identified-state d u c none = c
  identified-state d u c (some vm) = elim (Bool-cases (vm_is "stopped" vm)) [
    | inl k ↦ rw k d
    | inr k ↦ rw k u
  ]

  pub failure_observed-state :
      P failed → P cleanup_required → (vms : List Fields) → P (failure_observed e vms).state
  unfolding failure_observed save
  failure_observed-state f c [] = f
  failure_observed-state f c (vm ∷ vms) = c

  pub start_job_observed-state :
      P start_submitted → P verifying → P start_unknown → (n : ℕ) → P (start_job_observed e n).state
  unfolding start_job_observed save
  start_job_observed-state s v u zero = s
  start_job_observed-state s v u (suc zero) = v
  start_job_observed-state s v u (suc (suc n)) = u

  pub removal_observed-state :
      P cleanup_required → (vms : List Fields) → OnTarget P (removal_observed e vms)
  unfolding removal_observed save
  removal_observed-state c [] = tt
  removal_observed-state c (vm ∷ vms) = c

  module _ (py : Python) (plan : Json) where
    pub submission_observed-state :
        P deploy_succeeded
        → P submission_unknown
        → P cleanup_required
        → (vms : List Fields) (t : Execution) → submission_observed py e plan vms ≡ ok t
        → P t.state
    unfolding submission_observed save
    submission_observed-state d u c [] t h = subst (λ x. P x.state) (eq_of_ok-eq _ t h) u
    submission_observed-state d u c (vm ∷ []) t h =
        let (found, _, same) = bind_ok (exact_vm py e plan (vm ∷ [])) _ t h in
        subst (λ x. P x.state) (eq_of_ok-eq _ t same) (identified-state d u c found)
    submission_observed-state d u c (vm ∷ other ∷ vms) t h =
        subst (λ x. P x.state) (eq_of_ok-eq _ t h) c

    pub planned_observed-state :
        P deploy_succeeded
        → P submission_unknown
        → P cleanup_required
        → (vms : List Fields) (t : Option Execution) → planned_observed py e plan vms ≡ ok t
        → OnTarget P t
    unfolding planned_observed
    planned_observed-state d u c [] t h = subst (OnTarget P) (eq_of_ok-eq none t h) tt
    planned_observed-state d u c (vm ∷ vms) t h =
        let (found, _, same) = bind_ok (exact_vm py e plan (vm ∷ vms)) _ t h in
        subst (OnTarget P) (eq_of_ok-eq _ t same) (identified-state d u c found)

    pub deployment_observed-state :
        P deploy_succeeded
        → P cleanup_required
        → (vms : List Fields) (t : Execution) → deployment_observed py e plan vms ≡ ok t
        → P t.state
    unfolding deployment_observed save deployed
    deployment_observed-state d c vms t h =
        let (found, _, same) = bind_ok (exact_vm py e plan vms) _ t h in
        elim (Option-cases found) [
          | inl k ↦ subst (λ x. P x.state) (eq_of_ok-eq _ t (rw k at same)) c
          | inr (vm, k) ↦ elim (Bool-cases (vm_is "stopped" vm)) [
            | inl b ↦ subst (λ x. P x.state) (eq_of_ok-eq _ t (rw (k, b) at same)) d
            | inr b ↦ subst (λ x. P x.state) (eq_of_ok-eq _ t (rw (k, b) at same)) c
          ]
        ]

    pub start_observed-state :
        P verifying
        → P start_unknown
        → (vms : List Fields) (t : Execution) → start_observed py e plan vms ≡ ok t
        → P t.state
    unfolding start_observed save
    start_observed-state v u vms t h =
        let (found, _, same) = bind_ok (exact_vm py e plan vms) _ t h in
        elim (Option-cases found) [
          | inl k ↦ subst (λ x. P x.state) (eq_of_ok-eq _ t (rw k at same)) u
          | inr (vm, k) ↦ elim (Bool-cases (vm_is "running" vm)) [
            | inl b ↦ subst (λ x. P x.state) (eq_of_ok-eq _ t (rw (k, b) at same)) v
            | inr b ↦ subst (λ x. P x.state) (eq_of_ok-eq _ t (rw (k, b) at same)) u
          ]
        ]

    pub stopped_observed-state :
        P cleanup_required
        → (vms : List Fields) (t : Option Execution) → stopped_observed py e plan vms ≡ ok t
        → OnTarget P t
    unfolding stopped_observed save
    stopped_observed-state c vms t h =
        let (found, _, same) = bind_ok (exact_vm py e plan vms) _ t h in
        elim (Option-cases found) [
          | inl k ↦ subst (OnTarget P) (eq_of_ok-eq _ t (rw k at same)) c
          | inr (vm, k) ↦ elim (Bool-cases (vm_is "stopped" vm)) [
            | inl b ↦ subst (OnTarget P) (eq_of_ok-eq _ t (rw (k, b) at same)) tt
            | inr b ↦ subst (OnTarget P) (eq_of_ok-eq _ t (rw (k, b) at same)) c
          ]
        ]

    pub cleanup_observed-state :
        P cleanup_required
        → P cleanup_submitting
        → (vms : List Fields) (t : Option Execution) → cleanup_observed py e plan vms ≡ ok t
        → OnTarget P t
    unfolding cleanup_observed save
    cleanup_observed-state c s [] t h = subst (OnTarget P) (eq_of_ok-eq none t h) tt
    cleanup_observed-state c s (vm ∷ vms) t h =
        let (found, _, same) = bind_ok (exact_vm py e plan (vm ∷ vms)) _ t h in
        elim (Option-cases found) [
          | inl k ↦ subst (OnTarget P) (eq_of_ok-eq _ t (rw k at same)) c
          | inr (v, k) ↦ subst (OnTarget P) (eq_of_ok-eq _ t (rw k at same)) s
        ]
