-- ===== src/Executor/Keeps/Worker.antt =====
-- `reconcile_execution` of adoption_executor.py and the life of the claims.
use proxmox_cloudstack_sync.Base.{ℕ, zero, suc, String, Bool, Option, none, some, List}
use proxmox_cloudstack_sync.Json.{Json, Fields}
use proxmox_cloudstack_sync.Outcome.{Outcome}
use proxmox_cloudstack_sync.Store.{Db, Execution, ExecutionState}
use proxmox_cloudstack_sync.Store.ExecutionState.{
  planned, deploy_submitting, deploy_submitted, submission_unknown, deploy_succeeded,
  start_submitting, start_submitted, start_unknown, verifying, cleanup_submitting,
  cleanup_submitted, cleanup_authorized,
}
use proxmox_cloudstack_sync.Session.{Exec, lift, ◌>>=◌}
use proxmox_cloudstack_sync.Session.Guarantee.{
  Keeps, CommitEvolves, Keeps-pure, Keeps-lift, Keeps-raise, Keeps-query, Keeps-transact, Keeps-if,
  Keeps-guard, Keeps-current_time, Keeps-bind, Keeps-retry_operational, Keeps-attempt,
}
use proxmox_cloudstack_sync.Registry.Validate.{Python}
use proxmox_cloudstack_sync.Executor.Acquire.{
  acquire_write, acquire_verdict, try_acquire, acquire_attempts, acquire_execution,
}
use proxmox_cloudstack_sync.Executor.Client.{Client}
use proxmox_cloudstack_sync.Executor.Commit.{commit_current, commit_public}
use proxmox_cloudstack_sync.Executor.Submit.{
  Submission, submission_failed, submission_answered, submission_settled, guarded_call,
  submit_loaded, submit, deploy_call, start_call, deployment, start,
}
use proxmox_cloudstack_sync.Executor.Finalize.{
  releasable, released_row, completable, completed_row, release_write, release_verdict, try_release,
  release_checked, release_attempts, finalize_cleanup_release,
}
use proxmox_cloudstack_sync.Executor.Reconcile.{
  Activate, observed_vms, job_result, reconcile_submission, commit_or, reconcile_planned,
  deploy_job_done, reconcile_deploy_submitted, reconcile_start_submission,
  reconcile_deploy_succeeded, reconcile_start_submitted, activation_done, activation_pending,
  reconcile_verifying, reconcile_cleanup, cleanup_job_done, reconcile_cleanup_submitted,
  reconcile_state, reconcile_leased, reconcile_execution,
}
use proxmox_cloudstack_sync.Executor.Keeps.{
  ClientKeeps, set_execution-CommitEvolves, both_rows-CommitEvolves, release_edge, Keeps-caught,
  Keeps-completed, Keeps-refreshed, Keeps-assert_lease, Keeps-flush, Keeps-load,
}

module _ (write_guard : Exec (Unit {0})) (guarded : Keeps write_guard) (lease : String) where
  acquire_verdict-Keeps :
      (now : ℕ) (o : Option Execution) (again : Exec (Option Execution))
      → Keeps again
      → Keeps (acquire_verdict lease now again o)
  unfolding acquire_verdict
  acquire_verdict-Keeps now none again k = Keeps-pure none
  acquire_verdict-Keeps now (some e) again k =
      Keeps-if _ _ _ (Keeps-if _ _ _ (Keeps-pure (some e)) (Keeps-if _ _ _ (Keeps-pure none) k))
        (Keeps-pure none)

  acquire_attempts-Keeps :
      (id : String) (seconds left : ℕ) → Keeps (acquire_attempts write_guard id lease seconds left)
  unfolding acquire_attempts try_acquire acquire_write
  acquire_attempts-Keeps id seconds zero = Keeps-pure none
  acquire_attempts-Keeps id seconds (suc left) = Keeps-bind _ _ Keeps-current_time λ now.
      Keeps-bind _ _ guarded λ _.
        Keeps-bind _ _
          (Keeps-retry_operational _ (
            Keeps-bind _ _
              (Keeps-transact (acquire_write id lease seconds now)
                (λ stamp db. set_execution-CommitEvolves _ _ db))
              λ _. Keeps-pure tt))
          λ _. Keeps-bind _ _ (Keeps-query _) λ o.
            Keeps-bind _ _ Keeps-current_time
              λ later. acquire_verdict-Keeps later o _ (acquire_attempts-Keeps id seconds left)

  commit_current-Keeps : (e t : Execution) → Keeps (commit_current write_guard lease e t)
  unfolding commit_current
  commit_current-Keeps e t =
      Keeps-bind _ _ (Keeps-assert_lease e.id lease)
        λ _. Keeps-bind _ _ guarded λ _. Keeps-flush e t

  commit_public-Keeps : (e t : Execution) → Keeps (commit_public write_guard lease e t)
  unfolding commit_public
  commit_public-Keeps e t = Keeps-bind _ _ (commit_current-Keeps e t) λ _. Keeps-refreshed _ e.id

  module _ (s : Submission) (calls : (e : Execution) → Keeps (s.call e)) where
    failed-Keeps : (f : Execution) → Keeps (submission_failed write_guard lease s f)
    unfolding submission_failed
    failed-Keeps f =
        Keeps-bind _ _ (Keeps-assert_lease f.id lease) λ _. commit_public-Keeps f (s.unknown f)

    settled-Keeps :
        (f : Execution) (r : Option Json) → Keeps (submission_settled write_guard lease s f r)
    unfolding submission_settled submission_answered
    settled-Keeps f none = failed-Keeps f
    settled-Keeps f (some response) =
        Keeps-bind _ _ (Keeps-assert_lease f.id lease)
          λ _. Keeps-bind _ _ (Keeps-lift _) λ job. commit_public-Keeps f _

    submit_loaded-Keeps :
        (id : String) (o : Option Execution) → Keeps (submit_loaded write_guard lease s id o)
    unfolding submit_loaded guarded_call
    submit_loaded-Keeps id none = Keeps-bind _ _ (Keeps-refreshed _ id) failed-Keeps
    submit_loaded-Keeps id (some f) =
        Keeps-bind _ _
          (Keeps-caught _ (Keeps-bind _ _ (Keeps-assert_lease f.id lease) λ _. calls f))
          (settled-Keeps f)

    submit-Keeps : (e : Execution) → Keeps (submit write_guard lease s e)
    unfolding submit
    submit-Keeps e = Keeps-bind _ _ (commit_current-Keeps e _) λ _.
        Keeps-bind _ _ guarded
          λ _. Keeps-bind _ _ (Keeps-caught _ (Keeps-refreshed _ e.id)) (submit_loaded-Keeps e.id)

  release-CommitEvolves :
      (e : Execution) (claim_id : String) (now : ℕ) (db : Db)
      → CommitEvolves db (release_write e claim_id lease now db)
  unfolding release_write
  release-CommitEvolves e claim_id now db =
      both_rows-CommitEvolves (releasable claim_id e.generation) (released_row now)
        (completable e.id claim_id e.generation lease) (completed_row now) db
        (release_edge claim_id e.generation now)

  release_verdict-Keeps :
      (id : String) (again : Exec Execution) (done : Option Bool)
      → Keeps again
      → Keeps (release_verdict write_guard id lease again done)
  unfolding release_verdict
  release_verdict-Keeps id again none k = k
  release_verdict-Keeps id again (some done) k =
      Keeps-if _ _ _ (Keeps-refreshed _ id) (Keeps-raise _)

  release_attempts-Keeps :
      (id : String) (left : ℕ) → Keeps (release_attempts write_guard id lease left)
  unfolding release_attempts release_checked try_release
  release_attempts-Keeps id zero = Keeps-raise _
  release_attempts-Keeps id (suc left) = Keeps-bind _ _ (Keeps-query _) λ row.
      Keeps-bind _ _ (Keeps-lift _) λ e. Keeps-bind _ _ (Keeps-query _) λ claim.
        Keeps-bind _ _ (Keeps-lift _) λ c. Keeps-bind _ _ Keeps-current_time λ now.
          Keeps-if _ _ _ (Keeps-pure e) (
            Keeps-bind _ _ (Keeps-guard _ _) λ _. Keeps-bind _ _ guarded λ _.
              Keeps-bind _ _
                (Keeps-attempt _ (
                  Keeps-bind _ _
                    (Keeps-transact (release_write e c.id lease) (release-CommitEvolves e c.id))
                    λ done. Keeps-pure (some done)))
                λ done. release_verdict-Keeps id _ done (release_attempts-Keeps id left))

  finalize-Keeps : (id : String) → Keeps (finalize_cleanup_release write_guard id lease)
  unfolding finalize_cleanup_release
  finalize-Keeps id = release_attempts-Keeps id 3

  module _ (py : Python) (client : Client) (client_keeps : ClientKeeps client) (activate : Activate)
      (activates : (c : String) (n : ℕ) (e l : String) → Keeps (activate c n e l)) where
    observed_vms-Keeps :
        (e : Execution) → Keeps (observed_vms py client activate write_guard lease e)
    unfolding observed_vms
    observed_vms-Keeps e =
        Keeps-bind _ _ (Keeps-load client e.id client_keeps)
          λ vms. Keeps-bind _ _ (Keeps-assert_lease e.id lease) λ _. Keeps-pure vms

    job_result-Keeps :
        (e : Execution) (job : Option String)
        → Keeps (job_result py client activate write_guard lease e job)
    unfolding job_result
    job_result-Keeps e job =
        Keeps-bind _ _ (client_keeps.jobs job)
          λ r. Keeps-bind _ _ (Keeps-assert_lease e.id lease) λ _. Keeps-lift _

    module _ (e : Execution) (plan : Json) where
      commit_or-Keeps :
          (other : Exec Execution) (t : Option Execution)
          → Keeps other
          → Keeps (commit_or py client activate write_guard lease e plan other t)
      unfolding commit_or
      commit_or-Keeps other none k = k
      commit_or-Keeps other (some t) k = commit_public-Keeps e t

      deploy_job_done-Keeps :
          (n : ℕ) → Keeps (deploy_job_done py client activate write_guard lease e plan n)
      unfolding deploy_job_done
      deploy_job_done-Keeps zero = commit_public-Keeps e _
      deploy_job_done-Keeps (suc zero) =
          Keeps-bind _ _ (observed_vms-Keeps e)
            λ vms. Keeps-bind _ _ (Keeps-lift _) λ t. commit_public-Keeps e t
      deploy_job_done-Keeps (suc (suc n)) =
          Keeps-bind _ _ (observed_vms-Keeps e) λ vms. commit_public-Keeps e _

      cleanup_job_done-Keeps :
          (n : ℕ) → Keeps (cleanup_job_done py client activate write_guard lease e plan n)
      unfolding cleanup_job_done
      cleanup_job_done-Keeps zero = commit_public-Keeps e _
      cleanup_job_done-Keeps (suc zero) =
          Keeps-bind _ _ (observed_vms-Keeps e) λ vms. commit_or-Keeps _ _ (finalize-Keeps e.id)
      cleanup_job_done-Keeps (suc (suc n)) = commit_public-Keeps e _

      observed-Keeps :
          (f : List Fields → Outcome Execution)
          → Keeps (
              observed_vms py client activate write_guard lease e >>= λ vms.
              lift (f vms) >>= λ t. commit_public write_guard lease e t)
      observed-Keeps f =
          Keeps-bind _ _ (observed_vms-Keeps e)
            λ vms. Keeps-bind _ _ (Keeps-lift _) λ t. commit_public-Keeps e t

      observed_or-Keeps :
          (f : List Fields → Outcome (Option Execution)) (other : Exec Execution)
          → Keeps other
          → Keeps (
              observed_vms py client activate write_guard lease e >>= λ vms.
              lift (f vms) >>= λ t. commit_or py client activate write_guard lease e plan other t)
      observed_or-Keeps f other k =
          Keeps-bind _ _ (observed_vms-Keeps e)
            λ vms. Keeps-bind _ _ (Keeps-lift _) λ t. commit_or-Keeps other t k

      verifying-Keeps : Keeps (reconcile_verifying py client activate write_guard lease e plan)
      unfolding reconcile_verifying activation_done activation_pending
      verifying-Keeps = Keeps-bind _ _ (Keeps-completed _ (activates _ _ _ _)) λ done.
          Keeps-if _ _ _
            (Keeps-bind _ _ (Keeps-refreshed _ e.id) λ x.
              Keeps-bind _ _ Keeps-current_time
                λ now. Keeps-bind _ _ (Keeps-guard _ _) λ _. commit_public-Keeps x _)
            (Keeps-bind _ _ (Keeps-refreshed _ e.id)
              λ x. Keeps-if _ _ _ (commit_public-Keeps x _) (Keeps-pure x))

      deploy_calls : (x : Execution) → Keeps (deploy_call py client plan x)
      unfolding deploy_call
      deploy_calls x = Keeps-bind _ _ (Keeps-lift _) client_keeps.deploys

      start_calls : (x : Execution) → Keeps (start_call py client plan x)
      unfolding start_call
      start_calls x = Keeps-bind _ _ (Keeps-lift _) (client_keeps.starts x.id)

      state-Keeps :
          (s : ExecutionState)
          → Keeps (reconcile_state py client activate write_guard lease e plan s)
      unfolding reconcile_state reconcile_submission reconcile_planned reconcile_deploy_submitted
          reconcile_start_submission reconcile_deploy_succeeded reconcile_start_submitted
          reconcile_cleanup reconcile_cleanup_submitted deployment start
      state-Keeps planned = observed_or-Keeps _ _ (submit-Keeps _ deploy_calls e)
      state-Keeps deploy_submitting = observed-Keeps _
      state-Keeps submission_unknown = observed-Keeps _
      state-Keeps deploy_submitted = Keeps-bind _ _ (job_result-Keeps e _) deploy_job_done-Keeps
      state-Keeps start_submitting = observed-Keeps _
      state-Keeps start_unknown = observed-Keeps _
      state-Keeps deploy_succeeded = observed_or-Keeps _ _ (submit-Keeps _ start_calls e)
      state-Keeps start_submitted =
          Keeps-bind _ _ (job_result-Keeps e _) λ n. commit_public-Keeps e _
      state-Keeps verifying = verifying-Keeps
      state-Keeps cleanup_submitting = observed_or-Keeps _ _ (finalize-Keeps e.id)
      state-Keeps cleanup_authorized = observed_or-Keeps _ _ (finalize-Keeps e.id)
      state-Keeps cleanup_submitted = Keeps-bind _ _ (job_result-Keeps e _) cleanup_job_done-Keeps
      state-Keeps _ = Keeps-raise _

    leased-Keeps :
        (o : Option Execution) → Keeps (reconcile_leased py client activate write_guard lease o)
    unfolding reconcile_leased
    leased-Keeps none = Keeps-pure none
    leased-Keeps (some e) =
        Keeps-bind _ _ (Keeps-lift _)
          λ plan. Keeps-bind _ _ (state-Keeps e plan e.state) λ result. Keeps-pure (some result)

    pub reconcile_execution-Keeps :
        (execution_id : Json) (seconds : ℕ)
        → Keeps (reconcile_execution py client activate write_guard lease execution_id seconds)
    unfolding reconcile_execution acquire_execution
    reconcile_execution-Keeps execution_id seconds =
        Keeps-bind _ _ (Keeps-bind _ _ (Keeps-lift _) λ id. acquire_attempts-Keeps id seconds 3)
          leased-Keeps
