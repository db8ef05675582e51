-- ===== src/Executor/Submit.antt =====
-- `reconcile_execution` of adoption_executor.py: the submission of a deployment and of a start. The
-- state that announces it is committed first.
use proxmox_cloudstack_sync.Base.{String, Option, none, some}
use proxmox_cloudstack_sync.Json.{Json}
use proxmox_cloudstack_sync.Json.Equal.{subscript}
use proxmox_cloudstack_sync.Outcome.{Outcome, object_deleted}
use proxmox_cloudstack_sync.Store.{Execution}
use proxmox_cloudstack_sync.Store.ExecutionState.{
  deploy_submitting, deploy_submitted, submission_unknown, start_submitting, start_submitted,
  start_unknown,
}
use proxmox_cloudstack_sync.Session.{Exec, lift, ◌>>=◌, ◌>>◌}
use proxmox_cloudstack_sync.Registry.Validate.{Python, ◌>>=◌ as ◌then◌}
use proxmox_cloudstack_sync.Executor.Params.{deploy_params}
use proxmox_cloudstack_sync.Executor.Client.{Client, caught, job_of}
use proxmox_cloudstack_sync.Executor.Commit.{
  refreshed, assert_lease, save, commit_current, commit_public,
}

-- what tells a deployment and a start apart
pub record Submission : Type 0 where
  pub announce : Execution → Execution
  pub call : Execution → Exec Json
  pub unknown : Execution → Execution
  pub without_job : Execution → Execution
  pub with_job : String → Execution → Execution

module _ (write_guard : Exec (Unit {0})) (lease : String) (s : Submission) where
  unfoldable pub submission_failed : Execution → Exec Execution
  submission_failed loaded = do
    assert_lease loaded.id lease
    commit_public write_guard lease loaded (s.unknown loaded)

  unfoldable pub submission_target : Execution → Option String → Execution
  submission_target loaded none = s.without_job loaded
  submission_target loaded (some job) = s.with_job job loaded

  unfoldable pub submission_answered : Execution → Json → Exec Execution
  unfolding job_of submission_target
  submission_answered loaded response = do
    assert_lease loaded.id lease
    job ← lift (job_of response)
    commit_public write_guard lease loaded (submission_target loaded job)

  unfoldable pub submission_settled : Execution → Option Json → Exec Execution
  submission_settled loaded none = submission_failed loaded
  submission_settled loaded (some response) = submission_answered loaded response

  -- the call, while the lease is in force
  unfoldable pub guarded_call : Execution → Exec Json
  guarded_call loaded = do assert_lease loaded.id lease; s.call loaded

  -- The commit has expired the object: the `try` block reads it again, then checks the lease.
  unfoldable pub submit_loaded : String → Option Execution → Exec Execution
  submit_loaded id none = do loaded ← refreshed object_deleted id; submission_failed loaded
  submit_loaded id (some loaded) = do
    response ← caught (guarded_call loaded)
    submission_settled loaded response

  unfoldable pub submit : Execution → Exec Execution
  submit e = do
    commit_current write_guard lease e (s.announce e)
    write_guard
    loaded ← caught (refreshed object_deleted e.id)
    submit_loaded e.id loaded

module _ (py : Python) (client : Client) (plan : Json) where
  unfoldable pub deploy_call : Execution → Exec Json
  unfolding deploy_params
  deploy_call loaded = do
    params ← lift (deploy_params py loaded plan)
    client.deploy_virtual_machine params

  unfoldable pub deployment : Submission
  unfolding save deploy_call
  deployment = record {
    announce = λ e. record e { state = deploy_submitting };
    call = deploy_call;
    unknown = save submission_unknown (some "deploy_submission_unknown");
    without_job = save submission_unknown (some "deploy_job_id_missing");
    with_job = λ job e. record (save deploy_submitted none e) { deploy_job_id = some job };
  }

  unfoldable pub start_host : Outcome Json
  unfolding subscript
  start_host = subscript "deployment" plan then subscript "host_id"

  unfoldable pub start_call : Execution → Exec Json
  unfolding start_host
  start_call loaded = do host ← lift start_host; client.start_virtual_machine loaded.id host

  unfoldable pub start : Submission
  unfolding save start_call
  start = record {
    announce = λ e. record e { state = start_submitting };
    call = start_call;
    unknown = save start_unknown (some "start_submission_unknown");
    without_job = save start_unknown (some "start_job_id_missing");
    with_job = λ job e. record (save start_submitted none e) { start_job_id = some job };
  }
