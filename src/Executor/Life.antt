-- ===== src/Executor/Life.antt =====
-- The life of an execution: the changes of state that the code of adoption_executor.py makes.
use proxmox_cloudstack_sync.Base.{◌≡◌, refl, Bool-cases, inl, inr, ℕ}
use proxmox_cloudstack_sync.Store.{Execution, ExecutionState}
use proxmox_cloudstack_sync.Store.ExecutionState.{
  planned, deploy_submitting, deploy_submitted, submission_unknown, deploy_succeeded,
  start_submitting, start_submitted, start_unknown, verifying, succeeded, failed, cleanup_required,
  cleanup_submitting, cleanup_submitted, cleanup_authorized, rolled_back,
}
use proxmox_cloudstack_sync.Executor.State.{same_state}
use proxmox_cloudstack_sync.Executor.Commit.{flushed}

-- the states in which a submission has been announced, and its end is not known
pub data IsDeploying : ExecutionState → Type 0 where
  announced : IsDeploying deploy_submitting
  unknown : IsDeploying submission_unknown

pub data IsStarting : ExecutionState → Type 0 where
  start_announced : IsStarting start_submitting
  start_lost : IsStarting start_unknown

pub data IsCleaning : ExecutionState → Type 0 where
  submitting : IsCleaning cleanup_submitting
  authorized : IsCleaning cleanup_authorized
  submitted : IsCleaning cleanup_submitted

-- One committed change of the state by a worker.
pub data Step : ExecutionState → ExecutionState → Type 0 where
  stay : {s : ExecutionState} → Step s s
  announce_deployment : Step planned deploy_submitting
  find_deployed : Step planned deploy_succeeded
  find_starting : Step planned submission_unknown
  find_other : Step planned cleanup_required
  lose_deployment : {s : ExecutionState} → IsDeploying s → Step s submission_unknown
  observe_deployed : {s : ExecutionState} → IsDeploying s → Step s deploy_succeeded
  observe_other : {s : ExecutionState} → IsDeploying s → Step s cleanup_required
  submit_deployment : Step deploy_submitting deploy_submitted
  finish_deployment : Step deploy_submitted deploy_succeeded
  fail_deployment : Step deploy_submitted failed
  reject_deployment : Step deploy_submitted cleanup_required
  announce_start : Step deploy_succeeded start_submitting
  reject_start : Step deploy_succeeded cleanup_required
  submit_start : Step start_submitting start_submitted
  lose_start : {s : ExecutionState} → IsStarting s → Step s start_unknown
  observe_started : {s : ExecutionState} → IsStarting s → Step s verifying
  finish_start : Step start_submitted verifying
  fail_start : Step start_submitted start_unknown
  activate : Step verifying succeeded
  keep_cleaning : {s : ExecutionState} → IsCleaning s → Step s cleanup_submitting
  require_cleanup : {s : ExecutionState} → IsCleaning s → Step s cleanup_required
  roll_back : {s : ExecutionState} → IsCleaning s → Step s rolled_back

-- The identity and the plan are kept.
pub record Change (e f : Execution) : Type 0 where
  pub id : f.id ≡ e.id
  pub claim : f.claim_id ≡ e.claim_id
  pub generation : f.generation ≡ e.generation
  pub sha : f.plan_sha256 ≡ e.plan_sha256
  pub json : f.plan_json ≡ e.plan_json
  pub state : Step e.state f.state

-- Any number of changes.
pub data Becomes (e : Execution) : Execution → Type 0 where
  unchanged : Becomes e e
  changed : {f g : Execution} → Becomes e f → Change f g → Becomes e g

pub Becomes-trans : {e f g : Execution} → Becomes e f → Becomes f g → Becomes e g
Becomes-trans p unchanged = p
Becomes-trans p (changed q c) = changed (Becomes-trans p q) c

-- What a commit makes of the row that was loaded.
pub flushed-Change :
    (e target : Execution) (now : ℕ) → Step e.state target.state → Change e (flushed e target now e)
unfolding flushed
flushed-Change e target now s = record {
  id = refl;
  claim = refl;
  generation = refl;
  sha = refl;
  json = refl;
  state = elim (Bool-cases (same_state e.state target.state)) [
    | inl k ↦ rw k stay
    | inr k ↦ rw k s
  ];
}
