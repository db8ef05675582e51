-- ===== src/Executor/Keeps.antt =====
-- adoption_executor.py and the life of the claims: writes, and calls of a client.
pub mod Worker
pub mod Requests
pub mod Creation
use proxmox_cloudstack_sync.Base.{
  ℕ, zero, suc, String, ◌≡◌, refl, subst, sym, Bool, true, false, ◌&&◌, ◌||◌, ◌==◌, Option, none,
  some, Bool-cases, and-true, inl, inr, ◌⊎◌, str_eq, is_none, is_some, arith,
}
use proxmox_cloudstack_sync.Json.{Json}
use proxmox_cloudstack_sync.Outcome.{
  Error, Outcome, ok, raised, authority_conflict, claim_conflict, claim_invalid,
}
use proxmox_cloudstack_sync.Store.{
  Db, Claim, Execution, ExecutionState, claim_by_id, execution_by_id, reserved, cleanup, is_state,
}
use proxmox_cloudstack_sync.Store.ExecutionState.{
  planned, deploy_submitting, deploy_submitted, submission_unknown, deploy_succeeded,
  start_submitting, start_submitted, start_unknown, verifying, cleanup_submitting,
  cleanup_submitted, cleanup_authorized,
}
use proxmox_cloudstack_sync.Store.Lifecycle.{Edge, abandon, Evolves, here}
use proxmox_cloudstack_sync.Store.Rows.{count, update}
use proxmox_cloudstack_sync.Session.{World, Exec, pure, lift, ◌>>=◌, Commit}
use proxmox_cloudstack_sync.Session.Guarantee.{
  IsFair, Progress, Progress-refl, Progress-trans, Keeps, CommitEvolves, Keeps-pure, Keeps-lift,
  Keeps-raise, Keeps-query, Keeps-transact, Keeps-if, Keeps-guard, Keeps-current_time, Keeps-bind,
  Keeps-retry_operational, Keeps-attempt,
}
use proxmox_cloudstack_sync.Registry.Validate.{Python}
use proxmox_cloudstack_sync.Registry.Write.{updated-Evolves}
use proxmox_cloudstack_sync.Executor.State.{set_execution, executions_updated}
use proxmox_cloudstack_sync.Executor.Acquire.{
  takeable, leased_row, acquire_write, acquire_verdict, try_acquire, acquire_attempts,
  acquire_execution,
}
use proxmox_cloudstack_sync.Executor.Params.{Params}
use proxmox_cloudstack_sync.Executor.Client.{
  Client, load_exact_external_vm, handle_caught, caught, handle_pending, completed,
}
use proxmox_cloudstack_sync.Executor.Commit.{
  refreshed, assert_lease, flush_write, flush, commit_current, commit_public,
}
use proxmox_cloudstack_sync.Executor.Submit.{
  Submission, submission_failed, submission_answered, submission_settled, guarded_call,
  submit_loaded, submit, deploy_call, start_call, deployment, start,
}
use proxmox_cloudstack_sync.Executor.Finalize.{
  is_unbound, releasable, released_row, completable, completed_row, both_rows, release_write,
  release_verdict, try_release, release_checked, release_attempts, finalize_cleanup_release,
}
use proxmox_cloudstack_sync.Executor.Reconcile.{
  Activate, observed_vms, job_result, reconcile_submission, commit_or, reconcile_planned,
  deploy_job_done, reconcile_deploy_submitted, reconcile_start_submission,
  reconcile_deploy_succeeded, reconcile_start_submitted, activation_done, activation_pending,
  reconcile_verifying, reconcile_cleanup, cleanup_job_done, reconcile_cleanup_submitted,
  reconcile_state, reconcile_leased, reconcile_execution,
}

-- a write that leaves the claims
pub claims_kept : (before after : Db) → after.claims ≡ before.claims → Evolves before after
unfolding claim_by_id
claims_kept before after same = record { at = λ id c h. (c, rw same h, here) }

pub set_execution-CommitEvolves :
    (test : Execution → Bool) (values : Execution → Execution) (db : Db)
    → CommitEvolves db (set_execution test values db)
set_execution-CommitEvolves test values db = elim (Bool-cases (count test db.executions == 1)) [
  | inl e ↦ rw e (claims_kept db (executions_updated test values db) refl)
  | inr e ↦ rw e tt
]

pub both_rows-CommitEvolves :
    (claim_test : Claim → Bool) (claim_values : Claim → Claim) (test : Execution → Bool)
    (values : Execution → Execution) (db : Db)
    → ((c : Claim) → claim_test c ≡ true → Edge c (claim_values c))
    → CommitEvolves db (both_rows claim_test claim_values test values db)
unfolding both_rows
both_rows-CommitEvolves claim_test claim_values test values db edge =
    elim (Bool-cases (count claim_test db.claims == 1 && count test db.executions == 1)) [
      | inl e ↦ rw e (
          updated-Evolves claim_test claim_values edge db
            (record db {
              claims = update claim_test claim_values db.claims;
              executions = update test values db.executions;
            })
            refl)
      | inr e ↦ rw e tt
    ]

is_unbound-state : (c : Claim) → is_unbound c ≡ true → (c.state ≡ reserved) ⊎ (c.state ≡ cleanup)
unfolding is_unbound
is_unbound-state c h = ground arith

pub release_edge :
    (claim_id : String) (generation now : ℕ) (c : Claim)
    → releasable claim_id generation c ≡ true
    → Edge c (released_row now c)
unfolding releasable released_row
release_edge claim_id generation now c h =
    let (_, a) = and-true (str_eq c.id claim_id) _ h in
    let (_, b) = and-true (c.generation == generation) _ a in
    abandon now (is_unbound-state c b) refl

handle_caught-same : {A : Type 0} (r : Outcome A) (w : World) → (handle_caught r w).1 ≡ w
handle_caught-same (ok a) w = refl
handle_caught-same (raised (authority_conflict s)) w = refl
handle_caught-same (raised _) w = refl

handle_pending-same : (r : Outcome (Unit {0})) (w : World) → (handle_pending r w).1 ≡ w
handle_pending-same (ok a) w = refl
handle_pending-same (raised (claim_conflict s)) w = refl
handle_pending-same (raised (claim_invalid s)) w = refl
handle_pending-same (raised _) w = refl

pub Keeps-caught : {A : Type 0} (m : Exec A) → Keeps m → Keeps (caught m)
unfolding caught
Keeps-caught m k = record { at = λ w f. rw (handle_caught-same (m w).0 (m w).1) (k.at w f) }

pub Keeps-completed : (m : Exec (Unit {0})) → Keeps m → Keeps (completed m)
unfolding completed
Keeps-completed m k = record { at = λ w f. rw (handle_pending-same (m w).0 (m w).1) (k.at w f) }

pub Keeps-refreshed : (missing : Error) (id : String) → Keeps (refreshed missing id)
unfolding refreshed
Keeps-refreshed missing id = Keeps-bind _ _ (Keeps-query _) λ row. Keeps-lift _

pub Keeps-assert_lease : (id lease : String) → Keeps (assert_lease id lease)
unfolding assert_lease
Keeps-assert_lease id lease =
    Keeps-bind _ _ (Keeps-refreshed _ id)
      λ e. Keeps-bind _ _ Keeps-current_time λ now. Keeps-guard _ _

flush-CommitEvolves :
    (e t : Execution) (now : ℕ) (db : Db) → CommitEvolves db (flush_write e t now db)
unfolding flush_write
flush-CommitEvolves e t now db = elim (Bool-cases (is_some (execution_by_id e.id db))) [
  | inl k ↦ rw k (claims_kept db _ refl)
  | inr k ↦ rw k tt
]

pub Keeps-flush : (e t : Execution) → Keeps (flush e t)
unfolding flush
Keeps-flush e t =
    Keeps-bind _ _ (Keeps-transact (flush_write e t) (flush-CommitEvolves e t))
      λ found. Keeps-guard _ _

-- The calls of the client keep the claims on their life, as the callbacks do that they meet.
pub record ClientKeeps (client : Client) : Type 0 where
  pub lists : Keeps client.list_virtual_machines
  pub deploys : (p : Params) → Keeps (client.deploy_virtual_machine p)
  pub starts : (vm : String) (host : Json) → Keeps (client.start_virtual_machine vm host)
  pub destroys : (vm : String) → Keeps (client.destroy_virtual_machine vm)
  pub jobs : (job : Option String) → Keeps (client.query_async_job job)

pub Keeps-load :
    (client : Client) (vm : String) → ClientKeeps client → Keeps (load_exact_external_vm client vm)
unfolding load_exact_external_vm
Keeps-load client vm k =
    Keeps-bind _ _ k.lists λ v. Keeps-bind _ _ (Keeps-lift _) λ vms. Keeps-pure _
