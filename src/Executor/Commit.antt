-- ===== src/Executor/Commit.antt =====
-- adoption_executor.py: `assert_lease`, `_save` and `commit_current` of a reconciliation.
use proxmox_cloudstack_sync.Base.{
  ℕ, String, Bool, true, false, ◌&&◌, Option, none, some, ◌==◌, is_some, str_eq, holds_text,
  if◌then◌else◌,
}
use proxmox_cloudstack_sync.Outcome.{
  Error, execution_conflict, no_result_found, object_deleted, stale_data,
}
use proxmox_cloudstack_sync.Store.{Db, Execution, ExecutionState, execution_by_id}
use proxmox_cloudstack_sync.Session.{
  Exec, Commit, committed, rolled_back as undone, lift, guard, ◌>>=◌, ◌>>◌, query, current_time,
  transact,
}
use proxmox_cloudstack_sync.Registry.Validate.{require}
use proxmox_cloudstack_sync.Executor.State.{same_state, not_past, executions_updated}

-- the row is leased to this worker, and the lease has not expired
unfoldable pub holds_lease : String → ℕ → Execution → Bool
unfolding holds_text not_past
holds_lease lease now e =
    holds_text e.worker_lease_id lease && not_past now e.worker_lease_expires_at

-- an expired object is read again
unfoldable pub refreshed : Error → String → Exec Execution
refreshed missing id = do row ← query (execution_by_id id); lift (require row missing)

unfoldable pub assert_lease : String → String → Exec (Unit {0})
assert_lease id lease = do
  e ← refreshed no_result_found id
  now ← current_time
  guard (holds_lease lease now e) (execution_conflict "execution worker lease is not current")

-- `_save` without further fields
unfoldable pub save : ExecutionState → Option String → Execution → Execution
save state code e = record e {
  state = state;
  error_code = code;
  worker_lease_id = none;
  worker_lease_expires_at = none;
}

unfoldable pub same_text : Option String → Option String → Bool
same_text none none = true
same_text (some s) (some t) = str_eq s t
same_text _ _ = false

unfoldable pub same_time : Option ℕ → Option ℕ → Bool
same_time none none = true
same_time (some s) (some t) = s == t
same_time _ _ = false

-- A column is written if its value differs from the one that was loaded.
abbrev pub written : {A : Type 0} → (A → A → Bool) → A → A → A → A
written same loaded target current = if same loaded target then current else target

-- the row after the UPDATE that a commit of the changed object issues, by primary key
unfoldable pub flushed : Execution → Execution → ℕ → Execution → Execution
unfolding same_state same_text same_time
flushed loaded target now row = record row {
  state = written same_state loaded.state target.state row.state;
  deploy_job_id = written same_text loaded.deploy_job_id target.deploy_job_id row.deploy_job_id;
  start_job_id = written same_text loaded.start_job_id target.start_job_id row.start_job_id;
  cleanup_job_id = written same_text loaded.cleanup_job_id target.cleanup_job_id row.cleanup_job_id;
  cloudstack_vm_ref =
      written same_text loaded.cloudstack_vm_ref target.cloudstack_vm_ref row.cloudstack_vm_ref;
  cloudstack_instance_name =
      written same_text loaded.cloudstack_instance_name target.cloudstack_instance_name
        row.cloudstack_instance_name;
  error_code = written same_text loaded.error_code target.error_code row.error_code;
  worker_lease_id =
      written same_text loaded.worker_lease_id target.worker_lease_id row.worker_lease_id;
  worker_lease_expires_at =
      written same_time loaded.worker_lease_expires_at target.worker_lease_expires_at
        row.worker_lease_expires_at;
  updated_at = now;
}

unfoldable pub flush_write : Execution → Execution → ℕ → Db → Commit Bool
unfolding flushed
flush_write loaded target now db =
    if is_some (execution_by_id loaded.id db)
    then committed true
        (executions_updated (λ e. str_eq e.id loaded.id) (flushed loaded target now) db)
    else undone false

-- `session.commit()` with changes to one object
unfoldable pub flush : Execution → Execution → Exec (Unit {0})
flush loaded target = do found ← transact (flush_write loaded target); guard found stale_data

unfoldable pub commit_current : Exec (Unit {0}) → String → Execution → Execution → Exec (Unit {0})
commit_current write_guard lease loaded target = do
  assert_lease loaded.id lease
  write_guard
  flush loaded target

-- `commit_current` and `public_execution`: the row as it is read after the commit
unfoldable pub commit_public : Exec (Unit {0}) → String → Execution → Execution → Exec Execution
commit_public write_guard lease loaded target = do
  commit_current write_guard lease loaded target
  refreshed object_deleted loaded.id
