-- ===== src/Executor/Deletion.antt =====
-- `authorize_cleanup_delete` of adoption_executor.py: the extension asks whether it may delete the
-- VM of a claim which is not bound.
use proxmox_cloudstack_sync.Base.{
  ℕ, zero, suc, String, Bool, true, ◌&&◌, ◌||◌, Option, some, ◌==◌, is_none, str_eq, holds_text,
  if◌then◌else◌,
}
use proxmox_cloudstack_sync.Json.{Json}
use proxmox_cloudstack_sync.Outcome.{
  Outcome, ok, raised, execution_conflict, execution_invalid, no_result_found,
}
use proxmox_cloudstack_sync.Store.{
  Db, Claim, Execution, claim_by_id, is_state, reserved, cleanup, execution_by_id,
}
use proxmox_cloudstack_sync.Store.ExecutionState.{
  cleanup_submitting, cleanup_submitted, cleanup_authorized,
}
use proxmox_cloudstack_sync.Session.{
  Exec, Commit, pure, lift, raise, guard, when◌then◌otherwise◌, ◌>>=◌, ◌>>◌, query, transact,
  attempt,
}
use proxmox_cloudstack_sync.Registry.Validate.{Python}
use proxmox_cloudstack_sync.Executor.State.{executor_uuid, same_state}
use proxmox_cloudstack_sync.Executor.Commit.{refreshed}
use proxmox_cloudstack_sync.Executor.Finalize.{is_cleaning, both_rows}

-- what the extension says of the VM that it is to delete
pub record Deletion : Type 0 where
  pub claim_id : String
  pub generation : ℕ
  pub proxmox_cluster : String
  pub proxmox_node : String
  pub proxmox_vmid : ℕ
  pub manifest_sha256 : String
  pub cloudstack_vm_ref : String
  pub cloudstack_instance_name : String

module _ (d : Deletion) where
  -- cluster, node, VMID, manifest and generation are those of the claim, which has no VM
  unfoldable pub deletes_for : Claim → Bool
  deletes_for c =
      c.generation == d.generation
      && (str_eq c.proxmox_cluster d.proxmox_cluster
          && (str_eq c.proxmox_node d.proxmox_node
              && (c.proxmox_vmid == d.proxmox_vmid
                  && (str_eq c.manifest_sha256 d.manifest_sha256
                      && (is_none c.cloudstack_vm_ref && is_none c.cloudstack_instance_name)))))

  unfoldable pub is_deletable : Execution → Claim → Bool
  unfolding deletes_for is_cleaning holds_text
  is_deletable e c =
      str_eq e.claim_id c.id
      && (e.generation == d.generation
          && (is_cleaning e.state
              && (holds_text e.cloudstack_vm_ref d.cloudstack_vm_ref
                  && (holds_text e.cloudstack_instance_name d.cloudstack_instance_name
                      && deletes_for c))))

  -- the WHERE of the UPDATE of the execution
  unfoldable pub authorizable : Execution → Claim → Execution → Bool
  unfolding same_state holds_text
  authorizable e c r =
      str_eq r.id e.id
      && (str_eq r.claim_id c.id
          && (r.generation == d.generation
              && ((same_state r.state cleanup_submitting || same_state r.state cleanup_submitted)
                  && (holds_text r.cloudstack_vm_ref d.cloudstack_vm_ref
                      && holds_text r.cloudstack_instance_name d.cloudstack_instance_name))))

  unfoldable pub authorized_row : ℕ → Execution → Execution
  authorized_row now e = record e { state = cleanup_authorized; updated_at = now }

  -- the WHERE of the UPDATE of the claim
  unfoldable pub abandonable : Claim → Claim → Bool
  unfolding deletes_for
  abandonable c r = str_eq r.id c.id && (is_state r.state reserved && deletes_for r)

  unfoldable pub abandoned_row : ℕ → Claim → Claim
  abandoned_row now c = record c { state = cleanup; updated_at = now }

  unfoldable pub authorize_write : Execution → Claim → ℕ → Db → Commit Bool
  unfolding authorizable authorized_row abandonable abandoned_row both_rows
  authorize_write e c now =
      both_rows (abandonable c) (abandoned_row now) (authorizable e c) (authorized_row now)

  abbrev pub both_found : Option Execution → Option Claim → Outcome (Execution × Claim)
  both_found (some e) (some c) = ok (e, c)
  both_found _ _ = raised (execution_invalid "cleanup identity not found")

  module _ (write_guard : Exec (Unit {0})) where
    -- The loop goes on where the transaction failed or lost a race.
    unfoldable pub authorize_verdict : Exec Execution → String → Option Bool → Exec Execution
    authorize_verdict again id (some true) = refreshed no_result_found id
    authorize_verdict again id _ = again

    unfoldable pub authorize_reserved : Exec Execution → Execution → Claim → Exec Execution
    authorize_reserved again e c = do
      guard (is_state c.state reserved) (execution_conflict "cleanup claim is no longer unbound")
      write_guard
      done ← attempt (do changed ← transact (authorize_write e c); pure (some changed))
      authorize_verdict again e.id done

    unfoldable pub authorize_attempts : String → String → ℕ → Exec Execution
    unfolding is_deletable
    authorize_attempts claim_id id zero =
        raise (execution_conflict "cleanup authorization lost a concurrent transition")
    authorize_attempts claim_id id (suc left) = do
      row ← query (execution_by_id id)
      claim ← query (claim_by_id claim_id)
      (e, c) ← lift (both_found row claim)
      guard (is_deletable e c) (execution_conflict "cleanup identity or state mismatch")
      (when is_state c.state cleanup
          then pure e
          otherwise (authorize_reserved (authorize_attempts claim_id id left) e c))

unfoldable pub authorize_cleanup_delete :
    Python → Exec (Unit {0}) → Json → Json → Deletion → Exec Execution
unfolding executor_uuid
authorize_cleanup_delete py write_guard claim_id cloudstack_vm_ref d = do
  claim ← lift (executor_uuid py claim_id)
  id ← lift (executor_uuid py cloudstack_vm_ref)
  authorize_attempts (record d { claim_id = claim; cloudstack_vm_ref = id }) write_guard claim id 3
