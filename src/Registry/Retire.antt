-- ===== src/Registry/Retire.antt =====
-- `retire_claim` and `finalize_retiring_claim` of adoption_registry.py.
pub mod Guarantee
use proxmox_cloudstack_sync.Base.{
  ℕ, zero, suc, String, Bool, true, false, ◌&&◌, ◌||◌, not, Option, none, some, is_none, ◌==◌,
  str_eq, holds_text, if◌then◌else◌,
}
use proxmox_cloudstack_sync.Json.{Json}
use proxmox_cloudstack_sync.Outcome.{Outcome, ok, claim_conflict, claim_invalid}
use proxmox_cloudstack_sync.Store.{
  Claim, ClaimState, OperationLease, Db, is_state, bound, managed, operating, retiring, released,
  claim_by_id,
}
use proxmox_cloudstack_sync.Store.Rows.{count, delete}
use proxmox_cloudstack_sync.Session.{
  Exec, Commit, committed, rolled_back, pure, lift, raise, guard, when◌then◌otherwise◌, ◌>>=◌, ◌>>◌,
  query, current_time, transact, attempt, retry_operational,
}
use proxmox_cloudstack_sync.Registry.Validate.{
  Python, Request, Identity, validated_identity, normalized_text, canonical_uuid, same_guest,
  same_vm, found_claim,
}
use proxmox_cloudstack_sync.Registry.Write.{updated, compare_and_set}
use proxmox_cloudstack_sync.Registry.Lease.{
  active_lease, expired_lease, lease_fence, recoverable_lease, only_row,
}

-- equality of two nullable columns, NULL being equal to itself alone
unfoldable pub same_text : Option String → Option String → Bool
unfolding holds_text
same_text o none = is_none o
same_text o (some t) = holds_text o t

module _ (a : Identity) where
  -- the row as it was read, with its state and its lease
  unfoldable pub retirable : ClaimState → Option String → Claim → Bool
  unfolding same_text same_guest same_vm
  retirable source lease c =
      str_eq c.id a.id
      && (is_state c.state source
          && (c.generation == a.generation
              && (same_text c.operation_lease_id lease && (same_guest a c && same_vm a c))))

  unfoldable pub retired_row : ℕ → Claim → Claim
  retired_row now c = record c { state = retiring; operation_lease_id = none; updated_at = now }

  abbrev pub without_lease : ClaimState → Option String → Db → Db
  without_lease source none db = db
  without_lease source (some lease) db =
      if is_state source operating
      then (record db {
        leases = delete (λ l. str_eq l.id lease && str_eq l.claim_id a.id) db.leases;
      })
      else db

  unfoldable pub retire_write : ClaimState → Option String → ℕ → Db → Commit Bool
  retire_write source lease now db =
      if count (retirable source lease) db.claims == 1
      then committed true
          (without_lease source lease (updated (retirable source lease) (retired_row now) db))
      else rolled_back false

  -- An operating claim may be retired only over an expired lease, another live claim only without.
  unfoldable pub check_retirable : Claim → Exec (Unit {0})
  check_retirable c =
      when is_state c.state operating
      then (do
        fence ← lease_fence c.operation_lease_id
        now ← current_time
        active ← query (active_lease a.id fence now)
        guard (is_none active) (claim_conflict "managed operation is still in progress")
        found ← query (expired_lease a.id fence now)
        expired ← recoverable_lease found
        pure tt)
      otherwise (when is_state c.state bound || is_state c.state managed
          then guard (is_none c.operation_lease_id)
              (claim_conflict "non-operating claim has an unexpected lease fence")
          otherwise (raise (claim_conflict "claim lifecycle cannot be retired")))

module _ (write_guard : Exec (Unit {0})) (a : Identity) where
  unfoldable pub try_retire : ClaimState → Option String → Exec (Option Claim)
  try_retire source lease = attempt (do
    write_guard
    changed ← transact (retire_write a source lease)
    when changed
        then (do row ← query (claim_by_id a.id); c ← only_row row; pure (some c))
        otherwise (pure none))

  unfoldable pub retired : Exec Claim → Option Claim → Exec Claim
  retired again none = again
  retired again (some c) = pure c

  unfoldable pub retire_found : Exec Claim → Claim → Exec Claim
  retire_found again c = do
    guard (c.generation == a.generation) (claim_invalid "claim generation is stale")
    guard (same_guest a c && same_vm a c) (claim_invalid "claim retirement identity does not match")
    when is_state c.state retiring then pure c otherwise (do
      check_retirable a c
      done ← try_retire c.state c.operation_lease_id
      retired again done)

  unfoldable pub retire_attempts : ℕ → Exec Claim
  retire_attempts zero = raise (claim_conflict "claim retirement retry limit reached")
  retire_attempts (suc left) = do
    found ← query (claim_by_id a.id)
    c ← lift (found_claim found)
    retire_found (retire_attempts left) c

module _ (py : Python) (write_guard : Exec (Unit {0})) where
  unfoldable pub retire_claim : Request → Exec Claim
  retire_claim r = do a ← lift (validated_identity py r); retire_attempts write_guard a 3

module _ (id vm_ref : String) where
  unfoldable pub finalizable : ℕ → Claim → Bool
  unfolding holds_text
  finalizable generation c =
      str_eq c.id id
      && (is_state c.state retiring
          && (c.generation == generation && holds_text c.cloudstack_vm_ref vm_ref))

  unfoldable pub released_row : ℕ → Claim → Claim
  released_row now c = record c { state = released; updated_at = now }

  unfoldable pub is_tombstone : ℕ → Claim → Bool
  unfolding holds_text
  is_tombstone generation c = c.generation == generation && holds_text c.cloudstack_vm_ref vm_ref

  unfoldable pub finalize_verdict : ℕ → Exec Claim → Option Claim → Exec Claim
  finalize_verdict generation again none =
      raise (claim_conflict "claim disappeared during finalization")
  finalize_verdict generation again (some c) =
      when is_state c.state released && is_tombstone generation c
      then pure c
      otherwise (when is_state c.state retiring && is_tombstone generation c
          then again
          otherwise (raise
              (claim_conflict "claim finalization lost a concurrent state transition")))

  module _ (write_guard : Exec (Unit {0})) where
    unfoldable pub try_finalize : ℕ → Exec (Unit {0})
    try_finalize generation = retry_operational (do
      write_guard
      changed ← transact λ now db. compare_and_set (finalizable generation) (released_row now) db
      pure tt)

    unfoldable pub finalize_attempts : ℕ → ℕ → Exec Claim
    finalize_attempts generation zero =
        raise (claim_conflict "claim finalization retry limit reached")
    finalize_attempts generation (suc left) = do
      try_finalize generation
      current ← query (claim_by_id id)
      finalize_verdict generation (finalize_attempts generation left) current

    unfoldable pub finalize : Exec Claim
    finalize = do
      found ← query (claim_by_id id)
      c ← lift (found_claim found)
      guard (holds_text c.cloudstack_vm_ref vm_ref)
          (claim_invalid "CloudStack VM reference does not match tombstone")
      when is_state c.state released
          then pure c
          otherwise (when is_state c.state retiring
              then finalize_attempts c.generation 3
              otherwise (raise (claim_conflict "only a retiring claim may be finalized")))

module _ (py : Python) (write_guard : Exec (Unit {0})) where
  unfoldable pub finalize_retiring_claim : Json → Json → Exec Claim
  finalize_retiring_claim claim_id cloudstack_vm_ref = do
    id ← lift (canonical_uuid py claim_id "claim_id must be a UUID")
    vm_ref ← lift (normalized_text cloudstack_vm_ref)
    finalize id vm_ref write_guard
