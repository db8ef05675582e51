-- ===== src/Registry/Lease.antt =====
-- `acquire_managed_operation_lease` and `complete_managed_operation_lease` of adoption_registry.py.
pub mod Guarantee
pub mod Busy
use proxmox_cloudstack_sync.Base.{
  ℕ, zero, suc, ◌+◌, ◌*◌, String, Bool, true, false, ◌&&◌, not, Option, none, some, List, [], ◌∷◌,
  ◌++◌, find, any, is_none, is_some, ltb, leb, ◌==◌, str_eq, holds_text, if◌then◌else◌,
}
use proxmox_cloudstack_sync.Json.{Json, int, pos, text}
use proxmox_cloudstack_sync.Outcome.{Outcome, ok, claim_conflict, claim_invalid, no_result_found}
use proxmox_cloudstack_sync.Store.{
  Claim, ClaimState, OperationLease, Db, is_state, managed, operating, retiring, claim_by_id,
}
use proxmox_cloudstack_sync.Store.Rows.{count, delete}
use proxmox_cloudstack_sync.Session.{
  Exec, Commit, committed, rolled_back, violated, pure, lift, raise, guard, when◌then◌otherwise◌,
  ◌>>=◌, ◌>>◌, query, current_time, transact, attempt, on_integrity,
}
use proxmox_cloudstack_sync.Registry.Validate.{
  Python, Request, normalized_text, validated_generation, canonical_uuid,
}
use proxmox_cloudstack_sync.Registry.Write.{updated, compare_and_set}
use proxmox_cloudstack_sync.Registry.State.{is_managed_action, validated_claim_state}

-- MANAGED_OPERATION_LEASE_DURATION in seconds
abbrev pub lease_duration : ℕ
lease_duration = 2 * 3600

unfoldable pub first_lease : String → Db → Option OperationLease
unfolding find
first_lease claim_id db = find (λ l. str_eq l.claim_id claim_id) db.leases

-- the lease of the claim with this identifier, if `expires_at > now`
unfoldable pub active_lease : String → String → ℕ → Db → Option OperationLease
unfolding find
active_lease claim_id id now db =
    find (λ l. str_eq l.claim_id claim_id && (str_eq l.id id && ltb now l.expires_at)) db.leases

-- the same, if `expires_at <= now`
unfoldable pub expired_lease : String → String → ℕ → Db → Option OperationLease
unfolding find
expired_lease claim_id id now db =
    find (λ l. str_eq l.claim_id claim_id && (str_eq l.id id && leb l.expires_at now)) db.leases

-- `not claim.operation_lease_id` is an error
unfoldable pub lease_fence : Option String → Exec String
lease_fence none = raise (claim_conflict "operating claim has no lease fence")
lease_fence (some id) =
    when str_eq id ""
    then raise (claim_conflict "operating claim has no lease fence")
    otherwise pure id

unfoldable pub only_row : {A : Type 0} → Option A → Exec A
only_row none = raise no_result_found
only_row (some a) = pure a

unfoldable pub recoverable_lease : Option OperationLease → Exec OperationLease
recoverable_lease none = raise (claim_conflict "operating claim has no recoverable lease")
recoverable_lease (some l) = pure l

module _ (id : String) (generation : ℕ) where
  -- the operating claim with this lease
  unfoldable pub is_fenced_by : String → Claim → Bool
  unfolding holds_text
  is_fenced_by lease c =
      str_eq c.id id
      && (c.generation == generation
          && (is_state c.state operating && holds_text c.operation_lease_id lease))

  unfoldable pub unfenced_row : ℕ → Claim → Claim
  unfenced_row now c = record c { state = managed; operation_lease_id = none; updated_at = now }

  -- Back to managed, with the lease deleted in the same transaction.
  unfoldable pub unfence_write : String → ℕ → Db → Commit Bool
  unfence_write lease now db =
      if count (is_fenced_by lease) db.claims == 1
      then committed true (record (updated (is_fenced_by lease) (unfenced_row now) db) {
        leases = delete (λ l. str_eq l.id lease && str_eq l.claim_id id) db.leases;
      })
      else rolled_back false

  unfoldable pub fenceable : Claim → Bool
  fenceable c =
      str_eq c.id id
      && (c.generation == generation && (is_state c.state managed && is_none c.operation_lease_id))

  unfoldable pub fenced_row : String → ℕ → Claim → Claim
  fenced_row lease now c = record c {
    state = operating;
    operation_lease_id = some lease;
    updated_at = now;
  }

  abbrev pub new_lease : String → String → ℕ → OperationLease
  new_lease lease action now = record {
    id = lease;
    claim_id = id;
    generation = generation;
    action = action;
    expires_at = now + lease_duration;
  }

  -- the primary key, or the unique claim of a lease, is taken
  unfoldable pub lease_clashes : String → Db → Bool
  lease_clashes lease db =
      any (λ l. if str_eq l.id lease then true else str_eq l.claim_id id) db.leases

  unfoldable pub fence_write : String → String → ℕ → Db → Commit (Option OperationLease)
  fence_write lease action now db =
      if count fenceable db.claims == 1
      then if lease_clashes lease db
        then violated
        else committed (some (new_lease lease action now))
            (record (updated fenceable (fenced_row lease now) db) {
              leases = db.leases ++ new_lease lease action now ∷ [];
            })
      else rolled_back none

module _ (py : Python) (write_guard : Exec (Unit {0})) (request : Request) where
  -- the request with the claim's identifier and generation as they were validated
  abbrev pub checked_request : String → ℕ → Request
  checked_request id generation = record request {
    claim_id = text id;
    generation = int (pos generation);
  }

  -- An expired lease is given up; a live one, or none at all, is an error.
  unfoldable pub recover : String → ℕ → Claim → ℕ → Exec (Unit {0})
  recover id generation c now = do
    fence ← lease_fence c.operation_lease_id
    active ← query (active_lease id fence now)
    guard (is_none active) (claim_conflict "managed operation already in progress")
    found ← query (expired_lease id fence now)
    expired ← recoverable_lease found
    write_guard
    recovered ← transact (λ _. unfence_write id generation expired.id now)
    pure tt

  unfoldable pub try_fence : String → ℕ → String → String → ℕ → Exec (Option OperationLease)
  try_fence id generation action lease now = attempt (
      on_integrity (claim_conflict "managed operation already in progress")
        (do write_guard; transact (λ _. fence_write id generation lease action now)))

  unfoldable pub leased : Exec OperationLease → Option OperationLease → Exec OperationLease
  leased again none = again
  leased again (some l) = pure l

  -- `new_id left` is the text of the `uuid.uuid4()` of that attempt
  unfoldable pub lease_attempts : (ℕ → String) → String → ℕ → String → ℕ → Exec OperationLease
  lease_attempts new_id id generation action zero =
      raise (claim_conflict "managed operation lease retry limit reached")
  lease_attempts new_id id generation action (suc left) = do
    state ← validated_claim_state py (checked_request id generation)
    row ← query (claim_by_id id)
    c ← only_row row
    now ← current_time
    when is_state state operating
        then (do recover id generation c now; lease_attempts new_id id generation action left)
        otherwise (do
          guard (is_state state managed) (claim_conflict "claim lifecycle is not managed")
          fenced ← try_fence id generation action (new_id left) now
          leased (lease_attempts new_id id generation action left) fenced)

  unfoldable pub managed_action : Json → Exec String
  managed_action action = do
    operation ← lift (normalized_text action)
    guard (is_managed_action operation) (claim_invalid "managed operation action is unsupported")
    pure operation

  unfoldable pub acquire_managed_operation_lease : (ℕ → String) → Json → Exec OperationLease
  acquire_managed_operation_lease new_id action = do
    id ← lift (canonical_uuid py request.claim_id "claim_id must be a UUID")
    generation ← lift (validated_generation request.generation)
    operation ← managed_action action
    lease_attempts new_id id generation operation 3

  unfoldable pub completion_lease : String → String → ℕ → OperationLease → Exec (Unit {0})
  completion_lease lease operation generation l = do
    guard (str_eq l.id lease && str_eq l.action operation)
        (claim_invalid "managed operation lease does not match")
    guard (l.generation == generation) (claim_invalid "managed operation lease generation is stale")

  unfoldable pub complete_with :
      String → ℕ → String → String → ClaimState → Option OperationLease → Exec ClaimState
  complete_with id generation operation lease state none =
      when is_state state managed
      then pure state
      otherwise (when is_state state retiring
          then pure state
          otherwise (raise (claim_conflict "operating claim has no completion lease")))
  complete_with id generation operation lease state (some l) = do
    completion_lease lease operation generation l
    write_guard
    completed ← transact (unfence_write id generation lease)
    guard completed (claim_conflict "managed operation completion lost its state fence")
    pure managed

  unfoldable pub complete_managed_operation_lease : Json → Json → Exec ClaimState
  complete_managed_operation_lease action lease_id = do
    id ← lift (canonical_uuid py request.claim_id "claim_id and lease_id must be UUIDs")
    lease ← lift (canonical_uuid py lease_id "claim_id and lease_id must be UUIDs")
    generation ← lift (validated_generation request.generation)
    operation ← managed_action action
    state ← validated_claim_state py (checked_request id generation)
    found ← query (first_lease id)
    complete_with id generation operation lease state found
