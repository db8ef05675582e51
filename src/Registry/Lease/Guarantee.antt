-- ===== src/Registry/Lease/Guarantee.antt =====
-- The operations on leases of adoption_registry.py and the life of a claim.
use proxmox_cloudstack_sync.Base.{
  ℕ, zero, suc, String, ◌≡◌, refl, inl, inr, true, Option, none, some, arith, ◌==◌, Bool-cases,
}
use proxmox_cloudstack_sync.Json.{Json}
use proxmox_cloudstack_sync.Store.{Claim, ClaimState, OperationLease, Db}
use proxmox_cloudstack_sync.Store.Rows.{count}
use proxmox_cloudstack_sync.Store.Lifecycle.{Edge, fence, unfence}
use proxmox_cloudstack_sync.Session.{Exec}
use proxmox_cloudstack_sync.Session.Guarantee.{
  Keeps, CommitEvolves, Keeps-transact, Keeps-attempt, Keeps-on_integrity, Keeps-bind, Keeps-if,
  Keeps-pure, Keeps-raise, Keeps-query, Keeps-lift, Keeps-guard, Keeps-current_time,
}
use proxmox_cloudstack_sync.Registry.Validate.{Python, Request}
use proxmox_cloudstack_sync.Registry.Write.{updated-Evolves}
use proxmox_cloudstack_sync.Registry.State.{validated_claim_state, lifecycle_state}
use proxmox_cloudstack_sync.Registry.Lease.{
  lease_fence, only_row, recoverable_lease, is_fenced_by, unfenced_row, unfence_write, fenceable,
  fenced_row, lease_clashes, fence_write, recover, try_fence, leased, lease_attempts,
  managed_action, acquire_managed_operation_lease, completion_lease, complete_with,
  complete_managed_operation_lease,
}

module _ (id : String) (generation : ℕ) where
  unfence_edge :
      (lease : String) (now : ℕ) (c : Claim)
      → is_fenced_by id generation lease c ≡ true
      → Edge c (unfenced_row id generation now c)
  unfolding is_fenced_by unfenced_row
  unfence_edge lease now c h = unfence now (ground arith) refl

  pub fence_edge :
      (lease : String) (now : ℕ) (c : Claim)
      → fenceable id generation c ≡ true
      → Edge c (fenced_row id generation lease now c)
  unfolding fenceable fenced_row
  fence_edge lease now c h = fence lease now (ground arith) (ground arith) refl

  unfence_write-CommitEvolves :
      (lease : String) (now : ℕ) (db : Db)
      → CommitEvolves db (unfence_write id generation lease now db)
  unfolding unfence_write
  unfence_write-CommitEvolves lease now db =
      elim (Bool-cases (count (is_fenced_by id generation lease) db.claims == 1)) [
        | inl e ↦ rw e (
            updated-Evolves (is_fenced_by id generation lease) (unfenced_row id generation now)
              (unfence_edge lease now) db _ refl)
        | inr e ↦ rw e tt
      ]

  fence_write-CommitEvolves :
      (lease action : String) (now : ℕ) (db : Db)
      → CommitEvolves db (fence_write id generation lease action now db)
  unfolding fence_write
  fence_write-CommitEvolves lease action now db =
      elim (Bool-cases (count (fenceable id generation) db.claims == 1)) [
        | inl e ↦ rw e (elim (Bool-cases (lease_clashes id generation lease db)) [
          | inl taken ↦ rw taken tt
          | inr free ↦ rw free (
              updated-Evolves (fenceable id generation) (fenced_row id generation lease now)
                (fence_edge lease now) db _ refl)
        ])
        | inr e ↦ rw e tt
      ]

pub lease_fence-Keeps : (o : Option String) → Keeps (lease_fence o)
unfolding lease_fence
lease_fence-Keeps none = Keeps-raise _
lease_fence-Keeps (some id) = Keeps-if _ _ _ (Keeps-raise _) (Keeps-pure id)

pub only_row-Keeps : {A : Type 0} (o : Option A) → Keeps (only_row o)
unfolding only_row
only_row-Keeps none = Keeps-raise _
only_row-Keeps (some a) = Keeps-pure a

pub recoverable_lease-Keeps : (o : Option OperationLease) → Keeps (recoverable_lease o)
unfolding recoverable_lease
recoverable_lease-Keeps none = Keeps-raise _
recoverable_lease-Keeps (some l) = Keeps-pure l

pub validated_claim_state-Keeps : (py : Python) (r : Request) → Keeps (validated_claim_state py r)
unfolding validated_claim_state lifecycle_state
validated_claim_state-Keeps py r = Keeps-bind _ _ (Keeps-lift _) λ a.
    Keeps-bind _ _ (Keeps-query _) λ found. Keeps-bind _ _ (Keeps-lift _) λ c.
      Keeps-bind _ _ (Keeps-guard _ _) λ _.
        Keeps-bind _ _ (Keeps-guard _ _)
          λ _. Keeps-bind _ _ (Keeps-guard _ _) λ _. Keeps-pure c.state

module _ (py : Python) (write_guard : Exec (Unit {0})) (guard_keeps : Keeps write_guard)
    (request : Request) where
  recover-Keeps :
      (id : String) (generation : ℕ) (c : Claim) (now : ℕ)
      → Keeps (recover py write_guard request id generation c now)
  unfolding recover
  recover-Keeps id generation c now =
      Keeps-bind _ _ (lease_fence-Keeps c.operation_lease_id) λ fence.
        Keeps-bind _ _ (Keeps-query _) λ active. Keeps-bind _ _ (Keeps-guard _ _) λ _.
          Keeps-bind _ _ (Keeps-query _) λ found.
            Keeps-bind _ _ (recoverable_lease-Keeps found) λ expired.
              Keeps-bind _ _ guard_keeps λ _.
                Keeps-bind _ _
                  (Keeps-transact _ (λ _. unfence_write-CommitEvolves id generation expired.id now))
                  λ _. Keeps-pure tt

  try_fence-Keeps :
      (id : String) (generation : ℕ) (action lease : String) (now : ℕ)
      → Keeps (try_fence py write_guard request id generation action lease now)
  unfolding try_fence
  try_fence-Keeps id generation action lease now = Keeps-attempt _ (
      Keeps-on_integrity _ _ (
        Keeps-bind _ _ guard_keeps
          λ _. Keeps-transact _ (λ _. fence_write-CommitEvolves id generation lease action now)))

  leased-Keeps :
      (again : Exec OperationLease) (o : Option OperationLease)
      → Keeps again
      → Keeps (leased py write_guard request again o)
  unfolding leased
  leased-Keeps again none k = k
  leased-Keeps again (some l) k = Keeps-pure l

  lease_attempts-Keeps :
      (new_id : ℕ → String) (id : String) (generation : ℕ) (action : String) (left : ℕ)
      → Keeps (lease_attempts py write_guard request new_id id generation action left)
  unfolding lease_attempts
  lease_attempts-Keeps new_id id generation action zero = Keeps-raise _
  lease_attempts-Keeps new_id id generation action (suc left) =
      Keeps-bind _ _ (validated_claim_state-Keeps py _) λ state.
        Keeps-bind _ _ (Keeps-query _) λ row. Keeps-bind _ _ (only_row-Keeps row) λ c.
          Keeps-bind _ _ Keeps-current_time λ now.
            let again = lease_attempts-Keeps new_id id generation action left in
            Keeps-if _ _ _ (Keeps-bind _ _ (recover-Keeps id generation c now) λ _. again) (
              Keeps-bind _ _ (Keeps-guard _ _) λ _.
                Keeps-bind _ _ (try_fence-Keeps id generation action (new_id left) now)
                  λ o. leased-Keeps _ o again)

  managed_action-Keeps : (action : Json) → Keeps (managed_action py write_guard request action)
  unfolding managed_action
  managed_action-Keeps action =
      Keeps-bind _ _ (Keeps-lift _)
        λ operation. Keeps-bind _ _ (Keeps-guard _ _) λ _. Keeps-pure operation

  pub acquire_managed_operation_lease-Keeps :
      (new_id : ℕ → String) (action : Json)
      → Keeps (acquire_managed_operation_lease py write_guard request new_id action)
  unfolding acquire_managed_operation_lease
  acquire_managed_operation_lease-Keeps new_id action = Keeps-bind _ _ (Keeps-lift _) λ id.
      Keeps-bind _ _ (Keeps-lift _) λ generation.
        Keeps-bind _ _ (managed_action-Keeps action)
          λ operation. lease_attempts-Keeps new_id id generation operation 3

  complete_with-Keeps :
      (id : String) (generation : ℕ) (operation lease : String) (state : ClaimState)
      (o : Option OperationLease)
      → Keeps (complete_with py write_guard request id generation operation lease state o)
  unfolding complete_with completion_lease
  complete_with-Keeps id generation operation lease state none =
      Keeps-if _ _ _ (Keeps-pure state) (Keeps-if _ _ _ (Keeps-pure state) (Keeps-raise _))
  complete_with-Keeps id generation operation lease state (some l) =
      Keeps-bind _ _ (Keeps-bind _ _ (Keeps-guard _ _) λ _. Keeps-guard _ _) λ _.
        Keeps-bind _ _ guard_keeps λ _.
          Keeps-bind _ _ (Keeps-transact _ (unfence_write-CommitEvolves id generation lease))
            λ _. Keeps-bind _ _ (Keeps-guard _ _) λ _. Keeps-pure _

  pub complete_managed_operation_lease-Keeps :
      (action lease_id : Json)
      → Keeps (complete_managed_operation_lease py write_guard request action lease_id)
  unfolding complete_managed_operation_lease
  complete_managed_operation_lease-Keeps action lease_id = Keeps-bind _ _ (Keeps-lift _) λ id.
      Keeps-bind _ _ (Keeps-lift _) λ lease. Keeps-bind _ _ (Keeps-lift _) λ generation.
        Keeps-bind _ _ (managed_action-Keeps action) λ operation.
          Keeps-bind _ _ (validated_claim_state-Keeps py _) λ state.
            Keeps-bind _ _ (Keeps-query _)
              λ o. complete_with-Keeps id generation operation lease state o
