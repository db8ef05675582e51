-- ===== src/Registry/Activation.antt =====
-- adoption_registry.py: what `activate_bound_claim` checks of its arguments.
use proxmox_cloudstack_sync.Base.{ℕ, String, str_eq}
use proxmox_cloudstack_sync.Json.{Json}
use proxmox_cloudstack_sync.Outcome.{Outcome, ok, claim_invalid}
use proxmox_cloudstack_sync.Registry.Validate.{
  Python, normalized_text, validated_generation, canonical_uuid, check, ◌>>=◌, ◌>>◌,
}

pub record ActivateRequest : Type 0 where
  pub claim_id : Json
  pub generation : Json
  pub cloudstack_vm_ref : Json
  pub execution_id : Json
  pub worker_lease_id : Json

pub record Activation : Type 0 where
  pub id : String
  pub generation : ℕ
  pub vm_ref : String
  pub execution_id : String
  pub lease_id : String

module _ (py : Python) where
  unfoldable pub validated_activation : ActivateRequest → Outcome Activation
  unfolding canonical_uuid validated_generation normalized_text
  validated_activation r = do
    id ← canonical_uuid py r.claim_id "claim_id must be a UUID"
    generation ← validated_generation r.generation
    vm_ref ← normalized_text r.cloudstack_vm_ref
    execution_id ← normalized_text r.execution_id
    lease_id ← canonical_uuid py r.worker_lease_id "worker_lease_id must be a UUID"
    check (str_eq vm_ref execution_id)
        (claim_invalid "activation execution does not match CloudStack VM reference")
    ok (record {
      id = id;
      generation = generation;
      vm_ref = vm_ref;
      execution_id = execution_id;
      lease_id = lease_id;
    })
