-- ===== src/Registry/State.antt =====
-- `validated_claim_state` of adoption_registry.py, and the actions that a lease may fence.
use proxmox_cloudstack_sync.Base.{String, Bool, ◌&&◌, ◌||◌, List, [], ◌∷◌, any, ◌==◌, str_eq}
use proxmox_cloudstack_sync.Outcome.{claim_conflict, claim_invalid}
use proxmox_cloudstack_sync.Store.{
  ClaimState, is_state, bound, managed, operating, retiring, claim_by_id,
}
use proxmox_cloudstack_sync.Session.{Exec, pure, lift, guard, ◌>>=◌, ◌>>◌, query}
use proxmox_cloudstack_sync.Registry.Validate.{
  Python, Request, Identity, validated_identity, same_guest, same_vm, found_claim,
}

abbrev pub managed_operation_actions : List String
managed_operation_actions =
    "console" ∷ "start" ∷ "stop" ∷ "reboot" ∷ "create_snapshot" ∷ "restore_snapshot"
    ∷ "delete_snapshot" ∷ []

unfoldable pub is_managed_action : String → Bool
is_managed_action s = any (str_eq s) managed_operation_actions

-- bound, managed, operating or retiring
unfoldable pub has_lifecycle : ClaimState → Bool
has_lifecycle s =
    is_state s bound || (is_state s managed || (is_state s operating || is_state s retiring))

-- the whole identity, and a state with an active CloudStack VM
unfoldable pub lifecycle_state : Identity → Exec ClaimState
lifecycle_state a = do
  found ← query (claim_by_id a.id)
  c ← lift (found_claim found)
  guard (c.generation == a.generation) (claim_invalid "claim generation is stale")
  guard (same_guest a c && same_vm a c) (claim_invalid "claim lifecycle identity does not match")
  guard (has_lifecycle c.state) (claim_conflict "claim has no active CloudStack lifecycle identity")
  pure c.state

unfoldable pub validated_claim_state : Python → Request → Exec ClaimState
validated_claim_state py r = do a ← lift (validated_identity py r); lifecycle_state a
