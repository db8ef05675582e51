-- ===== src/Registry/Bind.antt =====
-- `bind_claim` of adoption_registry.py: a reservation is bound to one CloudStack VM.
pub mod Guarantee
pub mod Exclusive
pub mod Again
use proxmox_cloudstack_sync.Base.{
  ℕ, zero, suc, String, Bool, true, false, ◌&&◌, not, Option, none, some, List, [], ◌∷◌, find, any,
  is_none, ◌==◌, str_eq, holds_text, if◌then◌else◌,
}
use proxmox_cloudstack_sync.Outcome.{
  Error, Outcome, ok, raised, claim_conflict, claim_invalid, claim_not_found,
}
use proxmox_cloudstack_sync.Store.{Claim, Execution, Db, is_state, reserved, bound, claim_by_id}
use proxmox_cloudstack_sync.Store.Rows.{count}
use proxmox_cloudstack_sync.Session.{
  Exec, Commit, committed, rolled_back, violated, pure, lift, raise, guard, when◌then◌otherwise◌,
  ◌>>=◌, ◌>>◌, query, transact, retry_operational, on_integrity,
}
use proxmox_cloudstack_sync.Registry.Validate.{
  Python, Request, Identity, validated_identity, same_guest, same_vm,
  execution_callback_binding_matches, found_claim,
}
use proxmox_cloudstack_sync.Registry.Write.{updated}

-- the execution with this reference as its identifier, for the claim and the generation
unfoldable pub execution_of : String → String → ℕ → Db → Option Execution
unfolding find
execution_of id claim_id generation db =
    find (λ e. str_eq e.id id && (str_eq e.claim_id claim_id && e.generation == generation))
      db.executions

module _ (a : Identity) where
  -- the WHERE of the bind
  unfoldable pub bindable : Claim → Bool
  bindable c =
      str_eq c.id a.id
      && (is_state c.state reserved
          && (c.generation == a.generation
              && (str_eq c.manifest_sha256 a.manifest_sha256 && is_none c.cloudstack_vm_ref)))

  unfoldable pub bound_row : ℕ → Claim → Claim
  bound_row now c = record c {
    state = bound;
    cloudstack_vm_ref = some a.vm_ref;
    cloudstack_instance_name = some a.instance_name;
    updated_at = now;
  }

  -- another claim has the reference, which is unique
  unfoldable pub ref_taken : Db → Bool
  unfolding holds_text
  ref_taken db = any (λ c. holds_text c.cloudstack_vm_ref a.vm_ref) db.claims

  unfoldable pub bind_write : ℕ → Db → Commit Bool
  unfolding ref_taken
  bind_write now db =
      if count bindable db.claims == 1
      then if ref_taken db then violated else committed true (updated bindable (bound_row now) db)
      else rolled_back false

  -- what the re-read row must be for success, and for another attempt
  unfoldable pub is_bound_to : Claim → Bool
  is_bound_to c =
      is_state c.state bound
      && (c.generation == a.generation
          && (str_eq c.manifest_sha256 a.manifest_sha256 && same_vm a c))

  unfoldable pub is_still_reserved : Claim → Bool
  is_still_reserved c =
      is_state c.state reserved
      && (c.generation == a.generation && str_eq c.manifest_sha256 a.manifest_sha256)

  unfoldable pub bind_verdict : Exec Claim → Option Claim → Exec Claim
  bind_verdict again none =
      raise (claim_conflict "claim was bound concurrently to another CloudStack VM")
  bind_verdict again (some c) =
      when is_bound_to c
      then pure c
      otherwise when is_still_reserved c
      then again
      otherwise raise (claim_conflict "claim was bound concurrently to another CloudStack VM")

module _ (write_guard : Exec (Unit {0})) (a : Identity) where
  -- the `try` block of one attempt
  unfoldable pub try_bind : Exec (Unit {0})
  try_bind = retry_operational (
      on_integrity (claim_conflict "CloudStack VM reference is already bound")
        (do write_guard; done ← transact (bind_write a); pure tt))

  unfoldable pub bind_attempts : ℕ → Exec Claim
  bind_attempts zero = raise (claim_conflict "claim bind retry limit reached")
  bind_attempts (suc left) = do
    try_bind
    current ← query (claim_by_id a.id)
    bind_verdict a (bind_attempts left) current

  unfoldable pub bind_checked : Claim → Exec Claim
  bind_checked c =
      when is_state c.state bound
      then (when same_vm a c
          then pure c
          otherwise raise (claim_conflict "claim is already bound to another CloudStack VM"))
      otherwise when is_state c.state reserved
      then bind_attempts 3
      otherwise raise (claim_conflict "claim is not bindable")

module _ (py : Python) (plan_sha256 ip_overrides : Option String)
    (write_guard : Exec (Unit {0})) where
  -- everything after the arguments are validated
  unfoldable pub bind_identity : Identity → Exec Claim
  bind_identity a = do
    execution ← query (execution_of a.vm_ref a.id a.generation)
    guard (execution_callback_binding_matches py plan_sha256 ip_overrides execution)
        (claim_invalid "execution callback binding does not match persisted plan")
    found ← query (claim_by_id a.id)
    c ← lift (found_claim found)
    guard (c.generation == a.generation) (claim_invalid "claim generation is stale")
    guard (same_guest a c) (claim_invalid "claim identity or manifest does not match")
    bind_checked write_guard a c

  unfoldable pub bind_claim : Request → Exec Claim
  bind_claim request = do a ← lift (validated_identity py request); bind_identity a
