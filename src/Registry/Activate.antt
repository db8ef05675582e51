-- ===== src/Registry/Activate.antt =====
-- `activate_bound_claim` of adoption_registry.py: a bound claim becomes managed.
pub mod Guarantee
use proxmox_cloudstack_sync.Base.{
  ℕ, zero, suc, String, Bool, true, false, ◌&&◌, Option, none, some, find, any, is_some, ltb, leb,
  ◌==◌, str_eq, holds_text, if◌then◌else◌,
}
use proxmox_cloudstack_sync.Json.{Json}
use proxmox_cloudstack_sync.Outcome.{Outcome, ok, claim_conflict, claim_invalid}
use proxmox_cloudstack_sync.Store.{
  Claim, Execution, ExecutionState, Db, is_state, bound, managed, verifying, claim_by_id,
}
use proxmox_cloudstack_sync.Session.{
  Exec, Commit, pure, lift, raise, guard, when◌then◌otherwise◌, ◌>>=◌, ◌>>◌, query, current_time,
  transact, retry_operational,
}
use proxmox_cloudstack_sync.Registry.Validate.{Python, found_claim}
use proxmox_cloudstack_sync.Registry.Activation.{Activation, ActivateRequest, validated_activation}
use proxmox_cloudstack_sync.Registry.Write.{compare_and_set}

is_verifying : ExecutionState → Bool
is_verifying verifying = true
is_verifying _ = false

module _ (a : Activation) where
  -- the execution that verifies the deployment under this worker's lease
  unfoldable pub is_leased : Execution → Bool
  unfolding is_verifying holds_text
  is_leased e =
      str_eq e.id a.execution_id
      && (str_eq e.claim_id a.id
          && (e.generation == a.generation
              && (is_verifying e.state && holds_text e.worker_lease_id a.lease_id)))

  unfoldable pub leased_execution : Db → Option Execution
  unfolding find
  leased_execution db = find is_leased db.executions

  -- `expires_at > now`, which a missing time is not
  unfoldable pub lease_is_live : ℕ → Execution → Bool
  lease_is_live now e = elim e.worker_lease_expires_at [ none ↦ false | some t ↦ ltb now t ]

  unfoldable pub activatable : ℕ → Db → Claim → Bool
  unfolding holds_text
  activatable now db c =
      str_eq c.id a.id
      && (is_state c.state bound
          && (c.generation == a.generation
              && (holds_text c.cloudstack_vm_ref a.vm_ref
                  && any (λ e. is_leased e && lease_is_live now e) db.executions)))

  unfoldable pub managed_row : ℕ → Claim → Claim
  managed_row now c = record c { state = managed; updated_at = now }

  unfoldable pub check_lease : ℕ → Option Execution → Exec (Unit {0})
  check_lease now none = raise (claim_conflict "activation execution lease is not current")
  check_lease now (some e) =
      guard (lease_is_live now e) (claim_conflict "activation execution lease has expired")

  unfoldable pub has_identity : Claim → Bool
  unfolding holds_text
  has_identity c = c.generation == a.generation && holds_text c.cloudstack_vm_ref a.vm_ref

  unfoldable pub activation_verdict : Exec Claim → Option Claim → Exec Claim
  activation_verdict again none = raise (claim_conflict "claim disappeared during activation")
  activation_verdict again (some c) =
      when has_identity c && is_state c.state managed
      then pure c
      otherwise (when has_identity c && is_state c.state bound
          then again
          otherwise (raise (claim_conflict "claim activation lost a concurrent state transition")))

module _ (write_guard : Exec (Unit {0})) (a : Activation) where
  -- The row of the execution stays locked from the SELECT to the UPDATE, which tests it again.
  unfoldable pub try_activate : Exec (Unit {0})
  try_activate = retry_operational (do
    write_guard
    leased ← query (leased_execution a)
    now ← current_time
    check_lease a now leased
    write_guard
    changed ← transact λ now db. compare_and_set (activatable a now db) (managed_row a now) db
    pure tt)

  unfoldable pub activate_attempts : ℕ → Exec Claim
  activate_attempts zero = raise (claim_conflict "claim activation retry limit reached")
  activate_attempts (suc left) = do
    try_activate
    current ← query (claim_by_id a.id)
    activation_verdict a (activate_attempts left) current

  unfoldable pub activate_checked : Claim → Exec Claim
  activate_checked c =
      when is_state c.state managed
      then pure c
      otherwise (when is_state c.state bound
          then activate_attempts 3
          otherwise (raise (claim_conflict "only a bound claim may become managed")))

  unfoldable pub activate : Exec Claim
  activate = do
    found ← query (claim_by_id a.id)
    c ← lift (found_claim found)
    guard (c.generation == a.generation) (claim_invalid "claim generation is stale")
    guard (holds_text c.cloudstack_vm_ref a.vm_ref)
        (claim_invalid "CloudStack VM reference does not match bound claim")
    activate_checked c

module _ (py : Python) (write_guard : Exec (Unit {0})) where
  unfoldable pub activate_bound_claim : ActivateRequest → Exec Claim
  activate_bound_claim r = do a ← lift (validated_activation py r); activate write_guard a
