-- ===== src/Registry/Activate/Guarantee.antt =====
-- `activate_bound_claim` of adoption_registry.py and the life of a claim.
use proxmox_cloudstack_sync.Base.{ℕ, zero, suc, ◌≡◌, refl, true, Option, none, some, arith}
use proxmox_cloudstack_sync.Store.{Claim, Execution, Db}
use proxmox_cloudstack_sync.Store.Lifecycle.{Edge, activate as activate_step}
use proxmox_cloudstack_sync.Session.{Exec}
use proxmox_cloudstack_sync.Session.Guarantee.{
  Keeps, Keeps-transact, Keeps-retry_operational, Keeps-bind, Keeps-if, Keeps-pure, Keeps-raise,
  Keeps-query, Keeps-lift, Keeps-guard, Keeps-current_time,
}
use proxmox_cloudstack_sync.Registry.Validate.{Python}
use proxmox_cloudstack_sync.Registry.Activation.{Activation, ActivateRequest}
use proxmox_cloudstack_sync.Registry.Write.{compare_and_set, compare_and_set-CommitEvolves}
use proxmox_cloudstack_sync.Registry.Activate.{
  activatable, managed_row, check_lease, activation_verdict, try_activate, activate_attempts,
  activate_checked, activate, activate_bound_claim,
}

module _ (a : Activation) where
  activate_edge :
      (now : ℕ) (db : Db) (c : Claim) → activatable a now db c ≡ true → Edge c (managed_row a now c)
  unfolding activatable managed_row
  activate_edge now db c h = activate_step now (ground arith) refl

  check_lease-Keeps : (now : ℕ) (o : Option Execution) → Keeps (check_lease a now o)
  unfolding check_lease
  check_lease-Keeps now none = Keeps-raise _
  check_lease-Keeps now (some e) = Keeps-guard _ _

  activation_verdict-Keeps :
      (again : Exec Claim) (o : Option Claim) → Keeps again → Keeps (activation_verdict a again o)
  unfolding activation_verdict
  activation_verdict-Keeps again none k = Keeps-raise _
  activation_verdict-Keeps again (some c) k =
      Keeps-if _ _ _ (Keeps-pure c) (Keeps-if _ _ _ k (Keeps-raise _))

module _ (write_guard : Exec (Unit {0})) (guard_keeps : Keeps write_guard) (a : Activation) where
  try_activate-Keeps : Keeps (try_activate write_guard a)
  unfolding try_activate
  try_activate-Keeps =
      let write =
        Keeps-transact (λ now db. compare_and_set (activatable a now db) (managed_row a now) db)
          (λ now db.
            compare_and_set-CommitEvolves (activatable a now db) (managed_row a now)
              (activate_edge a now db) db) in
      Keeps-retry_operational _ (
        Keeps-bind _ _ guard_keeps λ _. Keeps-bind _ _ (Keeps-query _) λ leased.
          Keeps-bind _ _ Keeps-current_time λ now.
            Keeps-bind _ _ (check_lease-Keeps a now leased)
              λ _. Keeps-bind _ _ guard_keeps λ _. Keeps-bind _ _ write λ _. Keeps-pure tt)

  activate_attempts-Keeps : (left : ℕ) → Keeps (activate_attempts write_guard a left)
  unfolding activate_attempts
  activate_attempts-Keeps zero = Keeps-raise _
  activate_attempts-Keeps (suc left) = Keeps-bind _ _ try_activate-Keeps λ _.
      Keeps-bind _ _ (Keeps-query _)
        λ o. activation_verdict-Keeps a _ o (activate_attempts-Keeps left)

  activate-Keeps : Keeps (activate write_guard a)
  unfolding activate activate_checked
  activate-Keeps = Keeps-bind _ _ (Keeps-query _) λ found. Keeps-bind _ _ (Keeps-lift _) λ c.
      Keeps-bind _ _ (Keeps-guard _ _) λ _. Keeps-bind _ _ (Keeps-guard _ _) λ _.
        Keeps-if _ _ _ (Keeps-pure c) (Keeps-if _ _ _ (activate_attempts-Keeps 3) (Keeps-raise _))

pub activate_bound_claim-Keeps :
    (py : Python) (write_guard : Exec (Unit {0})) (r : ActivateRequest)
    → Keeps write_guard
    → Keeps (activate_bound_claim py write_guard r)
unfolding activate_bound_claim
activate_bound_claim-Keeps py write_guard r k =
    Keeps-bind _ _ (Keeps-lift _) (activate-Keeps write_guard k)
