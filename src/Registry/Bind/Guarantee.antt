-- ===== src/Registry/Bind/Guarantee.antt =====
-- `bind_claim` of adoption_registry.py and the life of a claim.
use proxmox_cloudstack_sync.Base.{
  ℕ, zero, suc, String, ◌≡◌, refl, true, inl, inr, Option, none, some, arith, Bool-cases, ◌==◌,
}
use proxmox_cloudstack_sync.Store.{Claim, Db}
use proxmox_cloudstack_sync.Store.Rows.{count}
use proxmox_cloudstack_sync.Store.Lifecycle.{Edge, bind}
use proxmox_cloudstack_sync.Session.{Exec}
use proxmox_cloudstack_sync.Session.Guarantee.{
  Keeps, CommitEvolves, keeps_rules, Keeps-transact, Keeps-retry_operational, Keeps-on_integrity,
  Keeps-bind, Keeps-pure, Keeps-raise, Keeps-if, Keeps-query,
}
use proxmox_cloudstack_sync.Registry.Validate.{Python, Request, Identity}
use proxmox_cloudstack_sync.Registry.Write.{updated, updated-Evolves}
use proxmox_cloudstack_sync.Registry.Bind.{
  bindable, bound_row, ref_taken, bind_write, bind_verdict, try_bind, bind_attempts, bind_checked,
  bind_identity, bind_claim,
}

module _ (a : Identity) where
  pub bind_edge : (now : ℕ) (c : Claim) → bindable a c ≡ true → Edge c (bound_row a now c)
  unfolding bindable bound_row
  bind_edge now c h = bind a.vm_ref a.instance_name now (ground arith) (ground arith) refl

  bind_write-CommitEvolves : (now : ℕ) (db : Db) → CommitEvolves db (bind_write a now db)
  unfolding bind_write
  bind_write-CommitEvolves now db = elim (Bool-cases (count (bindable a) db.claims == 1)) [
    | inl one ↦ rw one (elim (Bool-cases (ref_taken a db)) [
      | inl taken ↦ rw taken tt
      | inr free ↦ rw free (
          updated-Evolves (bindable a) (bound_row a now) (bind_edge now) db
            (updated (bindable a) (bound_row a now) db) refl)
    ])
    | inr other ↦ rw other tt
  ]

  bind_verdict-Keeps :
      (again : Exec Claim) (o : Option Claim) → Keeps again → Keeps (bind_verdict a again o)
  unfolding bind_verdict
  bind_verdict-Keeps again none k = search keeps_rules
  bind_verdict-Keeps again (some c) k = search keeps_rules

  module _ (write_guard : Exec (Unit {0})) (guard_keeps : Keeps write_guard) where
    try_bind-Keeps : Keeps (try_bind write_guard a)
    unfolding try_bind
    try_bind-Keeps =
        let write = Keeps-transact (bind_write a) bind_write-CommitEvolves in
        Keeps-retry_operational _
          (Keeps-on_integrity _ _ (search (keeps_rules, write, guard_keeps)))

    bind_attempts-Keeps : (left : ℕ) → Keeps (bind_attempts write_guard a left)
    unfolding bind_attempts
    bind_attempts-Keeps zero = search keeps_rules
    bind_attempts-Keeps (suc left) =
        Keeps-bind _ _ try_bind-Keeps
          λ _. Keeps-bind _ _ (Keeps-query _) λ o. bind_verdict-Keeps _ o (bind_attempts-Keeps left)

    bind_checked-Keeps : (c : Claim) → Keeps (bind_checked write_guard a c)
    unfolding bind_checked
    bind_checked-Keeps c =
        Keeps-if _ _ _ (Keeps-if _ _ _ (Keeps-pure c) (Keeps-raise _))
          (Keeps-if _ _ _ (bind_attempts-Keeps 3) (Keeps-raise _))

module _ (py : Python) (plan_sha256 ip_overrides : Option String) (write_guard : Exec (Unit {0}))
    (guard_keeps : Keeps write_guard) where
  pub bind_identity-Keeps :
      (a : Identity) → Keeps (bind_identity py plan_sha256 ip_overrides write_guard a)
  unfolding bind_identity
  bind_identity-Keeps a =
      search (keeps_rules, bind_checked-Keeps a write_guard guard_keeps) depth 20

  pub bind_claim-Keeps :
      (r : Request) → Keeps (bind_claim py plan_sha256 ip_overrides write_guard r)
  unfolding bind_claim
  bind_claim-Keeps r = search (keeps_rules, bind_identity-Keeps)
