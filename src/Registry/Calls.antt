-- ===== src/Registry/Calls.antt =====
-- Sequences of registry calls by this service, among the writes of other sessions.
use proxmox_cloudstack_sync.Base.{
  ℕ, String, ◌≡◌, sym, ◌∙◌, subst, Option, some, List, [], ◌∷◌, eq_of_some-eq,
}
use proxmox_cloudstack_sync.Json.{Json}
use proxmox_cloudstack_sync.Store.{Claim, claim_by_id}
use proxmox_cloudstack_sync.Store.Lifecycle.{Leads, Leads-Follows, Leads-Fenced, Follows, Fenced}
use proxmox_cloudstack_sync.Session.{World, Exec, pure, ◌>>=◌}
use proxmox_cloudstack_sync.Session.Guarantee.{
  Keeps, Keeps-bind, Keeps-pure, Progress, Progress-refl, Progress-trans, IsFair,
}
use proxmox_cloudstack_sync.Registry.Validate.{Python, Request}
use proxmox_cloudstack_sync.Registry.Target.{ReserveRequest}
use proxmox_cloudstack_sync.Registry.Activation.{ActivateRequest}
use proxmox_cloudstack_sync.Registry.Reserve.{reserve_claim}
use proxmox_cloudstack_sync.Registry.Reserve.Guarantee.{reserve_claim-Keeps}
use proxmox_cloudstack_sync.Registry.Bind.{bind_claim}
use proxmox_cloudstack_sync.Registry.Bind.Guarantee.{bind_claim-Keeps}
use proxmox_cloudstack_sync.Registry.Activate.{activate_bound_claim}
use proxmox_cloudstack_sync.Registry.Activate.Guarantee.{activate_bound_claim-Keeps}
use proxmox_cloudstack_sync.Registry.Lease.{
  acquire_managed_operation_lease, complete_managed_operation_lease,
}
use proxmox_cloudstack_sync.Registry.Lease.Guarantee.{
  acquire_managed_operation_lease-Keeps, complete_managed_operation_lease-Keeps,
}
use proxmox_cloudstack_sync.Registry.Retire.{retire_claim, finalize_retiring_claim}
use proxmox_cloudstack_sync.Registry.Retire.Guarantee.{
  retire_claim-Keeps, finalize_retiring_claim-Keeps,
}

pub data Call : Type 0 where
  reserve : String → ReserveRequest → Call
  bind : Option String → Option String → Request → Call
  activate : ActivateRequest → Call
  acquire : (ℕ → String) → Request → Json → Call
  complete : Request → Json → Json → Call
  retire : Request → Call
  finalize : Json → Json → Call

unfoldable pub ignore : {A : Type 0} → Exec A → Exec (Unit {0})
ignore m = do a ← m; pure tt

pub ignore-Keeps : {A : Type 0} (m : Exec A) → Keeps m → Keeps (ignore m)
unfolding ignore
ignore-Keeps m k = Keeps-bind _ _ k λ _. Keeps-pure tt

module _ (py : Python) (write_guard : Exec (Unit {0})) where
  -- The result, an exception too, goes to the caller.
  unfoldable pub call : Call → Exec (Unit {0})
  unfolding ignore
  call (reserve new_id r) = ignore (reserve_claim py write_guard new_id r)
  call (bind plan overrides r) = ignore (bind_claim py plan overrides write_guard r)
  call (activate r) = ignore (activate_bound_claim py write_guard r)
  call (acquire new_id r action) =
      ignore (acquire_managed_operation_lease py write_guard r new_id action)
  call (complete r action lease) =
      ignore (complete_managed_operation_lease py write_guard r action lease)
  call (retire r) = ignore (retire_claim py write_guard r)
  call (finalize id ref) = ignore (finalize_retiring_claim py write_guard id ref)

  -- Each call leaves its world to the next, whether it returned or raised.
  unfoldable pub serve : List Call → World → World
  serve [] w = w
  serve (c ∷ rest) w = serve rest (call c w).1

module _ (py : Python) (write_guard : Exec (Unit {0})) (guard_keeps : Keeps write_guard) where
  pub call-Keeps : (c : Call) → Keeps (call py write_guard c)
  unfolding call
  call-Keeps (reserve new_id r) =
      ignore-Keeps _ (reserve_claim-Keeps py write_guard new_id r guard_keeps)
  call-Keeps (bind plan overrides r) =
      ignore-Keeps _ (bind_claim-Keeps py plan overrides write_guard guard_keeps r)
  call-Keeps (activate r) = ignore-Keeps _ (activate_bound_claim-Keeps py write_guard r guard_keeps)
  call-Keeps (acquire new_id r action) =
      ignore-Keeps _
        (acquire_managed_operation_lease-Keeps py write_guard guard_keeps r new_id action)
  call-Keeps (complete r action lease) =
      ignore-Keeps _
        (complete_managed_operation_lease-Keeps py write_guard guard_keeps r action lease)
  call-Keeps (retire r) = ignore-Keeps _ (retire_claim-Keeps py write_guard r guard_keeps)
  call-Keeps (finalize id ref) =
      ignore-Keeps _ (finalize_retiring_claim-Keeps py write_guard id ref guard_keeps)

  serve-Progress :
      (calls : List Call) (w : World) → IsFair w → Progress w (serve py write_guard calls w)
  unfolding serve
  serve-Progress [] w f = Progress-refl w f
  serve-Progress (c ∷ rest) w f =
      let p = (call-Keeps c).at w f in
      Progress-trans p (serve-Progress rest (call py write_guard c w).1 p.fair)

  -- Whatever calls are made, with whatever arguments, results and faults, while the other sessions
  -- and the write guard move claims along their life only, every claim of the database is still
  -- there afterwards, has gone on along its life, keeps its identifier, cluster and VMID, and has
  -- no smaller generation.
  pub serve-Follows :
      (calls : List Call) (w : World) (id : String) (c : Claim)
      → IsFair w
      → claim_by_id id w.db ≡ some c
      → (d : Claim) × (claim_by_id id (serve py write_guard calls w).db ≡ some d)
        × Leads c d
        × Follows c d
  serve-Follows calls w id c f h =
      let (d, hd, l) = (serve-Progress calls w f).evolves.at id c h in (d, hd, l, Leads-Follows l)

  -- Whatever calls are made, a claim with a CloudStack reference keeps the reference, the instance
  -- name, the node and the manifest for as long as its generation stays the same.
  pub serve-Fenced :
      (calls : List Call) (w : World) (id ref : String) (c d : Claim)
      → IsFair w
      → claim_by_id id w.db ≡ some c
      → c.cloudstack_vm_ref ≡ some ref
      → claim_by_id id (serve py write_guard calls w).db ≡ some d
      → c.generation ≡ d.generation
      → Fenced c d
  serve-Fenced calls w id ref c d f h r k g =
      let (e, he, l) = (serve-Progress calls w f).evolves.at id c h in
      let same = eq_of_some-eq (sym he ∙ k) in Leads-Fenced ref (subst (Leads c) same l) g r
