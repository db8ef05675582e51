-- ===== src/Executor/Service.antt =====
-- Sequences of calls of the registry and of the executor by this service, among the writes of other
-- sessions.
use proxmox_cloudstack_sync.Base.{
  ℕ, String, ◌≡◌, sym, ◌∙◌, subst, some, List, [], ◌∷◌, eq_of_some-eq,
}
use proxmox_cloudstack_sync.Json.{Json}
use proxmox_cloudstack_sync.Store.{Claim, claim_by_id}
use proxmox_cloudstack_sync.Store.Lifecycle.{Leads, Leads-Follows, Leads-Fenced, Follows, Fenced}
use proxmox_cloudstack_sync.Session.{World, Exec}
use proxmox_cloudstack_sync.Session.Guarantee.{
  Keeps, Progress, Progress-refl, Progress-trans, IsFair,
}
use proxmox_cloudstack_sync.Registry.Validate.{Python}
use proxmox_cloudstack_sync.Registry.Calls.{Call, call, call-Keeps, ignore, ignore-Keeps}
use proxmox_cloudstack_sync.Executor.Client.{Client}
use proxmox_cloudstack_sync.Executor.Create.{create_execution}
use proxmox_cloudstack_sync.Executor.Reconcile.{Activate, reconcile_execution}
use proxmox_cloudstack_sync.Executor.Retry.{request_execution_retry}
use proxmox_cloudstack_sync.Executor.Deletion.{Deletion, authorize_cleanup_delete}
use proxmox_cloudstack_sync.Executor.Cleanup.{request_execution_cleanup}
use proxmox_cloudstack_sync.Executor.Loop.{reconcile_active_executions}
use proxmox_cloudstack_sync.Executor.Keeps.{ClientKeeps}
use proxmox_cloudstack_sync.Executor.Keeps.Worker.{reconcile_execution-Keeps}
use proxmox_cloudstack_sync.Executor.Keeps.Requests.{
  request_execution_retry-Keeps, authorize_cleanup_delete-Keeps, request_execution_cleanup-Keeps,
}
use proxmox_cloudstack_sync.Executor.Keeps.Creation.{
  create_execution-Keeps, reconcile_active_executions-Keeps,
}

pub data Work : Type 0 where
  registry : Call → Work
  create : String → Json → ℕ → Json → Work
  reconcile : String → Json → ℕ → Work
  reconcile_all : ℕ → (String → String) → Work
  retry : Json → Work
  clean_up : Json → Work
  authorize : Json → Json → Deletion → Work

module _ (py : Python) (client : Client) (activate : Activate) (write_guard : Exec (Unit {0})) where
  -- The result, an exception too, goes to the caller.
  unfoldable pub work : Work → Exec (Unit {0})
  unfolding ignore call
  work (registry c) = call py write_guard c
  work (create new_id claim generation plan) =
      ignore (create_execution py write_guard new_id claim generation plan)
  work (reconcile lease id seconds) =
      ignore (reconcile_execution py client activate write_guard lease id seconds)
  work (reconcile_all seconds new_id) =
      ignore (reconcile_active_executions py client activate write_guard seconds new_id)
  work (retry id) = ignore (request_execution_retry py client write_guard id)
  work (clean_up id) = ignore (request_execution_cleanup py client write_guard id)
  work (authorize claim ref d) = ignore (authorize_cleanup_delete py write_guard claim ref d)

  -- Each piece of work leaves its world to the next, whether it returned or raised.
  unfoldable pub run : List Work → World → World
  run [] w = w
  run (x ∷ rest) w = run rest (work x w).1

module _ (py : Python) (client : Client) (client_keeps : ClientKeeps client) (activate : Activate)
    (activates : (c : String) (n : ℕ) (e l : String) → Keeps (activate c n e l))
    (write_guard : Exec (Unit {0})) (guarded : Keeps write_guard) where
  work-Keeps : (x : Work) → Keeps (work py client activate write_guard x)
  unfolding work
  work-Keeps (registry c) = call-Keeps py write_guard guarded c
  work-Keeps (create new_id claim generation plan) =
      ignore-Keeps _ (create_execution-Keeps write_guard guarded py new_id claim generation plan)
  work-Keeps (reconcile lease id seconds) = ignore-Keeps _ (
      reconcile_execution-Keeps write_guard guarded lease py client client_keeps activate activates
        id seconds)
  work-Keeps (reconcile_all seconds new_id) = ignore-Keeps _ (
      reconcile_active_executions-Keeps write_guard guarded py client client_keeps activate
        activates seconds new_id)
  work-Keeps (retry id) =
      ignore-Keeps _ (request_execution_retry-Keeps write_guard guarded client client_keeps py id)
  work-Keeps (clean_up id) =
      ignore-Keeps _ (request_execution_cleanup-Keeps write_guard guarded client client_keeps py id)
  work-Keeps (authorize claim ref d) =
      ignore-Keeps _
        (authorize_cleanup_delete-Keeps write_guard guarded client client_keeps py claim ref d)

  run-Progress :
      (xs : List Work) (w : World) → IsFair w → Progress w (run py client activate write_guard xs w)
  unfolding run
  run-Progress [] w f = Progress-refl w f
  run-Progress (x ∷ rest) w f =
      let p = (work-Keeps x).at w f in
      Progress-trans p (run-Progress rest (work py client activate write_guard x w).1 p.fair)

  -- Whatever calls of the registry and of the executor are made, with whatever arguments, results
  -- and faults, while the other sessions, the client, the activation and the write guard move
  -- claims along their life only, every claim of the database is still there afterwards, has gone
  -- on along its life, keeps its identifier, cluster and VMID, and has no smaller generation.
  pub run-Follows :
      (xs : List Work) (w : World) (id : String) (c : Claim)
      → IsFair w
      → claim_by_id id w.db ≡ some c
      → (d : Claim) × (claim_by_id id (run py client activate write_guard xs w).db ≡ some d)
        × Leads c d
        × Follows c d
  run-Follows xs w id c f h =
      let (d, hd, l) = (run-Progress xs w f).evolves.at id c h in (d, hd, l, Leads-Follows l)

  -- Under the same conditions a claim with a CloudStack reference keeps the reference, the instance
  -- name, the node and the manifest for as long as its generation stays the same.
  pub run-Fenced :
      (xs : List Work) (w : World) (id ref : String) (c d : Claim)
      → IsFair w
      → claim_by_id id w.db ≡ some c
      → c.cloudstack_vm_ref ≡ some ref
      → claim_by_id id (run py client activate write_guard xs w).db ≡ some d
      → c.generation ≡ d.generation
      → Fenced c d
  run-Fenced xs w id ref c d f h r k g =
      let (e, he, l) = (run-Progress xs w f).evolves.at id c h in
      let same = eq_of_some-eq (sym he ∙ k) in Leads-Fenced ref (subst (Leads c) same l) g r
