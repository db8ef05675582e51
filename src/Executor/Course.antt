-- ===== src/Executor/Course.antt =====
-- `reconcile_execution` of adoption_executor.py and the life of an execution.
use proxmox_cloudstack_sync.Base.{ℕ, String, ◌≡◌, refl, sym, subst, Option, none, some}
use proxmox_cloudstack_sync.Json.{Json}
use proxmox_cloudstack_sync.Outcome.{ok}
use proxmox_cloudstack_sync.Store.{Execution, execution_by_id}
use proxmox_cloudstack_sync.Session.{World, Exec, lift, ◌>>=◌}
use proxmox_cloudstack_sync.Registry.Validate.{Python}
use proxmox_cloudstack_sync.Executor.State.{executor_uuid}
use proxmox_cloudstack_sync.Executor.Acquire.{acquire_attempts, acquire_execution}
use proxmox_cloudstack_sync.Executor.Client.{Client}
use proxmox_cloudstack_sync.Executor.Reconcile.{Activate, reconcile_leased, reconcile_execution}
use proxmox_cloudstack_sync.Executor.Life.{Becomes}
use proxmox_cloudstack_sync.Executor.From.{
  Lone, From, From-bind, From-Stays, Stays-lift, Stays-pure,
}
use proxmox_cloudstack_sync.Executor.Sets.{From-Sets}
use proxmox_cloudstack_sync.Executor.Writes.{From-then}
use proxmox_cloudstack_sync.Executor.Leases.{IsRow, acquire_attempts-Sets}
use proxmox_cloudstack_sync.Executor.Calls.{LeaveRow}
use proxmox_cloudstack_sync.Executor.Moves.{From-named, state-From}

module _ (py : Python) (client : Client) (activate : Activate) (write_guard : Exec (Unit {0}))
    (lease id : String) (leave : LeaveRow id client activate write_guard) where
  leased-From :
      (e : Execution) (o : Option Execution)
      → e.id ≡ id
      → IsRow id o e
      → From id e (reconcile_leased py client activate write_guard lease o)
  unfolding reconcile_leased
  leased-From e none named same = From-Stays id e _ (Stays-pure id none)
  leased-From e (some x) named same =
      subst (λ y. From id e (reconcile_leased py client activate write_guard lease (some y)))
        (sym same)
        (From-bind id e _ _ (Stays-lift id _) λ plan.
          From-then id e _ _
            (state-From py client activate write_guard lease id leave e plan named e.state refl)
            λ f result. From-Stays id f _ (Stays-pure id (some result)))

  started :
      (execution_id : Json) (seconds : ℕ) (w : World)
      → executor_uuid py execution_id ≡ ok id
      → reconcile_execution py client activate write_guard lease execution_id seconds w
        ≡ (acquire_attempts write_guard id lease seconds 3
              >>= reconcile_leased py client activate write_guard lease)
            w
  unfolding reconcile_execution acquire_execution ◌>>=◌ lift
  started execution_id seconds w valid = rw valid refl

  -- Where the other sessions, the client, the activation and the write guard leave the row of the
  -- execution as it is, a run on it ends, with whatever faults, with the row in the database after
  -- a number of steps of its life; identity and plan are kept.
  pub reconcile_execution-Becomes :
      (execution_id : Json) (seconds : ℕ) (w : World) (e : Execution)
      → executor_uuid py execution_id ≡ ok id
      → Lone id w
      → execution_by_id id w.db ≡ some e
      → (f : Execution) × (execution_by_id id
            (reconcile_execution py client activate write_guard lease execution_id seconds w).1.db
          ≡ some f)
        × Becomes e f
  reconcile_execution-Becomes execution_id seconds w e valid lone stored =
      let run =
        From-Sets id e (IsRow id) _ _
          (acquire_attempts-Sets id write_guard leave.guards lease seconds 3 e)
          λ f o row. From-named id f _ λ named. leased-From f o named row in
      let (f, found, becomes, _) = run.at w lone stored in
      rw (started execution_id seconds w valid) (f, found, becomes)
