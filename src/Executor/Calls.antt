-- ===== src/Executor/Calls.antt =====
-- The calls of adoption_executor.py that leave the row of an execution as it is.
use proxmox_cloudstack_sync.Base.{ℕ, String, ◌≡◌, refl, sym, ◌∙◌, subst, Option, none, some}
use proxmox_cloudstack_sync.Json.{Json}
use proxmox_cloudstack_sync.Outcome.{
  Error, Outcome, ok, raised, authority_conflict, claim_conflict, claim_invalid,
}
use proxmox_cloudstack_sync.Store.{Execution, execution_by_id}
use proxmox_cloudstack_sync.Session.{
  Fault, World, Exec, continue, lift, ◌>>=◌, query, arrive, answer,
}
use proxmox_cloudstack_sync.Registry.Validate.{Python, require}
use proxmox_cloudstack_sync.Executor.Params.{Params}
use proxmox_cloudstack_sync.Executor.Client.{
  Client, load_exact_external_vm, handle_caught, caught, handle_pending, completed,
}
use proxmox_cloudstack_sync.Executor.Commit.{refreshed}
use proxmox_cloudstack_sync.Executor.Submit.{deploy_call, start_call}
use proxmox_cloudstack_sync.Executor.Reconcile.{Activate, observed_vms, job_result}
use proxmox_cloudstack_sync.Executor.Life.{Becomes}
use proxmox_cloudstack_sync.Executor.From.{
  Lone, Stays, From, arrive-Lone, Stays-bind, Stays-lift, Stays-pure, Stays-assert_lease,
}

module _ (id : String) where
  handle_caught-same : {A : Type 0} (r : Outcome A) (w : World) → (handle_caught r w).1 ≡ w
  handle_caught-same (ok a) w = refl
  handle_caught-same (raised (authority_conflict s)) w = refl
  handle_caught-same (raised _) w = refl

  handle_pending-same : (r : Outcome (Unit {0})) (w : World) → (handle_pending r w).1 ≡ w
  handle_pending-same (ok a) w = refl
  handle_pending-same (raised (claim_conflict s)) w = refl
  handle_pending-same (raised (claim_invalid s)) w = refl
  handle_pending-same (raised _) w = refl

  pub Stays-caught : {A : Type 0} (m : Exec A) → Stays id m → Stays id (caught m)
  unfolding caught
  Stays-caught m k = record { at = λ w h. rw (handle_caught-same (m w).0 (m w).1) (k.at w h) }

  pub Stays-completed : (m : Exec (Unit {0})) → Stays id m → Stays id (completed m)
  unfolding completed
  Stays-completed m k = record { at = λ w h. rw (handle_pending-same (m w).0 (m w).1) (k.at w h) }

  answered_caught-From :
      {B : Type 0} (e : Execution) (missing : Error) (g : Option Execution → Exec B) (w : World)
      (f : Option Fault)
      → Lone id w
      → execution_by_id id w.db ≡ some e
      → From id e (g none)
      → From id e (g (some e))
      → let (r, v) = answer (execution_by_id id) w f in
        let (s, u) = continue r (λ row. lift (require row missing)) v in
        let (t, x) = handle_caught s u in
        (y : Execution) × (execution_by_id id (continue t g x).1.db ≡ some y)
        × Becomes e y
        × Lone id (continue t g x).1
  unfolding lift
  answered_caught-From e missing g w none h s n k =
      subst
        (λ row.
          let (r, v) = continue (ok row) (λ o. lift (require o missing)) w in
          let (t, x) = handle_caught r v in
          (y : Execution) × (execution_by_id id (continue t g x).1.db ≡ some y)
          × Becomes e y
          × Lone id (continue t g x).1)
        (sym s) (k.at w h s)
  answered_caught-From e missing g w (some x) h s n k = n.at w h s

  -- The row that is read again inside a `try` block, or an error that is caught.
  pub From-caught-refreshed :
      {B : Type 0} (e : Execution) (missing : Error) (g : Option Execution → Exec B)
      → From id e (g none)
      → From id e (g (some e))
      → From id e (caught (refreshed missing id) >>= g)
  unfolding caught refreshed ◌>>=◌ query
  From-caught-refreshed e missing g n k = record {
    at = λ w h s.
        let (same, l) = arrive-Lone id w h in
        answered_caught-From e missing g (arrive w).1 (arrive w).0 l (same ∙ s) n k;
  }

  -- The client, the activation and the write guard leave the row as it is.
  pub record LeaveRow (client : Client) (activate : Activate) (write_guard : Exec (Unit {0}))
      : Type 0 where
    pub lists : Stays id client.list_virtual_machines
    pub deploys : (p : Params) → Stays id (client.deploy_virtual_machine p)
    pub starts : (vm : String) (host : Json) → Stays id (client.start_virtual_machine vm host)
    pub jobs : (job : Option String) → Stays id (client.query_async_job job)
    pub activates : (c : String) (n : ℕ) (e l : String) → Stays id (activate c n e l)
    pub guards : Stays id write_guard

  module _ (client : Client) (activate : Activate) (write_guard : Exec (Unit {0}))
      (leave : LeaveRow client activate write_guard) (py : Python) where
    Stays-load : (vm : String) → Stays id (load_exact_external_vm client vm)
    unfolding load_exact_external_vm
    Stays-load vm =
        Stays-bind id _ _ leave.lists
          λ v. Stays-bind id _ _ (Stays-lift id _) λ vms. Stays-pure id _

    pub Stays-observed_vms :
        (lease : String) (e : Execution)
        → Stays id (observed_vms py client activate write_guard lease e)
    unfolding observed_vms
    Stays-observed_vms lease e =
        Stays-bind id _ _ (Stays-load e.id)
          λ vms. Stays-bind id _ _ (Stays-assert_lease id e.id lease) λ _. Stays-pure id _

    pub Stays-job_result :
        (lease : String) (e : Execution) (job : Option String)
        → Stays id (job_result py client activate write_guard lease e job)
    unfolding job_result
    Stays-job_result lease e job =
        Stays-bind id _ _ (leave.jobs job)
          λ r. Stays-bind id _ _ (Stays-assert_lease id e.id lease) λ _. Stays-lift id _

    pub Stays-deploy_call : (plan : Json) (e : Execution) → Stays id (deploy_call py client plan e)
    unfolding deploy_call
    Stays-deploy_call plan e = Stays-bind id _ _ (Stays-lift id _) leave.deploys

    pub Stays-start_call : (plan : Json) (e : Execution) → Stays id (start_call py client plan e)
    unfolding start_call
    Stays-start_call plan e = Stays-bind id _ _ (Stays-lift id _) (leave.starts e.id)
