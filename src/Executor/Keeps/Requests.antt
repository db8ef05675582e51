-- ===== src/Executor/Keeps/Requests.antt =====
-- The requests of an operator and of the extension in adoption_executor.py, and the life of the
-- claims.
use proxmox_cloudstack_sync.Base.{
  ℕ, zero, suc, String, ◌≡◌, refl, Bool, true, false, Option, none, some, List, [], ◌∷◌, and-true,
  str_eq, arith,
}
use proxmox_cloudstack_sync.Json.{Json, Fields}
use proxmox_cloudstack_sync.Store.{Claim, Execution, ExecutionState, is_state, reserved}
use proxmox_cloudstack_sync.Store.Lifecycle.{Edge, authorize_cleanup}
use proxmox_cloudstack_sync.Session.{Exec}
use proxmox_cloudstack_sync.Session.Guarantee.{
  Keeps, Keeps-pure, Keeps-lift, Keeps-raise, Keeps-query, Keeps-transact, Keeps-if, Keeps-guard,
  Keeps-bind, Keeps-retry_operational, Keeps-attempt,
}
use proxmox_cloudstack_sync.Registry.Validate.{Python}
use proxmox_cloudstack_sync.Executor.Client.{Client}
use proxmox_cloudstack_sync.Executor.Retry.{
  retryable, retried_row, retry_write, retry_deployment, retry_start_vm, retry_start, next_state,
  retry_verdict, retry_attempts, request_execution_retry,
}
use proxmox_cloudstack_sync.Executor.Deletion.{
  Deletion, authorizable, authorized_row, abandonable, abandoned_row, authorize_write,
  authorize_verdict, authorize_reserved, authorize_attempts, authorize_cleanup_delete,
}
use proxmox_cloudstack_sync.Executor.Cleanup.{
  removable, removing_row, removing_write, Announcement, announcement, won, removal_answered,
  submit_removal, removal_verdict, after_announcement, removal_attempts, request_execution_cleanup,
}
use proxmox_cloudstack_sync.Executor.Keeps.{
  ClientKeeps, set_execution-CommitEvolves, both_rows-CommitEvolves, Keeps-caught, Keeps-refreshed,
  Keeps-flush, Keeps-load,
}

module _ (write_guard : Exec (Unit {0})) (guarded : Keeps write_guard) (client : Client)
    (client_keeps : ClientKeeps client) (py : Python) where
  module _ (e : Execution) (plan : Json) where
    retry_deployment-Keeps : (vms : List Fields) → Keeps (retry_deployment py e plan vms)
    unfolding retry_deployment
    retry_deployment-Keeps [] = Keeps-pure _
    retry_deployment-Keeps (vm ∷ vms) = Keeps-bind _ _ (Keeps-lift _) λ found. Keeps-lift _

    retry_start_vm-Keeps : (c : Claim) (o : Option Fields) → Keeps (retry_start_vm py e plan c o)
    unfolding retry_start_vm
    retry_start_vm-Keeps c none = Keeps-raise _
    retry_start_vm-Keeps c (some vm) =
        Keeps-if _ _ _ (Keeps-bind _ _ (Keeps-query _) λ row. Keeps-lift _) (Keeps-lift _)

    next_state-Keeps : (c : Claim) (vms : List Fields) → Keeps (next_state py e plan c vms)
    unfolding next_state retry_start
    next_state-Keeps c vms =
        Keeps-if _ _ _ (retry_deployment-Keeps vms)
          (Keeps-bind _ _ (Keeps-lift _) (retry_start_vm-Keeps c))

  retry_attempts-Keeps :
      (id : String) (expected next : ExecutionState) (left : ℕ)
      → Keeps (retry_attempts write_guard id expected next left)
  unfolding retry_attempts retry_write retry_verdict
  retry_attempts-Keeps id expected next zero = Keeps-raise _
  retry_attempts-Keeps id expected next (suc left) = Keeps-bind _ _ guarded λ _.
      Keeps-bind _ _
        (Keeps-retry_operational _ (
          Keeps-bind _ _
            (Keeps-transact (retry_write id expected next) (λ now db.
              set_execution-CommitEvolves (retryable id expected) (retried_row next now) db))
            λ _. Keeps-pure tt))
        λ _. Keeps-bind _ _ (Keeps-refreshed _ id) λ x.
          Keeps-if _ _ _ (Keeps-pure x)
            (Keeps-if _ _ _ (retry_attempts-Keeps id expected next left) (Keeps-raise _))

  pub request_execution_retry-Keeps :
      (id : Json) → Keeps (request_execution_retry py client write_guard id)
  unfolding request_execution_retry
  request_execution_retry-Keeps id = Keeps-bind _ _ (Keeps-lift _) λ i.
      Keeps-bind _ _ (Keeps-refreshed _ i) λ e. Keeps-bind _ _ (Keeps-guard _ _) λ _.
        Keeps-bind _ _ (Keeps-lift _) λ plan.
          Keeps-bind _ _ (Keeps-load client e.id client_keeps) λ vms.
            Keeps-bind _ _ (Keeps-query _) λ claim. Keeps-bind _ _ (Keeps-lift _) λ c.
              Keeps-bind _ _ (next_state-Keeps e plan c vms)
                λ next. retry_attempts-Keeps e.id e.state next 3

  abandon_edge :
      (d : Deletion) (c r : Claim) (now : ℕ)
      → abandonable d c r ≡ true
      → Edge r (abandoned_row d now r)
  unfolding abandonable abandoned_row
  abandon_edge d c r now h =
      let (_, a) = and-true (str_eq r.id c.id) _ h in
      let (at, _) = and-true (is_state r.state reserved) _ a in
      authorize_cleanup now (ground arith) refl

  authorize_verdict-Keeps :
      (d : Deletion) (again : Exec Execution) (id : String) (done : Option Bool)
      → Keeps again
      → Keeps (authorize_verdict d write_guard again id done)
  unfolding authorize_verdict
  authorize_verdict-Keeps d again id none k = k
  authorize_verdict-Keeps d again id (some false) k = k
  authorize_verdict-Keeps d again id (some true) k = Keeps-refreshed _ id

  authorize_attempts-Keeps :
      (d : Deletion) (claim id : String) (left : ℕ)
      → Keeps (authorize_attempts d write_guard claim id left)
  unfolding authorize_attempts authorize_reserved authorize_write
  authorize_attempts-Keeps d claim id zero = Keeps-raise _
  authorize_attempts-Keeps d claim id (suc left) = Keeps-bind _ _ (Keeps-query _) λ row.
      Keeps-bind _ _ (Keeps-query _) λ found. Keeps-bind _ _ (Keeps-lift _) λ (e, c).
        Keeps-bind _ _ (Keeps-guard _ _) λ _. Keeps-if _ _ _ (Keeps-pure e) (
          Keeps-bind _ _ (Keeps-guard _ _) λ _. Keeps-bind _ _ guarded λ _.
            Keeps-bind _ _
              (Keeps-attempt _ (
                Keeps-bind _ _
                  (Keeps-transact (authorize_write d e c) (λ now db.
                    both_rows-CommitEvolves (abandonable d c) (abandoned_row d now)
                      (authorizable d e c) (authorized_row d now) db (λ r. abandon_edge d c r now)))
                  λ changed. Keeps-pure (some changed)))
              λ done.
                authorize_verdict-Keeps d _ e.id done (authorize_attempts-Keeps d claim id left))

  pub authorize_cleanup_delete-Keeps :
      (claim ref : Json) (d : Deletion)
      → Keeps (authorize_cleanup_delete py write_guard claim ref d)
  unfolding authorize_cleanup_delete
  authorize_cleanup_delete-Keeps claim ref d =
      Keeps-bind _ _ (Keeps-lift _)
        λ c. Keeps-bind _ _ (Keeps-lift _) λ id. authorize_attempts-Keeps _ c id 3

  module _ (id name : String) where
    removal_answered-Keeps :
        (e : Execution) (o : Option Json) → Keeps (removal_answered client write_guard id name e o)
    unfolding removal_answered
    removal_answered-Keeps e none =
        Keeps-bind _ _ guarded λ _. Keeps-bind _ _ (Keeps-flush e _) λ _. Keeps-refreshed _ id
    removal_answered-Keeps e (some r) = Keeps-bind _ _ guarded λ _.
        Keeps-bind _ _ (Keeps-lift _)
          λ job. Keeps-bind _ _ (Keeps-flush e _) λ _. Keeps-refreshed _ id

    submit_removal-Keeps : Keeps (submit_removal client write_guard id name)
    unfolding submit_removal
    submit_removal-Keeps = Keeps-bind _ _ (Keeps-refreshed _ id) λ e.
        Keeps-bind _ _ guarded
          λ _. Keeps-bind _ _ (Keeps-caught _ (client_keeps.destroys id)) (removal_answered-Keeps e)

    after_announcement-Keeps :
        (again : Exec Execution) (how : Announcement)
        → Keeps again
        → Keeps (after_announcement client write_guard id name again how)
    unfolding after_announcement removal_verdict
    after_announcement-Keeps again won k = submit_removal-Keeps
    after_announcement-Keeps again _ k = Keeps-bind _ _ (Keeps-refreshed _ id) λ x.
        Keeps-if _ _ _ (Keeps-if _ _ _ (Keeps-pure x) (Keeps-raise _))
          (Keeps-if _ _ _ k (Keeps-raise _))

    removal_attempts-Keeps : (left : ℕ) → Keeps (removal_attempts client write_guard id name left)
    unfolding removal_attempts removing_write
    removal_attempts-Keeps zero = Keeps-raise _
    removal_attempts-Keeps (suc left) = Keeps-bind _ _ guarded λ _.
        Keeps-bind _ _
          (Keeps-attempt _ (
            Keeps-bind _ _
              (Keeps-transact (removing_write id name) (λ now db.
                set_execution-CommitEvolves (removable id) (removing_row id name now) db))
              λ changed. Keeps-pure (some changed)))
          λ done. after_announcement-Keeps _ (announcement done) (removal_attempts-Keeps left)

  pub request_execution_cleanup-Keeps :
      (id : Json) → Keeps (request_execution_cleanup py client write_guard id)
  unfolding request_execution_cleanup
  request_execution_cleanup-Keeps id = Keeps-bind _ _ (Keeps-lift _) λ i.
      Keeps-bind _ _ (Keeps-refreshed _ i) λ e. Keeps-bind _ _ (Keeps-guard _ _) λ _.
        Keeps-bind _ _ (Keeps-query _) λ claim. Keeps-bind _ _ (Keeps-lift _) λ c.
          Keeps-bind _ _ (Keeps-lift _) λ plan.
            Keeps-bind _ _ (Keeps-load client e.id client_keeps)
              λ vms. Keeps-bind _ _ (Keeps-lift _) λ name. removal_attempts-Keeps i name 3
