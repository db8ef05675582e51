-- ===== src/Executor/Keeps/Creation.antt =====
-- `create_execution` and `reconcile_active_executions` of adoption_executor.py, and the life of the
-- claims.
use proxmox_cloudstack_sync.Base.{
  ℕ, zero, suc, String, ◌≡◌, refl, Option, none, some, List, [], ◌∷◌, Bool-cases, inl, inr,
}
use proxmox_cloudstack_sync.Json.{Json, text}
use proxmox_cloudstack_sync.Outcome.{Outcome, raised, operational, is_retryable}
use proxmox_cloudstack_sync.Store.{Db, Claim, Execution}
use proxmox_cloudstack_sync.Session.{World, Exec}
use proxmox_cloudstack_sync.Session.Guarantee.{
  Keeps, CommitEvolves, Keeps-pure, Keeps-lift, Keeps-raise, Keeps-query, Keeps-transact, Keeps-if,
  Keeps-guard, Keeps-bind,
}
use proxmox_cloudstack_sync.Registry.Validate.{Python}
use proxmox_cloudstack_sync.Executor.Client.{Client}
use proxmox_cloudstack_sync.Executor.Reconcile.{Activate}
use proxmox_cloudstack_sync.Executor.Create.{
  execution_clashes, insert_execution, planned_row, Insertion, inserted, clashed, handle_insertion,
  insertion, same_plan, winner_of_clash, winner_of_error, after_insertion, create_row,
  create_if_none, create_attempts, create_execution,
}
use proxmox_cloudstack_sync.Executor.Loop.{
  Stats, tallied, reconcile_each, reconcile_active_executions,
}
use proxmox_cloudstack_sync.Executor.Keeps.{ClientKeeps, claims_kept, Keeps-refreshed}
use proxmox_cloudstack_sync.Executor.Keeps.Worker.{reconcile_execution-Keeps}

insert-CommitEvolves : (e : Execution) (db : Db) → CommitEvolves db (insert_execution e db)
unfolding insert_execution
insert-CommitEvolves e db = elim (Bool-cases (execution_clashes e db)) [
  | inl k ↦ rw k tt
  | inr k ↦ rw k (claims_kept db _ refl)
]

handle_insertion-same : (r : Outcome (Option Execution)) (w : World) → (handle_insertion r w).1 ≡ w
handle_insertion-same (raised (operational c)) w = elim (Bool-cases (is_retryable c)) [
  | inl e ↦ rw e refl
  | inr e ↦ rw e refl
]
handle_insertion-same _ w = refl

Keeps-insertion : (m : Exec (Option Execution)) → Keeps m → Keeps (insertion m)
unfolding insertion
Keeps-insertion m k = record { at = λ w f. rw (handle_insertion-same (m w).0 (m w).1) (k.at w f) }

Keeps-tallied : (m : Exec (Option Execution)) (s : Stats) → Keeps m → Keeps (tallied m s)
unfolding tallied
Keeps-tallied m s k = record { at = λ w f. k.at w f }

same_plan-Keeps : (sha message : String) (e : Execution) → Keeps (same_plan sha message e)
unfolding same_plan
same_plan-Keeps sha message e = Keeps-if _ _ _ (Keeps-pure e) (Keeps-raise _)

module _ (write_guard : Exec (Unit {0})) (guarded : Keeps write_guard) where
  module _ (id claim_id : String) (generation : ℕ) (sha json : String) where
    winner_of_clash-Keeps :
        (o : Option Execution)
        → Keeps (winner_of_clash write_guard id claim_id generation sha json o)
    unfolding winner_of_clash
    winner_of_clash-Keeps none = Keeps-raise _
    winner_of_clash-Keeps (some e) = same_plan-Keeps sha _ e

    winner_of_error-Keeps :
        (again : Exec Execution) (o : Option Execution)
        → Keeps again
        → Keeps (winner_of_error write_guard id claim_id generation sha json again o)
    unfolding winner_of_error
    winner_of_error-Keeps again none k = k
    winner_of_error-Keeps again (some e) k = same_plan-Keeps sha _ e

    after_insertion-Keeps :
        (again : Exec Execution) (claim : String) (how : Insertion)
        → Keeps again
        → Keeps (after_insertion write_guard id claim_id generation sha json again claim how)
    unfolding after_insertion
    after_insertion-Keeps again claim inserted k = Keeps-refreshed _ id
    after_insertion-Keeps again claim clashed k =
        Keeps-bind _ _ (Keeps-query _) winner_of_clash-Keeps
    after_insertion-Keeps again claim Insertion.retryable k =
        Keeps-bind _ _ (Keeps-query _) λ o. winner_of_error-Keeps again o k

    create_if_none-Keeps :
        (again : Exec Execution) (c : Claim) (o : Option Execution)
        → Keeps again
        → Keeps (create_if_none write_guard id claim_id generation sha json again c o)
    unfolding create_if_none create_row
    create_if_none-Keeps again c (some e) k = same_plan-Keeps sha _ e
    create_if_none-Keeps again c none k = Keeps-bind _ _ guarded λ _.
        Keeps-bind _ _
          (Keeps-insertion _ (
            Keeps-transact (λ now. insert_execution (planned_row id c.id c.generation sha json now))
              (λ now. insert-CommitEvolves (planned_row id c.id c.generation sha json now))))
          λ how. after_insertion-Keeps again c.id how k

    create_attempts-Keeps :
        (left : ℕ) → Keeps (create_attempts write_guard id claim_id generation sha json left)
    unfolding create_attempts
    create_attempts-Keeps zero = Keeps-raise _
    create_attempts-Keeps (suc left) = Keeps-bind _ _ (Keeps-query _) λ row.
        Keeps-bind _ _ (Keeps-lift _) λ c. Keeps-bind _ _ (Keeps-guard _ _) λ _.
          Keeps-bind _ _ (Keeps-guard _ _) λ _.
            Keeps-bind _ _ (Keeps-query _)
              λ existing. create_if_none-Keeps _ c existing (create_attempts-Keeps left)

  module _ (py : Python) where
    pub create_execution-Keeps :
        (new_id : String) (claim : Json) (generation : ℕ) (plan : Json)
        → Keeps (create_execution py write_guard new_id claim generation plan)
    unfolding create_execution
    create_execution-Keeps new_id claim generation plan = Keeps-bind _ _ (Keeps-lift _) λ claim_id.
        Keeps-bind _ _ (Keeps-query _) λ row. Keeps-bind _ _ (Keeps-lift _) λ c.
          Keeps-bind _ _ (Keeps-lift _)
            λ canonical. create_attempts-Keeps new_id claim_id generation _ _ 3

    module _ (client : Client) (client_keeps : ClientKeeps client) (activate : Activate)
        (activates : (c : String) (n : ℕ) (e l : String) → Keeps (activate c n e l)) (seconds : ℕ)
        (new_id : String → String) where
      each-Keeps :
          (ids : List String) (s : Stats)
          → Keeps (reconcile_each py client activate write_guard seconds new_id ids s)
      unfolding reconcile_each
      each-Keeps [] s = Keeps-pure s
      each-Keeps (id ∷ ids) s =
          Keeps-bind _ _
            (Keeps-tallied _ s (
              Keeps-bind _ _ guarded λ _.
                reconcile_execution-Keeps write_guard guarded (new_id id) py client client_keeps
                  activate activates (text id) seconds))
            (each-Keeps ids)

      pub reconcile_active_executions-Keeps :
          Keeps (reconcile_active_executions py client activate write_guard seconds new_id)
      unfolding reconcile_active_executions
      reconcile_active_executions-Keeps = Keeps-bind _ _ (Keeps-query _) λ ids. each-Keeps ids _
