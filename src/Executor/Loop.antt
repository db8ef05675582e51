-- ===== src/Executor/Loop.antt =====
-- `reconcile_active_executions` of adoption_executor.py: one step of every active execution.
use proxmox_cloudstack_sync.Base.{
  ℕ, ◌+◌, String, Option, none, some, List, [], ◌∷◌, map, length, filter, leb, if◌then◌else◌,
}
use proxmox_cloudstack_sync.Json.{text}
use proxmox_cloudstack_sync.Outcome.{Outcome, ok, raised}
use proxmox_cloudstack_sync.Store.{Db, Execution}
use proxmox_cloudstack_sync.Session.{Exec, pure, ◌>>=◌, ◌>>◌, query}
use proxmox_cloudstack_sync.Registry.Validate.{Python}
use proxmox_cloudstack_sync.Executor.State.{is_active}
use proxmox_cloudstack_sync.Executor.Client.{Client}
use proxmox_cloudstack_sync.Executor.Reconcile.{Activate, reconcile_execution}

-- `order_by(created_at)`
unfoldable pub insert_by_age : Execution → List Execution → List Execution
insert_by_age e [] = e ∷ []
insert_by_age e (x ∷ xs) =
    let rest = insert_by_age e xs in if leb e.created_at x.created_at then e ∷ x ∷ xs else x ∷ rest

unfoldable pub by_age : List Execution → List Execution
unfolding insert_by_age
by_age [] = []
by_age (e ∷ es) = insert_by_age e (by_age es)

unfoldable pub active_ids : Db → List String
unfolding by_age filter is_active
active_ids db = map (λ e. e.id) (by_age (filter (λ e. is_active e.state) db.executions))

pub record Stats : Type 0 where
  pub considered : ℕ
  pub advanced : ℕ
  pub errors : ℕ

-- what one execution adds to the counts
unfoldable pub counted : Outcome (Option Execution) → Stats → Stats
counted (ok none) s = s
counted (ok (some e)) s = record s { advanced = s.advanced + 1 }
counted (raised x) s = record s { errors = s.errors + 1 }

-- `except Exception` around one step
unfoldable pub tallied : Exec (Option Execution) → Stats → Exec Stats
unfolding counted
tallied m s w = let (r, w') = m w in (ok (counted r s), w')

module _ (py : Python) (client : Client) (activate : Activate) (before_each : Exec (Unit {0}))
    (seconds : ℕ) where
  -- `new_id i` is the text of `uuid.uuid4()` in the acquisition for the execution `i`
  unfoldable pub reconcile_each : (String → String) → List String → Stats → Exec Stats
  reconcile_each new_id [] s = pure s
  reconcile_each new_id (id ∷ ids) s = do
    next ←
        tallied
          (before_each
            >> reconcile_execution py client activate before_each (new_id id) (text id) seconds)
          s
    reconcile_each new_id ids next

  unfoldable pub reconcile_active_executions : (String → String) → Exec Stats
  unfolding active_ids
  reconcile_active_executions new_id = do
    ids ← query active_ids
    reconcile_each new_id ids (record { considered = length ids; advanced = 0; errors = 0 })
