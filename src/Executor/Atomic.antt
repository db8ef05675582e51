-- ===== src/Executor/Atomic.antt =====
-- `create_execution` of adoption_executor.py: errors leave the database as it was.
use proxmox_cloudstack_sync.Base.{
  ℕ, zero, suc, String, ◌≡◌, refl, Bool, true, false, Option, none, some, Bool-cases, inl, inr,
  str_eq,
}
use proxmox_cloudstack_sync.Json.{Json}
use proxmox_cloudstack_sync.Outcome.{Error, Outcome, ok, raised}
use proxmox_cloudstack_sync.Store.{Db, Claim, Execution, claim_by_id}
use proxmox_cloudstack_sync.Session.{
  World, Exec, pure, lift, raise, guard, when◌then◌otherwise◌, continue, ◌>>=◌, arrive, query,
  transact,
}
use proxmox_cloudstack_sync.Registry.Validate.{Python}
use proxmox_cloudstack_sync.Registry.Bind.Again.{still}
use proxmox_cloudstack_sync.Executor.State.{executor_uuid}
use proxmox_cloudstack_sync.Executor.Commit.{refreshed}
use proxmox_cloudstack_sync.Executor.Plan.{validate_execution_plan}
use proxmox_cloudstack_sync.Executor.Create.{
  planned_row, execution_of_claim, execution_clashes, insert_execution, insertion, same_plan,
  winner_of_clash, after_insertion, create_row, create_if_none, create_attempts, create_execution,
}
use proxmox_cloudstack_sync.Executor.Again.{stored_after}

abbrev IsKept : {A : Type 0} → Outcome A → World → World → Type 0
IsKept (ok a) v w = Unit
IsKept (raised e) v w = v ≡ w

-- Where no other session acts and nothing fails, this code changes nothing.
pub record IsReadOnly {A : Type 0} (m : Exec A) : Type 0 where
  pub at : (now : ℕ) (db : Db) → (m (still now db)).1 ≡ still now db

-- The same, if it raises an error.
record IsAtomic {A : Type 0} (m : Exec A) : Type 0 where
  at : (now : ℕ) (db : Db) → IsKept (m (still now db)).0 (m (still now db)).1 (still now db)

module _ {A B : Type 0} where
  continue-IsKept :
      (r : Outcome A) (f : A → Exec B) (now : ℕ) (db : Db) (v : World)
      → v ≡ still now db
      → ((a : A) → IsAtomic (f a))
      → IsKept (continue r f v).0 (continue r f v).1 (still now db)
  continue-IsKept (ok a) f now db v h k = rw h ((k a).at now db)
  continue-IsKept (raised e) f now db v h k = h

  IsAtomic-bind :
      (m : Exec A) (f : A → Exec B) → IsReadOnly m → ((a : A) → IsAtomic (f a)) → IsAtomic (m >>= f)
  unfolding ◌>>=◌
  IsAtomic-bind m f r k = record {
    at = λ now db.
        continue-IsKept (m (still now db)).0 f now db (m (still now db)).1 (r.at now db) k;
  }

module _ {A : Type 0} where
  query-IsReadOnly : (f : Db → A) → IsReadOnly (query f)
  unfolding query arrive
  query-IsReadOnly f = record { at = λ now db. refl }

  lift-IsReadOnly : (r : Outcome A) → IsReadOnly (lift r)
  unfolding lift
  lift-IsReadOnly r = record { at = λ now db. refl }

  lift-IsAtomic : (r : Outcome A) → IsAtomic (lift r)
  unfolding lift
  lift-IsAtomic (ok a) = record { at = λ now db. tt }
  lift-IsAtomic (raised e) = record { at = λ now db. refl }

guard-IsReadOnly : (b : Bool) (e : Error) → IsReadOnly (guard b e)
unfolding guard
guard-IsReadOnly true e = record { at = λ now db. refl }
guard-IsReadOnly false e = record { at = λ now db. refl }

same_plan-IsAtomic : (sha message : String) (e : Execution) → IsAtomic (same_plan sha message e)
unfolding same_plan pure raise when◌then◌otherwise◌
same_plan-IsAtomic sha message e = record {
  at = λ now db. elim (Bool-cases (str_eq e.plan_sha256 sha)) [
    | inl h ↦ rw h tt
    | inr h ↦ rw h refl
  ];
}

module _ (write_guard : Exec (Unit {0})) (guard_reads : IsReadOnly write_guard)
    (id claim_id : String) (generation : ℕ) (sha json : String) where
  winner_of_clash-IsAtomic :
      (winner : Option Execution)
      → IsAtomic (winner_of_clash write_guard id claim_id generation sha json winner)
  unfolding winner_of_clash raise
  winner_of_clash-IsAtomic none = record { at = λ now db. refl }
  winner_of_clash-IsAtomic (some e) = same_plan-IsAtomic sha _ e

  -- A new row is found again, and a row that clashes is not inserted.
  insertion-IsAtomic :
      (again : Exec Execution) (c : Claim)
      → IsAtomic (
          create_row write_guard id claim_id generation sha json c
          >>= after_insertion write_guard id claim_id generation sha json again c.id)
  unfolding ◌>>=◌ create_row insertion insert_execution transact arrive after_insertion refreshed
      query lift planned_row
  insertion-IsAtomic again c = record {
    at = λ now db.
        let row = planned_row id c.id c.generation sha json now in
        elim (Bool-cases (execution_clashes row db)) [
          | inl h ↦
              rw h ((winner_of_clash-IsAtomic (execution_of_claim c.id generation db)).at now db)
          | inr h ↦ rw (h, stored_after row db h) tt
        ];
  }

  create_if_none-IsAtomic :
      (again : Exec Execution) (c : Claim) (existing : Option Execution)
      → IsAtomic (create_if_none write_guard id claim_id generation sha json again c existing)
  unfolding create_if_none
  create_if_none-IsAtomic again c none =
      IsAtomic-bind _ _ guard_reads λ _. insertion-IsAtomic again c
  create_if_none-IsAtomic again c (some e) = same_plan-IsAtomic sha _ e

  create_attempts-IsAtomic :
      (left : ℕ) → IsAtomic (create_attempts write_guard id claim_id generation sha json left)
  unfolding create_attempts raise
  create_attempts-IsAtomic zero = record { at = λ now db. refl }
  create_attempts-IsAtomic (suc left) = IsAtomic-bind _ _ (query-IsReadOnly _) λ row.
      IsAtomic-bind _ _ (lift-IsReadOnly _) λ c. IsAtomic-bind _ _ (guard-IsReadOnly _ _) λ _.
        IsAtomic-bind _ _ (guard-IsReadOnly _ _) λ _.
          IsAtomic-bind _ _ (query-IsReadOnly _) λ existing. create_if_none-IsAtomic _ c existing

kept_if_raised :
    {A : Type 0} (r : Outcome A) (e : Error) (v w : World) → IsKept r v w → r ≡ raised e → v ≡ w
kept_if_raised (ok a) e v w k h = cc
kept_if_raised (raised x) e v w k h = k

-- Where no other session acts and nothing fails, and the write guard changes nothing: a request for
-- an execution that ends in an error leaves the database and the time as they were.
pub create_execution-raised :
    (py : Python) (write_guard : Exec (Unit {0})) (id : String) (claim : Json) (generation : ℕ)
    (plan : Json) (now : ℕ) (db : Db) (e : Error)
    → IsReadOnly write_guard
    → (create_execution py write_guard id claim generation plan (still now db)).0 ≡ raised e
    → (create_execution py write_guard id claim generation plan (still now db)).1 ≡ still now db
unfolding create_execution
create_execution-raised py write_guard id claim generation plan now db e guard_reads h =
    let atomic = IsAtomic-bind _ _ (lift-IsReadOnly (executor_uuid py claim)) λ claim_id.
      IsAtomic-bind _ _ (query-IsReadOnly (claim_by_id claim_id)) λ row.
        IsAtomic-bind _ _ (lift-IsReadOnly _) λ c.
          IsAtomic-bind _ _ (lift-IsReadOnly (validate_execution_plan py plan c)) λ canonical.
            create_attempts-IsAtomic write_guard guard_reads id claim_id generation
              (py.sha256 (py.dumps canonical)) (py.dumps canonical) 3 in
    kept_if_raised _ e _ _ (atomic.at now db) h
