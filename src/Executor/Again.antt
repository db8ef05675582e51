-- ===== src/Executor/Again.antt =====
-- `create_execution` of adoption_executor.py where no other session interferes, and called again.
use proxmox_cloudstack_sync.Base.{
  ℕ, suc, String, ◌≡◌, refl, ◌∙◌, Bool, true, false, none, some, arith, ◌==◌, ==_iff, [], ◌∷◌, ◌++◌,
  Bool-cases, inl, inr, str_eq, eq_iff, if◌then◌else◌,
}
use proxmox_cloudstack_sync.Json.{Json}
use proxmox_cloudstack_sync.Outcome.{ok, raised, execution_conflict}
use proxmox_cloudstack_sync.Store.{
  Db, Claim, Execution, claim_by_id, execution_by_id, is_state, reserved,
}
use proxmox_cloudstack_sync.Store.Rows.{find-append_none, find-single, no_part_passes}
use proxmox_cloudstack_sync.Session.{
  Exec, ◌>>=◌, when◌then◌otherwise◌, pure, raise, guard, arrive, query, transact,
}
use proxmox_cloudstack_sync.Registry.Validate.{Python}
use proxmox_cloudstack_sync.Registry.Bind.Again.{still, Passes}
use proxmox_cloudstack_sync.Executor.State.{executor_uuid}
use proxmox_cloudstack_sync.Executor.Commit.{refreshed}
use proxmox_cloudstack_sync.Executor.Plan.{validate_execution_plan}
use proxmox_cloudstack_sync.Executor.Create.{
  of_generation, execution_of_claim, planned_row, execution_clashes, insert_execution, insertion,
  same_plan, after_insertion, create_row, create_if_none, create_attempts, create_execution,
}

-- The claim of a request is there, reserved, and in the generation of the request.
pub record IsExecutable (claim_id : String) (generation : ℕ) (db : Db) (c : Claim) : Type 0 where
  pub found : claim_by_id claim_id db ≡ some c
  pub current : c.generation == generation ≡ true
  pub open_claim : is_state c.state reserved ≡ true

-- the row that was inserted is found by its identifier
pub stored_after :
    (row : Execution) (db : Db)
    → execution_clashes row db ≡ false
    → execution_by_id row.id (record db { executions = db.executions ++ row ∷ [] }) ≡ some row
unfolding execution_by_id execution_clashes
stored_after row db free =
    find-append_none (λ r. str_eq r.id row.id) db.executions (row ∷ [])
      (no_part_passes (λ r. str_eq r.id row.id)
        (λ r. if str_eq r.id row.id then true else of_generation row.claim_id row.generation r)
        (λ r h. rw h refl) db.executions free)
    ∙ find-single (λ r. str_eq r.id row.id) row ((eq_iff row.id row.id).1 refl)

module _ (c : Claim) (claim_id id : String) (generation : ℕ) (sha json : String) (now : ℕ) (db : Db)
    (executable : IsExecutable claim_id generation db c) where
  abbrev added : Execution
  added = planned_row id c.id c.generation sha json now

  abbrev pub created_db : Db
  created_db = record db { executions = db.executions ++ added ∷ [] }

  found_after : claim_by_id claim_id created_db ≡ some c
  unfolding claim_by_id
  found_after = executable.found

  module _ (free : execution_clashes added db ≡ false) where
    abbrev is_clash : Execution → Bool
    is_clash r = if str_eq r.id id then true else of_generation c.id c.generation r

    added-of_generation : of_generation c.id generation added ≡ true
    unfolding planned_row
    added-of_generation = rw ((eq_iff c.id c.id).1 refl, executable.current) refl

    none_before : execution_of_claim c.id generation db ≡ none
    unfolding execution_of_claim execution_clashes planned_row
    none_before =
        let current = (==_iff c.generation generation).0 executable.current in
        no_part_passes (of_generation c.id generation) is_clash (λ r h. ground (arith, h, current))
          db.executions free

    found_by_claim : execution_of_claim c.id generation created_db ≡ some added
    unfolding execution_of_claim
    found_by_claim =
        find-append_none (of_generation c.id generation) db.executions (added ∷ []) none_before
        ∙ find-single (of_generation c.id generation) added added-of_generation

    module _ (write_guard : Exec (Unit {0})) (passes : Passes write_guard (still now db)) where
      create_attempts_adds :
          (left : ℕ)
          → create_attempts write_guard id claim_id generation sha json (suc left) (still now db)
            ≡ (ok added, still now created_db)
      unfolding create_attempts create_if_none create_row insertion insert_execution after_insertion
          refreshed ◌>>=◌ query arrive transact guard
      create_attempts_adds left =
          rw
            (
              executable.found,
              executable.current,
              executable.open_claim,
              none_before,
              passes,
              free,
              stored_after added db free,
            )
            refl

    -- the next request, whose plan may be another
    create_attempts_finds :
        (write_guard : Exec (Unit {0})) (other also other_json : String) (later left : ℕ)
        → create_attempts write_guard other claim_id generation also other_json
            (suc left)
            (still later created_db)
          ≡ (
            if str_eq sha also
                then ok added
                else raised (execution_conflict "claim already has a different execution"),
            still later created_db,
          )
    unfolding create_attempts create_if_none same_plan planned_row ◌>>=◌ query arrive guard
        when◌then◌otherwise◌ pure raise
    create_attempts_finds write_guard other also other_json later left =
        elim (Bool-cases (str_eq sha also)) [
          | inl h ↦
              rw (found_after, executable.current, executable.open_claim, found_by_claim, h) refl
          | inr h ↦
              rw (found_after, executable.current, executable.open_claim, found_by_claim, h) refl
        ]

-- The texts of a validated plan: its SHA-256 and its canonical JSON.
abbrev pub plan_hash : Python → Json → String
plan_hash py canonical = py.sha256 (py.dumps canonical)

-- Where no other session acts and nothing fails, for a reserved claim in the generation of the
-- request: if the identifier and the claim in this generation have no execution and the write guard
-- passes, the request inserts one planned execution and returns it. A later request with any valid
-- plan for the claim, under any identifier, changes nothing: it returns that execution if its plan
-- has the same SHA-256, and is refused if not.
pub create_execution_again :
    (py : Python) (write_guard second_guard : Exec (Unit {0})) (id other claim_id : String)
    (claim also : Json) (generation : ℕ) (plan second_plan canonical second : Json) (c : Claim)
    (now later : ℕ) (db : Db)
    → executor_uuid py claim ≡ ok claim_id
    → executor_uuid py also ≡ ok claim_id
    → IsExecutable claim_id generation db c
    → validate_execution_plan py plan c ≡ ok canonical
    → validate_execution_plan py second_plan c ≡ ok second
    → let row =
        planned_row id c.id c.generation (plan_hash py canonical) (py.dumps canonical) now in
      let row_db = record db { executions = db.executions ++ row ∷ [] } in
      execution_clashes row db ≡ false
      → Passes write_guard (still now db)
      → (create_execution py write_guard id claim generation plan (still now db)
          ≡ (ok row, still now row_db))
        × (create_execution py second_guard other also generation second_plan (still later row_db)
            ≡ (
              if str_eq (plan_hash py canonical) (plan_hash py second)
                  then ok row
                  else raised (execution_conflict "claim already has a different execution"),
              still later row_db,
            ))
unfolding create_execution ◌>>=◌ query arrive
create_execution_again py write_guard second_guard id other claim_id claim also generation plan
      second_plan canonical second c now later db named again executable valid second_valid free
      passes =
    (
      rw (named, executable.found, valid)
          (create_attempts_adds c claim_id id generation (plan_hash py canonical)
            (py.dumps canonical) now db executable free write_guard passes 2),
      rw
          (
            again,
            found_after c claim_id id generation (plan_hash py canonical) (py.dumps canonical) now
                db executable,
            second_valid,
          )
          (create_attempts_finds c claim_id id generation (plan_hash py canonical)
            (py.dumps canonical) now db executable free second_guard other (plan_hash py second)
            (py.dumps second) later 2),
    )
