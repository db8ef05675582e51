-- ===== src/Executor/Exclusive.antt =====
-- `acquire_execution` of adoption_executor.py by two workers, one after the other.
use proxmox_cloudstack_sync.Base.{
  ℕ, ◌+◌, suc, String, ◌≡◌, refl, ◌∙◌, true, false, none, some, arith, holds_text, str_eq, eq_iff,
  leb, Bool-cases, inl, inr, if◌then◌else◌,
}
use proxmox_cloudstack_sync.Json.{Json}
use proxmox_cloudstack_sync.Outcome.{ok}
use proxmox_cloudstack_sync.Store.{Db, Execution, execution_by_id}
use proxmox_cloudstack_sync.Store.Rows.{count, touch, find-update, count-update, count_within-one}
use proxmox_cloudstack_sync.Session.{
  Exec, pure, when◌then◌otherwise◌, ◌>>=◌, arrive, query, current_time, transact, retry_operational,
}
use proxmox_cloudstack_sync.Registry.Validate.{Python}
use proxmox_cloudstack_sync.Registry.Bind.Again.{still, Passes}
use proxmox_cloudstack_sync.Executor.State.{
  is_active, executor_uuid, lapsed, not_past, executions_updated,
}
use proxmox_cloudstack_sync.Executor.Acquire.{
  takeable, leased_row, acquire_write, is_taken, acquire_verdict, try_acquire, acquire_attempts,
  acquire_execution,
}

-- The one execution with this identifier.
pub record IsStored (id : String) (db : Db) (e : Execution) : Type 0 where
  pub found : execution_by_id id db ≡ some e
  pub single : count (λ r. str_eq r.id id) db.executions ≡ 1

takeable-id :
    (id : String) (now : ℕ) (e : Execution) → takeable id now e ≡ true → str_eq e.id id ≡ true
unfolding takeable
takeable-id id now e h = ground arith

module _ (id : String) (db : Db) (e : Execution) (stored : IsStored id db e) (now : ℕ) where
  count-takeable : count (takeable id now) db.executions ≡ (if takeable id now e then 1 else 0)
  unfolding execution_by_id
  count-takeable =
      count_within-one (λ r. str_eq r.id id) (takeable id now) (takeable-id id now) db.executions e
        stored.single stored.found

  module _ (lease : String) (seconds : ℕ) where
    -- the database after the acquisition
    abbrev pub leased_db : Db
    leased_db = executions_updated (takeable id now) (leased_row lease (now + seconds) now) db

    same_id :
        (r : Execution)
        → str_eq (touch (takeable id now) (leased_row lease (now + seconds) now) r).id id
          ≡ str_eq r.id id
    unfolding touch leased_row
    same_id r = ground arith

    leased_db-IsStored :
        takeable id now e ≡ true → IsStored id leased_db (leased_row lease (now + seconds) now e)
    unfolding execution_by_id touch
    leased_db-IsStored h = record {
      found =
          find-update (λ r. str_eq r.id id) (takeable id now) (leased_row lease (now + seconds) now)
            same_id db.executions
          ∙ rw (stored.found, h) refl;
      single =
          count-update (λ r. str_eq r.id id) (takeable id now)
            (leased_row lease (now + seconds) now) same_id db.executions
          ∙ stored.single;
    }

    module _ (write_guard : Exec (Unit {0})) (passes : Passes write_guard (still now db)) where
      try_acquire_takes :
          takeable id now e ≡ true
          → try_acquire write_guard id lease seconds now (still now db)
            ≡ (ok tt, still now leased_db)
      unfolding try_acquire retry_operational ◌>>=◌ transact arrive acquire_write pure
      try_acquire_takes h = rw (count-takeable, h) refl

      try_acquire_leaves :
          takeable id now e ≡ false
          → try_acquire write_guard id lease seconds now (still now db) ≡ (ok tt, still now db)
      unfolding try_acquire retry_operational ◌>>=◌ transact arrive acquire_write pure
      try_acquire_leaves h = rw (count-takeable, h) refl

      acquire_attempts_takes :
          (left : ℕ)
          → takeable id now e ≡ true
          → acquire_attempts write_guard id lease seconds (suc left) (still now db)
            ≡ (ok (some (leased_row lease (now + seconds) now e)), still now leased_db)
      unfolding acquire_attempts ◌>>=◌ query arrive current_time acquire_verdict takeable leased_row
          holds_text when◌then◌otherwise◌ pure
      acquire_attempts_takes left h =
          let active : is_active e.state ≡ true = ground arith in
          rw
            (
              passes,
              try_acquire_takes h,
              (leased_db-IsStored h).found,
              active,
              (eq_iff lease lease).1 refl,
            )
            refl

      acquire_attempts_finds_taken :
          (left : ℕ)
          → takeable id now e ≡ false
          → is_active e.state ≡ true
          → holds_text e.worker_lease_id lease ≡ false
          → is_taken now e ≡ true
          → acquire_attempts write_guard id lease seconds (suc left) (still now db)
            ≡ (ok none, still now db)
      unfolding acquire_attempts ◌>>=◌ query arrive current_time acquire_verdict
          when◌then◌otherwise◌ pure
      acquire_attempts_finds_taken left h active other taken =
          rw (passes, try_acquire_leaves h, stored.found, active, other, taken) refl

module _ (id lease other : String) (distinct : str_eq lease other ≡ false) (db : Db) (e : Execution)
    (stored : IsStored id db e) (now seconds later : ℕ) (free : takeable id now e ≡ true) where
  abbrev given : Execution
  given = leased_row lease (now + seconds) now e

  abbrev given_db : Db
  given_db = leased_db id db e stored now lease seconds

  given-takeable : takeable id later given ≡ (if leb later (now + seconds) then false else true)
  unfolding takeable leased_row lapsed
  given-takeable = ground (arith, free)

  given-is_active : is_active given.state ≡ true
  unfolding takeable leased_row
  given-is_active = ground (arith, free)

  given-is_taken : is_taken later given ≡ leb later (now + seconds)
  unfolding is_taken leased_row not_past
  given-is_taken = refl

  -- what the second worker gets
  second_acquire :
      (write_guard : Exec (Unit {0})) (span left : ℕ)
      → Passes write_guard (still later given_db)
      → acquire_attempts write_guard id other span (suc left) (still later given_db) ≡ (
          if leb later (now + seconds) then (ok none, still later given_db) else (
            ok (some (leased_row other (later + span) later given)),
            still later (
                executions_updated
                  (takeable id later)
                  (leased_row other (later + span) later)
                  given_db),
          ))
  unfolding leased_row holds_text
  second_acquire write_guard span left passes =
      let kept = leased_db-IsStored id db e stored now lease seconds free in
      elim (Bool-cases (leb later (now + seconds))) [
        | inl h ↦ rw h (
            acquire_attempts_finds_taken id given_db given kept later other span write_guard passes
              left (given-takeable ∙ rw h refl) given-is_active distinct (given-is_taken ∙ h))
        | inr h ↦ rw h (
            acquire_attempts_takes id given_db given kept later other span write_guard passes left
              (given-takeable ∙ rw h refl))
      ]

-- Where no other session acts and nothing fails: an execution that is active and has no lease in
-- force is given to the worker that asks for it, for the seconds that it asks for, and its attempt
-- counts. A second worker that asks until those seconds are over gets nothing and changes nothing;
-- once they are over it gets the execution under its own lease. The two leases are not the same
-- text, and the write guards pass.
pub acquire_execution_excludes :
    (py : Python) (first_guard second_guard : Exec (Unit {0})) (id lease other : String)
    (wanted also : Json) (db : Db) (e : Execution) (now seconds later span : ℕ)
    → executor_uuid py wanted ≡ ok id
    → executor_uuid py also ≡ ok id
    → IsStored id db e
    → takeable id now e ≡ true
    → str_eq lease other ≡ false
    → Passes first_guard (still now db)
    → let given = leased_row lease (now + seconds) now e in
      let given_db =
        executions_updated (takeable id now) (leased_row lease (now + seconds) now) db in
      Passes second_guard (still later given_db)
      → (acquire_execution py first_guard lease wanted seconds (still now db)
          ≡ (ok (some given), still now given_db))
        × (acquire_execution py second_guard other also span (still later given_db) ≡ (
            if leb later (now + seconds) then (ok none, still later given_db) else (
              ok (some (leased_row other (later + span) later given)),
              still later (
                  executions_updated
                    (takeable id later)
                    (leased_row other (later + span) later)
                    given_db),
            )))
unfolding acquire_execution ◌>>=◌
acquire_execution_excludes py first_guard second_guard id lease other wanted also db e now seconds
      later span named again stored free distinct passes second_passes =
    (
      rw named (acquire_attempts_takes id db e stored now lease seconds first_guard passes 2 free),
      rw again (
          second_acquire id lease other distinct db e stored now seconds later free second_guard
            span 2 second_passes),
    )
