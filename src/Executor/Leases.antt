-- ===== src/Executor/Leases.antt =====
-- `acquire_execution` of adoption_executor.py on a known row, which no other session changes.
use proxmox_cloudstack_sync.Base.{ℕ, zero, suc, ◌+◌, String, ◌≡◌, refl, Option, none, some}
use proxmox_cloudstack_sync.Store.{Db, Execution, execution_by_id}
use proxmox_cloudstack_sync.Session.{Exec, pure}
use proxmox_cloudstack_sync.Executor.Life.{stay}
use proxmox_cloudstack_sync.Executor.From.{Stays, From, From-Stays, Stays-pure, Stays-current_time}
use proxmox_cloudstack_sync.Executor.Sets.{Sets, Sets-bind}
use proxmox_cloudstack_sync.Executor.Acquire.{
  takeable, leased_row, acquire_write, acquire_verdict, try_acquire, acquire_attempts,
}
use proxmox_cloudstack_sync.Executor.Writes.{
  CommitRow, set_execution-CommitRow, From-transact, From-retry_operational, From-then, Sets-then,
  Sets-row, Sets-pure, Sets-if,
}

module _ (id : String) where
  -- the execution that is returned is the row
  abbrev pub IsRow : Option Execution → Execution → Type 0
  IsRow none e = Unit
  IsRow (some x) e = x ≡ e

  module _ (write_guard : Exec (Unit {0})) (guarded : Stays id write_guard) (lease : String)
      (seconds : ℕ) where
    acquire-CommitRow :
        (now stamp : ℕ) (db : Db) (e : Execution)
        → execution_by_id id db ≡ some e
        → CommitRow id e (acquire_write id lease seconds now stamp db)
    unfolding acquire_write leased_row
    acquire-CommitRow now stamp db e s =
        set_execution-CommitRow id (takeable id now) (leased_row lease (now + seconds) stamp) db e
          (λ x _. record {
            id = refl;
            claim = refl;
            generation = refl;
            sha = refl;
            json = refl;
            state = stay;
          })
          s

    try_acquire-From :
        (now : ℕ) (e : Execution) → From id e (try_acquire write_guard id lease seconds now)
    unfolding try_acquire
    try_acquire-From now e = From-retry_operational id e _ (
        From-then id e _ _
          (From-transact id e (acquire_write id lease seconds now)
            (λ stamp db. acquire-CommitRow now stamp db e))
          λ f _. From-Stays id f (pure tt) (Stays-pure id tt))

    acquire_verdict-Sets :
        (now : ℕ) (e : Execution) (again : Exec (Option Execution))
        → Sets id e IsRow again
        → Sets id e IsRow (acquire_verdict lease now again (some e))
    unfolding acquire_verdict
    acquire_verdict-Sets now e again k =
        Sets-if id IsRow e _ _ _
          (Sets-if id IsRow e _ _ _ (Sets-pure id IsRow e (some e) refl)
            (Sets-if id IsRow e _ _ _ (Sets-pure id IsRow e none tt) k))
          (Sets-pure id IsRow e none tt)

    pub acquire_attempts-Sets :
        (left : ℕ) (e : Execution)
        → Sets id e IsRow (acquire_attempts write_guard id lease seconds left)
    unfolding acquire_attempts
    acquire_attempts-Sets zero e = Sets-pure id IsRow e none tt
    acquire_attempts-Sets (suc left) e = Sets-bind id e _ _ _ (Stays-current_time id) λ now.
        Sets-bind id e _ _ _ guarded λ _. Sets-then id e _ _ _ (try_acquire-From now e) λ f _.
          Sets-row id IsRow f _ (
            Sets-bind id f _ _ _ (Stays-current_time id)
              λ later. acquire_verdict-Sets later f _ (acquire_attempts-Sets left f))
