-- ===== src/Executor/Acquire.antt =====
-- `acquire_execution` of adoption_executor.py: a worker takes the lease of an execution.
use proxmox_cloudstack_sync.Base.{
  ℕ, ◌+◌, zero, suc, String, Bool, ◌&&◌, ◌||◌, Option, none, some, is_none, is_some, str_eq,
  holds_text, if◌then◌else◌,
}
use proxmox_cloudstack_sync.Json.{Json}
use proxmox_cloudstack_sync.Store.{Db, Execution, execution_by_id}
use proxmox_cloudstack_sync.Session.{
  Exec, Commit, pure, lift, when◌then◌otherwise◌, ◌>>=◌, ◌>>◌, query, current_time, transact,
  retry_operational,
}
use proxmox_cloudstack_sync.Registry.Validate.{Python}
use proxmox_cloudstack_sync.Executor.State.{
  is_active, executor_uuid, lapsed, not_past, set_execution,
}

-- the WHERE of the UPDATE
unfoldable pub takeable : String → ℕ → Execution → Bool
unfolding is_active lapsed
takeable id now e =
    str_eq e.id id
    && (is_active e.state && (is_none e.worker_lease_id || lapsed now e.worker_lease_expires_at))

unfoldable pub leased_row : String → ℕ → ℕ → Execution → Execution
leased_row lease until stamp e = record e {
  worker_lease_id = some lease;
  worker_lease_expires_at = some until;
  attempt_count = e.attempt_count + 1;
  updated_at = stamp;
}

unfoldable pub acquire_write : String → String → ℕ → ℕ → ℕ → Db → Commit Bool
acquire_write id lease seconds now stamp =
    set_execution (takeable id now) (leased_row lease (now + seconds) stamp)

-- another worker's lease is in force
unfoldable pub is_taken : ℕ → Execution → Bool
unfolding not_past
is_taken now e =
    is_some e.worker_lease_id
    && (is_none e.worker_lease_expires_at || not_past now e.worker_lease_expires_at)

unfoldable pub acquire_verdict :
    String → ℕ → Exec (Option Execution) → Option Execution → Exec (Option Execution)
unfolding is_active is_taken holds_text
acquire_verdict lease now again none = pure none
acquire_verdict lease now again (some e) =
    when is_active e.state
    then (when holds_text e.worker_lease_id lease
        then pure (some e)
        otherwise (when is_taken now e then pure none otherwise again))
    otherwise (pure none)

module _ (write_guard : Exec (Unit {0})) (id lease : String) (seconds : ℕ) where
  unfoldable pub try_acquire : ℕ → Exec (Unit {0})
  try_acquire now =
      retry_operational (do changed ← transact (acquire_write id lease seconds now); pure tt)

  unfoldable pub acquire_attempts : ℕ → Exec (Option Execution)
  acquire_attempts zero = pure none
  acquire_attempts (suc left) = do
    now ← current_time
    write_guard
    try_acquire now
    current ← query (execution_by_id id)
    later ← current_time
    acquire_verdict lease later (acquire_attempts left) current

-- `lease` is the text of `uuid.uuid4()`; the execution that is returned has this lease.
unfoldable pub acquire_execution :
    Python → Exec (Unit {0}) → String → Json → ℕ → Exec (Option Execution)
acquire_execution py write_guard lease execution_id seconds = do
  id ← lift (executor_uuid py execution_id)
  acquire_attempts write_guard id lease seconds 3
