-- ===== src/Executor/Create.antt =====
-- `create_execution` of adoption_executor.py: the one execution of a reserved claim in its
-- generation.
use proxmox_cloudstack_sync.Base.{
  ℕ, zero, suc, String, Bool, true, ◌&&◌, Option, none, some, [], ◌∷◌, ◌++◌, find, any, ◌==◌,
  str_eq, if◌then◌else◌,
}
use proxmox_cloudstack_sync.Json.{Json}
use proxmox_cloudstack_sync.Outcome.{
  Outcome, ok, raised, integrity, operational, execution_conflict, execution_invalid, is_retryable,
  invalid_request,
}
use proxmox_cloudstack_sync.Store.{Db, Claim, Execution, claim_by_id, is_state, reserved}
use proxmox_cloudstack_sync.Store.ExecutionState.{planned}
use proxmox_cloudstack_sync.Session.{
  Exec, Commit, committed, violated, pure, lift, raise, guard, when◌then◌otherwise◌, ◌>>=◌, ◌>>◌,
  query, transact,
}
use proxmox_cloudstack_sync.Registry.Validate.{Python, require}
use proxmox_cloudstack_sync.Executor.State.{executor_uuid}
use proxmox_cloudstack_sync.Executor.Commit.{refreshed}
use proxmox_cloudstack_sync.Executor.Plan.{validate_execution_plan}

abbrev pub of_generation : String → ℕ → Execution → Bool
of_generation claim_id generation e = str_eq e.claim_id claim_id && (e.generation == generation)

-- `filter_by(claim_id=…, generation=…).first()`
unfoldable pub execution_of_claim : String → ℕ → Db → Option Execution
unfolding find
execution_of_claim claim_id generation db = find (of_generation claim_id generation) db.executions

-- the row that is inserted
unfoldable pub planned_row : String → String → ℕ → String → String → ℕ → Execution
planned_row id claim_id generation sha json now = record {
  id = id;
  claim_id = claim_id;
  generation = generation;
  plan_sha256 = sha;
  plan_json = json;
  state = planned;
  deploy_job_id = none;
  start_job_id = none;
  cleanup_job_id = none;
  cloudstack_vm_ref = none;
  cloudstack_instance_name = none;
  error_code = none;
  worker_lease_id = none;
  worker_lease_expires_at = none;
  attempt_count = 0;
  created_at = now;
  updated_at = now;
}

-- the primary key, and the claim with its generation, are unique
unfoldable pub execution_clashes : Execution → Db → Bool
execution_clashes e db =
    any (λ r. if str_eq r.id e.id then true else of_generation e.claim_id e.generation r)
      db.executions

unfoldable pub insert_execution : Execution → Db → Commit (Option Execution)
unfolding execution_clashes
insert_execution e db =
    if execution_clashes e db
    then violated
    else committed (some e) (record db { executions = db.executions ++ e ∷ [] })

-- how the commit of the new row ends, apart from an error that is raised
pub data Insertion : Type 0 where
  inserted clashed retryable : Insertion

abbrev pub handle_insertion : Outcome (Option Execution) → Exec Insertion
handle_insertion (ok e) w = (ok inserted, w)
handle_insertion (raised integrity) w = (ok clashed, w)
handle_insertion (raised (operational c)) w =
    if is_retryable c then (ok retryable, w) else (raised (operational c), w)
handle_insertion (raised e) w = (raised e, w)

unfoldable pub insertion : Exec (Option Execution) → Exec Insertion
unfolding is_retryable
insertion m w = let (r, w') = m w in handle_insertion r w'

-- an execution with this plan, or a conflict
unfoldable pub same_plan : String → String → Execution → Exec Execution
same_plan sha message e =
    when str_eq e.plan_sha256 sha then pure e otherwise (raise (execution_conflict message))

module _ (write_guard : Exec (Unit {0})) (id claim_id : String) (generation : ℕ)
    (sha json : String) where
  unfoldable pub winner_of_clash : Option Execution → Exec Execution
  unfolding same_plan
  winner_of_clash none = raise (execution_conflict "claim execution was created concurrently")
  winner_of_clash (some e) = same_plan sha "claim execution was created concurrently" e

  unfoldable pub winner_of_error : Exec Execution → Option Execution → Exec Execution
  unfolding same_plan
  winner_of_error again none = again
  winner_of_error again (some e) = same_plan sha "claim already has a different execution" e

  unfoldable pub after_insertion : Exec Execution → String → Insertion → Exec Execution
  after_insertion again claim inserted = refreshed invalid_request id
  after_insertion again claim clashed = do
    winner ← query (execution_of_claim claim generation)
    winner_of_clash winner
  after_insertion again claim retryable = do
    winner ← query (execution_of_claim claim generation)
    winner_of_error again winner

  unfoldable pub create_row : Claim → Exec Insertion
  unfolding planned_row
  create_row c =
      insertion (transact λ now. insert_execution (planned_row id c.id c.generation sha json now))

  unfoldable pub create_if_none : Exec Execution → Claim → Option Execution → Exec Execution
  unfolding same_plan
  create_if_none again c none = do write_guard; how ← create_row c; after_insertion again c.id how
  create_if_none again c (some e) = same_plan sha "claim already has a different execution" e

  unfoldable pub create_attempts : ℕ → Exec Execution
  create_attempts zero = raise (execution_conflict "claim execution retry limit reached")
  create_attempts (suc left) = do
    row ← query (claim_by_id claim_id)
    c ← lift (require row (execution_invalid "adoption claim not found"))
    guard (c.generation == generation) (execution_conflict "adoption claim generation changed")
    guard (is_state c.state reserved) (execution_conflict "only a reserved claim can be executed")
    existing ← query (execution_of_claim c.id generation)
    create_if_none (create_attempts left) c existing

-- `new_id` is the text of `uuid.uuid4()`
unfoldable pub create_execution :
    Python → Exec (Unit {0}) → String → Json → ℕ → Json → Exec Execution
unfolding validate_execution_plan executor_uuid
create_execution py write_guard new_id claim generation plan = do
  claim_id ← lift (executor_uuid py claim)
  row ← query (claim_by_id claim_id)
  c ← lift (require row (execution_invalid "adoption claim not found"))
  canonical ← lift (validate_execution_plan py plan c)
  create_attempts write_guard new_id claim_id generation (py.sha256 (py.dumps canonical))
      (py.dumps canonical) 3
