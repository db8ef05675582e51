-- ===== src/Store.antt =====
-- The tables of database.py that the adoption code writes: claims, operation leases, executions and
-- the write authority. A table is the list of its rows; times are numbers of seconds.
pub mod Rows
pub mod Lifecycle
use proxmox_cloudstack_sync.Base.{
  ℕ, String, Bool, true, false, Option, none, List, [], find, str_eq,
}

pub data ClaimState : Type 0 where
  reserved bound managed operating retiring released cleanup : ClaimState

abbrev pub is_state : ClaimState → ClaimState → Bool
is_state reserved reserved = true
is_state bound bound = true
is_state managed managed = true
is_state operating operating = true
is_state retiring retiring = true
is_state released released = true
is_state cleanup cleanup = true
is_state _ _ = false

-- AdoptionClaim
pub record Claim : Type 0 where
  pub id : String
  pub proxmox_cluster : String
  pub proxmox_node : String
  pub proxmox_vmid : ℕ
  pub manifest_sha256 : String
  pub manifest_json : String
  pub generation : ℕ
  pub state : ClaimState
  pub operation_lease_id : Option String
  pub cloudstack_vm_ref : Option String
  pub cloudstack_instance_name : Option String
  pub created_at : ℕ
  pub updated_at : ℕ

-- AdoptionOperationLease
pub record OperationLease : Type 0 where
  pub id : String
  pub claim_id : String
  pub generation : ℕ
  pub action : String
  pub expires_at : ℕ

pub data ExecutionState : Type 0 where
  planned deploy_submitting deploy_submitted submission_unknown deploy_succeeded : ExecutionState
  start_submitting start_submitted start_unknown verifying succeeded failed : ExecutionState
  cleanup_required cleanup_submitting cleanup_submitted cleanup_authorized : ExecutionState
  rolled_back : ExecutionState

-- AdoptionExecution
pub record Execution : Type 0 where
  pub id : String
  pub claim_id : String
  pub generation : ℕ
  pub plan_sha256 : String
  pub plan_json : String
  pub state : ExecutionState
  pub deploy_job_id : Option String
  pub start_job_id : Option String
  pub cleanup_job_id : Option String
  pub cloudstack_vm_ref : Option String
  pub cloudstack_instance_name : Option String
  pub error_code : Option String
  pub worker_lease_id : Option String
  pub worker_lease_expires_at : Option ℕ
  pub attempt_count : ℕ
  pub created_at : ℕ
  pub updated_at : ℕ

pub data Mode : Type 0 where
  operator automatic : Mode

-- AdoptionWriteAuthority, the row with the identifier 1
pub record Authority : Type 0 where
  pub mode : Option Mode
  pub owner_id : Option String
  pub target : Option String
  pub expires_at : Option ℕ
  pub updated_at : ℕ

pub record Db : Type 0 where
  pub claims : List Claim
  pub leases : List OperationLease
  pub executions : List Execution
  pub authority : Option Authority

abbrev pub empty_db : Db
empty_db = record { claims = []; leases = []; executions = []; authority = none }

-- `session.query(AdoptionClaim).filter_by(id=…).first()`
unfoldable pub claim_by_id : String → Db → Option Claim
unfolding find
claim_by_id id db = find (λ c. str_eq c.id id) db.claims

-- `session.query(AdoptionExecution).filter_by(id=…).first()`
unfoldable pub execution_by_id : String → Db → Option Execution
unfolding find
execution_by_id id db = find (λ e. str_eq e.id id) db.executions
