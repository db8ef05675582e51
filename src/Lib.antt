-- ===== src/Lib.antt =====
-- A model of the adoption core of the Proxmox-CloudStack sync service, and its theorems.
--
-- The service watches Proxmox clusters and an Apache CloudStack and lets CloudStack adopt existing
-- Proxmox guests. A guest is reserved by a claim, bound to one CloudStack VM, managed, and at last
-- retired and released; several processes write the claims at once, over one SQL database.
--
-- The files:
--   Base, Json, Outcome: shared helpers, JSON values as Python holds them, exceptions as values.
--   Store: the tables of backend/database.py; Store/Rows the conditional UPDATE and its row count;
--     Store/Lifecycle the changes that one committed write may make to a claim.
--   Session: code that runs SQL statements. A world holds the database, the time and the turns of
--     the other sessions: before each statement of this session the next turn changes the database,
--     lets time pass, and may let the statement fail, before or after its commit took effect.
--     Session/Guarantee is the rely-guarantee rule, Session/Returns partial correctness.
--   Registry: backend/adoption_registry.py. Registry/Validate, Target and Activation are the checks
--     of arguments; Write the compare-and-set; Reserve, Bind, Activate, Lease, Retire and State
--     hold the operations under their Python names (`reserve_claim`, `bind_claim`, ...), each with
--     a child for its proofs; Status has the two status projections. Registry/Calls runs sequences
--     of operations, Registry/Adoption joins two binds.
--   Authority: backend/adoption_authority.py, the lease by which one process at a time may write.
--     Authority/Acquire holds `acquire_write_authority`, `assert_write_authority`, renewal and
--     release; Callback the authorisation of a bind callback. Exclusion is about sequences of
--     writes on the row, Grant, Mutex, Held and Authorized about the calls.
--   Planning: backend/adoption.py. Offering is `select_exact_service_offering`, Disk is
--     `custom_root_disk_size_gib`, over texts as lists of characters (Text), and Manifest is
--     `build_adoption_manifest`; Order, Only, Fit, Root, Size and Canonical hold the proofs.
--   Ownership: backend/adoption_ownership.py, the optional owner in a manifest.
--   Executor: backend/adoption_executor.py, the worker that deploys and starts a VM for a claim.
--     State, Acquire and Commit are the states, `acquire_execution`, `assert_lease`, `_save` and
--     `commit_current`; Values, Overrides, Networks, PlanChecks and Plan are
--     `validate_execution_plan`; Create is `create_execution`; Nics and Match are
--     `_vm_matches_plan`, Params `_deploy_params`; Client is what the code needs of the client;
--     Observe, Submit, Finalize and Reconcile are `reconcile_execution`; Retry, Cleanup, Deletion
--     and Loop are the requests of an operator and of the extension, and `reconcile_active_executions`.
--     Agree, Invert, Life, From, Sets, Writes, Leases, Calls, Targets, Submitting, Releasing, Moves,
--     Replaced and Keeps are lemmas for Fenced, Course, Ended, Tally and Service; Exclusive,
--     Again, Atomic and Distinct are about the lease and the creation of an execution.
--   Json/Equal: equality, truth and parts of JSON values.
--   Registry/Tests, Authority/Tests, Planning/Tests, Ownership/Tests, Executor/Tests,
--     Executor/CreationTests: concrete runs.
--
-- A transaction is one atomic step on the database: its UPDATE, the deletion or insertion beside
-- it, and its commit. A violated unique constraint raises IntegrityError; rowcount 0 rolls back.
-- Queries read what is committed when they run. A write guard is any code of a session.
-- `uuid.UUID`, `hashlib.sha256`, `json.loads`, `json.dumps`, `str` of a value that is no text and
-- `ipaddress.ip_address` are the fields of Registry.Validate.Python and are arbitrary functions in all
-- theorems; the CloudStack client is any code of a session. The loops make three attempts, which the
-- model has as a count that falls. A changed object is written as SQLAlchemy does it: by primary
-- key, the columns whose value differs from the one that was loaded.
--
-- Not modelled: HTTP routes, the web page, logging, the clients of Proxmox and CloudStack, the
-- inventory synchronisation, the operator's runners, and the loading of the configuration.
pub mod Authority
pub mod Base
pub mod Executor
pub mod Json
pub mod Outcome
pub mod Ownership
pub mod Planning
pub mod Registry
pub mod Session
pub mod Store
