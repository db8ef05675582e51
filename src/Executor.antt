-- ===== src/Executor.antt =====
-- adoption_executor.py: the execution of an adoption, from the deployment in CloudStack to the
-- activation of the claim, or to a rollback.
pub mod State
pub mod Acquire
pub mod Commit
pub mod Values
pub mod Nics
pub mod Match
pub mod Params
pub mod Client
pub mod Observe
pub mod Submit
pub mod Finalize
pub mod Reconcile
pub mod Overrides
pub mod Networks
pub mod PlanChecks
pub mod Plan
pub mod Create
pub mod Retry
pub mod Deletion
pub mod Cleanup
pub mod Loop
pub mod Invert
pub mod Agree
pub mod Life
pub mod From
pub mod Sets
pub mod Writes
pub mod Leases
pub mod Calls
pub mod Targets
mod Submitting
mod Releasing
mod Moves
mod Course
mod Ended
pub mod Keeps
mod Service
mod Replaced
mod Fenced
mod Exclusive
mod Again
mod Atomic
mod Distinct
mod Tally
mod Samples
mod PlanSamples
mod Tests
mod CreationTests
