-- ===== src/Executor/Tests.antt =====
-- The theorems on the executor at concrete inputs.
use proxmox_cloudstack_sync.Base.{ℕ, String, ◌≡◌, refl, none, some, List, [], ◌∷◌}
use proxmox_cloudstack_sync.Json.{Json, text}
use proxmox_cloudstack_sync.Outcome.{raised, no_result_found, IsOk}
use proxmox_cloudstack_sync.Store.{Db, Claim, Execution, execution_by_id, claim_by_id}
use proxmox_cloudstack_sync.Store.ExecutionState.{failed}
use proxmox_cloudstack_sync.Session.{Exec, pure}
use proxmox_cloudstack_sync.Registry.Samples.{
  quiet, open_guard, reserve_request, reserved_claim, bound_claim, with_claim,
}
use proxmox_cloudstack_sync.Executor.Params.{Params}
use proxmox_cloudstack_sync.Executor.Reconcile.{reconcile_execution}
use proxmox_cloudstack_sync.Executor.Loop.{reconcile_active_executions}
use proxmox_cloudstack_sync.Store.Lifecycle.{Leads, Follows, Fenced}
use proxmox_cloudstack_sync.Session.Guarantee.{Keeps, Keeps-pure, Progress-refl}
use proxmox_cloudstack_sync.Registry.Calls.{reserve, ignore}
use proxmox_cloudstack_sync.Executor.Life.{Becomes}
use proxmox_cloudstack_sync.Executor.Calls.{LeaveRow}
use proxmox_cloudstack_sync.Executor.Course.{reconcile_execution-Becomes}
use proxmox_cloudstack_sync.Executor.Ended.{reconcile_execution_ended}
use proxmox_cloudstack_sync.Executor.Keeps.{ClientKeeps}
use proxmox_cloudstack_sync.Executor.Service.{
  Work, registry, reconcile, work, run, run-Follows, run-Fenced,
}
use proxmox_cloudstack_sync.Executor.Replaced.{IsSameUnderLease}
use proxmox_cloudstack_sync.Executor.Fenced.{reconcile_execution-IsSameUnderLease}
use proxmox_cloudstack_sync.Executor.Tally.{IsTally, reconcile_active_executions-IsTally}
use proxmox_cloudstack_sync.Executor.Samples.{
  program, planning_python, planned_execution, submitted_execution, with_execution, client,
  activate,
}

-- a deployment that is refused where the execution is not stored
abbrev checked_deploy : Params → Exec Json
checked_deploy p w = elim (execution_by_id "vm" w.db) [
  | none ↦ (raised no_result_found, w)
  | some e ↦ client.deploy_virtual_machine p w
]

checked_deploy-IsSameUnderLease :
    IsSameUnderLease "vm" "lease" client checked_deploy client.start_virtual_machine
checked_deploy-IsSameUnderLease = record {
  deploys = λ p w h. rw (h.stored, checked_deploy) refl;
  starts = λ vm host w h. refl;
}

reconcile_execution-IsSameUnderLease_example :
    reconcile_execution planning_python client activate open_guard "lease"
      (text "vm")
      60
      (quiet (with_execution planned_execution))
    ≡ reconcile_execution planning_python
        (record client {
          deploy_virtual_machine = checked_deploy;
          start_virtual_machine = client.start_virtual_machine;
        })
        activate
        open_guard
        "lease"
        (text "vm")
        60
        (quiet (with_execution planned_execution))
unfolding program
reconcile_execution-IsSameUnderLease_example =
    reconcile_execution-IsSameUnderLease planning_python client activate open_guard checked_deploy
      client.start_virtual_machine "vm" "lease" checked_deploy-IsSameUnderLease (text "vm") 60
      (quiet (with_execution planned_execution)) refl

reconcile_active_executions-IsTally_example :
    IsTally
      (quiet (with_execution planned_execution))
      (reconcile_active_executions planning_python client activate open_guard 60
        (λ id. "lease")
        (quiet (with_execution planned_execution))).0
reconcile_active_executions-IsTally_example =
    reconcile_active_executions-IsTally planning_python client activate open_guard 60
      (λ id. "lease") (quiet (with_execution planned_execution))

leaves : LeaveRow "vm" client activate open_guard
unfolding open_guard pure
leaves = record {
  lists = record { at = λ w h. (refl, h) };
  deploys = λ p. record { at = λ w h. (refl, h) };
  starts = λ vm host. record { at = λ w h. (refl, h) };
  jobs = λ job. record { at = λ w h. (refl, h) };
  activates = λ c n e l. record { at = λ w h. (refl, h) };
  guards = record { at = λ w h. (refl, h) };
}

reconcile_execution-Becomes_example :
    (f : Execution) × (execution_by_id "vm" (with_execution submitted_execution) ≡ some f)
    × Becomes planned_execution f
unfolding program
reconcile_execution-Becomes_example =
    reconcile_execution-Becomes planning_python client activate open_guard "lease" "vm" leaves
      (text "vm") 60 (quiet (with_execution planned_execution)) planned_execution refl tt refl

abbrev failed_execution : Execution
failed_execution = record planned_execution { state = failed }

reconcile_execution_ended_example :
    (execution_by_id "vm"
        (reconcile_execution planning_python client activate open_guard "lease"
          (text "vm")
          60
          (quiet (with_execution failed_execution))).1.db
      ≡ some failed_execution)
    × IsOk
        (λ o. o ≡ none)
        (reconcile_execution planning_python client activate open_guard "lease"
          (text "vm")
          60
          (quiet (with_execution failed_execution))).0
unfolding program
reconcile_execution_ended_example =
    reconcile_execution_ended planning_python client activate open_guard "lease" "vm" (text "vm") 60
      (quiet (with_execution failed_execution)) failed_execution leaves.guards refl tt refl refl

client-ClientKeeps : ClientKeeps client
client-ClientKeeps = record {
  lists = record { at = λ w f. Progress-refl w f };
  deploys = λ p. record { at = λ w f. Progress-refl w f };
  starts = λ vm host. record { at = λ w f. Progress-refl w f };
  destroys = λ vm. record { at = λ w f. Progress-refl w f };
  jobs = λ job. record { at = λ w f. Progress-refl w f };
}

activate-Keeps : (c : String) (n : ℕ) (e l : String) → Keeps (activate c n e l)
activate-Keeps c n e l = record { at = λ w f. Progress-refl w f }

open_guard-Keeps : Keeps open_guard
unfolding open_guard
open_guard-Keeps = Keeps-pure tt

abbrev works : List Work
works = registry (reserve "other" reserve_request) ∷ reconcile "lease" (text "vm") 60 ∷ []

run-Follows_example :
    (d : Claim) × (claim_by_id "claim"
        (run planning_python client activate open_guard works
          (quiet (with_execution planned_execution))).db
      ≡ some d)
    × Leads reserved_claim d
    × Follows reserved_claim d
unfolding claim_by_id
run-Follows_example =
    run-Follows planning_python client client-ClientKeeps activate activate-Keeps open_guard
      open_guard-Keeps works (quiet (with_execution planned_execution)) "claim" reserved_claim tt
      refl

abbrev bound_db : Db
bound_db = record (with_claim bound_claim) { executions = planned_execution ∷ [] }

run-Fenced_example : Fenced bound_claim bound_claim
unfolding program run work ignore
run-Fenced_example =
    run-Fenced planning_python client client-ClientKeeps activate activate-Keeps open_guard
      open_guard-Keeps (reconcile "lease" (text "vm") 60 ∷ []) (quiet bound_db) "claim" "vm"
      bound_claim bound_claim tt refl refl refl refl
