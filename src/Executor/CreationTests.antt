-- ===== src/Executor/CreationTests.antt =====
-- The theorems on the creation of an execution and on its lease at concrete inputs.
use proxmox_cloudstack_sync.Base.{◌≡◌, refl, none, some, List, [], ◌∷◌, length}
use proxmox_cloudstack_sync.Json.{Json, text, obj, get}
use proxmox_cloudstack_sync.Outcome.{ok, execution_conflict}
use proxmox_cloudstack_sync.Store.{Db, Execution, claim_by_id}
use proxmox_cloudstack_sync.Registry.Samples.{quiet, open_guard, with_claim}
use proxmox_cloudstack_sync.Registry.Bind.Again.{still}
use proxmox_cloudstack_sync.Executor.Acquire.{acquire_execution}
use proxmox_cloudstack_sync.Executor.Exclusive.{acquire_execution_excludes}
use proxmox_cloudstack_sync.Executor.Create.{
  planned_row, execution_clashes, execution_of_claim, same_plan, create_if_none, create_attempts,
  create_execution,
}
use proxmox_cloudstack_sync.Executor.Again.{create_execution_again}
use proxmox_cloudstack_sync.Executor.PlanSamples.{
  plan_program, plan_claim, plan_fields, new_plan, plan_python, new_plan_valid, networked_manifest,
  network, stored_networks,
}
use proxmox_cloudstack_sync.Executor.Distinct.{IsNetworkList, check_networks-IsNetworkList}
use proxmox_cloudstack_sync.Json.Equal.{as_list}
use proxmox_cloudstack_sync.Executor.Atomic.{create_execution-raised}
use proxmox_cloudstack_sync.Executor.Samples.{
  program, planning_python, planned_execution, with_execution,
}

abbrev leased_execution : Execution
leased_execution = record planned_execution {
  worker_lease_id = some "lease";
  worker_lease_expires_at = some 65;
  attempt_count = 1;
}

acquire_execution_excludes_example :
    (acquire_execution planning_python open_guard "lease"
        (text "vm")
        60
        (quiet (with_execution planned_execution))
      ≡ (ok (some leased_execution), quiet (with_execution leased_execution)))
    × (acquire_execution planning_python open_guard "other"
          (text "vm")
          60
          (still 40 (with_execution leased_execution))
        ≡ (ok none, still 40 (with_execution leased_execution)))
unfolding program
acquire_execution_excludes_example =
    acquire_execution_excludes planning_python open_guard open_guard "vm" "lease" "other"
      (text "vm") (text "vm") (with_execution planned_execution) planned_execution 5 60 40 60 refl
      refl (record { found = refl; single = refl }) refl refl refl refl

abbrev created_execution : Execution
created_execution = record planned_execution { id = "execution" }

abbrev with_created : Db
with_created = record (with_claim plan_claim) { executions = created_execution ∷ [] }

create_execution_again_example :
    (create_execution plan_python open_guard "execution"
        (text "claim")
        1
        new_plan
        (quiet (with_claim plan_claim))
      ≡ (ok created_execution, quiet with_created))
    × (create_execution plan_python open_guard "other"
          (text "claim")
          1
          new_plan
          (still 9 with_created)
        ≡ (ok created_execution, still 9 with_created))
unfolding program execution_clashes claim_by_id planned_row
create_execution_again_example =
    create_execution_again plan_python open_guard open_guard "execution" "other" "claim"
      (text "claim") (text "claim") 1 new_plan new_plan new_plan new_plan plan_claim 5 9
      (with_claim plan_claim) refl refl (record { found = refl; current = refl; open_claim = refl })
      new_plan_valid new_plan_valid refl refl

abbrev other_plan : Db
other_plan = record (with_claim plan_claim) {
  executions = record created_execution { plan_sha256 = "another plan" } ∷ [];
}

create_execution-raised_example :
    (create_execution plan_python open_guard "other" (text "claim") 1 new_plan (quiet other_plan)).1
    ≡ quiet other_plan
unfolding program plan_program create_execution create_attempts create_if_none same_plan
    execution_of_claim
create_execution-raised_example =
    create_execution-raised plan_python open_guard "other" (text "claim") 1 new_plan 5 other_plan
      (execution_conflict "claim already has a different execution")
      (record { at = λ now db. refl }) refl

check_networks-IsNetworkList_example :
    IsNetworkList 0 1 stored_networks
    × ((expected : List Json) × (as_list (get "networks" networked_manifest) ≡ some expected)
        × (length expected ≡ 1))
unfolding plan_program
check_networks-IsNetworkList_example =
    check_networks-IsNetworkList plan_python plan_fields networked_manifest (obj network ∷ [])
      stored_networks refl
