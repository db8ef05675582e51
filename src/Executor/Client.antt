-- ===== src/Executor/Client.antt =====
-- The CloudStack client as adoption_executor.py calls it: `load_exact_external_vm`, the `try`
-- blocks around submissions, and the status of a job.
use proxmox_cloudstack_sync.Base.{
  ℕ, String, Bool, true, false, Option, none, some, List, filter, if◌then◌else◌,
}
use proxmox_cloudstack_sync.Json.{Json, Fields, get, as_text, as_fields, equals_text, is_normalized}
use proxmox_cloudstack_sync.Json.Equal.{as_list, get_of}
use proxmox_cloudstack_sync.Outcome.{
  Outcome, ok, raised, authority_conflict, claim_conflict, claim_invalid, execution_invalid,
  attribute_error,
}
use proxmox_cloudstack_sync.Session.{Exec, lift, pure, ◌>>=◌}
use proxmox_cloudstack_sync.Registry.Validate.{require}
use proxmox_cloudstack_sync.Planning.Text.{lower_equals}
use proxmox_cloudstack_sync.Executor.Params.{Params}
use proxmox_cloudstack_sync.Executor.Nics.{all_fields}
use proxmox_cloudstack_sync.Executor.Values.{job_status}

-- Each call may take time, fail, and meet other sessions.
pub record Client : Type 0 where
  pub list_virtual_machines : Exec Json
  pub deploy_virtual_machine : Params → Exec Json
  pub start_virtual_machine : String → Json → Exec Json
  pub destroy_virtual_machine : String → Exec Json
  pub query_async_job : Option String → Exec Json

-- a list of objects
unfoldable pub vm_response : Json → Outcome (List Fields)
unfolding as_list all_fields
vm_response value = elim (as_list value) [
  | none ↦ raised (execution_invalid "invalid CloudStack VM response")
  | some items ↦ require (all_fields items) (execution_invalid "invalid CloudStack VM response")
]

unfoldable pub load_exact_external_vm : Client → String → Exec (List Fields)
unfolding vm_response get equals_text filter
load_exact_external_vm client vm_id = do
  value ← client.list_virtual_machines
  vms ← lift (vm_response value)
  pure (filter (λ vm. equals_text (get "id" vm) vm_id) vms)

abbrev pub handle_caught : {A : Type 0} → Outcome A → Exec (Option A)
handle_caught (ok a) w = (ok (some a), w)
handle_caught (raised (authority_conflict s)) w = (raised (authority_conflict s), w)
handle_caught (raised e) w = (ok none, w)

-- `except AuthorityConflict: raise` and `except Exception`
unfoldable pub caught : {A : Type 0} → Exec A → Exec (Option A)
caught m w = let (r, w') = m w in handle_caught r w'

abbrev pub handle_pending : Outcome (Unit {0}) → Exec Bool
handle_pending (ok a) w = (ok true, w)
handle_pending (raised (claim_conflict s)) w = (ok false, w)
handle_pending (raised (claim_invalid s)) w = (ok false, w)
handle_pending (raised e) w = (raised e, w)

-- `except (ClaimConflict, ClaimInvalid)`
unfoldable pub completed : Exec (Unit {0}) → Exec Bool
completed m w = let (r, w') = m w in handle_pending r w'

-- `response.get("jobid")`, if it is a text that is not empty and has no space at its ends
unfoldable pub job_of : Json → Outcome (Option String)
unfolding get_of as_text
job_of response = elim (get_of "jobid" response) [
  | raised e ↦ raised e
  | ok v ↦ elim (as_text v) [
    | none ↦ ok none
    | some s ↦ ok (if is_normalized s then some s else none)
  ]
]

unfoldable pub status_of : Json → Outcome ℕ
unfolding as_fields job_status
status_of result = elim (as_fields result) [
  | none ↦ raised attribute_error
  | some fs ↦ job_status fs
]

-- `str(vm.get("state") or "").lower() == word`
unfoldable pub vm_is : String → Fields → Bool
unfolding as_text lower_equals get
vm_is word vm = elim (as_text (get "state" vm)) [ none ↦ false | some s ↦ lower_equals s word ]
