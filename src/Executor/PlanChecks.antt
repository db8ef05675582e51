-- ===== src/Executor/PlanChecks.antt =====
-- `validate_execution_plan` of adoption_executor.py: the checks on the claim, the deployment and
-- the external details.
use Prim.Native.String.{◌++◌ as joined}
use proxmox_cloudstack_sync.Base.{
  String, Bool, true, false, ◌&&◌, ◌||◌, Option, none, some, List, [], ◌∷◌, map, ◌==◌, is_some,
}
use proxmox_cloudstack_sync.Json.{
  Json, bool, Fields, end, field, get, has_key, as_text, as_positive, equals_nat, equals_text,
  codes,
}
use proxmox_cloudstack_sync.Json.Equal.{is_null, is_true, field_count}
use proxmox_cloudstack_sync.Outcome.{Outcome, ok, raised, execution_invalid}
use proxmox_cloudstack_sync.Store.{Claim}
use proxmox_cloudstack_sync.Registry.Validate.{Python, ◌>>=◌, check}
use proxmox_cloudstack_sync.Ownership.Validate.{Ownership}
use proxmox_cloudstack_sync.Planning.Text.{lower, contains}
use proxmox_cloudstack_sync.Executor.State.{executor_uuid}
use proxmox_cloudstack_sync.Executor.Values.{required_string, customized_cpu_speed_mhz}

-- `identity != {"id": …, "generation": …, "manifest_sha256": …}`
unfoldable pub names_claim : Claim → Fields → Bool
unfolding field_count equals_text equals_nat get
names_claim c identity =
    (field_count identity == 3)
    && (equals_text (get "id" identity) c.id
        && (equals_nat (get "generation" identity) c.generation
            && equals_text (get "manifest_sha256" identity) c.manifest_sha256))

unfoldable pub check_strings : Fields → List String → Outcome (Unit {0})
unfolding required_string get
check_strings deployment [] = ok tt
check_strings deployment (name ∷ names) = do
  s ← required_string (get name deployment) (joined "invalid " name)
  check_strings deployment names

unfoldable pub check_uuids : Python → Fields → List String → Outcome (Unit {0})
unfolding executor_uuid get
check_uuids py deployment [] = ok tt
check_uuids py deployment (name ∷ names) = do
  s ← executor_uuid py (get name deployment)
  check_uuids py deployment names

-- the type of the offering and its speed
unfoldable pub check_speed : Fields → Outcome (Unit {0})
unfolding customized_cpu_speed_mhz is_null get
check_speed deployment = elim (get "service_offering_customized" deployment) [
  | bool true ↦ do speed ← customized_cpu_speed_mhz deployment false; ok tt
  | bool false ↦
      check (is_null (get "cpu_speed_mhz" deployment))
        (execution_invalid "static offering cannot override CPU speed")
  | _ ↦ raised (execution_invalid "service offering type is not explicit")
]

unfoldable pub check_owner : Fields → Option Ownership → Outcome (Unit {0})
unfolding equals_text is_null get
check_owner deployment none =
    check (equals_text (get "account" deployment) "admin" && is_null (get "project_id" deployment))
      (execution_invalid "executor owner must be ROOT admin without a project")
check_owner deployment (some o) =
    check
      (equals_text (get "account" deployment) o.account
        && (equals_text (get "domain_id" deployment) o.domain_id
            && is_null (get "project_id" deployment)))
      (execution_invalid "executor owner does not match claim manifest")

-- `isinstance(value, int) and value > 0`, which True is
unfoldable pub is_count : Json → Bool
unfolding as_positive is_true
is_count v = is_some (as_positive v) || is_true v

unfoldable pub all_texts : Fields → Bool
unfolding as_text
all_texts end = true
all_texts (field k v fs) = is_some (as_text v) && all_texts fs

-- the seven keys of the external details, and no other
unfoldable pub has_detail_keys : Fields → Bool
unfolding field_count has_key
has_detail_keys details =
    (field_count details == 7)
    && (has_key "adopt_existing" details
        && (has_key "adopt_claim_id" details
            && (has_key "adopt_claim_generation" details
                && (has_key "adopt_manifest_sha256" details
                    && (has_key "adopt_manifest_json" details
                        && (has_key "proxmox_cluster" details
                            && has_key "proxmox_vmid" details))))))

unfoldable pub names_credential : Fields → Bool
unfolding lower contains
names_credential end = false
names_credential (field k v fs) =
    contains (codes "secret") (map lower (codes k))
    || (contains (codes "token") (map lower (codes k))
        || (contains (codes "nonce") (map lower (codes k)) || names_credential fs))
