-- ===== src/Executor/Plan.antt =====
-- `validate_execution_plan` of adoption_executor.py.
use proxmox_cloudstack_sync.Base.{
  ℕ, Bool, false, ◌&&◌, not, Option, none, some, List, [], ◌∷◌, length, ◌==◌,
}
use proxmox_cloudstack_sync.Json.{
  Json, int, pos, arr, obj, Items, Fields, end, field, get, as_fields, equals_text,
}
use proxmox_cloudstack_sync.Json.Equal.{as_list}
use proxmox_cloudstack_sync.Outcome.{Outcome, ok, raised, execution_invalid, value_error}
use proxmox_cloudstack_sync.Store.{Claim}
use proxmox_cloudstack_sync.Registry.Validate.{Python, ◌>>=◌, ◌>>◌, check, require}
use proxmox_cloudstack_sync.Ownership.Validate.{Ownership, validated_manifest_ownership}
use proxmox_cloudstack_sync.Planning.Disk.{custom_root_disk_size_gib}
use proxmox_cloudstack_sync.Executor.Values.{root_disk_size_gib}
use proxmox_cloudstack_sync.Executor.Match.{put}
use proxmox_cloudstack_sync.Executor.Overrides.{validated_overrides}
use proxmox_cloudstack_sync.Executor.Networks.{planned_networks}
use proxmox_cloudstack_sync.Executor.PlanChecks.{
  names_claim, check_strings, check_uuids, check_speed, check_owner, is_count, all_texts,
  has_detail_keys, names_credential,
}

module _ (py : Python) where
  unfoldable pub check_details : Claim → Fields → Outcome (Unit {0})
  unfolding has_detail_keys all_texts equals_text names_credential get
  check_details c details = do
    check (has_detail_keys details && all_texts details)
        (execution_invalid "execution plan has unexpected external details")
    check (equals_text (get "adopt_existing" details) "true")
        (execution_invalid "execution plan is not an adoption")
    check (equals_text (get "adopt_claim_id" details) c.id)
        (execution_invalid "execution plan claim detail mismatch")
    check (equals_text (get "adopt_claim_generation" details) (py.str_of (int (pos c.generation))))
        (execution_invalid "execution plan generation detail mismatch")
    check (equals_text (get "adopt_manifest_sha256" details) c.manifest_sha256)
        (execution_invalid "execution plan manifest detail mismatch")
    check (equals_text (get "adopt_manifest_json" details) c.manifest_json)
        (execution_invalid "execution plan manifest mismatch")
    check (equals_text (get "proxmox_cluster" details) c.proxmox_cluster)
        (execution_invalid "execution plan Proxmox cluster mismatch")
    check (equals_text (get "proxmox_vmid" details) (py.str_of (int (pos c.proxmox_vmid))))
        (execution_invalid "execution plan Proxmox VMID mismatch")
    check (not (names_credential details))
        (execution_invalid "execution plan contains a forbidden credential field")

  abbrev pub same_size : ℕ → Option ℕ → Bool
  same_size n none = false
  same_size n (some m) = m == n

  -- a custom size of the root disk is that of the manifest
  unfoldable pub check_root_disk : Option ℕ → Fields → Outcome (Unit {0})
  unfolding custom_root_disk_size_gib as_list get
  check_root_disk none manifest = ok tt
  check_root_disk (some n) manifest = do
    storage ←
        require (as_list (get "storage" manifest))
          (execution_invalid "claim manifest storage is invalid")
    check (same_size n (custom_root_disk_size_gib storage))
        (execution_invalid "custom root disk size does not match claim manifest")

  abbrev pub owner_checked : Outcome (Option Ownership) → Outcome (Option Ownership)
  owner_checked (raised (value_error s)) =
      raised (execution_invalid "claim manifest ownership is invalid")
  owner_checked r = r

  unfoldable pub check_deployment : Fields → Fields → Outcome (Option ℕ)
  unfolding validated_manifest_ownership check_strings check_uuids check_speed root_disk_size_gib
      check_owner is_count get
  check_deployment manifest deployment = do
    ownership ← owner_checked (validated_manifest_ownership py (obj manifest))
    check_strings deployment (
        "zone_id" ∷ "cluster_id" ∷ "host_id" ∷ "template_id" ∷ "service_offering_id" ∷ "account"
        ∷ "domain_id" ∷ "name" ∷ "display_name" ∷ [])
    check_uuids py deployment (
        "zone_id" ∷ "cluster_id" ∷ "host_id" ∷ "template_id" ∷ "service_offering_id" ∷ "domain_id"
        ∷ [])
    check_speed deployment
    size ← root_disk_size_gib py deployment false
    check_owner deployment ownership
    check (is_count (get "cpus" deployment)) (execution_invalid "invalid CPU count")
    check (is_count (get "memory_mib" deployment)) (execution_invalid "invalid memory size")
    ok size

  abbrev pub nonempty_list : Json → Option (List Json)
  unfolding as_list
  nonempty_list v = elim (as_list v) [
    | none ↦ none
    | some [] ↦ none
    | some (x ∷ xs) ↦ some (x ∷ xs)
  ]

  abbrev pub nonempty_fields : Json → Option Fields
  unfolding as_fields
  nonempty_fields v = elim (as_fields v) [
    | none ↦ none
    | some end ↦ none
    | some (field k u fs) ↦ some (field k u fs)
  ]

  -- the networks of the plan, normalized
  unfoldable pub check_networks : Fields → Fields → List Json → Outcome Items
  unfolding as_list validated_overrides planned_networks get
  check_networks plan manifest networks = do
    manifest_networks ←
        require (as_list (get "networks" manifest))
          (execution_invalid "claim manifest networks do not match execution plan")
    check (length manifest_networks == length networks)
        (execution_invalid "claim manifest networks do not match execution plan")
    overrides ← validated_overrides py plan manifest_networks
    planned_networks py overrides 0 [] [] networks manifest_networks

  unfoldable pub claim_manifest : Claim → Outcome Fields
  unfolding as_fields
  claim_manifest c = do
    parsed ← require (py.loads c.manifest_json) (execution_invalid "claim manifest is invalid")
    require (as_fields parsed) (execution_invalid "claim manifest is invalid")

  -- `json.loads(_canonical_json(plan))`, of the plan with the networks that were written into it
  unfoldable pub canonical_plan : Fields → Fields → Items → Outcome Json
  unfolding put
  canonical_plan plan deployment networks =
      require
        (py.loads
          (py.dumps (obj (put "deployment" (obj (put "networks" (arr networks) deployment)) plan))))
        (value_error "JSONDecodeError")

  unfoldable pub validate_execution_plan : Json → Claim → Outcome Json
  unfolding as_fields names_claim claim_manifest check_deployment check_details check_root_disk
      check_networks canonical_plan get
  validate_execution_plan raw c = do
    plan ← require (as_fields raw) (execution_invalid "execution plan must be an object")
    identity ←
        require (as_fields (get "claim" plan)) (execution_invalid "execution plan is incomplete")
    deployment ←
        require (as_fields (get "deployment" plan))
          (execution_invalid "execution plan is incomplete")
    check (names_claim c identity) (execution_invalid "execution plan claim identity mismatch")
    manifest ← claim_manifest c
    size ← check_deployment manifest deployment
    networks ←
        require (nonempty_list (get "networks" deployment))
          (execution_invalid "execution plan requires networks")
    details ←
        require (nonempty_fields (get "external_details" deployment))
          (execution_invalid "execution plan requires external details")
    check_details c details
    check_root_disk size manifest
    items ← check_networks plan manifest networks
    canonical_plan plan deployment items
