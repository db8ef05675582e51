-- ===== src/Executor/PlanSamples.antt =====
-- A plan that `validate_execution_plan` of adoption_executor.py accepts, for tests.
use proxmox_cloudstack_sync.Base.{◌≡◌, refl, false, some, str_eq, holds_text, if◌then◌else◌}
use proxmox_cloudstack_sync.Json.{
  Json, Fields, Items, null, bool, int, pos, text, arr, obj, nil, cons, end, field, get, has_key,
  equals_nat, equals_text, as_text, as_fields, as_positive, is_normalized, strip, lstrip, is_space,
  same_codes,
}
use proxmox_cloudstack_sync.Json.Equal.{is_null, is_true, as_list, item_list, field_count}
use proxmox_cloudstack_sync.Outcome.{ok}
use proxmox_cloudstack_sync.Store.{Claim}
use proxmox_cloudstack_sync.Registry.Validate.{Python}
use proxmox_cloudstack_sync.Registry.Samples.{python, sha, reserved_claim}
use proxmox_cloudstack_sync.Ownership.Validate.{validated_manifest_ownership}
use proxmox_cloudstack_sync.Planning.Text.{lower, contains}
use proxmox_cloudstack_sync.Executor.State.{executor_uuid}
use proxmox_cloudstack_sync.Executor.Values.{
  required_string, manifest_network_device_id, device_number, index_numeral, root_disk_size_gib,
}
use proxmox_cloudstack_sync.Executor.Nics.{allocation, upper, upper_codes}
use proxmox_cloudstack_sync.Executor.Match.{put}
use proxmox_cloudstack_sync.Executor.Overrides.{
  valid_allocation, requires_override, required_devices, given_overrides, no_overrides,
  validated_overrides,
}
use proxmox_cloudstack_sync.Executor.Networks.{
  upper_hex, is_hex, mac_rest, is_mac, planned_ip, check_ip, planned_network, override_ip,
  ip_agrees, manifest_mac, agrees, normalized, planned_networks,
}
use proxmox_cloudstack_sync.Executor.PlanChecks.{
  names_claim, check_strings, check_uuids, check_speed, check_owner, is_count, all_texts,
  has_detail_keys, names_credential,
}
use proxmox_cloudstack_sync.Executor.Plan.{
  check_details, check_root_disk, check_deployment, check_networks, claim_manifest, canonical_plan,
  validate_execution_plan,
}

abbrev pub networked_manifest : Fields
networked_manifest =
    field "networks"
      (arr (
        cons
          (obj (
            field "device" (text "net0") (
              field "cloudstack_network_id" (text "network")
                (field "mac" (text "02:00:00:00:00:0a") end))))
          nil))
      end

abbrev pub plan_claim : Claim
plan_claim = record reserved_claim { manifest_json = "networked" }

abbrev details : Fields
details = field "adopt_existing" (text "true") (
    field "adopt_claim_id" (text "claim") (
      field "adopt_claim_generation" (text "1") (
        field "adopt_manifest_sha256" (text sha) (
          field "adopt_manifest_json" (text "networked")
            (field "proxmox_cluster" (text "pve") (field "proxmox_vmid" (text "1") end))))))

abbrev pub network : Fields
network =
    field "device_id" (int (pos 0))
      (field "network_id" (text "network") (field "mac" (text "02:00:00:00:00:0A") end))

abbrev deployment : Fields
deployment = field "zone_id" (text "zone") (
    field "cluster_id" (text "cluster") (
      field "host_id" (text "host") (
        field "template_id" (text "template") (
          field "service_offering_id" (text "offering") (
            field "account" (text "admin") (
              field "domain_id" (text "domain") (
                field "name" (text "web") (
                  field "display_name" (text "web") (
                    field "service_offering_customized" (bool false) (
                      field "root_disk_size_customized" (bool false) (
                        field "cpus" (int (pos 2)) (
                          field "memory_mib" (int (pos 2048)) (
                            field "networks" (arr (cons (obj network) nil))
                              (field "external_details" (obj details) end))))))))))))))

abbrev identity : Fields
identity =
    field "id" (text "claim")
      (field "generation" (int (pos 1)) (field "manifest_sha256" (text sha) end))

abbrev pub plan_fields : Fields
plan_fields = field "claim" (obj identity) (field "deployment" (obj deployment) end)

abbrev pub new_plan : Json
new_plan = obj plan_fields

-- the networks of the plan as they are stored
abbrev pub stored_networks : Items
stored_networks =
    cons
      (obj (
        field "device_id" (int (pos 0)) (
          field "network_id" (text "network") (
            field "mac" (text "02:00:00:00:00:0A")
              (field "ip" null (field "ip_allocation" (text "cloudstack") end))))))
      nil

-- Every number is printed as 1, and every JSON text but that of the manifest is that of the plan.
abbrev pub plan_python : Python
plan_python = record python {
  loads = λ s. if str_eq s "networked" then some (obj networked_manifest) else some new_plan;
  dumps = λ j. "plan";
  str_of = λ j. "1";
}

unfoldable pub plan_program : Unit {0}
unfolding holds_text get has_key equals_nat equals_text as_text as_fields as_positive is_normalized
    strip lstrip is_space same_codes is_null is_true as_list item_list field_count
    validated_manifest_ownership lower contains executor_uuid required_string
    manifest_network_device_id device_number index_numeral root_disk_size_gib allocation upper
    upper_codes put valid_allocation requires_override required_devices given_overrides no_overrides
    validated_overrides upper_hex is_hex mac_rest is_mac planned_ip check_ip planned_network
    override_ip ip_agrees manifest_mac agrees normalized planned_networks names_claim check_strings
    check_uuids check_speed check_owner is_count all_texts has_detail_keys names_credential
    check_details check_root_disk check_deployment check_networks claim_manifest canonical_plan
    validate_execution_plan
plan_program = tt

pub new_plan_valid : validate_execution_plan plan_python new_plan plan_claim ≡ ok new_plan
unfolding plan_program
new_plan_valid = refl
