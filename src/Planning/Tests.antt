-- ===== src/Planning/Tests.antt =====
-- The theorems on the plan at concrete inputs.
use mathlib.Core.List.Permᴰ.{swap}
use proxmox_cloudstack_sync.Base.{
  arith, map, sorted, insert, text_leb, Distinct, String, ◌≡◌, ◌≤◌, ◌*◌, ◌⊎◌, refl, true, false,
  none, some, List, [], ◌∷◌, filter, holds_text,
}
use proxmox_cloudstack_sync.Json.{
  Json, Fields, null, int, pos, text, obj, end, field, get, has_key, equals_nat, equals_text,
  as_text, as_fields, same_codes, codes,
}
use proxmox_cloudstack_sync.Outcome.{ok, raised, type_error}
use proxmox_cloudstack_sync.Registry.Samples.{python}
use proxmox_cloudstack_sync.Planning.Text.{
  lower, lower_equals, after_prefix, starts_with, contains, is_digit, all_digits, numeral,
}
use proxmox_cloudstack_sync.Planning.Offering.{
  chosen, ServiceOffering, means_customized, is_customized, is_active_state, is_active_offering,
  has_name, and_active, is_exact_static, is_configured, matching, int_is_zero, positive,
  valid_speed, custom_root_disk_size, custom_root_disk_required, choose, with_speed,
  select_customized, select_static, select_offering, select_exact_service_offering,
}
use proxmox_cloudstack_sync.Planning.Order.{select_exact_service_offering-Perm}
use proxmox_cloudstack_sync.Planning.Fit.{
  HasSize, Copies, FitsStatic, FitsCustomized, select_exact_service_offering_fits,
}
use proxmox_cloudstack_sync.Planning.Disk.{
  Disk, on_bus, is_root_device, valid_boot_order, is_cloudinit, eligible_disk, eligible_disks,
  first_position, scsi_number, least_scsi, unordered_root, root_disk, multiplier, size_rest,
  size_bytes, gib, whole_gib, custom_root_disk_size_gib,
}
use proxmox_cloudstack_sync.Planning.Manifest.{
  Network, Storage, device_of, network_entry, storage_entry, items_of, by_device,
  build_adoption_manifest,
}
use proxmox_cloudstack_sync.Planning.Canonical.{build_adoption_manifest-Perm}
use proxmox_cloudstack_sync.Planning.Size.{IsRoot, custom_root_disk_size_gib-IsRoot}

abbrev small : Fields
small = field "id" (text "small") (
    field "name" (text "Small") (
      field "state" (text "Active")
        (field "cpunumber" (int (pos 2)) (field "memory" (int (pos 2048)) end))))

abbrev custom : Fields
custom = field "id" (text "custom") (
    field "name" (text "Custom")
      (field "state" (text "Enabled") (field "iscustomized" (text "True") end)))

abbrev offerings : List Fields
offerings = small ∷ custom ∷ []

abbrev small_choice : ServiceOffering
small_choice = record {
  id = text "small";
  name = text "Small";
  customized = false;
  root_disk_size_customized = false;
  details = none;
  cpus = 2;
  memory_mb = 2048;
}

abbrev custom_choice : ServiceOffering
custom_choice = record {
  id = text "custom";
  name = text "Custom";
  customized = true;
  root_disk_size_customized = false;
  details = some (record { cpu_number = 3; cpu_speed = 2000; memory = 2048 });
  cpus = 3;
  memory_mb = 2048;
}

abbrev disk : String → String → Fields → Json
disk device size rest = obj (
    field "device" (text device)
      (field "volume" (text "local:disk") (field "size" (text size) rest)))

-- a boot disk between a data disk and a cloud-init drive
abbrev storage : List Json
storage =
    disk "scsi0" "8G" end
    ∷ disk "virtio1" "32768M" (field "boot_order" (int (pos 0)) end)
    ∷ obj (field "device" (text "ide2") (field "volume" (text "local:vm-1-CloudInit") end))
    ∷ []

unfoldable program : Unit {0}
unfolding lower lower_equals after_prefix starts_with contains is_digit all_digits numeral
    means_customized is_customized is_active_state is_active_offering has_name and_active
    is_exact_static is_configured matching int_is_zero positive valid_speed custom_root_disk_size
    custom_root_disk_required choose with_speed select_customized select_static select_offering
    select_exact_service_offering on_bus is_root_device valid_boot_order is_cloudinit eligible_disk
    eligible_disks first_position scsi_number least_scsi unordered_root root_disk multiplier
    size_rest size_bytes whole_gib custom_root_disk_size_gib get has_key equals_nat equals_text
    as_text as_fields same_codes filter holds_text
program = tt

static_selected :
    select_exact_service_offering python offerings "custom" (int (pos 2000)) (pos 2) (pos 2048)
    ≡ ok (chosen small_choice)
unfolding program
static_selected = refl

customized_selected :
    select_exact_service_offering python offerings "custom" (int (pos 2000)) (pos 3) (pos 2048)
    ≡ ok (chosen custom_choice)
unfolding program
customized_selected = refl

unhashable_state :
    select_exact_service_offering python
      (field "id" (text "x") (field "name" (text "X") (field "state" (obj end) end)) ∷ [])
      "custom"
      (int (pos 2000))
      (pos 3)
      (pos 2048)
    ≡ raised type_error
unfolding program
unhashable_state = refl

boot_disk_size : custom_root_disk_size_gib storage ≡ some 32
unfolding program
boot_disk_size = refl

scsi_disk_size :
    custom_root_disk_size_gib (disk "scsi10" "8G" end ∷ disk "scsi2" "1T" end ∷ []) ≡ some 1024
unfolding program
scsi_disk_size = refl

no_whole_size : custom_root_disk_size_gib (disk "scsi0" "1025M" end ∷ []) ≡ none
unfolding program
no_whole_size = refl

select_exact_service_offering-Perm_example :
    select_exact_service_offering python offerings "custom" (int (pos 2000)) (pos 2) (pos 2048)
    ≡ select_exact_service_offering python
        (custom ∷ small ∷ [])
        "custom"
        (int (pos 2000))
        (pos 2)
        (pos 2048)
select_exact_service_offering-Perm_example =
    select_exact_service_offering-Perm python "custom" (int (pos 2000)) (pos 2) (pos 2048)
      (swap refl refl)

select_exact_service_offering_fits_example :
    HasSize (pos 3) (pos 2048) custom_choice
    × ((o : Fields) × Copies python o custom_choice
        × (FitsStatic offerings o custom_choice
            ⊎ FitsCustomized offerings "custom" (int (pos 2000)) o custom_choice))
select_exact_service_offering_fits_example =
    select_exact_service_offering_fits python offerings "custom" (int (pos 2000)) (pos 3) (pos 2048)
      custom_choice customized_selected

custom_root_disk_size_gib-IsRoot_example :
    (d : Disk) × IsRoot (eligible_disks storage) d
    × ((size : String) × (d.size ≡ text size) × (size_bytes (codes size) ≡ some (32 * gib)))
    × (1 ≤ 32)
    × (32 ≤ 2147483647)
custom_root_disk_size_gib-IsRoot_example =
    custom_root_disk_size_gib-IsRoot storage 32 boot_disk_size

abbrev network : String → Network
network id = record {
  device_id = id;
  mac = text "52:54:00:00:00:01";
  proxmox_bridge = text "vmbr0";
  proxmox_vlan = null;
  ip = null;
  cloudstack_network_id = text "net";
  cloudstack_network_name = text "Net";
  ip_allocation = some (text "external");
}

abbrev volume : String → Storage
volume device = record {
  device = device;
  volume = text "local:disk";
  storage = text "local";
  size = text "8G";
  boot_order = null;
}

networks_differ : Distinct device_of (map network_entry (network "0" ∷ network "1" ∷ []))
unfolding network_entry
networks_differ = ((λ h. ground arith, tt), (tt, tt))

volumes_differ : Distinct device_of (map storage_entry (volume "scsi1" ∷ volume "scsi0" ∷ []))
unfolding storage_entry
volumes_differ = ((λ h. ground arith, tt), (tt, tt))

build_adoption_manifest-Perm_example :
    build_adoption_manifest "pve" "pve1"
      (pos 100)
      "web"
      "running"
      (pos 2)
      (pos 2048)
      (network "0" ∷ network "1" ∷ [])
      (volume "scsi1" ∷ volume "scsi0" ∷ [])
    ≡ build_adoption_manifest "pve" "pve1"
        (pos 100)
        "web"
        "running"
        (pos 2)
        (pos 2048)
        (network "1" ∷ network "0" ∷ [])
        (volume "scsi0" ∷ volume "scsi1" ∷ [])
build_adoption_manifest-Perm_example =
    build_adoption_manifest-Perm "pve" "pve1" (pos 100) "web" "running" (pos 2) (pos 2048)
      (swap refl refl) (swap refl refl) networks_differ volumes_differ

first_network :
    build_adoption_manifest "pve" "pve1"
      (pos 100)
      "web"
      "running"
      (pos 2)
      (pos 2048)
      (network "1" ∷ network "0" ∷ [])
      []
    ≡ build_adoption_manifest "pve" "pve1"
        (pos 100)
        "web"
        "running"
        (pos 2)
        (pos 2048)
        (network "0" ∷ network "1" ∷ [])
        []
unfolding build_adoption_manifest by_device items_of network_entry storage_entry sorted insert
    text_leb
first_network = refl
