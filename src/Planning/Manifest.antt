-- ===== src/Planning/Manifest.antt =====
-- `build_adoption_manifest`, `canonical_adoption_manifest_json` and `hash_adoption_manifest` of
-- adoption.py.
use Prim.Native.String.{◌++◌ as append}
use proxmox_cloudstack_sync.Base.{
  ℕ, String, Bool, true, false, ◌&&◌, Option, none, some, List, [], ◌∷◌, map, sorted, if◌then◌else◌,
}
use proxmox_cloudstack_sync.Json.{
  ℤ, Json, null, bool, int, text, arr, obj, Items, nil, Fields, end, field, equals_text, codes,
}
use proxmox_cloudstack_sync.Registry.Validate.{Python}

-- an item of `networks`, with its keys; `device_id` is the text that the f-string makes of it, and
-- `ip_allocation` may be missing
pub record Network : Type 0 where
  pub device_id : String
  pub mac : Json
  pub proxmox_bridge : Json
  pub proxmox_vlan : Json
  pub ip : Json
  pub cloudstack_network_id : Json
  pub cloudstack_network_name : Json
  pub ip_allocation : Option Json

-- an item of `storage`; a missing `boot_order` is None
pub record Storage : Type 0 where
  pub device : String
  pub volume : Json
  pub storage : Json
  pub size : Json
  pub boot_order : Json

-- what is sorted by its device
pub record Entry : Type 0 where
  pub device : String
  pub fields : Fields

abbrev pub device_of : Entry → List ℕ
device_of e = codes e.device

unfoldable pub allocation : Option Json → Json
allocation none = text "cloudstack"
allocation (some v) = v

unfoldable pub is_none_value : Json → Bool
is_none_value null = true
is_none_value _ = false

-- an address that is to be given later
unfoldable pub ip_override : Network → Fields
unfolding allocation is_none_value equals_text
ip_override n =
    if is_none_value n.ip && equals_text (allocation n.ip_allocation) "external"
    then field "ip_override_required" (bool true) end
    else end

unfoldable pub network_entry : Network → Entry
unfolding ip_override allocation
network_entry n = record {
  device = append "net" n.device_id;
  fields = field "device" (text (append "net" n.device_id)) (
      field "mac" n.mac (
        field "bridge" n.proxmox_bridge (
          field "tag" n.proxmox_vlan (
            field "ip" n.ip (
              field "cloudstack_network_id" n.cloudstack_network_id (
                field "cloudstack_network_name" n.cloudstack_network_name
                  (field "ip_allocation" (allocation n.ip_allocation) (ip_override n))))))));
}

unfoldable pub boot_order_field : Json → Fields
boot_order_field (int z) = field "boot_order" (int z) end
boot_order_field _ = end

unfoldable pub storage_entry : Storage → Entry
unfolding boot_order_field
storage_entry s = record {
  device = s.device;
  fields = field "device" (text s.device) (
      field "volume" s.volume
        (field "storage" s.storage (field "size" s.size (boot_order_field s.boot_order))));
}

unfoldable pub items_of : List Entry → Items
items_of [] = nil
items_of (e ∷ es) = Items.cons (obj e.fields) (items_of es)

-- `sorted(entries, key=lambda item: item["device"])`
unfoldable pub by_device : List Entry → Json
unfolding sorted items_of
by_device es = arr (items_of (sorted device_of es))

module _ (cluster node : String) (vmid : ℤ) (name status : String) (cpus memory_mb : ℤ) where
  unfoldable pub build_adoption_manifest : List Network → List Storage → Fields
  unfolding by_device network_entry storage_entry
  build_adoption_manifest networks storage =
      field "placement" (obj (field "cluster" (text cluster) (field "node" (text node) end))) (
        field "vmid" (int vmid) (
          field "name" (text name) (
            field "status" (text status) (
              field "cpus" (int cpus) (
                field "memory_mib" (int memory_mb) (
                  field "networks" (by_device (map network_entry networks))
                    (field "storage" (by_device (map storage_entry storage)) end)))))))

-- `json.dumps` with sorted keys and no spaces
unfoldable pub canonical_adoption_manifest_json : Python → Fields → String
canonical_adoption_manifest_json py manifest = py.dumps (obj manifest)

unfoldable pub hash_adoption_manifest : Python → Fields → String
unfolding canonical_adoption_manifest_json
hash_adoption_manifest py manifest = py.sha256 (canonical_adoption_manifest_json py manifest)
