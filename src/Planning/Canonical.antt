-- ===== src/Planning/Canonical.antt =====
-- The manifest of adoption.py and the order in which the parts of a guest are listed.
use mathlib.Core.List.{Permᴰ}
use mathlib.Core.List.Permᴰ
use proxmox_cloudstack_sync.Base.{String, ◌≡◌, refl, ap, List, map, Distinct, sorted-Perm}
use proxmox_cloudstack_sync.Json.{ℤ, arr}
use proxmox_cloudstack_sync.Planning.Manifest.{
  Network, Storage, Entry, device_of, network_entry, storage_entry, items_of, by_device,
  build_adoption_manifest,
}

by_device-Perm :
    {xs ys : List Entry} → Permᴰ xs ys → Distinct device_of xs → by_device xs ≡ by_device ys
unfolding by_device
by_device-Perm q d = ap (λ es. arr (items_of es)) (sorted-Perm device_of q d)

-- The manifest is the same in whatever order the networks and the disks are listed, if no two
-- networks and no two disks have the same device.
pub build_adoption_manifest-Perm :
    (cluster node : String) (vmid : ℤ) (name status : String) (cpus memory_mb : ℤ)
    {networks networks' : List Network} {storage storage' : List Storage}
    → Permᴰ networks networks'
    → Permᴰ storage storage'
    → Distinct device_of (map network_entry networks)
    → Distinct device_of (map storage_entry storage)
    → build_adoption_manifest cluster node vmid name status cpus memory_mb networks storage
      ≡ build_adoption_manifest cluster node vmid name status cpus memory_mb networks' storage'
unfolding build_adoption_manifest
build_adoption_manifest-Perm cluster node vmid name status cpus memory_mb {networks} {networks'}
      {storage} {storage'} p q d e =
    rw (by_device-Perm (Permᴰ.map network_entry p) d, by_device-Perm (Permᴰ.map storage_entry q) e)
      refl
