-- ===== src/Registry/Target.antt =====
-- adoption_registry.py: what `reserve_claim` checks before it writes.
use proxmox_cloudstack_sync.Base.{ℕ, String, Bool, ◌&&◌, ◌||◌, all, length, leb, ◌==◌, str_eq}
use proxmox_cloudstack_sync.Json.{
  Json, Fields, as_text, as_fields, as_positive, get, or_empty, equals_nat, equals_text, codes,
}
use proxmox_cloudstack_sync.Outcome.{Outcome, ok, claim_invalid, attribute_error}
use proxmox_cloudstack_sync.Registry.Validate.{
  Python, normalized_text, canonical_manifest, require, check, ◌>>=◌, ◌>>◌,
}

pub record ReserveRequest : Type 0 where
  pub proxmox_cluster : Json
  pub proxmox_node : Json
  pub proxmox_vmid : Json
  pub manifest_json : String
  pub manifest_sha256 : Json

-- the validated request, with the canonical text of the manifest
pub record Target : Type 0 where
  pub cluster : String
  pub node : String
  pub vmid : ℕ
  pub manifest_sha256 : String
  pub canonical : String

is_hex_digit : ℕ → Bool
is_hex_digit c = (leb b'0' c && leb c b'9') || (leb b'a' c && leb c b'f')

-- 64 lowercase hexadecimal digits
unfoldable pub is_sha256 : String → Bool
unfolding is_hex_digit
is_sha256 s = length (codes s) == 64 && all is_hex_digit (codes s)

unfoldable pub names_target : Fields → Fields → Target → Bool
names_target manifest placement t =
    equals_text (get "cluster" placement) t.cluster
    && (equals_text (get "node" placement) t.node && equals_nat (get "vmid" manifest) t.vmid)

module _ (py : Python) where
  unfoldable pub validated_target : ReserveRequest → Outcome Target
  unfolding as_text as_positive as_fields normalized_text canonical_manifest is_sha256 names_target
  validated_target r = do
    cluster ← normalized_text r.proxmox_cluster
    node ← normalized_text r.proxmox_node
    vmid ←
        require (as_positive r.proxmox_vmid)
          (claim_invalid "proxmox_vmid must be a positive integer")
    sha ←
        require (as_text r.manifest_sha256)
          (claim_invalid "manifest_sha256 must be lowercase hexadecimal")
    check (is_sha256 sha) (claim_invalid "manifest_sha256 must be lowercase hexadecimal")
    (canonical, manifest) ← canonical_manifest py r.manifest_json
    check (str_eq (py.sha256 canonical) sha)
        (claim_invalid "manifest hash does not match canonical manifest")
    placement ← require (as_fields (or_empty (get "placement" manifest))) attribute_error
    let target : Target = record {
      cluster = cluster;
      node = node;
      vmid = vmid;
      manifest_sha256 = sha;
      canonical = canonical;
    }
    check (names_target manifest placement target)
        (claim_invalid "manifest identity does not match reservation identity")
    ok target
