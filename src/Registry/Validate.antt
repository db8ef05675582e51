-- ===== src/Registry/Validate.antt =====
-- adoption_registry.py: what each operation checks of its arguments before it reads the database.
use proxmox_cloudstack_sync.Base.{
  ℕ, String, Bool, true, false, ◌&&◌, Option, none, some, is_none, str_eq, holds_text,
  if◌then◌else◌,
}
use proxmox_cloudstack_sync.Json.{
  Json, Fields, arr, obj, as_text, as_fields, as_positive, get, has_key, equals_nat, is_normalized,
}
use proxmox_cloudstack_sync.Outcome.{Error, Outcome, ok, raised, claim_invalid, claim_not_found}
use proxmox_cloudstack_sync.Store.{Claim, Execution}

-- `str(uuid.UUID(s))`, the SHA-256 of a text in hexadecimal, `json.loads`, `json.dumps` with
-- sorted keys and no spaces, `json.dumps` with no spaces, `str` of a value that is no text, and
-- `ipaddress.ip_address` as its version being 4 and its text.
pub record Python : Type 0 where
  pub uuid_str : String → Option String
  pub sha256 : String → String
  pub loads : String → Option Json
  pub dumps : Json → String
  pub compact : Json → String
  pub str_of : Json → String
  pub ip_address : String → Option (Bool × String)

infixl 5 ◌>>=◌ ◌>>◌
abbrev pub ◌>>=◌ {ℓ κ} : {A : Type ℓ} {B : Type κ} → Outcome A → (A → Outcome B) → Outcome B
ok a >>= f = f a
raised e >>= f = raised e

abbrev pub ◌>>◌ {ℓ} : {B : Type ℓ} → Outcome (Unit {0}) → Outcome B → Outcome B
m >> k = m >>= λ _. k

abbrev pub check : Bool → Error → Outcome (Unit {0})
check true e = ok tt
check false e = raised e

abbrev pub require {ℓ} : {A : Type ℓ} → Option A → Error → Outcome A
require none e = raised e
require (some a) e = ok a

unfoldable pub normalized_text : Json → Outcome String
unfolding as_text
normalized_text value = do
  s ← require (as_text value) (claim_invalid "must be a nonempty normalized string")
  check (is_normalized s) (claim_invalid "must be a nonempty normalized string")
  ok s

unfoldable pub validated_generation : Json → Outcome ℕ
unfolding as_positive
validated_generation value =
    require (as_positive value) (claim_invalid "claim generation must be a positive integer")

module _ (py : Python) where
  -- `str(uuid.UUID(value))`, where what is no text or no UUID is refused
  unfoldable pub canonical_uuid : Json → String → Outcome String
  unfolding as_text
  canonical_uuid value message = do
    s ← require (as_text value) (claim_invalid message)
    require (py.uuid_str s) (claim_invalid message)

  -- the parsed manifest beside its canonical text
  unfoldable pub canonical_manifest : String → Outcome (String × Fields)
  unfolding as_fields
  canonical_manifest manifest_json = do
    parsed ← require (py.loads manifest_json) (claim_invalid "manifest_json is not valid JSON")
    fields ← require (as_fields parsed) (claim_invalid "manifest_json must contain an object")
    ok (py.dumps parsed, fields)

-- the arguments that name a claim and its CloudStack VM
pub record Request : Type 0 where
  pub claim_id : Json
  pub generation : Json
  pub proxmox_cluster : Json
  pub proxmox_node : Json
  pub proxmox_vmid : Json
  pub manifest_sha256 : String
  pub cloudstack_vm_ref : Json
  pub cloudstack_instance_name : Json

-- the same, validated; `proxmox_vmid` is only compared
pub record Identity : Type 0 where
  pub id : String
  pub generation : ℕ
  pub cluster : String
  pub node : String
  pub vmid : Json
  pub manifest_sha256 : String
  pub vm_ref : String
  pub instance_name : String

module _ (py : Python) where
  unfoldable pub validated_identity : Request → Outcome Identity
  unfolding canonical_uuid validated_generation normalized_text
  validated_identity r = do
    id ← canonical_uuid py r.claim_id "claim_id must be a UUID"
    generation ← validated_generation r.generation
    cluster ← normalized_text r.proxmox_cluster
    node ← normalized_text r.proxmox_node
    vm_ref ← normalized_text r.cloudstack_vm_ref
    instance_name ← normalized_text r.cloudstack_instance_name
    ok (record {
      id = id;
      generation = generation;
      cluster = cluster;
      node = node;
      vmid = r.proxmox_vmid;
      manifest_sha256 = r.manifest_sha256;
      vm_ref = vm_ref;
      instance_name = instance_name;
    })

unfoldable pub found_claim : Option Claim → Outcome Claim
found_claim none = raised (claim_not_found "claim does not exist")
found_claim (some c) = ok c

-- cluster, node, VMID and manifest are those of the claim
unfoldable pub same_guest : Identity → Claim → Bool
same_guest a c =
    str_eq c.proxmox_cluster a.cluster
    && str_eq c.proxmox_node a.node
    && equals_nat a.vmid c.proxmox_vmid
    && str_eq c.manifest_sha256 a.manifest_sha256

-- reference and instance name are those of the claim
unfoldable pub same_vm : Identity → Claim → Bool
unfolding holds_text
same_vm a c =
    holds_text c.cloudstack_vm_ref a.vm_ref && holds_text c.cloudstack_instance_name a.instance_name

module _ (py : Python) (plan_sha256 ip_overrides : Option String) where
  abbrev no_binding : Bool
  no_binding = is_none plan_sha256 && is_none ip_overrides

  unfoldable pub overrides_match : Execution → Json → Bool
  unfolding holds_text
  overrides_match e (arr items) =
      holds_text plan_sha256 e.plan_sha256 && holds_text ip_overrides (py.dumps (arr items))
  overrides_match e _ = false

  unfoldable pub plan_matches : Execution → Option Json → Bool
  unfolding overrides_match get has_key
  plan_matches e none = false
  plan_matches e (some (obj plan)) =
      if has_key "execution_time_ip_overrides" plan
      then overrides_match e (get "execution_time_ip_overrides" plan)
      else no_binding
  plan_matches e (some _) = no_binding

  -- A claim with no execution is bindable only if no evidence is given.
  unfoldable pub execution_callback_binding_matches : Option Execution → Bool
  unfolding plan_matches
  execution_callback_binding_matches none = no_binding
  execution_callback_binding_matches (some e) = plan_matches e (py.loads e.plan_json)
