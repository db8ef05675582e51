-- ===== src/Executor/Params.antt =====
-- `_deploy_params` of adoption_executor.py: the arguments of the deployment call, by their names.
use Prim.Native.String.{◌++◌ as joined}
use proxmox_cloudstack_sync.Base.{
  ℕ, suc, String, Bool, true, false, ◌&&◌, not, Option, none, some, List, [], ◌∷◌, ◌++◌,
  if◌then◌else◌,
}
use proxmox_cloudstack_sync.Json.{
  Json, int, pos, text, Fields, end, field, get, has_key, as_fields, as_text, equals_text,
}
use proxmox_cloudstack_sync.Json.Equal.{truthy, is_null, field_at, subscript}
use proxmox_cloudstack_sync.Outcome.{Outcome, ok, attribute_error, type_error}
use proxmox_cloudstack_sync.Store.{Execution}
use proxmox_cloudstack_sync.Registry.Validate.{Python, ◌>>=◌, require}
use proxmox_cloudstack_sync.Executor.Values.{customized_cpu_speed_mhz, root_disk_size_gib}
use proxmox_cloudstack_sync.Executor.Nics.{iterated, allocation}

abbrev pub Params : Type 0
Params = List (String × Json)

module _ (py : Python) where
  -- `str(value)`
  unfoldable pub str : Json → Json
  unfolding as_text
  str v = elim (as_text v) [ some s ↦ text s | none ↦ text (py.str_of v) ]

  abbrev pub str_nat : ℕ → Json
  str_nat n = text (py.str_of (int (pos n)))

  unfoldable pub customized_params : Fields → Bool → Outcome Params
  unfolding str field_at customized_cpu_speed_mhz
  customized_params deployment false = ok []
  customized_params deployment true = do
    cpus ← field_at "cpus" deployment
    speed ← customized_cpu_speed_mhz deployment true
    memory ← field_at "memory_mib" deployment
    ok (
        ("details[0].cpuNumber", str cpus)
        ∷ ("details[0].cpuSpeed", str_nat speed)
        ∷ ("details[0].memory", str memory)
        ∷ [])

  abbrev pub root_disk_params : Option ℕ → Params
  root_disk_params none = []
  root_disk_params (some n) = ("rootdisksize", str_nat n) ∷ []

  abbrev pub network_key : ℕ → String → String
  network_key index name =
      joined "iptonetworklist[" (joined (py.str_of (int (pos index))) (joined "]." name))

  -- the address is given only where CloudStack is to assign it
  unfoldable pub network_params : ℕ → Json → Outcome Params
  unfolding subscript as_fields allocation equals_text is_null get
  network_params index network = do
    network_id ← subscript "network_id" network
    fields ← require (as_fields network) type_error
    mac ← subscript "mac" network
    let ip =
        if equals_text (allocation fields) "cloudstack" && not (is_null (get "ip" fields))
        then (network_key index "ip", get "ip" fields) ∷ []
        else []
    ok ((network_key index "networkid", network_id) ∷ ip ++ (network_key index "mac", mac) ∷ [])

  unfoldable pub networks_params : ℕ → List Json → Outcome Params
  unfolding network_params
  networks_params index [] = ok []
  networks_params index (network ∷ networks) = do
    first ← network_params index network
    rest ← networks_params (suc index) networks
    ok (first ++ rest)

  abbrev pub detail_params : Fields → Params
  detail_params end = []
  detail_params (field k v fs) = (joined "externaldetails[0]." k, v) ∷ detail_params fs

  unfoldable pub override_params : Execution → Json → Params
  unfolding as_fields has_key get
  override_params e plan = elim (as_fields plan) [
    | none ↦ []
    | some fs ↦
        if has_key "execution_time_ip_overrides" fs
        then ("externaldetails[0].adopt_execution_plan_sha256", text e.plan_sha256)
          ∷ (
            "externaldetails[0].adopt_ip_overrides_json",
            text (py.compact (get "execution_time_ip_overrides" fs)),
          )
          ∷ []
        else []
  ]

  -- The parameters are a dictionary: their order has no meaning, and no key is twice.
  unfoldable pub deploy_params : Execution → Json → Outcome Params
  unfolding subscript as_fields field_at truthy customized_params root_disk_size_gib iterated
      networks_params override_params
  deploy_params e plan = do
    raw ← subscript "deployment" plan
    deployment ← require (as_fields raw) type_error
    zone ← field_at "zone_id" deployment
    offering ← field_at "service_offering_id" deployment
    template ← field_at "template_id" deployment
    host ← field_at "host_id" deployment
    account ← field_at "account" deployment
    domain ← field_at "domain_id" deployment
    name ← field_at "name" deployment
    display ← field_at "display_name" deployment
    kind ← field_at "service_offering_customized" deployment
    customized ← customized_params deployment (truthy kind)
    size ← root_disk_size_gib py deployment true
    raw_networks ← field_at "networks" deployment
    networks ← iterated raw_networks
    interfaces ← networks_params 0 networks
    raw_details ← field_at "external_details" deployment
    details ← require (as_fields raw_details) attribute_error
    ok (
        ("customid", text e.id)
          ∷ ("zoneid", zone)
          ∷ ("serviceofferingid", offering)
          ∷ ("templateid", template)
          ∷ ("hostid", host)
          ∷ ("account", account)
          ∷ ("domainid", domain)
          ∷ ("name", name)
          ∷ ("displayname", display)
          ∷ ("startvm", text "false")
          ∷ customized
        ++ root_disk_params size
        ++ interfaces
        ++ detail_params details
        ++ override_params e plan)
