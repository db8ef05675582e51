-- ===== src/Executor/Match.antt =====
-- `_vm_matches_plan` of adoption_executor.py: whether a VM of CloudStack is the one of the plan.
use Prim.Native.String.{◌++◌ as joined}
use proxmox_cloudstack_sync.Base.{
  ℕ, String, Bool, true, false, ◌&&◌, not, Option, none, some, [], ◌∷◌, ◌==◌, filter, all, is_some,
  str_eq, if◌then◌else◌,
}
use proxmox_cloudstack_sync.Json.{
  Json, text, Fields, end, field, get, has_key, as_text, as_fields, equals_nat, equals_text,
}
use proxmox_cloudstack_sync.Json.Equal.{json_eq, truthy, is_null, field_at, subscript}
use proxmox_cloudstack_sync.Outcome.{Outcome, ok, raised, type_error, value_error}
use proxmox_cloudstack_sync.Store.{Execution}
use proxmox_cloudstack_sync.Registry.Validate.{Python, ◌>>=◌, require}
use proxmox_cloudstack_sync.Ownership.Validate.{Ownership, validated_manifest_ownership}
use proxmox_cloudstack_sync.Executor.State.{executor_uuid}
use proxmox_cloudstack_sync.Executor.Values.{customized_cpu_speed_mhz, cloudstack_positive_int}
use proxmox_cloudstack_sync.Executor.Nics.{is_blank, nics_match}

-- A `try` block whose errors are all caught, and answered by False.
abbrev pub settled {ℓ} : {A : Type ℓ} → Outcome A → Option A
settled (ok a) = some a
settled (raised e) = none

-- the deployment of the plan, its owner by the manifest, and its domain
pub record Owned : Type 0 where
  pub deployment : Fields
  pub details : Fields
  pub ownership : Option Ownership
  pub domain_id : String

-- `d[k] = v`
unfoldable pub put : String → Json → Fields → Fields
put k v end = field k v end
put k v (field j u fs) = if str_eq j k then field j v fs else field j u (put k v fs)

unfoldable pub owner_matches : Owned → Bool
unfolding equals_text is_null get
owner_matches o = elim o.ownership [
  | none ↦
      equals_text (get "account" o.deployment) "admin" && is_null (get "project_id" o.deployment)
  | some m ↦
      equals_text (get "account" o.deployment) m.account
      && (str_eq o.domain_id m.domain_id && is_null (get "project_id" o.deployment))
]

-- the speed that a customized offering is to have, and none for another
unfoldable pub expected_speed : Fields → Bool → Option (Option ℕ)
unfolding customized_cpu_speed_mhz
expected_speed deployment false = some none
expected_speed deployment true = elim (settled (customized_cpu_speed_mhz deployment true)) [
  | none ↦ none
  | some n ↦ some (some n)
]

unfoldable pub host_matches : Fields → Fields → Outcome Bool
unfolding truthy equals_text json_eq field_at get
host_matches vm deployment =
    if not (truthy (get "hostid" vm)) && equals_text (get "state" vm) "Stopped"
    then ok true
    else (do host ← field_at "host_id" deployment; ok (json_eq (get "hostid" vm) host))

-- what CloudStack says of the processors, their speed and the memory
pub record Sizes : Type 0 where
  pub cpus : ℕ
  pub speed : Option ℕ
  pub memory : ℕ

unfoldable pub vm_sizes : Fields → Bool → Option Sizes
unfolding cloudstack_positive_int get
vm_sizes vm customized = elim (cloudstack_positive_int (get "cpunumber" vm)) [
  | none ↦ none
  | some cpus ↦ elim (cloudstack_positive_int (get "memory" vm)) [
    | none ↦ none
    | some memory ↦
        let speed = cloudstack_positive_int (get "cpuspeed" vm) in
        if customized
        then (if is_some speed
            then some (record { cpus = cpus; speed = speed; memory = memory })
            else none)
        else some (record { cpus = cpus; speed = none; memory = memory })
  ]
]

abbrev pub same_speed : Option ℕ → Option ℕ → Bool
same_speed none n = true
same_speed (some m) (some n) = m == n
same_speed (some m) none = false

unfoldable pub is_instance_name : Json → Bool
unfolding as_text
is_instance_name v = elim (as_text v) [ none ↦ false | some s ↦ not (str_eq s "") ]

-- the comparisons of the tuple that `any` runs through
unfoldable pub identity_matches : Fields → String → Fields → Bool → Option ℕ → Sizes → Outcome Bool
unfolding field_at equals_text equals_nat is_blank json_eq is_instance_name get
identity_matches vm id deployment host speed sizes = do
  offering ← field_at "service_offering_id" deployment
  template ← field_at "template_id" deployment
  account ← field_at "account" deployment
  domain ← field_at "domain_id" deployment
  name ← field_at "name" deployment
  display ← field_at "display_name" deployment
  cpus ← field_at "cpus" deployment
  memory ← field_at "memory_mib" deployment
  ok (
      equals_text (get "id" vm) id
      && (equals_text (get "hypervisor" vm) "External"
          && (host
              && (json_eq (get "serviceofferingid" vm) offering
                  && (json_eq (get "templateid" vm) template
                      && (json_eq (get "account" vm) account
                          && (json_eq (get "domainid" vm) domain
                              && (is_blank (get "projectid" vm)
                                  && (json_eq (get "name" vm) name
                                      && (json_eq (get "displayname" vm) display
                                          && (is_instance_name (get "instancename" vm)
                                              && (equals_nat cpus sizes.cpus
                                                  && (same_speed speed sizes.speed
                                                      && equals_nat memory sizes.memory)))))))))))))

module _ (details : Fields) where
  -- one expected detail against the keys under which CloudStack may show it
  unfoldable pub detail_matches : String → Json → Bool
  unfolding has_key get json_eq filter
  detail_matches k v =
      let shown =
        filter (λ c. has_key c details) (k ∷ joined "external." k ∷ joined "External:" k ∷ []) in
      elim shown [ [] ↦ false | c ∷ cs ↦ all (λ key. json_eq (get key details) v) (c ∷ cs) ]

  unfoldable pub details_match : Fields → Bool
  unfolding detail_matches
  details_match end = true
  details_match (field k v fs) = detail_matches k v && details_match fs

unfoldable pub sized_matches :
    Fields → Execution → Fields → Bool → Option ℕ → Option Sizes → Outcome Bool
unfolding identity_matches
sized_matches vm e deployment host speed none = ok false
sized_matches vm e deployment host speed (some sizes) =
    identity_matches vm e.id deployment host speed sizes

unfoldable pub shown_details : Fields → Option Fields → Bool
unfolding details_match
shown_details expected none = false
shown_details expected (some details) = details_match details expected

module _ (py : Python) where
  unfoldable pub plan_owner : Json → Outcome Owned
  unfolding subscript as_fields as_text validated_manifest_ownership executor_uuid get
  plan_owner deployment = do
    external ← subscript "external_details" deployment
    raw ← subscript "adopt_manifest_json" external
    manifest_json ← require (as_text raw) type_error
    manifest ← require (py.loads manifest_json) (value_error "JSONDecodeError")
    ownership ← validated_manifest_ownership py manifest
    fields ← require (as_fields deployment) type_error
    details ← require (as_fields external) type_error
    domain_id ← executor_uuid py (get "domain_id" fields)
    ok (record {
      deployment = fields;
      details = details;
      ownership = ownership;
      domain_id = domain_id;
    })

  -- the details of the deployment, and those of the overrides of the plan
  unfoldable pub expected_details : Execution → Json → Fields → Fields
  unfolding as_fields has_key get put
  expected_details e plan details = elim (as_fields plan) [
    | none ↦ details
    | some fs ↦
        if has_key "execution_time_ip_overrides" fs
        then put "adopt_ip_overrides_json"
            (text (py.compact (get "execution_time_ip_overrides" fs)))
            (put "adopt_execution_plan_sha256" (text e.plan_sha256) details)
        else details
  ]

  unfoldable pub shape_matches : Fields → Execution → Json → Bool → Owned → Outcome Bool
  unfolding field_at truthy expected_speed host_matches vm_sizes sized_matches expected_details
      shown_details as_fields nics_match get
  shape_matches vm e plan allow_network_mismatch o = do
    offering_kind ← field_at "service_offering_customized" o.deployment
    elim (expected_speed o.deployment (truthy offering_kind)) [
      | none ↦ ok false
      | some speed ↦ do
        host ← host_matches vm o.deployment
        identical ← sized_matches vm e o.deployment host speed (vm_sizes vm (truthy offering_kind))
        let detailed =
            shown_details (expected_details e plan o.details) (as_fields (get "details" vm))
        (if identical && detailed
            then (if allow_network_mismatch then ok true else nics_match py vm o.deployment)
            else ok false)
    ]

  unfoldable pub vm_matches_plan : Fields → Execution → Json → Bool → Outcome Bool
  unfolding subscript plan_owner owner_matches shape_matches
  vm_matches_plan vm e plan allow_network_mismatch = do
    deployment ← subscript "deployment" plan
    elim (settled (plan_owner deployment)) [
      | none ↦ ok false
      | some o ↦
          if owner_matches o then shape_matches vm e plan allow_network_mismatch o else ok false
    ]
