-- ===== src/Executor/Overrides.antt =====
-- `_validated_execution_time_ip_overrides` of adoption_executor.py: addresses that the operator
-- gives for the NICs whose address the manifest leaves open.
use proxmox_cloudstack_sync.Base.{
  ℕ, String, Bool, true, false, ◌&&◌, not, List, [], ◌∷◌, any, all, leb, ◌==◌, str_eq,
  if◌then◌else◌,
}
use proxmox_cloudstack_sync.Json.{Json, Fields, get, has_key, as_text, as_fields, equals_text}
use proxmox_cloudstack_sync.Json.Equal.{is_null, is_true, as_list, field_count}
use proxmox_cloudstack_sync.Outcome.{Outcome, ok, raised, execution_invalid, type_error}
use proxmox_cloudstack_sync.Registry.Validate.{Python, ◌>>=◌, ◌>>◌, check, require}
use proxmox_cloudstack_sync.Executor.Values.{manifest_network_device_id, device_number}
use proxmox_cloudstack_sync.Executor.Nics.{allocation, is_hashable, is_ipv4}

pub data Allocation : Type 0 where
  cloudstack dhcp external : Allocation

-- `ip_allocation in {"cloudstack", "dhcp", "external"}`
unfoldable pub valid_allocation : String → Json → Outcome Allocation
unfolding equals_text is_hashable
valid_allocation message v =
    if equals_text v "cloudstack"
    then ok cloudstack
    else if equals_text v "dhcp"
    then ok dhcp
    else if equals_text v "external"
    then ok external
    else if is_hashable v
    then raised (execution_invalid message)
    else raised type_error

abbrev pub holds_nat : ℕ → List ℕ → Bool
holds_nat n = any (λ m. m == n)

-- whether the address of this network is to be given
unfoldable pub requires_override : Allocation → Fields → Outcome Bool
unfolding is_null is_true get
requires_override external network =
    if is_null (get "ip" network)
    then (do
      check (is_true (get "ip_override_required" network))
          (execution_invalid "unresolved manifest network lacks override flag")
      ok true)
    else (do
      check (is_null (get "ip_override_required" network))
          (execution_invalid "known manifest network cannot require an override")
      ok false)
requires_override dhcp network =
    if is_null (get "ip" network)
    then (do
      check (is_null (get "ip_override_required" network))
          (execution_invalid "DHCP network cannot require an override")
      ok false)
    else raised (execution_invalid "DHCP manifest network cannot carry an IP")
requires_override cloudstack network =
    if is_null (get "ip" network)
    then (do
      check (is_null (get "ip_override_required" network))
          (execution_invalid "DHCP network cannot require an override")
      ok false)
    else (do
      check (is_null (get "ip_override_required" network))
          (execution_invalid "known manifest network cannot require an override")
      ok false)

-- the devices whose address is to be given, among the networks after those seen
unfoldable pub required_devices : List ℕ → List Json → Outcome (List ℕ)
unfolding manifest_network_device_id as_fields valid_allocation allocation requires_override
required_devices seen [] = ok []
required_devices seen (item ∷ items) = do
  device ←
      require (manifest_network_device_id item)
        (execution_invalid "claim manifest network device is invalid")
  check (not (holds_nat device seen)) (execution_invalid "claim manifest network device is invalid")
  network ← require (as_fields item) (execution_invalid "claim manifest network device is invalid")
  kind ← valid_allocation "claim manifest network IP allocation is invalid" (allocation network)
  needed ← requires_override kind network
  rest ← required_devices (device ∷ seen) items
  ok (if needed then device ∷ rest else rest)

pub record Override : Type 0 where
  pub device_id : ℕ
  pub ip : String

-- `set(item) == {"device_id", "ip"}`
unfoldable pub has_override_keys : Fields → Bool
unfolding field_count has_key
has_override_keys fs = (field_count fs == 2) && (has_key "device_id" fs && has_key "ip" fs)

abbrev pub devices : List Override → List ℕ
devices [] = []
devices (o ∷ os) = o.device_id ∷ devices os

module _ (py : Python) where
  unfoldable pub valid_override : List ℕ → Json → Outcome Override
  unfolding as_fields has_override_keys device_number as_text is_ipv4 get
  valid_override seen item = do
    fields ←
        require (as_fields item) (execution_invalid "execution-time IP override schema is invalid")
    check (has_override_keys fields)
        (execution_invalid "execution-time IP override schema is invalid")
    device ←
        require (device_number (get "device_id" fields))
          (execution_invalid "execution-time IP override device is invalid")
    ip ←
        require (as_text (get "ip" fields))
          (execution_invalid "execution-time IP override is invalid")
    check (is_ipv4 py ip && not (holds_nat device seen))
        (execution_invalid "execution-time IP override is invalid")
    ok (record { device_id = device; ip = ip })

  unfoldable pub valid_overrides : List ℕ → List Json → Outcome (List Override)
  unfolding valid_override
  valid_overrides seen [] = ok []
  valid_overrides seen (item ∷ items) = do
    o ← valid_override seen item
    rest ← valid_overrides (o.device_id ∷ seen) items
    ok (o ∷ rest)

-- `sorted(canonical, key=lambda item: item["device_id"])`
unfoldable pub insert_override : Override → List Override → List Override
insert_override o [] = o ∷ []
insert_override o (p ∷ ps) =
    let rest = insert_override o ps in if leb o.device_id p.device_id then o ∷ p ∷ ps else p ∷ rest

unfoldable pub sort_overrides : List Override → List Override
unfolding insert_override
sort_overrides [] = []
sort_overrides (o ∷ os) = insert_override o (sort_overrides os)

-- The items that are given have been found to be those of the list.
unfoldable pub same_overrides : List Override → List Override → Bool
same_overrides [] [] = true
same_overrides (o ∷ os) (p ∷ ps) =
    (o.device_id == p.device_id) && (str_eq o.ip p.ip && same_overrides os ps)
same_overrides _ _ = false

-- equality of sets
unfoldable pub same_devices : List ℕ → List ℕ → Bool
same_devices ms ns = all (λ m. holds_nat m ns) ms && all (λ n. holds_nat n ms) ns

module _ (py : Python) where
  unfoldable pub given_overrides : List ℕ → Json → Outcome (List Override)
  unfolding as_list valid_overrides same_overrides sort_overrides same_devices
  given_overrides required raw = do
    items ← require (as_list raw) (execution_invalid "execution-time IP overrides are invalid")
    given ← valid_overrides py [] items
    check (same_overrides given (sort_overrides given))
        (execution_invalid "execution-time IP overrides are not canonically sorted")
    check (same_devices (devices given) required)
        (execution_invalid "execution-time IP overrides do not exactly cover manifest NICs")
    ok given

  -- no overrides, where none are required
  unfoldable pub no_overrides : List ℕ → Outcome (List Override)
  no_overrides [] = ok []
  no_overrides (n ∷ ns) = raised (execution_invalid "execution-time IP overrides are required")

  unfoldable pub validated_overrides : Fields → List Json → Outcome (List Override)
  unfolding required_devices given_overrides no_overrides has_key get
  validated_overrides plan manifest_networks = do
    required ← required_devices [] manifest_networks
    if has_key "execution_time_ip_overrides" plan
        then given_overrides required (get "execution_time_ip_overrides" plan)
        else no_overrides required
