-- ===== src/Executor/Values.antt =====
-- adoption_executor.py: numbers and texts in a plan and in the answers of CloudStack:
-- `_customized_cpu_speed_mhz`, `_cloudstack_positive_int`, `_custom_root_disk_size_gib`,
-- `_job_status`, `_required_string` and the device of a network.
use proxmox_cloudstack_sync.Base.{
  ℕ, String, Bool, true, false, ◌&&◌, Option, none, some, List, [], ◌∷◌, leb, ◌==◌, if◌then◌else◌,
}
use proxmox_cloudstack_sync.Json.{
  Json, int, pos, bool, text, Fields, get, has_key, as_text, as_fields, as_positive, is_normalized,
  codes,
}
use proxmox_cloudstack_sync.Json.Equal.{is_null, is_true, is_false, as_list}
use proxmox_cloudstack_sync.Outcome.{Outcome, ok, raised, execution_invalid}
use proxmox_cloudstack_sync.Registry.Validate.{Python, ◌>>=◌, ◌>>◌, check, require}
use proxmox_cloudstack_sync.Planning.Text.{after_prefix, all_digits, numeral}
use proxmox_cloudstack_sync.Planning.Disk.{custom_root_disk_size_gib}

-- an integer from 1 to 2147483647 that is no bool
unfoldable pub signed_positive : Json → Option ℕ
signed_positive (int (pos n)) = if leb 1 n && leb n 2147483647 then some n else none
signed_positive _ = none

unfoldable pub customized_cpu_speed_mhz : Fields → Bool → Outcome ℕ
unfolding signed_positive get has_key
customized_cpu_speed_mhz deployment allow_legacy_missing =
    if has_key "cpu_speed_mhz" deployment
    then require (signed_positive (get "cpu_speed_mhz" deployment))
        (execution_invalid "invalid customized CPU speed")
    else if allow_legacy_missing
    then ok 1200
    else raised (execution_invalid "invalid customized CPU speed")

-- `[1-9][0-9]*`
unfoldable pub positive_numeral : List ℕ → Option ℕ
unfolding all_digits numeral
positive_numeral [] = none
positive_numeral (c ∷ cs) =
    if leb 49 c && (leb c 57 && all_digits cs) then some (numeral 0 (c ∷ cs)) else none

-- `0|[1-9][0-9]*`
unfoldable pub index_numeral : List ℕ → Option ℕ
unfolding positive_numeral
index_numeral [] = none
index_numeral (c ∷ []) = if c == 48 then some 0 else positive_numeral (c ∷ [])
index_numeral (c ∷ d ∷ cs) = positive_numeral (c ∷ d ∷ cs)

unfoldable pub cloudstack_positive_int : Json → Option ℕ
unfolding as_positive positive_numeral
cloudstack_positive_int (text s) = positive_numeral (codes s)
cloudstack_positive_int value = as_positive value

unfoldable pub required_string : Json → String → Outcome String
unfolding as_text
required_string value message = do
  s ← require (as_text value) (execution_invalid message)
  check (is_normalized s) (execution_invalid message)
  ok s

-- the integer value of a device number
unfoldable pub device_number : Json → Option ℕ
device_number (int (pos n)) = some n
device_number _ = none

abbrev pub or_else {ℓ} : {A : Type ℓ} → Option A → Option A → Option A
or_else none b = b
or_else (some a) b = some a

abbrev pub net_device : Option String → Option ℕ
unfolding after_prefix index_numeral
net_device none = none
net_device (some device) = elim (after_prefix (codes "net") (codes device)) [
  | none ↦ none
  | some digits ↦ index_numeral digits
]

-- `_manifest_network_device_id`
unfoldable pub manifest_network_device_id : Json → Option ℕ
unfolding net_device device_number as_fields as_text get
manifest_network_device_id network = elim (as_fields network) [
  | none ↦ none
  | some fs ↦ or_else (net_device (as_text (get "device" fs))) (device_number (get "device_id" fs))
]

unfoldable pub job_status : Fields → Outcome ℕ
unfolding get
job_status result = elim (get "jobstatus" result) [
  | int (pos n) ↦
      if leb n 2 then ok n else raised (execution_invalid "invalid CloudStack async job status")
  | _ ↦ raised (execution_invalid "invalid CloudStack async job status")
]

module _ (py : Python) where
  -- the manifest of a plan that was made before the contract on the root disk
  unfoldable pub legacy_storage : Fields → Outcome (List Json)
  unfolding as_fields as_text as_list get
  legacy_storage deployment = do
    details ←
        require (as_fields (get "external_details" deployment))
          (execution_invalid "legacy root disk manifest is missing")
    manifest_json ←
        require (as_text (get "adopt_manifest_json" details))
          (execution_invalid "legacy root disk manifest is missing")
    manifest ←
        require (py.loads manifest_json) (execution_invalid "legacy root disk manifest is invalid")
    fields ← require (as_fields manifest) (execution_invalid "legacy root disk storage is invalid")
    require (as_list (get "storage" fields))
        (execution_invalid "legacy root disk storage is invalid")

  unfoldable pub legacy_root_disk : Fields → Bool → Outcome (Option ℕ)
  unfolding legacy_storage is_true is_false get
  legacy_root_disk deployment false =
      raised (execution_invalid "root disk size contract is missing")
  legacy_root_disk deployment true =
      if is_false (get "service_offering_customized" deployment) then ok none else do
        check (is_true (get "service_offering_customized" deployment))
            (execution_invalid "legacy root disk contract is invalid")
        storage ← legacy_storage deployment
        size ←
            require (custom_root_disk_size_gib storage)
              (execution_invalid "legacy root disk size is ambiguous")
        ok (some size)

  -- `_custom_root_disk_size_gib`
  unfoldable pub root_disk_size_gib : Fields → Bool → Outcome (Option ℕ)
  unfolding legacy_root_disk signed_positive is_null get has_key
  root_disk_size_gib deployment allow_legacy_missing =
      if has_key "root_disk_size_customized" deployment
      then elim (get "root_disk_size_customized" deployment) [
        | bool false ↦ do
          check (is_null (get "root_disk_size_gib" deployment))
              (execution_invalid "fixed root disk has a custom size")
          ok none
        | bool true ↦ do
          size ←
              require (signed_positive (get "root_disk_size_gib" deployment))
                (execution_invalid "custom root disk size is invalid")
          ok (some size)
        | _ ↦ raised (execution_invalid "root disk size contract is invalid")
      ]
      else legacy_root_disk deployment allow_legacy_missing
