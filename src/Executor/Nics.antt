-- ===== src/Executor/Nics.antt =====
-- `_vm_matches_plan` of adoption_executor.py: the NICs of a VM against the networks of the plan.
use proxmox_cloudstack_sync.Base.{
  ℕ, ◌-◌, String, Bool, true, false, ◌&&◌, ◌||◌, not, Option, none, some, List, [], ◌∷◌, length,
  find, any, all, leb, ◌==◌, if◌then◌else◌,
}
use proxmox_cloudstack_sync.Json.{
  pos, Json, int, text, arr, obj, Fields, end, get, has_key, as_text, as_fields, equals_text, codes,
  same_codes,
}
use proxmox_cloudstack_sync.Json.Equal.{
  json_eq, truthy, is_null, as_list, item_list, field_at, subscript,
}
use proxmox_cloudstack_sync.Outcome.{Outcome, ok, raised, type_error, attribute_error}
use proxmox_cloudstack_sync.Registry.Validate.{Python, ◌>>=◌, ◌>>◌, check, require}
use proxmox_cloudstack_sync.Executor.Values.{index_numeral, device_number}

-- the capital of an ASCII character
unfoldable pub upper : ℕ → ℕ
upper c = if leb 97 c && leb c 122 then c - 32 else c

-- The capitals of a text, on ASCII characters; of the others only U+FB00, whose capitals are FF,
-- has capitals that are all hexadecimal digits.
unfoldable pub upper_codes : List ℕ → List ℕ
unfolding upper
upper_codes [] = []
upper_codes (c ∷ cs) =
    let rest = upper_codes cs in if c == 64256 then 70 ∷ 70 ∷ rest else upper c ∷ rest

-- what a `for` over the value of "networks" runs through; an item that is a text has no fields
unfoldable pub iterated : Json → Outcome (List Json)
unfolding item_list
iterated (arr xs) = ok (item_list xs)
iterated (text s) = if truthy (text s) then raised type_error else ok []
iterated (obj end) = ok []
iterated _ = raised type_error

-- the key of a NIC in the dictionaries, and the value beside it
pub record Nic : Type 0 where
  pub device : Json
  pub network : Json
  pub mac : List ℕ
  pub fields : Fields

unfoldable pub is_hashable : Json → Bool
is_hashable (arr xs) = false
is_hashable (obj fs) = false
is_hashable _ = true

unfoldable pub same_nic : Nic → Nic → Bool
unfolding json_eq same_codes
same_nic m n = json_eq m.device n.device && (json_eq m.network n.network && same_codes m.mac n.mac)

unfoldable pub expected_nic : Json → Outcome Nic
unfolding subscript as_text as_fields upper_codes is_hashable
expected_nic item = do
  device ← subscript "device_id" item
  network ← subscript "network_id" item
  raw ← subscript "mac" item
  mac ← require (as_text raw) attribute_error
  check (is_hashable device && is_hashable network) type_error
  fields ← require (as_fields item) type_error
  ok (record { device = device; network = network; mac = upper_codes (codes mac); fields = fields })

unfoldable pub expected_nics : List Json → Outcome (List Nic)
unfolding expected_nic
expected_nics [] = ok []
expected_nics (item ∷ items) = do
  nic ← expected_nic item
  rest ← expected_nics items
  ok (nic ∷ rest)

-- `len(expected_nics) == len(deployment["networks"])`: no two have the same key
unfoldable pub all_distinct : List Nic → Bool
unfolding same_nic
all_distinct [] = true
all_distinct (n ∷ ns) = not (any (same_nic n) ns) && all_distinct ns

-- the device number of an observed NIC
unfoldable pub observed_device : Json → Option ℕ
unfolding device_number index_numeral
observed_device (text s) = index_numeral (codes s)
observed_device v = device_number v

unfoldable pub is_blank : Json → Bool
unfolding is_null equals_text
is_blank v = is_null v || equals_text v ""

unfoldable pub allocation : Fields → Json
unfolding get has_key
allocation fs = if has_key "ip_allocation" fs then get "ip_allocation" fs else text "cloudstack"

unfoldable pub same_keys : List Nic → List Nic → Bool
unfolding same_nic
same_keys actual expected =
    (length actual == length expected) && all (λ n. any (same_nic n) actual) expected

unfoldable pub all_fields : List Json → Option (List Fields)
unfolding as_fields
all_fields [] = some []
all_fields (x ∷ xs) = elim (as_fields x) [
  | none ↦ none
  | some fs ↦ elim (all_fields xs) [ none ↦ none | some rest ↦ some (fs ∷ rest) ]
]

-- `vm.get("nic") or []`, a list of objects
unfoldable pub nic_list : Json → Option (List Fields)
unfolding all_fields as_list truthy
nic_list v =
    if truthy v then elim (as_list v) [ none ↦ none | some xs ↦ all_fields xs ] else some []

module _ (py : Python) where
  -- `str(value or "")`
  unfoldable pub text_or_empty : Json → String
  unfolding truthy as_text
  text_or_empty v = if truthy v then elim (as_text v) [ some s ↦ s | none ↦ py.str_of v ] else ""

  unfoldable pub observed_nic : ℕ → Fields → Nic
  unfolding text_or_empty upper_codes get
  observed_nic device item = record {
    device = int (pos device);
    network = get "networkid" item;
    mac = upper_codes (codes (text_or_empty (get "macaddress" item)));
    fields = item;
  }

  -- The NICs, in the order that is given; a NIC without a device number, or whose key is there,
  -- makes the answer False, which is `none` here.
  unfoldable pub observed_nics : List Nic → List Fields → Outcome (Option (List Nic))
  unfolding observed_device observed_nic is_hashable same_nic get
  observed_nics seen [] = ok (some seen)
  observed_nics seen (item ∷ items) = elim (observed_device (get "deviceid" item)) [
    | none ↦ ok none
    | some device ↦
        let nic = observed_nic device item in
        let rest = observed_nics (nic ∷ seen) items in
        if is_hashable nic.network
        then (if any (same_nic nic) seen then ok none else rest)
        else raised type_error
  ]

  -- an IPv4 address in its canonical form
  unfoldable pub is_ipv4 : String → Bool
  unfolding same_codes
  is_ipv4 s = elim (py.ip_address s) [
    | none ↦ false
    | some (v4, t) ↦ v4 && same_codes (codes t) (codes s)
  ]

  -- the address of an observed NIC against the network of the plan
  unfoldable pub ip_matches : Fields → Json → Outcome Bool
  unfolding allocation is_ipv4 is_blank is_null equals_text json_eq as_text field_at get
  ip_matches expected actual =
      if equals_text (allocation expected) "cloudstack"
      then (if is_null (get "ip" expected)
          then ok (elim (as_text actual) [ none ↦ false | some s ↦ is_ipv4 s ])
          else ok (json_eq actual (get "ip" expected)))
      else if equals_text (get "ip_allocation" expected) "dhcp"
      then ok (is_null (get "ip" expected) && is_blank actual)
      else (do ip ← field_at "ip" expected; ok (is_blank actual || json_eq actual ip))

  unfoldable pub ips_match : List Nic → List Nic → Outcome Bool
  unfolding ip_matches same_nic find get
  ips_match actual [] = ok true
  ips_match actual (n ∷ ns) = elim (find (same_nic n) actual) [
    | none ↦ ok false
    | some a ↦ do
      matched ← ip_matches n.fields (get "ipaddress" a.fields)
      rest ← (if matched then ips_match actual ns else ok false)
      ok rest
  ]

  unfoldable pub compared_nics : List Nic → Option (List Nic) → Outcome Bool
  unfolding same_keys ips_match
  compared_nics expected none = ok false
  compared_nics expected (some actual) =
      if same_keys actual expected then ips_match actual expected else ok false

  unfoldable pub nics_match : Fields → Fields → Outcome Bool
  unfolding nic_list field_at iterated expected_nics all_distinct observed_nics compared_nics get
  nics_match vm deployment = elim (nic_list (get "nic" vm)) [
    | none ↦ ok false
    | some observed ↦ do
      networks ← field_at "networks" deployment
      items ← iterated networks
      expected ← expected_nics items
      actual ← (if all_distinct expected then observed_nics [] observed else ok none)
      compared_nics expected actual
  ]
