-- ===== src/Executor/Networks.antt =====
-- `validate_execution_plan` of adoption_executor.py: the networks of the plan against those of the
-- manifest of the claim.
use Prim.Native.Char.{Char, code}
use proxmox_cloudstack_sync.Base.{
  ℕ, zero, suc, String, Bool, true, false, ◌&&◌, ◌||◌, not, Option, none, some, List, [], ◌∷◌, any,
  leb, ◌==◌, is_none, str_eq, find, if◌then◌else◌,
}
use proxmox_cloudstack_sync.Json.{
  Json, null, text, Items, nil, cons, Fields, obj, get, has_key, as_text, as_fields, equals_nat,
  equals_text, codes, same_codes,
}
use proxmox_cloudstack_sync.Json.Equal.{is_null, is_true}
use proxmox_cloudstack_sync.Outcome.{Outcome, ok, raised, execution_invalid}
use proxmox_cloudstack_sync.Registry.Validate.{Python, ◌>>=◌, ◌>>◌, check, require}
use proxmox_cloudstack_sync.Executor.State.{executor_uuid}
use proxmox_cloudstack_sync.Executor.Values.{required_string, manifest_network_device_id}
use proxmox_cloudstack_sync.Executor.Nics.{upper_codes, allocation}
use proxmox_cloudstack_sync.Executor.Match.{put}
use proxmox_cloudstack_sync.Executor.Overrides.{
  Allocation, cloudstack, dhcp, external, valid_allocation, Override,
}

abbrev upper_digit : Char → Char
upper_digit c =
    if code c == 97
    then "A"
    else if code c == 98
    then "B"
    else if code c == 99
    then "C"
    else if code c == 100
    then "D"
    else if code c == 101
    then "E"
    else if code c == 102
    then "F"
    else c

-- `value.upper()`, as far as a MAC needs it: a text is no MAC, in capitals or not, if it has any
-- other character with capitals than a to f and U+FB00, whose capitals are FF.
unfoldable pub upper_hex : String → String
upper_hex String.[] = String.[]
upper_hex (String.◌∷◌ c s) =
    let rest = upper_hex s in
    if code c == 64256
    then String.◌∷◌ "F" (String.◌∷◌ "F" rest)
    else String.◌∷◌ (upper_digit c) rest

unfoldable pub is_hex : ℕ → Bool
is_hex c = (leb 48 c && leb c 57) || (leb 65 c && leb c 70)

-- the pairs after the first, `n` of them: `(?::[0-9A-F]{2}){n}`
unfoldable pub mac_rest : ℕ → List ℕ → Bool
unfolding is_hex
mac_rest zero [] = true
mac_rest (suc n) (colon ∷ a ∷ b ∷ cs) = (colon == 58) && (is_hex a && (is_hex b && mac_rest n cs))
mac_rest _ _ = false

-- `[0-9A-F]{2}(?::[0-9A-F]{2}){5}`
unfoldable pub is_mac : List ℕ → Bool
unfolding is_hex mac_rest
is_mac (a ∷ b ∷ cs) = is_hex a && (is_hex b && mac_rest 5 cs)
is_mac _ = false

abbrev pub allocation_text : Allocation → String
allocation_text cloudstack = "cloudstack"
allocation_text dhcp = "dhcp"
allocation_text external = "external"

-- a network of the plan, validated
pub record Planned : Type 0 where
  pub network_id : String
  pub mac : String
  pub kind : Allocation
  pub ip : Option String

-- the address as the kind of allocation allows it
unfoldable pub planned_ip : Allocation → Json → Outcome (Option String)
unfolding is_null required_string
planned_ip kind raw =
    if is_null raw
    then elim kind [
      | external ↦ raised (execution_invalid "external network IP is missing")
      | _ ↦ ok none
    ]
    else elim kind [
      | dhcp ↦ raised (execution_invalid "DHCP network cannot carry an IP")
      | _ ↦ do s ← required_string raw "invalid network IP"; ok (some s)
    ]

module _ (py : Python) where
  unfoldable pub check_ip : Option String → Outcome (Unit {0})
  check_ip none = ok tt
  check_ip (some s) = elim (py.ip_address s) [
    | none ↦ raised (execution_invalid "invalid network IP")
    | some (v4, t) ↦ check v4 (execution_invalid "only IPv4 adoption networks are supported")
  ]

  unfoldable pub planned_network : ℕ → Fields → Outcome Planned
  unfolding equals_nat executor_uuid required_string upper_hex allocation valid_allocation
      planned_ip is_mac check_ip get
  planned_network index network = do
    check (equals_nat (get "device_id" network) index)
        (execution_invalid "network devices must be contiguous and ordered")
    network_id ← executor_uuid py (get "network_id" network)
    mac ← required_string (get "mac" network) "invalid network MAC"
    kind ← valid_allocation "invalid network IP allocation mode" (allocation network)
    ip ← planned_ip kind (get "ip" network)
    check (is_mac (codes (upper_hex mac))) (execution_invalid "invalid network MAC")
    check_ip ip
    ok (record { network_id = network_id; mac = upper_hex mac; kind = kind; ip = ip })

abbrev pub same_ip : Option String → Option String → Bool
same_ip none none = true
same_ip (some s) (some t) = str_eq s t
same_ip _ _ = false

-- `overrides.get(index)`
unfoldable pub override_ip : ℕ → List Override → Option String
unfolding find
override_ip index overrides = elim (find (λ o. o.device_id == index) overrides) [
  | none ↦ none
  | some o ↦ some o.ip
]

-- the address that the manifest gives, or leaves open
unfoldable pub ip_agrees : ℕ → List Override → Planned → Fields → Bool
unfolding override_ip allocation equals_text is_null is_true as_text get
ip_agrees index overrides p manifest =
    if is_null (get "ip" manifest)
    then elim p.kind [
      | external ↦
          is_true (get "ip_override_required" manifest)
          && same_ip (override_ip index overrides) p.ip
      | cloudstack ↦
          is_null (get "ip_override_required" manifest)
          && (equals_text (allocation manifest) "cloudstack" && is_none p.ip)
      | dhcp ↦
          is_null (get "ip_override_required" manifest)
          && (equals_text (allocation manifest) "dhcp" && is_none p.ip)
    ]
    else elim p.ip [ none ↦ false | some s ↦ equals_text (get "ip" manifest) s ]

module _ (py : Python) where
  -- `str(manifest_network.get("mac", "")).upper()`
  unfoldable pub manifest_mac : Fields → List ℕ
  unfolding as_text upper_codes has_key get
  manifest_mac manifest =
      if has_key "mac" manifest
      then elim (as_text (get "mac" manifest)) [
        | some s ↦ upper_codes (codes s)
        | none ↦ upper_codes (codes (py.str_of (get "mac" manifest)))
      ]
      else []

  unfoldable pub agrees : ℕ → List Override → Planned → Json → Bool
  unfolding manifest_network_device_id as_fields manifest_mac ip_agrees equals_text same_codes get
  agrees index overrides p item = elim (as_fields item) [
    | none ↦ false
    | some manifest ↦ elim (manifest_network_device_id item) [
      | none ↦ false
      | some device ↦
          (device == index)
          && (equals_text (get "cloudstack_network_id" manifest) p.network_id
              && (same_codes (manifest_mac manifest) (codes p.mac)
                  && ip_agrees index overrides p manifest))
    ]
  ]

-- the network as the plan holds it afterwards
unfoldable pub normalized : Planned → Fields → Fields
unfolding put
normalized p network = put "ip_allocation" (text (allocation_text p.kind)) (
    put "ip" (elim p.ip [ none ↦ null | some s ↦ text s ])
      (put "mac" (text p.mac) (put "network_id" (text p.network_id) network)))

abbrev pub holds_name : String → List String → Bool
holds_name s = any (λ t. str_eq t s)

module _ (py : Python) (overrides : List Override) where
  -- The networks from `index` on, the seen identifiers and MACs, and the networks of the manifest
  -- from `index` on.
  unfoldable pub planned_networks :
      ℕ → List String → List String → List Json → List Json → Outcome Items
  unfolding as_fields planned_network agrees normalized
  planned_networks index ids macs [] manifest = ok nil
  planned_networks index ids macs (item ∷ items) [] =
      raised (execution_invalid "claim manifest networks do not match execution plan")
  planned_networks index ids macs (item ∷ items) (m ∷ manifest) = do
    network ← require (as_fields item) (execution_invalid "invalid network plan")
    p ← planned_network py index network
    check (agrees py index overrides p m)
        (execution_invalid "execution network identity does not match claim manifest")
    check (not (holds_name p.network_id ids || holds_name p.mac macs))
        (execution_invalid "duplicate network identity")
    rest ← planned_networks (suc index) (p.network_id ∷ ids) (p.mac ∷ macs) items manifest
    ok (cons (obj (normalized p network)) rest)
