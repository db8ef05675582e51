-- ===== src/Planning/Offering.antt =====
-- `select_exact_service_offering` of adoption.py and its helpers.
use proxmox_cloudstack_sync.Base.{
  ℕ, suc, String, Bool, true, false, ◌&&◌, ◌||◌, not, Option, none, some, List, [], ◌∷◌, leb, ◌==◌,
  str_eq, holds_text, if◌then◌else◌,
}
use proxmox_cloudstack_sync.Json.{
  ℤ, pos, Json, bool, int, text, arr, obj, Fields, get, has_key, as_text, equals_nat, equals_text,
}
use proxmox_cloudstack_sync.Outcome.{Outcome, ok, raised, type_error}
use proxmox_cloudstack_sync.Registry.Validate.{Python}
use proxmox_cloudstack_sync.Planning.Text.{lower_equals}

unfoldable pub means_customized : Json → Bool
unfolding lower_equals
means_customized (bool b) = b
means_customized (text s) = lower_equals s "true"
means_customized _ = false

unfoldable pub is_customized : Fields → Bool
unfolding means_customized get
is_customized o = means_customized (get "iscustomized" o)

-- Membership in a set hashes the value, which raises TypeError on a list and on a dictionary.
unfoldable pub is_active_state : Json → Option Bool
unfolding equals_text
is_active_state (arr items) = none
is_active_state (obj fields) = none
is_active_state v = some (equals_text v "Active" || equals_text v "Enabled")

unfoldable pub is_active_offering : Fields → Option Bool
unfolding is_active_state get
is_active_offering o = is_active_state (get "state" o)

-- `isinstance(offering.get(key), str) and offering.get(key)`
unfoldable pub has_name : String → Fields → Bool
unfolding as_text get
has_name key o = elim (as_text (get key o)) [ none ↦ false | some s ↦ not (str_eq s "") ]

-- `test and state and rest`, where the state may raise
unfoldable pub and_active : Bool → Option Bool → Bool → Option Bool
and_active false state rest = some false
and_active true none rest = none
and_active true (some active) rest = some (active && rest)

unfoldable pub is_exact_static : ℕ → ℕ → Fields → Option Bool
unfolding is_customized has_name and_active is_active_offering equals_nat
is_exact_static cpus memory o =
    and_active (not (is_customized o) && (has_name "id" o && has_name "name" o))
      (is_active_offering o)
      (equals_nat (get "cpunumber" o) cpus && equals_nat (get "memory" o) memory)

unfoldable pub is_configured : String → Fields → Option Bool
unfolding is_customized has_name and_active is_active_offering equals_text
is_configured id o =
    and_active (equals_text (get "id" o) id && has_name "name" o) (is_active_offering o)
      (is_customized o)

abbrev pub add_matching : Fields → Bool → Option (List Fields) → Option (List Fields)
add_matching o true (some rest) = some (o ∷ rest)
add_matching o false (some rest) = some rest
add_matching o _ none = none

-- A list comprehension with a test that may raise.
unfoldable pub matching : (Fields → Option Bool) → List Fields → Option (List Fields)
matching p [] = some []
matching p (o ∷ os) =
    let rest = matching p os in elim (p o) [ none ↦ none | some b ↦ add_matching o b rest ]

unfoldable pub int_is_zero : Json → Option Bool
int_is_zero (int (pos n)) = some (n == 0)
int_is_zero _ = none

pub record Details : Type 0 where
  pub cpu_number : ℕ
  pub cpu_speed : ℕ
  pub memory : ℕ

pub record ServiceOffering : Type 0 where
  pub id : Json
  pub name : Json
  pub customized : Bool
  pub root_disk_size_customized : Bool
  pub details : Option Details
  pub cpus : ℕ
  pub memory_mb : ℕ

-- the pair of an offering and no blocker, or of None and one blocker
pub data Choice : Type 0 where
  chosen : ServiceOffering → Choice
  blocked : String → Choice

-- a count greater than 0
unfoldable pub positive : ℤ → Option ℕ
positive (pos (suc n)) = some (suc n)
positive _ = none

unfoldable pub valid_speed : Json → Option ℕ
valid_speed (int (pos n)) = if leb 1 n && leb n 2147483647 then some n else none
valid_speed _ = none

module _ (py : Python) where
  unfoldable pub custom_root_disk_size : Json → Json → Option Bool
  unfolding as_text holds_text int_is_zero
  custom_root_disk_size disk_offering_id root_disk_size = elim (as_text disk_offering_id) [
    | none ↦ none
    | some s ↦ if holds_text (py.uuid_str s) s then int_is_zero root_disk_size else none
  ]

  -- The two keys come together or not at all.
  unfoldable pub custom_root_disk_required : Fields → Option Bool
  unfolding custom_root_disk_size get has_key
  custom_root_disk_required o =
      if not (has_key "diskofferingid" o) && not (has_key "rootdisksize" o)
      then some false
      else if not (has_key "diskofferingid" o) || not (has_key "rootdisksize" o)
      then none
      else custom_root_disk_size (get "diskofferingid" o) (get "rootdisksize" o)

  module _ (cpus memory : ℕ) where
    unfoldable pub choose : Bool → Option Details → Fields → Choice
    unfolding custom_root_disk_required
    choose customized details o = elim (custom_root_disk_required o) [
      | none ↦ blocked "service_offering_root_disk_contract_invalid"
      | some required ↦ chosen (record {
        id = get "id" o;
        name = get "name" o;
        customized = customized;
        root_disk_size_customized = required;
        details = details;
        cpus = cpus;
        memory_mb = memory;
      })
    ]

    unfoldable pub with_speed : Option ℕ → Fields → Choice
    unfolding choose
    with_speed none o = blocked "customized_service_offering_cpu_speed_invalid"
    with_speed (some speed) o =
        choose true (some (record { cpu_number = cpus; cpu_speed = speed; memory = memory })) o

    -- the offerings with the configured identifier; None is a raised TypeError
    unfoldable pub select_customized : Json → Option (List Fields) → Outcome Choice
    unfolding with_speed valid_speed
    select_customized speed none = raised type_error
    select_customized speed (some (o ∷ [])) = ok (with_speed (valid_speed speed) o)
    select_customized speed (some _) = ok (blocked "service_offering_exact_match_unavailable")

    unfoldable pub select_static : Option (List Fields) → Outcome Choice → Outcome Choice
    unfolding choose
    select_static none customized = raised type_error
    select_static (some []) customized = customized
    select_static (some (o ∷ [])) customized = ok (choose false none o)
    select_static (some (o ∷ _ ∷ _)) customized =
        ok (blocked "service_offering_exact_static_ambiguous")

  module _ (offerings : List Fields) (customized_offering_id : String)
      (customized_cpu_speed_mhz : Json) where
    unfoldable pub select_offering : ℕ → ℕ → Outcome Choice
    unfolding select_static select_customized matching is_exact_static is_configured
    select_offering cpus memory =
        select_static cpus memory (matching (is_exact_static cpus memory) offerings) (
          select_customized cpus memory customized_cpu_speed_mhz
            (matching (is_configured customized_offering_id) offerings))

    abbrev pub select_positive : Option ℕ → Option ℕ → Outcome Choice
    unfolding select_offering
    select_positive (some cpus) (some memory) = select_offering cpus memory
    select_positive _ _ = ok (blocked "proxmox_cpu_memory_invalid")

    unfoldable pub select_exact_service_offering : ℤ → ℤ → Outcome Choice
    unfolding select_positive positive
    select_exact_service_offering cpus memory = select_positive (positive cpus) (positive memory)
