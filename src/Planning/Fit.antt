-- ===== src/Planning/Fit.antt =====
-- What a service offering that is selected has to do with the offerings of CloudStack.
use proxmox_cloudstack_sync.Base.{
  ℕ, zero, suc, ◌≤◌, String, ◌≡◌, refl, sym, ap, Bool, true, false, Option, none, some, List, [],
  ◌∷◌, All, arith, and-true, not, subst, ◌∙◌, ◌⊎◌, inl, inr,
}
use proxmox_cloudstack_sync.Json.{
  ℤ, pos, negsuc, Json, int, null, bool, real, text, arr, obj, Fields, get, equals_nat, equals_text,
}
use proxmox_cloudstack_sync.Outcome.{ok}
use proxmox_cloudstack_sync.Registry.Validate.{Python}
use proxmox_cloudstack_sync.Planning.Offering.{
  chosen, blocked, ServiceOffering, Details, matching, positive, valid_speed, choose, with_speed,
  is_customized, is_active_offering, and_active, is_exact_static, is_configured, select_static,
  select_customized, select_offering, select_positive, custom_root_disk_required,
  select_exact_service_offering,
}
use proxmox_cloudstack_sync.Planning.Only.{Fails, IsOnly, matching-Fails, matching-IsOnly}

-- The name, identifier and root disk contract of the result are those of the offering.
pub record Copies (py : Python) (o : Fields) (s : ServiceOffering) : Type 0 where
  pub id : s.id ≡ get "id" o
  pub name : s.name ≡ get "name" o
  pub root_disk : custom_root_disk_required py o ≡ some s.root_disk_size_customized

-- The offering itself says that it is active, of fixed size, and has these processors and this
-- memory in megabytes.
pub record HasNumbers (cpus memory : ℕ) (o : Fields) : Type 0 where
  pub fixed : is_customized o ≡ false
  pub active : is_active_offering o ≡ some true
  pub cpu : equals_nat (get "cpunumber" o) cpus ≡ true
  pub megabytes : equals_nat (get "memory" o) memory ≡ true

-- The offering itself says that it is active, customized, and has the configured identifier.
pub record IsConfigured (id : String) (o : Fields) : Type 0 where
  pub customized : is_customized o ≡ true
  pub active : is_active_offering o ≡ some true
  pub identifier : equals_text (get "id" o) id ≡ true

and_active-true :
    (test : Bool) (state : Option Bool) (rest : Bool)
    → and_active test state rest ≡ some true
    → (test ≡ true) × (state ≡ some true) × (rest ≡ true)
unfolding and_active
and_active-true false state rest h = cc
and_active-true true none rest h = cc
and_active-true true (some false) rest h = cc
and_active-true true (some true) rest h = (refl, refl, cc)

is_exact_static-HasNumbers :
    (cpus memory : ℕ) (o : Fields)
    → is_exact_static cpus memory o ≡ some true
    → HasNumbers cpus memory o
unfolding is_exact_static
is_exact_static-HasNumbers cpus memory o h =
    let (test, active, numbers) = and_active-true _ _ _ h in
    let (cpu, megabytes) =
      and-true (equals_nat (get "cpunumber" o) cpus) (equals_nat (get "memory" o) memory) numbers in
    let (fixed, _) = and-true (not (is_customized o)) _ test in
    record { fixed = ground (arith, fixed); active = active; cpu = cpu; megabytes = megabytes }

is_configured-IsConfigured :
    (id : String) (o : Fields) → is_configured id o ≡ some true → IsConfigured id o
unfolding is_configured
is_configured-IsConfigured id o h =
    let (test, active, customized) = and_active-true _ _ _ h in
    let (identifier, _) = and-true (equals_text (get "id" o) id) _ test in
    record { customized = customized; active = active; identifier = identifier }

-- The only offering of fixed size with these processors and this memory.
pub record FitsStatic (offerings : List Fields) (o : Fields) (s : ServiceOffering) : Type 0 where
  pub kind : s.customized ≡ false
  pub details : s.details ≡ none
  pub numbers : HasNumbers s.cpus s.memory_mb o
  pub only : IsOnly (is_exact_static s.cpus s.memory_mb) offerings o

-- The only offering with the configured identifier, where none of fixed size fits.
pub record FitsCustomized (offerings : List Fields) (id : String) (speed : Json) (o : Fields)
    (s : ServiceOffering) : Type 0 where
  pub kind : s.customized ≡ true
  pub configured : IsConfigured id o
  pub no_static : All (Fails (is_exact_static s.cpus s.memory_mb)) offerings
  pub only : IsOnly (is_configured id) offerings o
  pub mhz : ℕ
  pub given : speed ≡ int (pos mhz)
  pub lower : 1 ≤ mhz
  pub upper : mhz ≤ 2147483647
  pub details :
      s.details ≡ some (record { cpu_number = s.cpus; cpu_speed = mhz; memory = s.memory_mb })

-- The size in the result is the size asked for.
pub record HasSize (cpus memory : ℤ) (s : ServiceOffering) : Type 0 where
  pub cpus_same : cpus ≡ pos s.cpus
  pub memory_same : memory ≡ pos s.memory_mb
  pub some_cpus : 1 ≤ s.cpus
  pub some_memory : 1 ≤ s.memory_mb

valid_speed_lem :
    (speed : Json) (n : ℕ)
    → valid_speed speed ≡ some n
    → (speed ≡ int (pos n)) × (1 ≤ n) × (n ≤ 2147483647)
unfolding valid_speed
valid_speed_lem (int (pos k)) n h = ground arith
valid_speed_lem (int (negsuc k)) n h = cc
valid_speed_lem null n h = cc
valid_speed_lem (bool b) n h = cc
valid_speed_lem (real x s) n h = cc
valid_speed_lem (text s) n h = cc
valid_speed_lem (arr x) n h = cc
valid_speed_lem (obj x) n h = cc

positive_lem : (z : ℤ) (n : ℕ) → positive z ≡ some n → (z ≡ pos n) × (1 ≤ n)
unfolding positive
positive_lem (pos zero) n h = cc
positive_lem (pos (suc k)) n h = ground arith
positive_lem (negsuc k) n h = cc

module _ (py : Python) (cpus memory : ℕ) where
  -- the result that the code builds from an offering
  abbrev built : Bool → Option Details → Fields → Bool → ServiceOffering
  built customized details o required = record {
    id = get "id" o;
    name = get "name" o;
    customized = customized;
    root_disk_size_customized = required;
    details = details;
    cpus = cpus;
    memory_mb = memory;
  }

  choose_lem :
      (customized : Bool) (details : Option Details) (o : Fields) (s : ServiceOffering)
      → choose py cpus memory customized details o ≡ chosen s
      → (required : Bool) × (custom_root_disk_required py o ≡ some required)
        × (built customized details o required ≡ s)
  unfolding choose
  choose_lem customized details o s h = required_cases (custom_root_disk_required py o) refl h
    where
      required_cases :
          (r : Option Bool)
          → custom_root_disk_required py o ≡ r
          → elim r [
            | none ↦ blocked "service_offering_root_disk_contract_invalid"
            | some required ↦ chosen (built customized details o required)
          ]
            ≡ chosen s
          → (required : Bool) × (custom_root_disk_required py o ≡ some required)
            × (built customized details o required ≡ s)
      required_cases none e k = cc
      required_cases (some b) e k = (b, e, cc)

  module _ (offerings : List Fields) (id : String) (speed : Json) where
    abbrev Fits : ServiceOffering → Type 0
    Fits s =
        (o : Fields) × Copies py o s
        × (FitsStatic offerings o s ⊎ FitsCustomized offerings id speed o s)
        × (s.cpus ≡ cpus)
        × (s.memory_mb ≡ memory)

    static_Fits :
        (o : Fields) (s : ServiceOffering)
        → matching (is_exact_static cpus memory) offerings ≡ some (o ∷ [])
        → choose py cpus memory false none o ≡ chosen s
        → Fits s
    static_Fits o s e h =
        let (required, contract, same) = choose_lem false none o s h in
        subst Fits same (
          o,
          record { id = refl; name = refl; root_disk = contract },
          inl (record {
            kind = refl;
            details = refl;
            numbers =
                is_exact_static-HasNumbers cpus memory o (matching-IsOnly _ offerings o e).passes;
            only = matching-IsOnly _ offerings o e;
          }),
          refl,
          refl,
        )

    customized_Fits :
        (o : Fields) (s : ServiceOffering)
        → matching (is_exact_static cpus memory) offerings ≡ some []
        → matching (is_configured id) offerings ≡ some (o ∷ [])
        → (n : Option ℕ) → valid_speed speed ≡ n
        → with_speed py cpus memory n o ≡ chosen s
        → Fits s
    unfolding with_speed
    customized_Fits o s e f none v h = cc
    customized_Fits o s e f (some n) v h =
        let (required, contract, same) = choose_lem true _ o s h in
        let (given, lower, upper) = valid_speed_lem speed n v in
        subst Fits same (
          o,
          record { id = refl; name = refl; root_disk = contract },
          inr (record {
            kind = refl;
            configured = is_configured-IsConfigured id o (matching-IsOnly _ offerings o f).passes;
            no_static = matching-Fails _ offerings e;
            only = matching-IsOnly _ offerings o f;
            mhz = n;
            given = given;
            lower = lower;
            upper = upper;
            details = refl;
          }),
          refl,
          refl,
        )

    select_customized-Fits :
        (s : ServiceOffering)
        → matching (is_exact_static cpus memory) offerings ≡ some []
        → (xs : Option (List Fields)) → matching (is_configured id) offerings ≡ xs
        → select_customized py cpus memory speed xs ≡ ok (chosen s)
        → Fits s
    unfolding select_customized
    select_customized-Fits s e none f h = cc
    select_customized-Fits s e (some []) f h = cc
    select_customized-Fits s e (some (o ∷ [])) f h =
        customized_Fits o s e f (valid_speed speed) refl cc
    select_customized-Fits s e (some (o ∷ _ ∷ _)) f h = cc

    select_static-Fits :
        (s : ServiceOffering) (xs : Option (List Fields))
        → matching (is_exact_static cpus memory) offerings ≡ xs
        → select_static py cpus memory xs
            (select_customized py cpus memory speed (matching (is_configured id) offerings))
          ≡ ok (chosen s)
        → Fits s
    unfolding select_static
    select_static-Fits s none e h = cc
    select_static-Fits s (some []) e h = select_customized-Fits s e _ refl h
    select_static-Fits s (some (o ∷ [])) e h = static_Fits o s e cc
    select_static-Fits s (some (o ∷ _ ∷ _)) e h = cc

module _ (py : Python) (offerings : List Fields) (id : String) (speed : Json) where
  -- A service offering that is selected has the processors and the memory that were asked for, both
  -- greater than 0, and copies one listed offering whose root disk contract is valid: either the
  -- only one that passes the test for a fixed size, and then this offering is active, is not
  -- customized, and its own numbers of processors and of megabytes are those asked for; or, where
  -- none passes that test, the only one with the configured identifier, which is active and
  -- customized, with a speed from 1 to 2147483647 in the details of the result.
  pub select_exact_service_offering_fits :
      (cpus memory : ℤ) (s : ServiceOffering)
      → select_exact_service_offering py offerings id speed cpus memory ≡ ok (chosen s)
      → HasSize cpus memory s
        × ((o : Fields) × Copies py o s
            × (FitsStatic offerings o s ⊎ FitsCustomized offerings id speed o s))
  unfolding select_exact_service_offering select_offering
  select_exact_service_offering_fits cpus memory s h =
      both (positive cpus) (positive memory) refl refl h
    where
      both :
          (n m : Option ℕ)
          → positive cpus ≡ n
          → positive memory ≡ m
          → select_positive py offerings id speed n m ≡ ok (chosen s)
          → HasSize cpus memory s
            × ((o : Fields) × Copies py o s
                × (FitsStatic offerings o s ⊎ FitsCustomized offerings id speed o s))
      both none m e f k = cc
      both (some n) none e f k = cc
      both (some n) (some m) e f k =
          let (o, copy, kind, same_cpus, same_memory) =
            select_static-Fits py n m offerings id speed s
              (matching (is_exact_static n m) offerings) refl k in
          let (c, some_cpus) = positive_lem cpus n e in
          let (d, some_memory) = positive_lem memory m f in
          (
            record {
              cpus_same = c ∙ ap pos (sym same_cpus);
              memory_same = d ∙ ap pos (sym same_memory);
              some_cpus = omega (arith, some_cpus, same_cpus);
              some_memory = omega (arith, some_memory, same_memory);
            },
            (o, copy, kind),
          )
