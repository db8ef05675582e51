-- ===== src/Planning/Disk.antt =====
-- `custom_root_disk_size_gib` of adoption.py: the size of the one root disk of a QEMU guest.
use proxmox_cloudstack_sync.Base.{
  ℕ, ◌+◌, ◌-◌, ◌*◌, ◌/◌, ◌%◌, ◌^◌, String, Bool, false, ◌&&◌, ◌||◌, not, Option, none, some, List,
  [], ◌∷◌, map, leb, ltb, ◌==◌, filter, all, if◌then◌else◌,
}
use proxmox_cloudstack_sync.Json.{
  pos, Json, int, Fields, get, as_text, as_fields, equals_text, codes,
}
use proxmox_cloudstack_sync.Planning.Text.{
  lower, after_prefix, starts_with, contains, is_digit, all_digits, numeral,
}

-- what the code reads of an eligible item; a boot order is there if it is an integer from 0 on
pub record Disk : Type 0 where
  pub device : List ℕ
  pub boot_order : Option ℕ
  pub size : Json

-- a bus and a number with at least one digit
unfoldable pub on_bus : String → List ℕ → Bool
unfolding after_prefix all_digits
on_bus bus cs = elim (after_prefix (codes bus) cs) [
  | none ↦ false
  | some [] ↦ false
  | some (d ∷ ds) ↦ all_digits (d ∷ ds)
]

-- `_QEMU_ROOT_DISK_RE.fullmatch`
unfoldable pub is_root_device : List ℕ → Bool
unfolding on_bus
is_root_device cs =
    on_bus "ide" cs || (on_bus "sata" cs || (on_bus "scsi" cs || on_bus "virtio" cs))

unfoldable pub valid_boot_order : Json → Option ℕ
valid_boot_order (int (pos n)) = some n
valid_boot_order _ = none

unfoldable pub is_cloudinit : String → Bool
unfolding lower contains
is_cloudinit volume = contains (codes "cloudinit") (map lower (codes volume))

abbrev pub eligible_fields : Fields → Option String → Option String → Option Disk
unfolding is_root_device is_cloudinit equals_text get valid_boot_order
eligible_fields item (some device) (some volume) =
    if is_root_device (codes device)
      && (not (is_cloudinit volume) && not (equals_text (get "media" item) "cdrom"))
    then some (record {
      device = codes device;
      boot_order = valid_boot_order (get "boot_order" item);
      size = get "size" item;
    })
    else none
eligible_fields item _ _ = none

-- the item, if it is a disk that the guest may boot from
unfoldable pub eligible_disk : Json → Option Disk
unfolding as_fields as_text get
eligible_disk item = elim (as_fields item) [
  | none ↦ none
  | some fields ↦
      eligible_fields fields (as_text (get "device" fields)) (as_text (get "volume" fields))
]

abbrev add_disk : Option Disk → List Disk → List Disk
add_disk none rest = rest
add_disk (some d) rest = d ∷ rest

unfoldable pub eligible_disks : List Json → List Disk
unfolding eligible_disk
eligible_disks [] = []
eligible_disks (item ∷ items) = add_disk (eligible_disk item) (eligible_disks items)

abbrev pub boots_at : ℕ → Disk → Bool
boots_at n d = elim d.boot_order [ none ↦ false | some m ↦ m == n ]

abbrev pub earlier : Option ℕ → Option ℕ → Option ℕ
earlier least none = least
earlier none (some n) = some n
earlier (some m) (some n) = if ltb n m then some n else some m

-- `min` of the boot orders of the disks that have one, and of the least one so far
unfoldable pub first_position : Option ℕ → List Disk → Option ℕ
first_position least [] = least
first_position least (d ∷ ds) = first_position (earlier least d.boot_order) ds

-- `int(item["device"][len("scsi"):])`
unfoldable pub scsi_number : Disk → ℕ
unfolding after_prefix numeral
scsi_number d = elim (after_prefix (codes "scsi") d.device) [
  | none ↦ 0
  | some digits ↦ numeral 0 digits
]

-- `min` with this key: the first of the disks with the least number
unfoldable pub least_scsi : Disk → List Disk → Disk
unfolding scsi_number
least_scsi d [] = d
least_scsi d (e ∷ es) =
    if ltb (scsi_number e) (scsi_number d) then least_scsi e es else least_scsi d es

abbrev pub only_disk : List Disk → Option Disk
only_disk (d ∷ []) = some d
only_disk _ = none

abbrev pub is_scsi : Disk → Bool
unfolding starts_with
is_scsi d = starts_with (codes "scsi") d.device

-- where no disk has a boot order
unfoldable pub unordered_root : List Disk → Option Disk
unfolding least_scsi
unordered_root [] = none
unordered_root (d ∷ []) = some d
unordered_root (d ∷ e ∷ es) =
    if all is_scsi (d ∷ e ∷ es) then some (least_scsi d (e ∷ es)) else none

unfoldable pub root_disk : List Disk → Option Disk
unfolding first_position filter unordered_root
root_disk ds = elim (first_position none ds) [
  | none ↦ unordered_root ds
  | some n ↦ only_disk (filter (boots_at n) ds)
]

-- `_SIZE_MULTIPLIERS`
unfoldable pub multiplier : ℕ → Option ℕ
multiplier c =
    if c == 75
    then some 1024
    else if c == 77
    then some (1024 ^ 2)
    else if c == 71
    then some (1024 ^ 3)
    else if c == 84
    then some (1024 ^ 4)
    else none

abbrev scaled : ℕ → Option ℕ → Option ℕ
scaled n none = none
scaled n (some m) = some (n * m)

-- the digits after the first, and the unit
unfoldable pub size_rest : ℕ → List ℕ → Option ℕ
unfolding is_digit multiplier
size_rest n [] = none
size_rest n (c ∷ cs) =
    let rest = size_rest (n * 10 + (c - 48)) cs in
    if is_digit c then rest else elim cs [ [] ↦ scaled n (multiplier c) | _ ∷ _ ↦ none ]

-- `_PROXMOX_SIZE_RE.fullmatch`, and the bytes that the match stands for
unfoldable pub size_bytes : List ℕ → Option ℕ
unfolding size_rest
size_bytes [] = none
size_bytes (c ∷ cs) = if leb 49 c && leb c 57 then size_rest (c - 48) cs else none

abbrev pub gib : ℕ
gib = 1024 ^ 3

unfoldable pub whole_gib : ℕ → Option ℕ
whole_gib bytes =
    if bytes % gib == 0 && (leb 1 (bytes / gib) && leb (bytes / gib) 2147483647)
    then some (bytes / gib)
    else none

infixl 5 ◌>>=◌
abbrev pub ◌>>=◌ {ℓ κ} : {A : Type ℓ} {B : Type κ} → Option A → (A → Option B) → Option B
none >>= f = none
some a >>= f = f a

unfoldable pub custom_root_disk_size_gib : List Json → Option ℕ
unfolding root_disk eligible_disks as_text size_bytes whole_gib
custom_root_disk_size_gib storage = do
  d ← root_disk (eligible_disks storage)
  size ← as_text d.size
  bytes ← size_bytes (codes size)
  whole_gib bytes
