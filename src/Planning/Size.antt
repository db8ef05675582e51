-- ===== src/Planning/Size.antt =====
-- What the result of `custom_root_disk_size_gib` of adoption.py is the size of.
use proxmox_cloudstack_sync.Base.{
  ℕ, String, ◌≤◌, ◌*◌, ◌/◌, ◌%◌, ◌≡◌, refl, ap, subst, ◌∙◌, Bool, true, false, Option, none, some,
  List, [], ◌∷◌, All, arith, leb, ◌==◌, ◌&&◌, and-true, ◌⊎◌, inl, inr, filter, all, if◌then◌else◌,
  ==_iff, eq_of_some-eq,
}
use proxmox_cloudstack_sync.Json.{Json, null, bool, int, real, text, arr, obj, as_text, codes}
use proxmox_cloudstack_sync.Planning.Disk.{
  Disk, boots_at, first_position, only_disk, is_scsi, least_scsi, unordered_root, root_disk,
  eligible_disks, size_bytes, gib, whole_gib, custom_root_disk_size_gib, ◌>>=◌,
}
use proxmox_cloudstack_sync.Planning.Root.{
  BootsFrom, IsOnlyDisk, IsFirstScsi, first_position-none, first_position_least, only_passes,
  only_disk_lem, least_scsi_first,
}

-- The only disk with the least boot order.
pub record BootsFirst (ds : List Disk) (d : Disk) : Type 0 where
  pub order : ℕ
  pub holds : d.boot_order ≡ some order
  pub only : IsOnlyDisk (boots_at order) ds d
  pub least : All (BootsFrom order) ds

-- No disk has a boot order, and this one is alone, or all are SCSI disks and it is the first with
-- the least number.
pub record BootsUnordered (ds : List Disk) (d : Disk) : Type 0 where
  pub unordered : All (λ e. e.boot_order ≡ none) ds
  pub choice : (ds ≡ d ∷ []) ⊎ ((all is_scsi ds ≡ true) × IsFirstScsi ds d)

abbrev pub IsRoot : List Disk → Disk → Type 0
IsRoot ds d = BootsFirst ds d ⊎ BootsUnordered ds d

boots_at_lem : (n : ℕ) (d : Disk) → boots_at n d ≡ true → d.boot_order ≡ some n
boots_at_lem n d h = go d.boot_order h
  where
    go : (o : Option ℕ) → elim o [ none ↦ false | some m ↦ m == n ] ≡ true → o ≡ some n
    go none h = cc
    go (some m) h = ap some ((==_iff m n).0 h)

unordered_lem :
    (ds : List Disk) (d : Disk)
    → unordered_root ds ≡ some d
    → (ds ≡ d ∷ []) ⊎ ((all is_scsi ds ≡ true) × IsFirstScsi ds d)
unfolding unordered_root
unordered_lem [] d h = cc
unordered_lem (x ∷ []) d h = inl (ap (λ z. z ∷ []) (eq_of_some-eq h))
unordered_lem (x ∷ y ∷ ys) d h = scsi_cases (all is_scsi (x ∷ y ∷ ys)) refl h
  where
    scsi_cases :
        (b : Bool)
        → all is_scsi (x ∷ y ∷ ys) ≡ b
        → (if b then some (least_scsi x (y ∷ ys)) else none) ≡ some d
        → (x ∷ y ∷ ys ≡ d ∷ []) ⊎ ((all is_scsi (x ∷ y ∷ ys) ≡ true) × IsFirstScsi (x ∷ y ∷ ys) d)
    scsi_cases true e k =
        inr (e, subst (IsFirstScsi (x ∷ y ∷ ys)) (eq_of_some-eq k) (least_scsi_first x (y ∷ ys)))
    scsi_cases false e k = cc

root_disk-IsRoot : (ds : List Disk) (d : Disk) → root_disk ds ≡ some d → IsRoot ds d
unfolding root_disk
root_disk-IsRoot ds d h = by_position (first_position none ds) refl h
  where
    by_position :
        (n : Option ℕ)
        → first_position none ds ≡ n
        → elim n [ none ↦ unordered_root ds | some m ↦ only_disk (filter (boots_at m) ds) ] ≡ some d
        → IsRoot ds d
    by_position none e k =
        inr
          (record { unordered = (first_position-none none ds e).1; choice = unordered_lem ds d k })
    by_position (some n) e k =
        let only = only_passes (boots_at n) ds d (only_disk_lem (filter (boots_at n) ds) d k) in
        inl (record {
          order = n;
          holds = boots_at_lem n d only.passes;
          only = only;
          least = (first_position_least none ds n e).1;
        })

whole_gib_lem :
    (bytes g : ℕ) → whole_gib bytes ≡ some g → (bytes ≡ g * gib) × (1 ≤ g) × (g ≤ 2147483647)
unfolding whole_gib
whole_gib_lem bytes g h =
    tested (bytes % gib == 0 && (leb 1 (bytes / gib) && leb (bytes / gib) 2147483647)) refl h
  where
    tested :
        (t : Bool)
        → bytes % gib == 0 && (leb 1 (bytes / gib) && leb (bytes / gib) 2147483647) ≡ t
        → (if t then some (bytes / gib) else none) ≡ some g
        → (bytes ≡ g * gib) × (1 ≤ g) × (g ≤ 2147483647)
    tested false e k = cc
    tested true e k =
        let (whole, range) =
          and-true (bytes % gib == 0) (leb 1 (bytes / gib) && leb (bytes / gib) 2147483647) e in
        let (low, high) = and-true (leb 1 (bytes / gib)) (leb (bytes / gib) 2147483647) range in
        let even : bytes % gib ≡ 0 = (==_iff (bytes % gib) 0).0 whole in
        let quotient : bytes / gib ≡ g = eq_of_some-eq k in
        (omega (arith, even, quotient), ground arith, ground arith)

as_text_lem : (v : Json) (s : String) → as_text v ≡ some s → v ≡ text s
unfolding as_text
as_text_lem (text t) s h = cc
as_text_lem null s h = cc
as_text_lem (bool b) s h = cc
as_text_lem (int i) s h = cc
as_text_lem (real x t) s h = cc
as_text_lem (arr xs) s h = cc
as_text_lem (obj fs) s h = cc

bind_some :
    {A B : Type 0} (o : Option A) (f : A → Option B) (b : B)
    → o >>= f ≡ some b
    → (a : A) × (o ≡ some a) × (f a ≡ some b)
bind_some none f b h = cc
bind_some (some a) f b h = (a, refl, h)

-- A size that is returned is a whole number of GiB from 1 to 2147483647, and that of the text in
-- the size of the one disk that the guest boots from: the only one with the least boot order, or,
-- where no eligible disk has a boot order, the only one or the first SCSI disk with the least
-- number.
pub custom_root_disk_size_gib-IsRoot :
    (storage : List Json) (g : ℕ)
    → custom_root_disk_size_gib storage ≡ some g
    → (d : Disk) × IsRoot (eligible_disks storage) d
      × ((size : String) × (d.size ≡ text size) × (size_bytes (codes size) ≡ some (g * gib)))
      × (1 ≤ g)
      × (g ≤ 2147483647)
unfolding custom_root_disk_size_gib
custom_root_disk_size_gib-IsRoot storage g h =
    let (d, root, sized) = bind_some (root_disk (eligible_disks storage)) _ g h in
    let (size, is_text, counted) = bind_some (as_text d.size) _ g sized in
    let (bytes, scaled, whole) = bind_some (size_bytes (codes size)) _ g counted in
    let (product, low, high) = whole_gib_lem bytes g whole in
    (
      d,
      root_disk-IsRoot (eligible_disks storage) d root,
      (size, as_text_lem d.size size is_text, scaled ∙ ap some product),
      low,
      high,
    )
