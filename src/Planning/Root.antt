-- ===== src/Planning/Root.antt =====
-- Which disk `custom_root_disk_size_gib` of adoption.py takes the size from.
use proxmox_cloudstack_sync.Base.{
  ℕ, ◌≤◌, ◌<◌, ◌≡◌, refl, sym, ap, subst, eq_of_some-eq, ◌≢◌, ◌∙◌, Bool, true, false, Option, none,
  some, List, [], ◌∷◌, ◌++◌, All, arith, ltb, inl, inr, filter, Bool-cases, if◌then◌else◌,
}
use proxmox_cloudstack_sync.Planning.Disk.{
  Disk, first_position, earlier, scsi_number, least_scsi, only_disk,
}

-- the boot order of the disk, if it has one, is at least n; is greater than n
abbrev pub BootsFrom : ℕ → Disk → Type 0
BootsFrom n e = (m : ℕ) → e.boot_order ≡ some m → n ≤ m

abbrev pub BootsAfter : ℕ → Disk → Type 0
BootsAfter n e = (m : ℕ) → e.boot_order ≡ some m → n < m

earlier-none :
    (least order : Option ℕ) → earlier least order ≡ none → (least ≡ none) × (order ≡ none)
earlier-none none none h = (refl, refl)
earlier-none (some m) none h = cc
earlier-none none (some n) h = cc
earlier-none (some m) (some n) h = ground arith

earlier_least :
    (n : ℕ) (least order : Option ℕ)
    → ((k : ℕ) → earlier least order ≡ some k → n ≤ k)
    → ((k : ℕ) → least ≡ some k → n ≤ k) × ((k : ℕ) → order ≡ some k → n ≤ k)
earlier_least n least none h = (h, λ k e. cc)
earlier_least n none (some i) h = (λ k e. cc, h)
earlier_least n (some m) (some i) h = elim (Bool-cases (ltb i m)) [
  | inl b ↦
      let le : n ≤ i = h i (ap (λ t. if t then some i else some m) b) in
      (λ k e. ground arith, λ k e. ground arith)
  | inr b ↦
      let le : n ≤ m = h m (ap (λ t. if t then some i else some m) b) in
      (λ k e. ground arith, λ k e. ground arith)
]

pub first_position-none :
    (least : Option ℕ) (ds : List Disk)
    → first_position least ds ≡ none
    → (least ≡ none) × All (λ d. d.boot_order ≡ none) ds
unfolding first_position
first_position-none least [] h = (h, tt)
first_position-none least (d ∷ ds) h =
    let (here, rest) = first_position-none (earlier least d.boot_order) ds h in
    let (first, second) = earlier-none least d.boot_order here in (first, (second, rest))

pub first_position_least :
    (least : Option ℕ) (ds : List Disk) (n : ℕ)
    → first_position least ds ≡ some n
    → ((k : ℕ) → least ≡ some k → n ≤ k) × All (BootsFrom n) ds
unfolding first_position
first_position_least least [] n h = (λ k e. omega (arith, eq_of_some-eq (sym h ∙ e)), tt)
first_position_least least (d ∷ ds) n h =
    let (here, rest) = first_position_least (earlier least d.boot_order) ds n h in
    let (first, second) = earlier_least n least d.boot_order here in (first, (second, rest))

-- Of the disks only this one passes the test.
pub record IsOnlyDisk (p : Disk → Bool) (ds : List Disk) (d : Disk) : Type 0 where
  pub before : List Disk
  pub after : List Disk
  pub place : ds ≡ before ++ (d ∷ after)
  pub passes : p d ≡ true
  pub fail_before : All (λ e. p e ≡ false) before
  pub fail_after : All (λ e. p e ≡ false) after

module _ (p : Disk → Bool) where
  filter-pass : (d : Disk) (ds : List Disk) → p d ≡ true → filter p (d ∷ ds) ≡ d ∷ filter p ds
  unfolding filter
  filter-pass d ds e = rw (e, filter) refl

  filter-fail : (d : Disk) (ds : List Disk) → p d ≡ false → filter p (d ∷ ds) ≡ filter p ds
  unfolding filter
  filter-fail d ds e = rw (e, filter) refl

  none_pass : (ds : List Disk) → filter p ds ≡ [] → All (λ e. p e ≡ false) ds
  none_pass [] h = tt
  none_pass (d ∷ ds) h = elim (Bool-cases (p d)) [
    | inl e ↦ elim (not_empty (sym (filter-pass d ds e) ∙ h)) [ ]
    | inr e ↦ (e, none_pass ds (sym (filter-fail d ds e) ∙ h))
  ]
    where
      not_empty : {x : Disk} {xs : List Disk} → x ∷ xs ≢ []
      not_empty k = cc

  nothing : (x : Disk) → filter p [] ≢ x ∷ []
  unfolding filter
  nothing x k = cc

  pub only_passes : (ds : List Disk) (x : Disk) → filter p ds ≡ x ∷ [] → IsOnlyDisk p ds x
  only_passes [] x h = elim (nothing x h) [ ]
  only_passes (d ∷ ds) x h = elim (Bool-cases (p d)) [
    | inl e ↦
        let same : d ∷ filter p ds ≡ x ∷ [] = sym (filter-pass d ds e) ∙ h in
        let first : d ≡ x = cc in
        let rest : filter p ds ≡ [] = cc in
        record {
          before = [];
          after = ds;
          place = ap (λ z. z ∷ ds) first;
          passes = ap p (sym first) ∙ e;
          fail_before = tt;
          fail_after = none_pass ds rest;
        }
    | inr e ↦
        let i = only_passes ds x (sym (filter-fail d ds e) ∙ h) in
        record {
          before = d ∷ i.before;
          after = i.after;
          place = ap (λ z. d ∷ z) i.place;
          passes = i.passes;
          fail_before = (e, i.fail_before);
          fail_after = i.fail_after;
        }
  ]

pub only_disk_lem : (ds : List Disk) (x : Disk) → only_disk ds ≡ some x → ds ≡ x ∷ []
only_disk_lem [] x h = cc
only_disk_lem (d ∷ []) x h = cc
only_disk_lem (d ∷ _ ∷ _) x h = cc

-- The disk is the first in the list with the least SCSI number.
pub record IsFirstScsi (ds : List Disk) (d : Disk) : Type 0 where
  pub before : List Disk
  pub after : List Disk
  pub place : ds ≡ before ++ (d ∷ after)
  pub higher_before : All (λ e. scsi_number d < scsi_number e) before
  pub no_lower_after : All (λ e. scsi_number d ≤ scsi_number e) after

module _ (d x : Disk) where
  head_no_lower :
      (ds before after : List Disk)
      → d ∷ ds ≡ before ++ (x ∷ after)
      → All (λ e. scsi_number x < scsi_number e) before
      → scsi_number x ≤ scsi_number d
  head_no_lower ds [] after place f = let same : d ≡ x = cc in omega (arith, ap scsi_number same)
  head_no_lower ds (b ∷ before) after place f =
      let same : d ≡ b = cc in omega (arith, ap scsi_number same, f.0)

  -- A disk in the second place that is no lower than the first is passed over.
  pass_second :
      (e : Disk) (es before after : List Disk)
      → scsi_number d ≤ scsi_number e
      → d ∷ es ≡ before ++ (x ∷ after)
      → All (λ y. scsi_number x < scsi_number y) before
      → All (λ y. scsi_number x ≤ scsi_number y) after
      → IsFirstScsi (d ∷ e ∷ es) x
  pass_second e es [] after le place f g =
      let same : d ≡ x = cc in
      let rest : after ≡ es = cc in
      record {
        before = [];
        after = e ∷ es;
        place = ap (λ z. z ∷ e ∷ es) same;
        higher_before = tt;
        no_lower_after = (
          omega (arith, le, ap scsi_number same),
          subst (All (λ y. scsi_number x ≤ scsi_number y)) rest g,
        );
      }
  pass_second e es (b ∷ before) after le place f g =
      let same : d ≡ b = cc in
      let rest : es ≡ before ++ (x ∷ after) = cc in
      let lower : scsi_number x < scsi_number d = omega (arith, ap scsi_number same, f.0) in
      record {
        before = d ∷ e ∷ before;
        after = after;
        place = ap (λ z. d ∷ e ∷ z) rest;
        higher_before = (lower, (omega (arith, le, lower), f.1));
        no_lower_after = g;
      }

pub least_scsi_first : (d : Disk) (ds : List Disk) → IsFirstScsi (d ∷ ds) (least_scsi d ds)
unfolding least_scsi
least_scsi_first d [] = record {
  before = [];
  after = [];
  place = refl;
  higher_before = tt;
  no_lower_after = tt;
}
least_scsi_first d (e ∷ es) = elim (Bool-cases (ltb (scsi_number e) (scsi_number d))) [
  | inl b ↦
      let i = least_scsi_first e es in
      let le = head_no_lower e (least_scsi e es) es i.before i.after i.place i.higher_before in
      subst (λ t. IsFirstScsi (d ∷ e ∷ es) (if t then least_scsi e es else least_scsi d es)) (sym b)
        (record {
          before = d ∷ i.before;
          after = i.after;
          place = ap (λ z. d ∷ z) i.place;
          higher_before = (ground arith, i.higher_before);
          no_lower_after = i.no_lower_after;
        })
  | inr b ↦
      let i = least_scsi_first d es in
      subst (λ t. IsFirstScsi (d ∷ e ∷ es) (if t then least_scsi e es else least_scsi d es)) (sym b)
        (pass_second d (least_scsi d es) e es i.before i.after (ground arith) i.place
          i.higher_before i.no_lower_after)
]
