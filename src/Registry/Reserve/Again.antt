-- ===== src/Registry/Reserve/Again.antt =====
-- `reserve_claim` of adoption_registry.py where no other session interferes, and called again.
use proxmox_cloudstack_sync.Base.{
  ℕ, String, ◌≡◌, refl, ◌∙◌, true, false, none, some, [], ◌∷◌, ◌++◌, eq_iff, ==_iff, ◌||◌, str_eq,
}
use proxmox_cloudstack_sync.Outcome.{ok}
use proxmox_cloudstack_sync.Store.{Claim, Db, claim_by_id}
use proxmox_cloudstack_sync.Store.Rows.{
  find-append_none, any-append, no_part_passes, find-single, or_true,
}
use proxmox_cloudstack_sync.Session.{
  Exec, pure, ◌>>=◌, when◌then◌otherwise◌, arrive, query, transact, attempt, absorb_integrity,
}
use proxmox_cloudstack_sync.Registry.Validate.{Python}
use proxmox_cloudstack_sync.Registry.Target.{Target, ReserveRequest, validated_target}
use proxmox_cloudstack_sync.Registry.Bind.Again.{still, Passes}
use proxmox_cloudstack_sync.Registry.Reserve.{
  is_guest, claim_of_guest, is_same_reservation, new_claim, insert_clashes, insert_write, refreshed,
  returned, try_insert, reserve_existing, reserve_target, reserve_claim,
}

module _ (t : Target) (new_id : String) (now : ℕ) (db : Db)
    (free : insert_clashes t new_id db ≡ false) where
  abbrev pub added : Claim
  added = new_claim t new_id now

  abbrev pub reserved_db : Db
  reserved_db = record db { claims = db.claims ++ added ∷ [] }

  added-guest : is_guest t added ≡ true
  unfolding is_guest
  added-guest = rw ((eq_iff t.cluster t.cluster).1 refl, (==_iff t.vmid t.vmid).1 refl) refl

  found_by_id : claim_by_id new_id reserved_db ≡ some added
  unfolding claim_by_id insert_clashes
  found_by_id =
      find-append_none (λ c. str_eq c.id new_id) db.claims (added ∷ [])
        (no_part_passes (λ c. str_eq c.id new_id) (λ c. str_eq c.id new_id || is_guest t c)
          (λ c h. rw h refl) db.claims free)
      ∙ find-single (λ c. str_eq c.id new_id) added ((eq_iff new_id new_id).1 refl)

  found_by_guest : claim_of_guest t reserved_db ≡ some added
  unfolding claim_of_guest insert_clashes
  found_by_guest =
      find-append_none (is_guest t) db.claims (added ∷ []) (
        no_part_passes (is_guest t) (λ c. str_eq c.id new_id || is_guest t c)
          (λ c h. or_true (str_eq c.id new_id) (is_guest t c) h) db.claims free)
      ∙ find-single (is_guest t) added added-guest

  added-is_same_reservation : is_same_reservation t added ≡ true
  unfolding is_same_reservation
  added-is_same_reservation =
      rw
        (
          (eq_iff t.node t.node).1 refl,
          (eq_iff t.manifest_sha256 t.manifest_sha256).1 refl,
          (eq_iff t.canonical t.canonical).1 refl,
        )
        refl

  clashes_again : (other : String) → insert_clashes t other reserved_db ≡ true
  unfolding insert_clashes
  clashes_again other =
      any-append (λ c. str_eq c.id other || is_guest t c) db.claims added
        (or_true (str_eq new_id other) (is_guest t added) added-guest)

  module _ (write_guard : Exec (Unit {0})) where
    try_insert_adds :
        try_insert write_guard t new_id (still now db) ≡ (ok (some added), still now reserved_db)
    unfolding try_insert attempt absorb_integrity ◌>>=◌ transact arrive insert_write query refreshed
        pure
    try_insert_adds = rw (free, found_by_id) refl

    try_insert_clashes :
        (other : String)
        → try_insert write_guard t other (still now reserved_db) ≡ (ok none, still now reserved_db)
    unfolding try_insert attempt absorb_integrity ◌>>=◌ transact arrive insert_write
    try_insert_clashes other = rw (clashes_again other) refl

    reserve_target_adds :
        Passes write_guard (still now db)
        → reserve_target write_guard t new_id (still now db) ≡ (ok added, still now reserved_db)
    unfolding reserve_target ◌>>=◌ returned pure
    reserve_target_adds passes = rw (passes, try_insert_adds) refl

    reserve_target_returns :
        (other : String)
        → Passes write_guard (still now reserved_db)
        → reserve_target write_guard t other (still now reserved_db)
          ≡ (ok added, still now reserved_db)
    unfolding reserve_target ◌>>=◌ returned pure query arrive reserve_existing when◌then◌otherwise◌
    reserve_target_returns other passes =
        rw (passes, try_insert_clashes other, found_by_guest, added-is_same_reservation) refl

-- Where no other session acts and nothing fails, the arguments are valid and the write guard
-- passes: if neither the identifier nor the guest has a claim, a reservation inserts one new
-- reserved claim of generation 1 and returns it, and the same request with any other identifier
-- then returns that claim and changes nothing.
pub reserve_claim_again :
    (py : Python) (write_guard : Exec (Unit {0})) (r : ReserveRequest) (t : Target)
    (new_id other : String) (now : ℕ) (db : Db)
    → validated_target py r ≡ ok t
    → (free : insert_clashes t new_id db ≡ false) → Passes write_guard (still now db)
    → Passes write_guard (still now (reserved_db t new_id now db free))
    → (reserve_claim py write_guard new_id r (still now db)
        ≡ (ok (new_claim t new_id now), still now (reserved_db t new_id now db free)))
      × (reserve_claim py write_guard other r (still now (reserved_db t new_id now db free))
          ≡ (ok (new_claim t new_id now), still now (reserved_db t new_id now db free)))
unfolding reserve_claim ◌>>=◌
reserve_claim_again py write_guard r t new_id other now db valid free passes later = (
  rw valid (reserve_target_adds t new_id now db free write_guard passes),
  rw valid (reserve_target_returns t new_id now db free write_guard other later),
)
