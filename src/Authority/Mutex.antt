-- ===== src/Authority/Mutex.antt =====
-- The authority of adoption_authority.py as a lock.
use proxmox_cloudstack_sync.Base.{ℕ, ◌+◌, ◌≤◌, String, ◌≡◌, Option, some, List, All, arith}
use proxmox_cloudstack_sync.Json.{Json}
use proxmox_cloudstack_sync.Outcome.{ok}
use proxmox_cloudstack_sync.Store.{Authority}
use proxmox_cloudstack_sync.Session.{World}
use proxmox_cloudstack_sync.Registry.Validate.{Python}
use proxmox_cloudstack_sync.Authority.Acquire.{acquire_write_authority}
use proxmox_cloudstack_sync.Authority.Exclusion.{
  Write, history, answers, IsForeign, IsRefused, history-answers,
}
use proxmox_cloudstack_sync.Authority.Grant.{acquire_write_authority-IsGranted}

-- An acquisition that returns an owner ends at most 7200 seconds before the time `until` of its
-- expiry, and leaves a row held by that owner, which no sequence of committed writes for other
-- owners before `until` changes; every acquisition and release in such a sequence is refused.
pub acquire_write_authority-excludes :
    (py : Python) (new_id mode : String) (target seconds : Json) (owner_id : Option String)
    (w v : World) (owner : String)
    → acquire_write_authority py new_id mode target seconds owner_id w ≡ (ok (some owner), v)
    → (r : Authority) × (v.db.authority ≡ some r)
      × (r.owner_id ≡ some owner)
      × ((until : ℕ) × (r.expires_at ≡ some until)
          × (until ≤ v.now + 7200)
          × ((xs : List Write)
              → All (IsForeign owner until) xs
              → (history xs (some r) ≡ some r) × All IsRefused (answers xs (some r))))
acquire_write_authority-excludes py new_id mode target seconds owner_id w v owner e =
    let (_, granted) =
      acquire_write_authority-IsGranted py new_id mode target seconds owner_id w v owner e in
    let (r, stored, g) = granted in
    (
      r,
      stored,
      g.holder,
      (
        g.until,
        g.expiry,
        omega (arith, g.upper, g.past),
        history-answers r owner g.until g.holder g.expiry,
      ),
    )
