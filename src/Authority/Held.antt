-- ===== src/Authority/Held.antt =====
-- `assert_write_authority` of adoption_authority.py after an acquisition, whatever other owners
-- try.
use proxmox_cloudstack_sync.Base.{
  ℕ, String, ◌≡◌, ◌≢◌, refl, sym, ap, ◌∙◌, subst, Bool, true, false, Option, some, List, All, arith,
  ltb, eq_iff, str_eq, holds_text, eq_of_some-eq, if◌then◌else◌,
}
use proxmox_cloudstack_sync.Json.{Json}
use proxmox_cloudstack_sync.Outcome.{ok, raised, authority_conflict}
use proxmox_cloudstack_sync.Store.{Authority, Db}
use proxmox_cloudstack_sync.Session.{World, guard, ◌>>=◌, query, arrive, current_time}
use proxmox_cloudstack_sync.Registry.Validate.{Python}
use proxmox_cloudstack_sync.Registry.Bind.Again.{still}
use proxmox_cloudstack_sync.Authority.Acquire.{
  acquire_write_authority, is_held, has_mode, owned, has_expired, assert_write_authority,
}
use proxmox_cloudstack_sync.Authority.Exclusion.{Write, history, IsForeign, history-answers}
use proxmox_cloudstack_sync.Authority.Grant.{acquire_write_authority-IsGranted}

-- what an assertion answers where no other session acts
asserted :
    (owner mode : String) (now : ℕ) (db : Db) (held : Bool)
    → is_held now owner mode db.authority ≡ held
    → assert_write_authority owner mode (still now db) ≡ (
      if held then ok tt else raised (authority_conflict "write authority is not held"),
      still now db,
    )
unfolding assert_write_authority ◌>>=◌ query arrive current_time guard
asserted owner mode now db true h = rw h refl
asserted owner mode now db false h = rw h refl

module _ (r : Authority) (owner : String) (until : ℕ) (own : r.owner_id ≡ some owner)
    (expiry : r.expires_at ≡ some until) where
  owner-is_held :
      (mode : String) (now : ℕ)
      → has_mode r.mode mode ≡ true
      → is_held now owner mode (some r) ≡ ltb now until
  unfolding is_held owned has_expired holds_text
  owner-is_held mode now h = rw (own, expiry, h, (eq_iff owner owner).1 refl) (ground arith)

  other-is_held :
      (other mode : String) (now : ℕ) → other ≢ owner → is_held now other mode (some r) ≡ false
  unfolding is_held owned holds_text
  other-is_held other mode now ne =
      let differ : str_eq owner other ≡ false = ground (arith, eq_iff owner other) in
      rw (own, differ) refl

-- After an acquisition that returns an owner, and after any committed writes for other owners
-- before the time `until` of its expiry, where no other session acts and nothing fails: an
-- assertion of the owner in its mode passes at every time before `until` and is refused from then
-- on, and an assertion of anyone else, in any mode and at any time, is refused. No assertion
-- changes anything.
pub assert_write_authority_exclusive :
    (py : Python) (new_id mode : String) (target seconds : Json) (owner_id : Option String)
    (w v : World) (owner other other_mode : String) (r : Authority) (until now : ℕ)
    (xs : List Write)
    → acquire_write_authority py new_id mode target seconds owner_id w ≡ (ok (some owner), v)
    → v.db.authority ≡ some r
    → r.expires_at ≡ some until
    → All (IsForeign owner until) xs
    → other ≢ owner
    → let db = record v.db { authority = history xs v.db.authority } in
      (assert_write_authority owner mode (still now db) ≡ (
        if ltb now until then ok tt else raised (authority_conflict "write authority is not held"),
        still now db,
      ))
      × (assert_write_authority other other_mode (still now db)
          ≡ (raised (authority_conflict "write authority is not held"), still now db))
assert_write_authority_exclusive py new_id mode target seconds owner_id w v owner other other_mode r
      until now xs acquired stored expiry foreign ne =
    let (_, (s, found, g)) =
      acquire_write_authority-IsGranted py new_id mode target seconds owner_id w v owner acquired in
    let same : s ≡ r = eq_of_some-eq (sym found ∙ stored) in
    let own = subst (λ (x : Authority). x.owner_id ≡ some owner) same g.holder in
    let in_mode = subst (λ (x : Authority). has_mode x.mode mode ≡ true) same g.in_mode in
    let kept : history xs v.db.authority ≡ some r =
      ap (history xs) stored ∙ (history-answers r owner until own expiry xs foreign).0 in
    (
      asserted owner mode now _ (ltb now until) (
          ap (is_held now owner mode) kept
          ∙ owner-is_held r owner until own expiry mode now in_mode),
      asserted other other_mode now _ false (
          ap (is_held now other other_mode) kept
          ∙ other-is_held r owner until own expiry other other_mode now ne),
    )
