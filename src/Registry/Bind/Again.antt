-- ===== src/Registry/Bind/Again.antt =====
-- `bind_claim` of adoption_registry.py where no other session interferes, and called again.
use proxmox_cloudstack_sync.Base.{
  ℕ, suc, String, ◌≡◌, refl, ap, ◌∙◌, true, false, Option, some, [], arith, eq_iff, ==_iff,
  holds_text,
}
use proxmox_cloudstack_sync.Outcome.{ok}
use proxmox_cloudstack_sync.Store.{Claim, Db, claim_by_id, is_state, reserved, bound}
use proxmox_cloudstack_sync.Store.Rows.{count, touch}
use proxmox_cloudstack_sync.Session.{
  World, Exec, pure, ◌>>=◌, when◌then◌otherwise◌, arrive, query, transact, retry_operational,
  on_integrity,
}
use proxmox_cloudstack_sync.Registry.Validate.{
  Python, Request, Identity, validated_identity, same_guest, same_vm, found_claim,
  execution_callback_binding_matches,
}
use proxmox_cloudstack_sync.Registry.Write.{updated, claim_by_id-updated}
use proxmox_cloudstack_sync.Registry.Bind.{
  execution_of, bindable, bound_row, ref_taken, bind_write, is_bound_to, bind_verdict, try_bind,
  bind_attempts, bind_checked, bind_identity, bind_claim,
}
use proxmox_cloudstack_sync.Registry.Bind.Guarantee.{bind_edge}

-- No other session acts and nothing fails.
abbrev pub still : ℕ → Db → World
still now db = record { db = db; now = now; turns = [] }

-- The guard returns and changes nothing.
abbrev pub Passes : Exec (Unit {0}) → World → Type 0
Passes m w = m w ≡ (ok tt, w)

-- The claim can be bound as the request asks.
pub record IsBindable (a : Identity) (db : Db) (c : Claim) : Type 0 where
  pub found : claim_by_id a.id db ≡ some c
  pub guest : same_guest a c ≡ true
  pub open_claim : bindable a c ≡ true
  pub single : count (bindable a) db.claims ≡ 1
  pub free : ref_taken a db ≡ false

module _ (a : Identity) (now : ℕ) (db : Db) (c : Claim) (b : IsBindable a db c) where
  abbrev pub bound_db : Db
  bound_db = updated (bindable a) (bound_row a now) db

  stored : claim_by_id a.id bound_db ≡ some (bound_row a now c)
  unfolding touch
  stored =
      claim_by_id-updated (bindable a) (bound_row a now) (bind_edge a now) a.id db bound_db refl
      ∙ rw (b.found, b.open_claim) refl

  guards :
      (c.state ≡ reserved) × (c.generation ≡ a.generation) × (c.manifest_sha256 ≡ a.manifest_sha256)
  unfolding bindable
  guards =
      let open_claim : bindable a c ≡ true = b.open_claim in
      ground (arith, open_claim, eq_iff c.manifest_sha256 a.manifest_sha256)

  bound_row-bound : is_bound_to a (bound_row a now c) ≡ true
  unfolding is_bound_to bound_row same_vm holds_text
  bound_row-bound =
      let (_, generation, manifest) = guards in
      ground (
        arith,
        eq_iff c.manifest_sha256 a.manifest_sha256,
        eq_iff a.vm_ref a.vm_ref,
        eq_iff a.instance_name a.instance_name,
      )

  bound_row-same_vm : same_vm a (bound_row a now c) ≡ true
  unfolding bound_row same_vm holds_text
  bound_row-same_vm =
      ground (arith, eq_iff a.vm_ref a.vm_ref, eq_iff a.instance_name a.instance_name)

  bound_row-same_guest : same_guest a (bound_row a now c) ≡ true
  unfolding bound_row same_guest
  bound_row-same_guest = b.guest

  module _ (write_guard : Exec (Unit {0})) (passes : Passes write_guard (still now db)) where
    try_bind_writes : try_bind write_guard a (still now db) ≡ (ok tt, still now bound_db)
    unfolding try_bind retry_operational on_integrity ◌>>=◌ transact arrive bind_write
    try_bind_writes = rw (passes, (==_iff (count (bindable a) db.claims) 1).1 b.single, b.free) refl

    bind_attempts_binds :
        (left : ℕ)
        → bind_attempts write_guard a (suc left) (still now db)
          ≡ (ok (bound_row a now c), still now bound_db)
    unfolding bind_attempts ◌>>=◌ query arrive bind_verdict
    bind_attempts_binds left = rw (try_bind_writes, stored, bound_row-bound) refl

module _ (py : Python) (plan_sha256 ip_overrides : Option String) (write_guard : Exec (Unit {0}))
    (a : Identity) (now : ℕ) where
  -- The checks before the bind pass and change nothing.
  bind_identity_checked :
      (db : Db) (d : Claim)
      → execution_callback_binding_matches py plan_sha256 ip_overrides
          (execution_of a.vm_ref a.id a.generation db)
        ≡ true
      → claim_by_id a.id db ≡ some d
      → d.generation ≡ a.generation
      → same_guest a d ≡ true
      → bind_identity py plan_sha256 ip_overrides write_guard a (still now db)
        ≡ bind_checked write_guard a d (still now db)
  unfolding bind_identity ◌>>=◌ query arrive found_claim
  bind_identity_checked db d matched found generation guest =
      rw (matched, found, (==_iff d.generation a.generation).1 generation, guest) refl

  bind_checked_reserved :
      (d : Claim) (w : World)
      → d.state ≡ reserved
      → bind_checked write_guard a d w ≡ bind_attempts write_guard a 3 w
  unfolding bind_checked when◌then◌otherwise◌ pure
  bind_checked_reserved d w h =
      rw (ap (λ s. is_state s bound) h, ap (λ s. is_state s reserved) h) refl

  bind_checked_bound :
      (d : Claim) (w : World)
      → d.state ≡ bound
      → same_vm a d ≡ true
      → bind_checked write_guard a d w ≡ (ok d, w)
  unfolding bind_checked when◌then◌otherwise◌ pure
  bind_checked_bound d w h k = rw (ap (λ s. is_state s bound) h, k) refl

module _ (py : Python) (plan_sha256 ip_overrides : Option String) (write_guard : Exec (Unit {0}))
    (r : Request) (a : Identity) (valid : validated_identity py r ≡ ok a) where
  -- Where no other session acts and nothing fails, the arguments are valid and the claim is one
  -- that can be bound, a bind returns the claim with the reference and the name, commits that one
  -- change, and the same call once more returns the same claim and changes nothing.
  pub bind_claim_again :
      (now : ℕ) (db : Db) (c : Claim)
      → execution_callback_binding_matches py plan_sha256 ip_overrides
          (execution_of a.vm_ref a.id a.generation db)
        ≡ true
      → Passes write_guard (still now db)
      → (b : IsBindable a db c)
      → (bind_claim py plan_sha256 ip_overrides write_guard r (still now db)
          ≡ (ok (bound_row a now c), still now (bound_db a now db c b)))
        × (bind_claim py plan_sha256 ip_overrides write_guard r (still now (bound_db a now db c b))
            ≡ (ok (bound_row a now c), still now (bound_db a now db c b)))
  unfolding bind_claim ◌>>=◌ execution_of bound_row
  bind_claim_again now db c matched passes b =
      let (state, generation, manifest) = guards a now db c b in
      let first =
        bind_identity_checked py plan_sha256 ip_overrides write_guard a now db c matched b.found
          generation b.guest
        ∙ bind_checked_reserved py plan_sha256 ip_overrides write_guard a now c (still now db) state
        ∙ bind_attempts_binds a now db c b write_guard passes 2 in
      let second =
        bind_identity_checked py plan_sha256 ip_overrides write_guard a now (bound_db a now db c b)
          (bound_row a now c) matched (stored a now db c b) generation
          (bound_row-same_guest a now db c b)
        ∙ bind_checked_bound py plan_sha256 ip_overrides write_guard a now (bound_row a now c)
            (still now (bound_db a now db c b)) refl (bound_row-same_vm a now db c b) in
      (rw valid first, rw valid second)
