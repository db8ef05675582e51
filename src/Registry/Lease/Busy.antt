-- ===== src/Registry/Lease/Busy.antt =====
-- `acquire_managed_operation_lease` of adoption_registry.py on a free claim and on a busy one.
use proxmox_cloudstack_sync.Base.{
  ℕ, suc, ◌+◌, ◌<◌, String, ◌≡◌, refl, ap, ◌∙◌, true, false, none, some, List, [], ◌∷◌, ◌++◌, arith,
  ==_iff, ◌==◌, ◌&&◌, find, str_eq, eq_iff, ltb, any, if◌then◌else◌,
}
use proxmox_cloudstack_sync.Json.{Json}
use proxmox_cloudstack_sync.Outcome.{ok, raised, claim_conflict}
use proxmox_cloudstack_sync.Store.{
  Claim, ClaimState, Db, OperationLease, claim_by_id, managed, operating,
}
use proxmox_cloudstack_sync.Store.Rows.{count, touch, find-append_none, find-single}
use proxmox_cloudstack_sync.Session.{
  World, Exec, pure, when◌then◌otherwise◌, ◌>>=◌, arrive, query, current_time, transact, attempt,
  on_integrity,
}
use proxmox_cloudstack_sync.Registry.Validate.{
  Python, Request, Identity, validated_identity, same_guest, same_vm, found_claim, canonical_uuid,
  validated_generation, normalized_text,
}
use proxmox_cloudstack_sync.Registry.Write.{updated, claim_by_id-updated}
use proxmox_cloudstack_sync.Registry.State.{
  is_managed_action, has_lifecycle, lifecycle_state, validated_claim_state,
}
use proxmox_cloudstack_sync.Registry.Bind.Again.{still, Passes}
use proxmox_cloudstack_sync.Registry.Lease.{
  lease_duration, active_lease, lease_fence, only_row, fenceable, fenced_row, new_lease,
  lease_clashes, fence_write, recover, try_fence, leased, checked_request, lease_attempts,
  managed_action, acquire_managed_operation_lease,
}
use proxmox_cloudstack_sync.Registry.Lease.Guarantee.{fence_edge}

-- The arguments of a request for a lease, as they are validated.
pub record IsLeaseRequest (py : Python) (write_guard : Exec (Unit {0})) (request : Request)
    (action : Json) (a : Identity) (operation : String) : Type 0 where
  pub claim : canonical_uuid py request.claim_id "claim_id must be a UUID" ≡ ok a.id
  pub generation : validated_generation request.generation ≡ ok a.generation
  pub operation_text : normalized_text action ≡ ok operation
  pub supported : is_managed_action operation ≡ true
  pub identity :
      validated_identity py (checked_request py write_guard request a.id a.generation) ≡ ok a

-- The claim is that of the identity, managed, and free.
pub record IsLeasable (a : Identity) (db : Db) (c : Claim) : Type 0 where
  pub found : claim_by_id a.id db ≡ some c
  pub same : same_guest a c && same_vm a c ≡ true
  pub open_claim : fenceable a.id a.generation c ≡ true
  pub single : count (fenceable a.id a.generation) db.claims ≡ 1

module _ (py : Python) (a : Identity) (now : ℕ) where
  lifecycle_state_still :
      (request : Request) (db : Db) (c : Claim) (s : ClaimState)
      → c.state ≡ s
      → validated_identity py request ≡ ok a
      → claim_by_id a.id db ≡ some c
      → (c.generation == a.generation) ≡ true
      → same_guest a c && same_vm a c ≡ true
      → has_lifecycle s ≡ true
      → validated_claim_state py request (still now db) ≡ (ok s, still now db)
  unfolding validated_claim_state lifecycle_state ◌>>=◌ query arrive found_claim
  lifecycle_state_still request db c s state valid found generation same active =
      rw (valid, found, generation, same, ap has_lifecycle state ∙ active)
        (ap (λ z. (ok z, still now db)) state)

module _ (py : Python) (write_guard : Exec (Unit {0})) (request : Request) (a : Identity)
    (now : ℕ) where
  -- a live lease refuses another one
  recover_refuses :
      (c : Claim) (fence : String) (l : OperationLease) (db : Db)
      → c.operation_lease_id ≡ some fence
      → str_eq fence "" ≡ false
      → active_lease a.id fence now db ≡ some l
      → recover py write_guard request a.id a.generation c now (still now db)
        ≡ (raised (claim_conflict "managed operation already in progress"), still now db)
  unfolding recover lease_fence ◌>>=◌ query arrive when◌then◌otherwise◌
  recover_refuses c fence l db e named live = rw (e, named, live) refl

  lease_attempts_refuses :
      (new_id : ℕ → String) (action : String) (left : ℕ) (c : Claim) (fence : String)
      (l : OperationLease) (db : Db)
      → validated_claim_state py
          (checked_request py write_guard request a.id a.generation)
          (still now db)
        ≡ (ok operating, still now db)
      → claim_by_id a.id db ≡ some c
      → c.operation_lease_id ≡ some fence
      → str_eq fence "" ≡ false
      → active_lease a.id fence now db ≡ some l
      → lease_attempts py write_guard request new_id a.id a.generation action
          (suc left)
          (still now db)
        ≡ (raised (claim_conflict "managed operation already in progress"), still now db)
  unfolding lease_attempts ◌>>=◌ query arrive only_row when◌then◌otherwise◌ current_time
  lease_attempts_refuses new_id action left c fence l db state found e named live =
      rw (state, found, recover_refuses c fence l db e named live) refl

module _ (a : Identity) (lease action : String) (now : ℕ) (db : Db) (c : Claim)
    (free : IsLeasable a db c) (new : lease_clashes a.id a.generation lease db ≡ false) where
  abbrev given : OperationLease
  given = new_lease a.id a.generation lease action now

  -- the database with the claim fenced by the new lease
  abbrev pub fenced_db : Db
  fenced_db =
      record (updated (fenceable a.id a.generation) (fenced_row a.id a.generation lease now) db) {
        leases = db.leases ++ given ∷ [];
      }

  fenced_claim : claim_by_id a.id fenced_db ≡ some (fenced_row a.id a.generation lease now c)
  unfolding touch
  fenced_claim =
      claim_by_id-updated (fenceable a.id a.generation) (fenced_row a.id a.generation lease now)
        (fence_edge a.id a.generation lease now) a.id db fenced_db refl
      ∙ rw (free.found, free.open_claim) refl

  none_live :
      (later : ℕ) (ls : List OperationLease)
      → any (λ l. if str_eq l.id lease then true else str_eq l.claim_id a.id) ls ≡ false
      → find (λ l. str_eq l.claim_id a.id && (str_eq l.id lease && ltb later l.expires_at)) ls
        ≡ none
  unfolding find
  none_live later [] h = refl
  none_live later (l ∷ ls) h = ground (arith, none_live later ls)

  -- the lease is in force at any time before its expiry
  live_lease :
      (later : ℕ) → later < now + 7200 → active_lease a.id lease later fenced_db ≡ some given
  unfolding active_lease lease_clashes
  live_lease later before =
      let live : ltb later (now + lease_duration) ≡ true = ground (arith, before) in
      find-append_none
        (λ l. str_eq l.claim_id a.id && (str_eq l.id lease && ltb later l.expires_at)) db.leases
        (given ∷ []) (none_live later db.leases new)
      ∙ find-single (λ l. str_eq l.claim_id a.id && (str_eq l.id lease && ltb later l.expires_at))
          given (rw ((eq_iff a.id a.id).1 refl, (eq_iff lease lease).1 refl, live) refl)

  guards : (c.generation == a.generation ≡ true) × (c.state ≡ managed)
  unfolding fenceable
  guards =
      let open_claim : fenceable a.id a.generation c ≡ true = free.open_claim in
      ground (arith, open_claim)

  module _ (py : Python) (write_guard : Exec (Unit {0}))
      (passes : Passes write_guard (still now db)) (request : Request) where
    try_fence_gives :
        try_fence py write_guard request a.id a.generation action lease now (still now db)
        ≡ (ok (some given), still now fenced_db)
    unfolding try_fence attempt on_integrity ◌>>=◌ transact arrive fence_write
    try_fence_gives =
        rw (passes, (==_iff (count (fenceable a.id a.generation) db.claims) 1).1 free.single, new)
          refl

    -- the one attempt that gives the lease
    lease_attempts_gives :
        (new_id : ℕ → String) (left : ℕ)
        → new_id left ≡ lease
        → validated_claim_state py
            (checked_request py write_guard request a.id a.generation)
            (still now db)
          ≡ (ok managed, still now db)
        → lease_attempts py write_guard request new_id a.id a.generation action
            (suc left)
            (still now db)
          ≡ (ok given, still now fenced_db)
    unfolding lease_attempts ◌>>=◌ query arrive only_row when◌then◌otherwise◌ current_time leased
        pure
    lease_attempts_gives new_id left e state = rw (state, free.found, e, try_fence_gives) refl

module _ (py : Python) (write_guard : Exec (Unit {0})) (request : Request) (a : Identity)
    (wanted : Json) (action : String)
    (valid : IsLeaseRequest py write_guard request wanted a action) where
  acquire_attempts :
      (new_id : ℕ → String) (w : World)
      → acquire_managed_operation_lease py write_guard request new_id wanted w
        ≡ lease_attempts py write_guard request new_id a.id a.generation action 3 w
  unfolding acquire_managed_operation_lease managed_action ◌>>=◌ pure
  acquire_attempts new_id w =
      rw (valid.claim, valid.generation, valid.operation_text, valid.supported) refl

-- Where no other session acts and nothing fails: a valid request for a managed claim that is free
-- gets a lease that expires 7200 seconds later, in one commit that fences the claim, if the write
-- guard passes and the identifier of the lease is new and not empty; any valid request for the same
-- claim that is made at a time before this expiry is refused, and changes nothing.
pub acquire_managed_operation_lease_excludes :
    (py : Python) (write_guard second_guard : Exec (Unit {0})) (request : Request) (a : Identity)
    (wanted : Json) (action lease : String) (now : ℕ) (db : Db) (c : Claim)
    (new_id other_id : ℕ → String) (second : Request) (also : Json) (other : String) (later : ℕ)
    → IsLeaseRequest py write_guard request wanted a action
    → (free : IsLeasable a db c) → (new : lease_clashes a.id a.generation lease db ≡ false)
    → str_eq lease "" ≡ false
    → new_id 2 ≡ lease
    → Passes write_guard (still now db)
    → IsLeaseRequest py second_guard second also a other
    → later < now + 7200
    → (acquire_managed_operation_lease py write_guard request new_id wanted (still now db) ≡ (
      ok (record {
        id = lease;
        claim_id = a.id;
        generation = a.generation;
        action = action;
        expires_at = now + 7200;
      }),
      still now (fenced_db a lease action now db c free new),
    ))
      × (acquire_managed_operation_lease py second_guard second other_id also
            (still later (fenced_db a lease action now db c free new))
          ≡ (
            raised (claim_conflict "managed operation already in progress"),
            still later (fenced_db a lease action now db c free new),
          ))
unfolding has_lifecycle fenced_row same_guest same_vm
acquire_managed_operation_lease_excludes py write_guard second_guard request a wanted action lease
      now db c new_id other_id second also other later valid free new named e passes again before =
    let (generation, state) = guards a lease action now db c free new in
    (
      acquire_attempts py write_guard request a wanted action valid new_id (still now db)
          ∙ lease_attempts_gives a lease action now db c free new py write_guard passes request
              new_id 2 e
              (lifecycle_state_still py a now
                (checked_request py write_guard request a.id a.generation) db c managed state
                valid.identity free.found generation free.same refl),
      acquire_attempts py second_guard second a also other again other_id _
          ∙ lease_attempts_refuses py second_guard second a later other_id other 2
              (fenced_row a.id a.generation lease now c) lease
              (new_lease a.id a.generation lease action now) _
              (lifecycle_state_still py a later
                (checked_request py second_guard second a.id a.generation)
                (fenced_db a lease action now db c free new)
                (fenced_row a.id a.generation lease now c) operating refl again.identity
                (fenced_claim a lease action now db c free new) generation free.same refl)
              (fenced_claim a lease action now db c free new) refl named
              (live_lease a lease action now db c free new later before),
    )
