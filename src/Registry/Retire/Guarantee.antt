-- ===== src/Registry/Retire/Guarantee.antt =====
-- `retire_claim` and `finalize_retiring_claim` of adoption_registry.py and the life of a claim.
use proxmox_cloudstack_sync.Base.{
  ℕ, zero, suc, String, ◌≡◌, refl, inl, inr, Bool, true, false, ◌||◌, Option, none, some, arith,
  ◌==◌, Bool-cases,
}
use proxmox_cloudstack_sync.Json.{Json}
use proxmox_cloudstack_sync.Outcome.{claim_conflict}
use proxmox_cloudstack_sync.Store.{
  Claim, ClaimState, Db, is_state, bound, managed, operating, reserved, retiring, released, cleanup,
}
use proxmox_cloudstack_sync.Store.Rows.{count}
use proxmox_cloudstack_sync.Store.Lifecycle.{
  Edge, IsLive, is_bound, is_managed, is_operating, retire as retire_step,
  finalize as finalize_step,
}
use proxmox_cloudstack_sync.Session.{Exec, raise, when◌then◌otherwise◌, ◌>>=◌, ◌>>◌}
use proxmox_cloudstack_sync.Session.Guarantee.{
  Keeps, CommitEvolves, Keeps-transact, Keeps-attempt, Keeps-retry_operational, Keeps-bind,
  Keeps-if, Keeps-raise_bind, Keeps-pure, Keeps-raise, Keeps-query, Keeps-lift, Keeps-guard,
  Keeps-current_time,
}
use proxmox_cloudstack_sync.Registry.Validate.{Python, Request, Identity}
use proxmox_cloudstack_sync.Registry.Write.{
  updated, updated-Evolves, compare_and_set, compare_and_set-CommitEvolves,
}
use proxmox_cloudstack_sync.Registry.Lease.Guarantee.{
  lease_fence-Keeps, only_row-Keeps, recoverable_lease-Keeps,
}
use proxmox_cloudstack_sync.Registry.Retire.{
  retirable, retired_row, without_lease, retire_write, check_retirable, try_retire, retired,
  retire_found, retire_attempts, retire_claim, finalizable, released_row, finalize_verdict,
  try_finalize, finalize_attempts, finalize, finalize_retiring_claim,
}

-- the states from which `check_retirable` lets a claim go on
abbrev is_retirable_state : ClaimState → Bool
is_retirable_state s = is_state s operating || (is_state s bound || is_state s managed)

module _ (a : Identity) where
  retirable-IsLive :
      (source : ClaimState) (lease : Option String) (c : Claim)
      → is_retirable_state source ≡ true
      → retirable a source lease c ≡ true
      → IsLive c
  unfolding retirable
  retirable-IsLive bound lease c l h = is_bound (ground arith)
  retirable-IsLive managed lease c l h = is_managed (ground arith)
  retirable-IsLive operating lease c l h = is_operating (ground arith)
  retirable-IsLive reserved lease c l h = cc
  retirable-IsLive retiring lease c l h = cc
  retirable-IsLive released lease c l h = cc
  retirable-IsLive cleanup lease c l h = cc

  retire_edge :
      (source : ClaimState) (lease : Option String) (now : ℕ) (c : Claim)
      → is_retirable_state source ≡ true
      → retirable a source lease c ≡ true
      → Edge c (retired_row a now c)
  unfolding retired_row
  retire_edge source lease now c l h = retire_step now (retirable-IsLive source lease c l h) refl

  claims-without_lease :
      (source : ClaimState) (lease : Option String) (db : Db)
      → (without_lease a source lease db).claims ≡ db.claims
  claims-without_lease source none db = refl
  claims-without_lease source (some l) db = elim (Bool-cases (is_state source operating)) [
    | inl e ↦ rw e refl
    | inr e ↦ rw e refl
  ]

  retire_write-CommitEvolves :
      (source : ClaimState) (lease : Option String)
      → is_retirable_state source ≡ true
      → (now : ℕ) (db : Db) → CommitEvolves db (retire_write a source lease now db)
  unfolding retire_write
  retire_write-CommitEvolves source lease l now db =
      elim (Bool-cases (count (retirable a source lease) db.claims == 1)) [
        | inl e ↦ rw e (
            updated-Evolves (retirable a source lease) (retired_row a now)
              (λ c h. retire_edge source lease now c l h) db _
              (claims-without_lease source lease
                (updated (retirable a source lease) (retired_row a now) db)))
        | inr e ↦ rw e tt
      ]

  check_refuses :
      (c : Claim)
      → is_retirable_state c.state ≡ false
      → check_retirable a c ≡ raise (claim_conflict "claim lifecycle cannot be retired")
  unfolding check_retirable when◌then◌otherwise◌
  check_refuses c h =
      let o : is_state c.state operating ≡ false = ground arith in
      let b : (is_state c.state bound || is_state c.state managed) ≡ false = ground arith in
      rw (o, b)

  check_retirable-Keeps : (c : Claim) → Keeps (check_retirable a c)
  unfolding check_retirable
  check_retirable-Keeps c =
      Keeps-if _ _ _
        (Keeps-bind _ _ (lease_fence-Keeps c.operation_lease_id) λ fence.
          Keeps-bind _ _ Keeps-current_time λ now. Keeps-bind _ _ (Keeps-query _) λ active.
            Keeps-bind _ _ (Keeps-guard _ _) λ _.
              Keeps-bind _ _ (Keeps-query _)
                λ found. Keeps-bind _ _ (recoverable_lease-Keeps found) λ _. Keeps-pure tt)
        (Keeps-if _ _ _ (Keeps-guard _ _) (Keeps-raise _))

module _ (write_guard : Exec (Unit {0})) (guard_keeps : Keeps write_guard) (a : Identity) where
  try_retire-Keeps :
      (source : ClaimState) (lease : Option String)
      → is_retirable_state source ≡ true
      → Keeps (try_retire write_guard a source lease)
  unfolding try_retire
  try_retire-Keeps source lease l = Keeps-attempt _ (
      Keeps-bind _ _ guard_keeps λ _.
        Keeps-bind _ _ (Keeps-transact _ (retire_write-CommitEvolves a source lease l)) λ changed.
          Keeps-if _ _ _
            (Keeps-bind _ _ (Keeps-query _)
              λ row. Keeps-bind _ _ (only_row-Keeps row) λ c. Keeps-pure (some c))
            (Keeps-pure none))

  retired-Keeps :
      (again : Exec Claim) (o : Option Claim) → Keeps again → Keeps (retired write_guard a again o)
  unfolding retired
  retired-Keeps again none k = k
  retired-Keeps again (some c) k = Keeps-pure c

  retire_once-Keeps :
      (again : Exec Claim) (c : Claim)
      → Keeps again
      → Keeps (do
        check_retirable a c
        done ← try_retire write_guard a c.state c.operation_lease_id
        retired write_guard a again done)
  retire_once-Keeps again c k = elim (Bool-cases (is_retirable_state c.state)) [
    | inl l ↦ Keeps-bind _ _ (check_retirable-Keeps a c) λ _.
        Keeps-bind _ _ (try_retire-Keeps c.state c.operation_lease_id l)
          λ o. retired-Keeps again o k
    | inr l ↦ rw (check_refuses a c l) (Keeps-raise_bind _ _)
  ]

  retire_attempts-Keeps : (left : ℕ) → Keeps (retire_attempts write_guard a left)
  unfolding retire_attempts retire_found
  retire_attempts-Keeps zero = Keeps-raise _
  retire_attempts-Keeps (suc left) = Keeps-bind _ _ (Keeps-query _) λ found.
      Keeps-bind _ _ (Keeps-lift _) λ c. Keeps-bind _ _ (Keeps-guard _ _) λ _.
        Keeps-bind _ _ (Keeps-guard _ _)
          λ _. Keeps-if _ _ _ (Keeps-pure c) (retire_once-Keeps _ c (retire_attempts-Keeps left))

pub retire_claim-Keeps :
    (py : Python) (write_guard : Exec (Unit {0})) (r : Request)
    → Keeps write_guard
    → Keeps (retire_claim py write_guard r)
unfolding retire_claim
retire_claim-Keeps py write_guard r k =
    Keeps-bind _ _ (Keeps-lift _) (λ a. retire_attempts-Keeps write_guard k a 3)

module _ (id vm_ref : String) where
  finalize_edge :
      (generation now : ℕ) (c : Claim)
      → finalizable id vm_ref generation c ≡ true
      → Edge c (released_row id vm_ref now c)
  unfolding finalizable released_row
  finalize_edge generation now c h = finalize_step now (ground arith) refl

  finalize_verdict-Keeps :
      (generation : ℕ) (again : Exec Claim) (o : Option Claim)
      → Keeps again
      → Keeps (finalize_verdict id vm_ref generation again o)
  unfolding finalize_verdict
  finalize_verdict-Keeps generation again none k = Keeps-raise _
  finalize_verdict-Keeps generation again (some c) k =
      Keeps-if _ _ _ (Keeps-pure c) (Keeps-if _ _ _ k (Keeps-raise _))

  module _ (write_guard : Exec (Unit {0})) (guard_keeps : Keeps write_guard) where
    try_finalize-Keeps : (generation : ℕ) → Keeps (try_finalize id vm_ref write_guard generation)
    unfolding try_finalize
    try_finalize-Keeps generation =
        let write =
          Keeps-transact
            (λ now db.
              compare_and_set (finalizable id vm_ref generation) (released_row id vm_ref now) db)
            (λ now db.
              compare_and_set-CommitEvolves (finalizable id vm_ref generation)
                (released_row id vm_ref now) (finalize_edge generation now) db) in
        Keeps-retry_operational _
          (Keeps-bind _ _ guard_keeps λ _. Keeps-bind _ _ write λ _. Keeps-pure tt)

    finalize_attempts-Keeps :
        (generation left : ℕ) → Keeps (finalize_attempts id vm_ref write_guard generation left)
    unfolding finalize_attempts
    finalize_attempts-Keeps generation zero = Keeps-raise _
    finalize_attempts-Keeps generation (suc left) =
        Keeps-bind _ _ (try_finalize-Keeps generation) λ _.
          Keeps-bind _ _ (Keeps-query _)
            λ o. finalize_verdict-Keeps generation _ o (finalize_attempts-Keeps generation left)

    finalize-Keeps : Keeps (finalize id vm_ref write_guard)
    unfolding finalize
    finalize-Keeps = Keeps-bind _ _ (Keeps-query _) λ found. Keeps-bind _ _ (Keeps-lift _) λ c.
        Keeps-bind _ _ (Keeps-guard _ _) λ _.
          Keeps-if _ _ _ (Keeps-pure c)
            (Keeps-if _ _ _ (finalize_attempts-Keeps c.generation 3) (Keeps-raise _))

pub finalize_retiring_claim-Keeps :
    (py : Python) (write_guard : Exec (Unit {0})) (claim_id vm_ref : Json)
    → Keeps write_guard
    → Keeps (finalize_retiring_claim py write_guard claim_id vm_ref)
unfolding finalize_retiring_claim
finalize_retiring_claim-Keeps py write_guard claim_id vm_ref k =
    Keeps-bind _ _ (Keeps-lift _)
      λ id. Keeps-bind _ _ (Keeps-lift _) λ ref. finalize-Keeps id ref write_guard k
