-- ===== src/Registry/Reserve/Guarantee.antt =====
-- `reserve_claim` of adoption_registry.py and the life of a claim.
use proxmox_cloudstack_sync.Base.{
  ℕ, zero, suc, String, ◌≡◌, inl, inr, Bool, true, Option, none, some, [], ◌∷◌, ◌++◌, arith,
  Bool-cases, str_eq,
}
use proxmox_cloudstack_sync.Store.{Claim, Db, claim_by_id}
use proxmox_cloudstack_sync.Store.Rows.{find-append}
use proxmox_cloudstack_sync.Store.Lifecycle.{Edge, refresh, reserve_again, here, Evolves}
use proxmox_cloudstack_sync.Session.{Exec, query, pure, when◌then◌otherwise◌, ◌>>=◌, ◌>>◌}
use proxmox_cloudstack_sync.Session.Guarantee.{
  Keeps, CommitEvolves, Keeps-transact, Keeps-attempt, Keeps-absorb_integrity, Keeps-bind, Keeps-if,
  Keeps-pure, Keeps-raise, Keeps-query, Keeps-lift,
}
use proxmox_cloudstack_sync.Registry.Validate.{Python}
use proxmox_cloudstack_sync.Registry.Target.{Target, ReserveRequest}
use proxmox_cloudstack_sync.Registry.Write.{compare_and_set, compare_and_set-CommitEvolves}
use proxmox_cloudstack_sync.Registry.Reserve.{
  claim_of_guest, insert_clashes, new_claim, insert_write, refreshed, try_insert, confirmed,
  refreshable, refreshed_row, try_refresh, releasable, reserved_row, try_reserve_again, returned,
  refresh_verdict, refresh_attempts, again_verdict, again_attempts, reserve_existing,
  reserve_target, reserve_claim,
}

appended-Evolves : (db : Db) (c : Claim) → Evolves db (record db { claims = db.claims ++ c ∷ [] })
unfolding claim_by_id
appended-Evolves db c = record {
  at = λ id d h. (d, find-append (λ x. str_eq x.id id) db.claims (c ∷ []) d h, here);
}

insert_write-CommitEvolves :
    (t : Target) (new_id : String) (now : ℕ) (db : Db)
    → CommitEvolves db (insert_write t new_id now db)
unfolding insert_write
insert_write-CommitEvolves t new_id now db = elim (Bool-cases (insert_clashes t new_id db)) [
  | inl e ↦ rw e tt
  | inr e ↦ rw e (appended-Evolves db (new_claim t new_id now))
]

module _ (t : Target) where
  refresh_edge :
      (id : String) (generation now : ℕ) (db : Db) (c : Claim)
      → refreshable t id generation db c ≡ true
      → Edge c (refreshed_row t generation now c)
  unfolding refreshable refreshed_row
  refresh_edge id generation now db c h =
      refresh t.node t.manifest_sha256 t.canonical now (ground arith) (ground arith) (ground arith)

  again_edge :
      (id : String) (generation now : ℕ) (c : Claim)
      → releasable t id generation c ≡ true
      → Edge c (reserved_row t generation now c)
  unfolding releasable reserved_row
  again_edge id generation now c h =
      reserve_again t.node t.manifest_sha256 t.canonical now (ground arith) (ground arith)

  confirmed-Keeps : (message : String) (o : Option Claim) → Keeps (confirmed t message o)
  unfolding confirmed
  confirmed-Keeps message none = Keeps-raise _
  confirmed-Keeps message (some c) = Keeps-if _ _ _ (Keeps-pure _) (Keeps-raise _)

  refresh_verdict-Keeps :
      (generation : ℕ) (again : String → Exec Claim) (o : Option Claim)
      → ((id : String) → Keeps (again id))
      → Keeps (refresh_verdict t generation again o)
  unfolding refresh_verdict
  refresh_verdict-Keeps generation again none k = Keeps-raise _
  refresh_verdict-Keeps generation again (some c) k =
      Keeps-if _ _ _ (Keeps-pure c) (Keeps-if _ _ _ (Keeps-raise _) (k c.id))

  again_verdict-Keeps :
      (again : Claim → Exec Claim) (o : Option Claim)
      → ((c : Claim) → Keeps (again c))
      → Keeps (again_verdict t again o)
  unfolding again_verdict
  again_verdict-Keeps again none k = Keeps-raise _
  again_verdict-Keeps again (some c) k =
      Keeps-if _ _ _ (Keeps-pure c) (Keeps-if _ _ _ (Keeps-raise _) (k c))

returned-Keeps : (rest : Exec Claim) (o : Option Claim) → Keeps rest → Keeps (returned rest o)
unfolding returned
returned-Keeps rest none k = k
returned-Keeps rest (some c) k = Keeps-pure c

refreshed-Keeps : (o : Option Claim) → Keeps (refreshed o)
unfolding refreshed
refreshed-Keeps none = Keeps-raise _
refreshed-Keeps (some c) = Keeps-pure _

module _ (write_guard : Exec (Unit {0})) (guard_keeps : Keeps write_guard) (t : Target) where
  try_insert-Keeps : (new_id : String) → Keeps (try_insert write_guard t new_id)
  unfolding try_insert
  try_insert-Keeps new_id =
      let write = Keeps-transact (insert_write t new_id) (insert_write-CommitEvolves t new_id) in
      Keeps-attempt _ (
        Keeps-absorb_integrity _
          (Keeps-bind _ _ write λ _. Keeps-bind _ _ (Keeps-query _) refreshed-Keeps))

  write_then_confirm :
      (write : Exec Bool) (message : String)
      → Keeps write
      → Keeps (do
        write_guard
        changed ← write
        when changed
            then (do current ← query (claim_of_guest t); confirmed t message current)
            otherwise (pure none))
  write_then_confirm write message k = Keeps-bind _ _ guard_keeps λ _. Keeps-bind _ _ k λ changed.
      Keeps-if _ _ _ (Keeps-bind _ _ (Keeps-query _) (confirmed-Keeps t message)) (Keeps-pure none)

  try_refresh-Keeps :
      (id : String) (generation : ℕ) → Keeps (try_refresh write_guard t id generation)
  unfolding try_refresh
  try_refresh-Keeps id generation =
      let write =
        Keeps-transact
          (λ now db.
            compare_and_set (refreshable t id generation db) (refreshed_row t generation now) db)
          (λ now db.
            compare_and_set-CommitEvolves (refreshable t id generation db)
              (refreshed_row t generation now) (refresh_edge t id generation now db) db) in
      Keeps-attempt _ (write_then_confirm _ _ write)

  try_reserve_again-Keeps :
      (id : String) (generation : ℕ) → Keeps (try_reserve_again write_guard t id generation)
  unfolding try_reserve_again
  try_reserve_again-Keeps id generation =
      let write =
        Keeps-transact
          (λ now db.
            compare_and_set (releasable t id generation) (reserved_row t generation now) db)
          (λ now db.
            compare_and_set-CommitEvolves (releasable t id generation)
              (reserved_row t generation now) (again_edge t id generation now) db) in
      Keeps-attempt _ (write_then_confirm _ _ write)

  refresh_attempts-Keeps :
      (left generation : ℕ) (id : String)
      → Keeps (refresh_attempts write_guard t left generation id)
  unfolding refresh_attempts
  refresh_attempts-Keeps zero generation id = Keeps-raise _
  refresh_attempts-Keeps (suc left) generation id =
      Keeps-bind _ _ (try_refresh-Keeps id generation) λ done. returned-Keeps _ done (
        Keeps-bind _ _ (Keeps-query _)
          λ o. refresh_verdict-Keeps t generation _ o (refresh_attempts-Keeps left generation))

  again_attempts-Keeps : (left : ℕ) (c : Claim) → Keeps (again_attempts write_guard t left c)
  unfolding again_attempts
  again_attempts-Keeps zero c = Keeps-raise _
  again_attempts-Keeps (suc left) c =
      Keeps-bind _ _ (try_reserve_again-Keeps c.id c.generation) λ done.
        returned-Keeps _ done (
          Keeps-bind _ _ (Keeps-query _) λ o. again_verdict-Keeps t _ o (again_attempts-Keeps left))

  reserve_existing-Keeps : (o : Option Claim) → Keeps (reserve_existing write_guard t o)
  unfolding reserve_existing
  reserve_existing-Keeps none = Keeps-raise _
  reserve_existing-Keeps (some c) = Keeps-if _ _ _ (Keeps-pure c) (
      Keeps-bind _ _ (Keeps-if _ _ _ (Keeps-query _) (Keeps-pure true)) λ used.
        Keeps-if _ _ _ (refresh_attempts-Keeps 3 c.generation c.id)
          (Keeps-if _ _ _ (again_attempts-Keeps 3 c) (Keeps-raise _)))

  reserve_target-Keeps : (new_id : String) → Keeps (reserve_target write_guard t new_id)
  unfolding reserve_target
  reserve_target-Keeps new_id = Keeps-bind _ _ guard_keeps λ _.
      Keeps-bind _ _ (try_insert-Keeps new_id)
        λ o. returned-Keeps _ o (Keeps-bind _ _ (Keeps-query _) reserve_existing-Keeps)

pub reserve_claim-Keeps :
    (py : Python) (write_guard : Exec (Unit {0})) (new_id : String) (r : ReserveRequest)
    → Keeps write_guard
    → Keeps (reserve_claim py write_guard new_id r)
unfolding reserve_claim
reserve_claim-Keeps py write_guard new_id r k =
    Keeps-bind _ _ (Keeps-lift _) (λ t. reserve_target-Keeps write_guard k t new_id)
