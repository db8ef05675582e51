-- ===== src/Registry/Reserve.antt =====
-- `reserve_claim` of adoption_registry.py: one globally unique claim on a cluster and VMID.
pub mod Guarantee
pub mod Again
use proxmox_cloudstack_sync.Base.{
  ℕ, zero, suc, ◌+◌, String, Bool, true, false, ◌&&◌, ◌||◌, not, Option, none, some, List, [], ◌∷◌,
  ◌++◌, find, any, is_none, ◌==◌, str_eq, if◌then◌else◌,
}
use proxmox_cloudstack_sync.Outcome.{Outcome, ok, claim_conflict, invalid_request}
use proxmox_cloudstack_sync.Store.{Claim, Db, is_state, reserved, released, claim_by_id}
use proxmox_cloudstack_sync.Session.{
  Exec, Commit, committed, rolled_back, violated, pure, lift, raise, when◌then◌otherwise◌, ◌>>=◌,
  ◌>>◌, query, transact, attempt, absorb_integrity,
}
use proxmox_cloudstack_sync.Registry.Validate.{Python}
use proxmox_cloudstack_sync.Registry.Target.{Target, ReserveRequest, validated_target}
use proxmox_cloudstack_sync.Registry.Write.{compare_and_set}

unfoldable pub is_guest : Target → Claim → Bool
is_guest t c = str_eq c.proxmox_cluster t.cluster && c.proxmox_vmid == t.vmid

-- `load_existing`
unfoldable pub claim_of_guest : Target → Db → Option Claim
unfolding find is_guest
claim_of_guest t db = find (is_guest t) db.claims

-- `is_same_reservation`
unfoldable pub is_same_reservation : Target → Claim → Bool
is_same_reservation t c =
    is_state c.state reserved
    && (str_eq c.proxmox_node t.node
        && (str_eq c.manifest_sha256 t.manifest_sha256 && str_eq c.manifest_json t.canonical))

unfoldable pub has_execution : String → Db → Bool
has_execution claim_id db = any (λ e. str_eq e.claim_id claim_id) db.executions

-- a reservation that nothing uses yet
unfoldable pub is_unused : Claim → Bool
is_unused c =
    is_state c.state reserved
    && (is_none c.cloudstack_vm_ref
        && (is_none c.cloudstack_instance_name && is_none c.operation_lease_id))

module _ (t : Target) (new_id : String) where
  abbrev pub new_claim : ℕ → Claim
  new_claim now = record {
    id = new_id;
    proxmox_cluster = t.cluster;
    proxmox_node = t.node;
    proxmox_vmid = t.vmid;
    manifest_sha256 = t.manifest_sha256;
    manifest_json = t.canonical;
    generation = 1;
    state = reserved;
    operation_lease_id = none;
    cloudstack_vm_ref = none;
    cloudstack_instance_name = none;
    created_at = now;
    updated_at = now;
  }

  -- the primary key or the unique cluster and VMID is taken
  unfoldable pub insert_clashes : Db → Bool
  unfolding is_guest
  insert_clashes db = any (λ c. str_eq c.id new_id || is_guest t c) db.claims

  unfoldable pub insert_write : ℕ → Db → Commit (Unit {0})
  insert_write now db =
      if insert_clashes db
      then violated
      else committed tt (record db { claims = db.claims ++ new_claim now ∷ [] })

-- `session.refresh` fails if the row has gone
unfoldable pub refreshed : Option Claim → Exec (Option Claim)
refreshed none = raise invalid_request
refreshed (some c) = pure (some c)

unfoldable pub returned : Exec Claim → Option Claim → Exec Claim
returned rest none = rest
returned rest (some c) = pure c

module _ (t : Target) where
  -- after a write of one row: the re-read row must be the reservation
  unfoldable pub confirmed : String → Option Claim → Exec (Option Claim)
  confirmed message none = raise (claim_conflict message)
  confirmed message (some c) =
      when is_same_reservation t c then pure (some c) otherwise raise (claim_conflict message)

  unfoldable pub refreshable : String → ℕ → Db → Claim → Bool
  unfolding has_execution is_unused
  refreshable id generation db c =
      str_eq c.id id && (c.generation == generation && (is_unused c && not (has_execution c.id db)))

  unfoldable pub refreshed_row : ℕ → ℕ → Claim → Claim
  refreshed_row generation now c = record c {
    proxmox_node = t.node;
    manifest_sha256 = t.manifest_sha256;
    manifest_json = t.canonical;
    generation = generation + 1;
    updated_at = now;
  }

  unfoldable pub releasable : String → ℕ → Claim → Bool
  releasable id generation c =
      str_eq c.id id && (is_state c.state released && c.generation == generation)

  unfoldable pub reserved_row : ℕ → ℕ → Claim → Claim
  reserved_row generation now c = record c {
    proxmox_node = t.node;
    manifest_sha256 = t.manifest_sha256;
    manifest_json = t.canonical;
    generation = generation + 1;
    state = reserved;
    cloudstack_vm_ref = none;
    cloudstack_instance_name = none;
    updated_at = now;
  }

  -- what the re-read row means after a refresh that did not succeed
  unfoldable pub refresh_verdict : ℕ → (String → Exec Claim) → Option Claim → Exec Claim
  refresh_verdict generation again none =
      raise (claim_conflict "Reserved Proxmox claim changed during manifest refresh")
  refresh_verdict generation again (some c) =
      when is_same_reservation t c
      then pure c
      otherwise (when not (is_state c.state reserved) || not (c.generation == generation)
          then raise (claim_conflict "Reserved Proxmox claim changed during manifest refresh")
          otherwise again c.id)

  unfoldable pub again_verdict : (Claim → Exec Claim) → Option Claim → Exec Claim
  again_verdict again none =
      raise (claim_conflict "Released Proxmox claim was reserved concurrently")
  again_verdict again (some c) =
      when is_same_reservation t c
      then pure c
      otherwise (when not (is_state c.state released)
          then raise (claim_conflict "Released Proxmox claim was reserved concurrently")
          otherwise again c)

module _ (write_guard : Exec (Unit {0})) (t : Target) where
  unfoldable pub try_insert : String → Exec (Option Claim)
  try_insert new_id = attempt (
      absorb_integrity (do
        inserted ← transact (insert_write t new_id)
        found ← query (claim_by_id new_id)
        refreshed found))

  -- one attempt to move an unused reservation to the new manifest
  unfoldable pub try_refresh : String → ℕ → Exec (Option Claim)
  try_refresh id generation = attempt (do
    write_guard
    changed ← transact λ now db.
        compare_and_set (refreshable t id generation db) (refreshed_row t generation now) db
    when changed
        then (do
          current ← query (claim_of_guest t)
          confirmed t "Refreshed Proxmox claim changed during reservation" current)
        otherwise (pure none))

  -- one attempt to reserve a released claim again
  unfoldable pub try_reserve_again : String → ℕ → Exec (Option Claim)
  try_reserve_again id generation = attempt (do
    write_guard
    changed ←
        transact
          λ now db. compare_and_set (releasable t id generation) (reserved_row t generation now) db
    when changed
        then (do
          current ← query (claim_of_guest t)
          confirmed t "Released Proxmox claim changed during reservation" current)
        otherwise (pure none))

  unfoldable pub refresh_attempts : ℕ → ℕ → String → Exec Claim
  refresh_attempts zero generation id =
      raise (claim_conflict "Reserved Proxmox claim refresh retry limit reached")
  refresh_attempts (suc left) generation id = do
    done ← try_refresh id generation
    returned
        (do
          existing ← query (claim_of_guest t)
          refresh_verdict t generation (refresh_attempts left generation) existing)
        done

  unfoldable pub again_attempts : ℕ → Claim → Exec Claim
  again_attempts zero existing =
      raise (claim_conflict "Released Proxmox claim reservation retry limit reached")
  again_attempts (suc left) existing = do
    done ← try_reserve_again existing.id existing.generation
    returned (do current ← query (claim_of_guest t); again_verdict t (again_attempts left) current)
        done

  -- the claim that is already there, after an insert that did not succeed
  unfoldable pub reserve_existing : Option Claim → Exec Claim
  reserve_existing none = raise (claim_conflict "Proxmox cluster/VMID is already claimed")
  reserve_existing (some c) = when is_same_reservation t c then pure c otherwise (do
    used ← when is_unused c then query (has_execution c.id) otherwise (pure true)
    when not used
        then refresh_attempts 3 c.generation c.id
        otherwise (when is_state c.state released
            then again_attempts 3 c
            otherwise (raise (claim_conflict "Proxmox cluster/VMID is already claimed"))))

  unfoldable pub reserve_target : String → Exec Claim
  reserve_target new_id = do
    write_guard
    inserted ← try_insert new_id
    returned (do existing ← query (claim_of_guest t); reserve_existing existing) inserted

module _ (py : Python) (write_guard : Exec (Unit {0})) where
  -- `new_id` is the text of `uuid.uuid4()`
  unfoldable pub reserve_claim : String → ReserveRequest → Exec Claim
  reserve_claim new_id r = do t ← lift (validated_target py r); reserve_target write_guard t new_id
