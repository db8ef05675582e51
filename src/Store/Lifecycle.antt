-- ===== src/Store/Lifecycle.antt =====
-- The life of a claim: the changes that a committed write may make to one row, and how a database
-- evolves by such changes.
use proxmox_cloudstack_sync.Base.{ℕ, ◌+◌, ◌≤◌, String, ◌≡◌, ◌⊎◌, none, some, arith}
use proxmox_cloudstack_sync.Store.{
  Claim, Db, claim_by_id, reserved, bound, managed, operating, retiring, released, cleanup,
}

-- The states in which a claim has an active CloudStack identity.
pub data IsLive (c : Claim) : Type 0 where
  is_bound : c.state ≡ bound → IsLive c
  is_managed : c.state ≡ managed → IsLive c
  is_operating : c.state ≡ operating → IsLive c

pub data Edge (c d : Claim) : Type 0 where
  refresh :
      (node sha json : String) (now : ℕ)
      → c.state ≡ reserved
      → c.cloudstack_vm_ref ≡ none
      → d ≡ record c {
        proxmox_node = node;
        manifest_sha256 = sha;
        manifest_json = json;
        generation = c.generation + 1;
        updated_at = now;
      }
      → Edge c d
  bind :
      (ref instance_name : String) (now : ℕ)
      → c.state ≡ reserved
      → c.cloudstack_vm_ref ≡ none
      → d ≡ record c {
        state = bound;
        cloudstack_vm_ref = some ref;
        cloudstack_instance_name = some instance_name;
        updated_at = now;
      }
      → Edge c d
  activate :
      (now : ℕ) → c.state ≡ bound → d ≡ record c { state = managed; updated_at = now } → Edge c d
  fence :
      (lease : String) (now : ℕ)
      → c.state ≡ managed
      → c.operation_lease_id ≡ none
      → d ≡ record c { state = operating; operation_lease_id = some lease; updated_at = now }
      → Edge c d
  unfence :
      (now : ℕ)
      → c.state ≡ operating
      → d ≡ record c { state = managed; operation_lease_id = none; updated_at = now }
      → Edge c d
  retire :
      (now : ℕ)
      → IsLive c
      → d ≡ record c { state = retiring; operation_lease_id = none; updated_at = now }
      → Edge c d
  finalize :
      (now : ℕ)
      → c.state ≡ retiring
      → d ≡ record c { state = released; updated_at = now }
      → Edge c d
  reserve_again :
      (node sha json : String) (now : ℕ)
      → c.state ≡ released
      → d ≡ record c {
        proxmox_node = node;
        manifest_sha256 = sha;
        manifest_json = json;
        generation = c.generation + 1;
        state = reserved;
        cloudstack_vm_ref = none;
        cloudstack_instance_name = none;
        updated_at = now;
      }
      → Edge c d
  authorize_cleanup :
      (now : ℕ) → c.state ≡ reserved → d ≡ record c { state = cleanup; updated_at = now } → Edge c d
  abandon :
      (now : ℕ)
      → (c.state ≡ reserved) ⊎ (c.state ≡ cleanup)
      → d ≡ record c { state = released; updated_at = now }
      → Edge c d

pub data Leads (c : Claim) : Claim → Type 0 where
  here : Leads c c
  next : {d e : Claim} → Leads c d → Edge d e → Leads c e

pub Leads-trans : {c d e : Claim} → Leads c d → Leads d e → Leads c e
Leads-trans p here = p
Leads-trans p (next q edge) = next (Leads-trans p q) edge

-- Claims are never deleted, and each goes on along its life.
pub record Evolves (before after : Db) : Type 0 where
  pub at :
      (id : String) (c : Claim)
      → claim_by_id id before ≡ some c
      → (d : Claim) × (claim_by_id id after ≡ some d) × Leads c d

pub Evolves-refl : (db : Db) → Evolves db db
Evolves-refl db = record { at = λ id c h. (c, h, here) }

pub Evolves-trans : {a b c : Db} → Evolves a b → Evolves b c → Evolves a c
Evolves-trans p q = record {
  at = λ id x h.
      let (y, hy, xy) = p.at id x h in let (z, hz, yz) = q.at id y hy in (z, hz, Leads-trans xy yz);
}

-- Along an edge the generation does not decrease, and the identity of the guest is kept.
pub record Follows (c d : Claim) : Type 0 where
  pub id : d.id ≡ c.id
  pub cluster : d.proxmox_cluster ≡ c.proxmox_cluster
  pub vmid : d.proxmox_vmid ≡ c.proxmox_vmid
  pub generation : c.generation ≤ d.generation

Edge-Follows : {c d : Claim} → Edge c d → Follows c d
Edge-Follows (refresh node sha json now s r e) = ground arith
Edge-Follows (bind ref name now s r e) = ground arith
Edge-Follows (activate now s e) = ground arith
Edge-Follows (fence lease now s l e) = ground arith
Edge-Follows (unfence now s e) = ground arith
Edge-Follows (retire now s e) = ground arith
Edge-Follows (finalize now s e) = ground arith
Edge-Follows (reserve_again node sha json now s e) = ground arith
Edge-Follows (authorize_cleanup now s e) = ground arith
Edge-Follows (abandon now s e) = ground arith

pub Leads-Follows : {c d : Claim} → Leads c d → Follows c d
Leads-Follows here = ground arith
Leads-Follows (next p edge) = ground (arith, Leads-Follows p, Edge-Follows edge)

-- Within a generation a claim that has a CloudStack reference keeps it, with its instance name and
-- the manifest.
pub record Fenced (c d : Claim) : Type 0 where
  pub ref : d.cloudstack_vm_ref ≡ c.cloudstack_vm_ref
  pub instance_name : d.cloudstack_instance_name ≡ c.cloudstack_instance_name
  pub node : d.proxmox_node ≡ c.proxmox_node
  pub sha : d.manifest_sha256 ≡ c.manifest_sha256
  pub json : d.manifest_json ≡ c.manifest_json

Edge-Fenced :
    {c d : Claim} (v : String)
    → Edge c d
    → c.generation ≡ d.generation
    → c.cloudstack_vm_ref ≡ some v
    → Fenced c d
Edge-Fenced v (refresh node sha json now s r e) g h = ground arith
Edge-Fenced v (bind ref name now s r e) g h = ground arith
Edge-Fenced v (activate now s e) g h = ground arith
Edge-Fenced v (fence lease now s l e) g h = ground arith
Edge-Fenced v (unfence now s e) g h = ground arith
Edge-Fenced v (retire now s e) g h = ground arith
Edge-Fenced v (finalize now s e) g h = ground arith
Edge-Fenced v (reserve_again node sha json now s e) g h = ground arith
Edge-Fenced v (authorize_cleanup now s e) g h = ground arith
Edge-Fenced v (abandon now s e) g h = ground arith

pub Leads-Fenced :
    {c d : Claim} (v : String)
    → Leads c d
    → c.generation ≡ d.generation
    → c.cloudstack_vm_ref ≡ some v
    → Fenced c d
Leads-Fenced v here g h = ground arith
Leads-Fenced {c} v (next {d} p edge) g h =
    let f = Leads-Follows p in
    let k = Edge-Follows edge in
    let same : c.generation ≡ d.generation = omega arith in
    let early = Leads-Fenced v p same h in ground (arith, early, Edge-Fenced v edge)
