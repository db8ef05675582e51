-- ===== src/Registry/Adoption.antt =====
-- Two binds of one claim by `bind_claim` of adoption_registry.py.
use proxmox_cloudstack_sync.Base.{
  String, ◌≡◌, sym, ap, ◌∙◌, subst, Option, some, eq_of_some-eq, str_eq, eq_iff, find-holds,
}
use proxmox_cloudstack_sync.Outcome.{ok}
use proxmox_cloudstack_sync.Store.{Claim, Db, claim_by_id}
use proxmox_cloudstack_sync.Store.Lifecycle.{Leads, Leads-Fenced, Evolves, Evolves-trans}
use proxmox_cloudstack_sync.Session.{World, Exec}
use proxmox_cloudstack_sync.Session.Guarantee.{Keeps, IsFair}
use proxmox_cloudstack_sync.Registry.Validate.{Python, Request}
use proxmox_cloudstack_sync.Registry.Bind.{bind_claim}
use proxmox_cloudstack_sync.Registry.Bind.Guarantee.{bind_claim-Keeps}
use proxmox_cloudstack_sync.Registry.Bind.Exclusive.{bind_claim-IsBoundTo}

pub id_of_claim_by_id : (id : String) (db : Db) (c : Claim) → claim_by_id id db ≡ some c → c.id ≡ id
unfolding claim_by_id
id_of_claim_by_id id db c h = (eq_iff c.id id).0 (find-holds (λ x. str_eq x.id id) db.claims c h)

module _ (py : Python) (write_guard : Exec (Unit {0})) (guard_keeps : Keeps write_guard) where
  -- Two calls of bind that both return a claim, the second in any database that has evolved from
  -- the one that the first left, and among any other sessions, return the same CloudStack reference
  -- and instance name if the claim is the same and its generation is.
  pub bind_claim_exclusive :
      (p q p' q' : Option String) (r s : Request) (w v : World) (c d : Claim)
      → (bind_claim py p q write_guard r w).0 ≡ ok c
      → Evolves (bind_claim py p q write_guard r w).1.db v.db
      → IsFair v
      → (bind_claim py p' q' write_guard s v).0 ≡ ok d
      → c.id ≡ d.id
      → c.generation ≡ d.generation
      → (d.cloudstack_vm_ref ≡ c.cloudstack_vm_ref)
        × (d.cloudstack_instance_name ≡ c.cloudstack_instance_name)
        × (d.manifest_sha256 ≡ c.manifest_sha256)
  bind_claim_exclusive p q p' q' r s w v c d hc ev f hd id g =
      let (a, va, first) = bind_claim-IsBoundTo py p q write_guard r w c hc in
      let (b, vb, second) = bind_claim-IsBoundTo py p' q' write_guard s v d hd in
      let later = ((bind_claim-Keeps py p' q' write_guard guard_keeps s).at v f).evolves in
      let (e, he, l) = (Evolves-trans ev later).at a.id c first.stored in
      let same_id =
        sym (id_of_claim_by_id a.id _ c first.stored)
        ∙ id
        ∙ id_of_claim_by_id b.id _ d second.stored in
      let same = eq_of_some-eq (
        sym he
        ∙ ap (λ i. claim_by_id i (bind_claim py p' q' write_guard s v).1.db) same_id
        ∙ second.stored) in
      let fenced = Leads-Fenced a.vm_ref (subst (Leads c) same l) g first.ref in
      (fenced.ref, fenced.instance_name, fenced.sha)
