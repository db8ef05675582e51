-- ===== src/Registry/Bind/Exclusive.antt =====
-- What the caller of `bind_claim` of adoption_registry.py may rely on.
use proxmox_cloudstack_sync.Base.{
  ℕ, zero, suc, String, ◌≡◌, refl, ap, ◌∙◌, true, Option, none, some, arith, eq_iff, ==_iff, ◌==◌,
  holds_text_iff,
}
use proxmox_cloudstack_sync.Outcome.{Outcome, ok, raised, claim_invalid, IsOk-at}
use proxmox_cloudstack_sync.Store.{Claim, bound, claim_by_id}
use proxmox_cloudstack_sync.Session.{World, Exec, continue, lift, guard, ◌>>=◌, ◌>>◌}
use proxmox_cloudstack_sync.Session.Returns.{
  Returns, Returns-bind, Returns-query, Returns-lift, Returns-guard, Returns-pure, Returns-raise,
  Returns-if,
}
use proxmox_cloudstack_sync.Registry.Validate.{
  Python, Request, Identity, validated_identity, same_guest, same_vm, found_claim,
}
use proxmox_cloudstack_sync.Registry.Bind.{
  is_bound_to, bind_verdict, bind_attempts, bind_checked, bind_identity, bind_claim,
}

-- The claim, as the database holds it when the call returns, is bound to the VM of the request.
pub record IsBoundTo (a : Identity) (c : Claim) (w : World) : Type 0 where
  pub stored : claim_by_id a.id w.db ≡ some c
  pub state : c.state ≡ bound
  pub generation : c.generation ≡ a.generation
  pub manifest : c.manifest_sha256 ≡ a.manifest_sha256
  pub ref : c.cloudstack_vm_ref ≡ some a.vm_ref
  pub instance_name : c.cloudstack_instance_name ≡ some a.instance_name

module _ (a : Identity) where
  is_bound_to-IsBoundTo :
      (c : Claim) (w : World)
      → claim_by_id a.id w.db ≡ some c
      → is_bound_to a c ≡ true
      → IsBoundTo a c w
  unfolding is_bound_to same_vm
  is_bound_to-IsBoundTo c w s h = ground (
    arith,
    eq_iff c.manifest_sha256 a.manifest_sha256,
    holds_text_iff c.cloudstack_vm_ref a.vm_ref,
    holds_text_iff c.cloudstack_instance_name a.instance_name,
  )

  bind_verdict-Returns :
      (again : Exec Claim)
      → ((v : World) → Returns (IsBoundTo a) again v)
      → (o : Option Claim) (w : World) → claim_by_id a.id w.db ≡ o
      → Returns (IsBoundTo a) (bind_verdict a again o) w
  unfolding bind_verdict
  bind_verdict-Returns again k none w s = Returns-raise _ _ w
  bind_verdict-Returns again k (some c) w s =
      Returns-if _ _ _ _ w (λ h. Returns-pure _ c w (is_bound_to-IsBoundTo c w s h))
        (λ _. Returns-if _ _ _ _ w (λ _. k w) (λ _. Returns-raise _ _ w))

  module _ (write_guard : Exec (Unit {0})) where
    bind_attempts-Returns :
        (left : ℕ) (w : World) → Returns (IsBoundTo a) (bind_attempts write_guard a left) w
    unfolding bind_attempts
    bind_attempts-Returns zero w = Returns-raise _ _ w
    bind_attempts-Returns (suc left) w = Returns-bind _ _ _ w λ _ v.
        Returns-query _ _ _ v
          λ u. bind_verdict-Returns _ (bind_attempts-Returns left) (claim_by_id a.id u.db) u refl

    bind_checked-Returns :
        (c : Claim) (w : World)
        → claim_by_id a.id w.db ≡ some c
        → c.generation ≡ a.generation
        → c.manifest_sha256 ≡ a.manifest_sha256
        → Returns (IsBoundTo a) (bind_checked write_guard a c) w
    unfolding bind_checked same_vm
    bind_checked-Returns c w s g m =
        Returns-if _ _ _ _ w
          (λ b.
            Returns-if _ _ _ _ w
              (λ h. Returns-pure _ c w (
                ground (
                  arith,
                  holds_text_iff c.cloudstack_vm_ref a.vm_ref,
                  holds_text_iff c.cloudstack_instance_name a.instance_name,
                )))
              (λ _. Returns-raise _ _ w))
          (λ _. Returns-if _ _ _ _ w (λ _. bind_attempts-Returns 3 w) (λ _. Returns-raise _ _ w))

module _ (py : Python) (plan_sha256 ip_overrides : Option String)
    (write_guard : Exec (Unit {0})) where
  found_same : (c d : Claim) → found_claim (some c) ≡ ok d → c ≡ d
  unfolding found_claim
  found_same c d h = cc

  same_guest_manifest :
      (a : Identity) (c : Claim) → same_guest a c ≡ true → c.manifest_sha256 ≡ a.manifest_sha256
  unfolding same_guest
  same_guest_manifest a c h = ground (arith, eq_iff c.manifest_sha256 a.manifest_sha256)

  no_claim : (c : Claim) → found_claim none ≡ ok c → ⊥
  unfolding found_claim
  no_claim c h = cc

  found-Returns :
      (a : Identity) (o : Option Claim) (w : World)
      → claim_by_id a.id w.db ≡ o
      → Returns
          (IsBoundTo a)
          (do
            c ← lift (found_claim o)
            guard (c.generation == a.generation) (claim_invalid "claim generation is stale")
            guard (same_guest a c) (claim_invalid "claim identity or manifest does not match")
            bind_checked write_guard a c)
          w
  found-Returns a none w s = Returns-lift {A = Claim} _ _ _ w (λ c h. elim (no_claim _ h) [ ])
  found-Returns a (some c) w s = Returns-lift _ _ _ w λ d h.
      let e = found_same c d h in
      Returns-guard _ _ _ _ w λ g. Returns-guard _ _ _ _ w λ m.
        bind_checked-Returns a write_guard d w (s ∙ ap some e) ((==_iff _ _).0 g)
          (same_guest_manifest a d m)

  bind_identity-Returns :
      (a : Identity) (w : World)
      → Returns (IsBoundTo a) (bind_identity py plan_sha256 ip_overrides write_guard a) w
  unfolding bind_identity
  bind_identity-Returns a w = Returns-bind _ _ _ w λ e v.
      Returns-guard _ _ _ _ v
        λ _. Returns-query _ _ _ v λ u. found-Returns a (claim_by_id a.id u.db) u refl

  -- A call that returns a claim had valid arguments, and the claim is, in the database as the call
  -- leaves it, bound to the VM and in the generation and with the manifest of the request, whatever
  -- other sessions, faults and the write guard did meanwhile.
  pub bind_claim-IsBoundTo :
      (r : Request) (w : World) (c : Claim)
      → (bind_claim py plan_sha256 ip_overrides write_guard r w).0 ≡ ok c
      → (a : Identity) × (validated_identity py r ≡ ok a)
        × IsBoundTo a c (bind_claim py plan_sha256 ip_overrides write_guard r w).1
  unfolding bind_claim ◌>>=◌
  bind_claim-IsBoundTo r w c h = lifted (validated_identity py r) refl h
    where
      lifted :
          (o : Outcome Identity)
          → o ≡ validated_identity py r
          → (continue o (bind_identity py plan_sha256 ip_overrides write_guard) w).0 ≡ ok c
          → (a : Identity) × (o ≡ ok a)
            × IsBoundTo a c (continue o (bind_identity py plan_sha256 ip_overrides write_guard) w).1
      lifted (ok a) e k = (a, refl, IsOk-at _ _ c k (bind_identity-Returns a w).at)
      lifted (raised x) e k = cc
